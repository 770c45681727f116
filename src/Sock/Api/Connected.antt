-- ===== src/Sock/Api/Connected.antt =====
-- The answer of sock_is_connected.
use c_axon.Base.{
  ℕ, zero, suc, ◌<◌, ◌≡◌, ◌≢◌, sym, ◌∙◌, ap, refl, Bool, false, ◌&&◌, ◌||◌, some, List, [], ◌∷◌,
  arith, Bytes, str_eq, ◌==◌, length, ok, Bool-cases, inl, inr, All,
}
use c_axon.Sock.State.{Ptr, null, Worker, Reader, Heap, World, Chain, reader, worker, block}
use c_axon.Sock.Machine.Steps.{load_worker-ok, load_block-ok, wait_chain-ok, not_null}
use c_axon.Sock.Chain.Linked.{Linked, IsChain, head_or}
use c_axon.Sock.Api.{find_reader, is_connected}

-- A reader, as the caller of sock_connect knows it, and where its worker lies.
pub record Peer : Type 0 where
  pub addr : Ptr
  pub hostname : Bytes
  pub port : ℕ

abbrev pub addrs : List Peer → List Ptr
addrs [] = []
addrs (x ∷ xs) = x.addr ∷ addrs xs

-- In the memory `h` the worker of the peer is a reader with this host name and port.
pub record IsReader (h : Heap) (x : Peer) : Type 0 where
  pub at : Worker
  pub read : Reader
  pub holds : h x.addr ≡ some (worker at)
  pub role : at.role ≡ reader read
  pub port : read.port ≡ x.port
  pub proper : read.hostname ≢ null
  pub name : h read.hostname ≡ some (block x.hostname)

-- Whether one of the peers has this host name and port.
abbrev pub among : Bytes → ℕ → List Peer → Bool
among hostname port [] = false
among hostname port (x ∷ xs) =
    (str_eq hostname x.hostname && port == x.port) || among hostname port xs

module _ (hostname : Bytes) (port : ℕ) (w : World) where
  find_reader-among :
      (fuel : ℕ) (p : Ptr) (xs : List Peer)
      → length xs < fuel
      → Linked w.heap p (addrs xs) null
      → All (λ x. x ≢ null) (addrs xs)
      → All (IsReader w.heap) xs
      → find_reader hostname port fuel (head_or (addrs xs) null) w ≡ ok (among hostname port xs) w
  unfolding find_reader
  find_reader-among zero p xs lt l ne r = absurd (omega arith)
  find_reader-among (suc fuel) p [] lt l ne r = refl
  find_reader-among (suc fuel) p (x ∷ xs) lt l ne r =
      let k = r.0.at in
      let same : l.0.at ≡ k = cc in
      let after : k.next ≡ head_or (addrs xs) null =
        ap (λ (j : Worker). j.next) (sym same) ∙ l.0.after in
      rw
        (
          not_null x.addr ne.0,
          load_worker-ok x.addr k w ne.0 r.0.holds,
          r.0.role,
          load_block-ok r.0.read.hostname x.hostname w r.0.proper r.0.name,
          r.0.port,
        )
        (elim (Bool-cases (str_eq hostname x.hostname && port == x.port)) [
          | inl hit ↦ rw hit refl
          | inr miss ↦
              rw (miss, after) (find_reader-among fuel x.addr xs (omega arith) l.1 ne.1 r.1)
        ])

-- Where the chain of readers is intact and its semaphore free, and fuel is more than the readers,
-- sock_is_connected tells whether one of them was started with this host name and port, connected
-- or not, and changes nothing.
pub is_connected-among :
    (hostname : Bytes) (port fuel n : ℕ) (xs : List Peer) (w : World)
    → length xs < fuel
    → IsChain w.heap w.sock.readers (addrs xs)
    → w.sock.readers.sem ≡ suc n
    → All (IsReader w.heap) xs
    → is_connected fuel hostname port w ≡ ok (among hostname port xs) w
unfolding is_connected
is_connected-among hostname port fuel n xs w lt is e r =
    let w1 = record w { sock = record w.sock { readers = record w.sock.readers { sem = n } } } in
    let found : find_reader hostname port fuel w.sock.readers.first w1
        ≡ ok (among hostname port xs) w1 =
      ap (λ p. find_reader hostname port fuel p w1) is.first
      ∙ find_reader-among hostname port w1 fuel null xs lt is.linked is.proper r in
    rw (wait_chain-ok Chain.readers n w e, found) (rw (← e) refl)
