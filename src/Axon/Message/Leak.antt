-- ===== src/Axon/Message/Leak.antt =====
-- The reply of a replier whose sock_send fails.
use c_axon.Base.{
  ◌≡◌, sym, ◌∙◌, ap, subst, true, false, none, some, List, [], ◌∷◌, ◌⊎◌, inl, inr, ◌==◌, ℤ, negsuc,
  Bytes, length, All, has, has-append, arith, Bool-cases, eq_of_==, Returns,
}
use c_axon.Sock.State.{Ptr, null, Worker, Chain, worker, block, World}
use c_axon.Sock.Machine.{put_cell}
use c_axon.Sock.Api.{send}
use c_axon.Sock.Api.Connect.{named}
use c_axon.Sock.Api.Started.{send_fails}
use c_axon.Sock.Chain.Linked.{frame-IsChain, write-other, write-same}
use c_axon.Sock.Release.Freed.{Held, addrs, memory, owned}
use c_axon.Sock.Instance.{alloc, Item, Layout, Sound, IsSound}
use c_axon.Sock.Instance.Rebuild.{none≢some}
use c_axon.Sock.Instance.Find.{Stores-block, place, tally_in}
use c_axon.Sock.Instance.Fresh.{unused_out}
use c_axon.Sock.Instance.Threads.{spot}
use c_axon.Axon.State.{AxonWorld}
use c_axon.Axon.Send.Transmit.{on_net_ok}
use c_axon.Axon.Message.{MessageInput, send_encoded}

module _ (buffer : Ptr) (bytes : Bytes) (l : Layout) (w : World) (so : Sound l w)
    (unused : w.heap buffer ≡ none) where
  abbrev extra : World
  extra = named buffer bytes w

  -- A worker that lay there before owns none of the new memory.
  not_owned :
      (q : Ptr) (k : Worker) → extra.heap q ≡ some (worker k) → has buffer (owned k.role) ≡ true → ⊥
  not_owned q k at i = elim (Bool-cases (q == buffer)) [
    | inl same ↦
        let e : extra.heap q ≡ some (block bytes) =
          ap (λ a. extra.heap a) (eq_of_== q buffer same) ∙ write-same w.heap buffer _ in
        ground (arith, at, e)
    | inr other ↦
        let before : w.heap q ≡ some (worker k) = sym (write-other w.heap buffer q _ other) ∙ at in
        let (c, pl) = place l w q k so before in
        let sp = spot c q k l w so before pl.fit in
        let (b, holds) = Stores-block w.heap k.role buffer sp.stores i in
        none≢some (block b) (sym unused ∙ holds)
  ]

  unowned :
      (c : Chain) (xs : List Held) → All (Item c extra.heap) xs → has buffer (memory xs) ≡ true → ⊥
  unowned c [] its i = ground arith
  unowned c (x ∷ xs) its i = elim (Bool-cases (has buffer x.owns)) [
    | inl mine ↦
        not_owned x.addr its.0.is_held.at its.0.is_held.holds
          (subst (λ os. has buffer os ≡ true) (sym its.0.is_held.owner) mine)
    | inr off ↦ elim (Bool-cases (buffer == x.addr)) [
      | inl here ↦
          let e : extra.heap x.addr ≡ some (block bytes) =
            ap (λ a. extra.heap a) (sym (eq_of_== buffer x.addr here))
            ∙ write-same w.heap buffer _ in
          ground (arith, e, its.0.is_held.holds)
      | inr further ↦
          unowned c xs its.1 (ground (arith, has-append buffer x.owns (x.addr ∷ memory xs)))
    ]
  ]

  -- Memory that was added belongs to no worker.
  extra_unsound : ¬ IsSound extra
  extra_unsound (m, bad) =
      let e : alloc (extra.heap buffer) ≡ 1 = ap alloc (write-same w.heap buffer _) in
      let (c, i) = tally_in buffer m (omega (arith, bad.balance buffer, e)) in
      unowned c (m c) (bad.items c) i

-- At a sound sock instance, with memory for the encoded reply and for the sender, apart and not in use:
-- where malloc or pthread_create fails for the sender, the end of a reply returns with its buffer still
-- allocated, and the instance is not sound any more: no worker owns the buffer, whatever the four
-- chains are taken to hold.
pub send_encoded_leaks :
    (i : MessageInput) (socket : ℤ) (bytes : Bytes) (a : AxonWorld)
    → IsSound a.net
    → a.net.heap i.buffer ≡ none
    → a.net.heap i.fresh ≡ none
    → (i.fresh == i.buffer) ≡ false
    → (i.fresh ≡ null) ⊎ (i.thread ≡ none)
    → Returns
        (λ _ b. (b.net.heap i.buffer ≡ some (block bytes)) × (¬ IsSound b.net))
        (send_encoded i socket (some bytes) a)
unfolding send_encoded put_cell
send_encoded_leaks i socket bytes a (l, so) unused unused' apart fails =
    let w1 = named i.buffer bytes a.net in
    let xs = addrs (l Chain.senders) in
    rw
      (on_net_ok (send i.buffer (length bytes) socket i.fresh i.thread) (record a { net = w1 })
        (negsuc 0) w1
        (send_fails i.buffer (length bytes) socket i.fresh i.thread xs 0 w1
          (frame-IsChain a.net.heap i.buffer (some (block bytes)) a.net.sock.senders xs
            (unused_out Chain.senders l a.net i.buffer so unused) (so.chain Chain.senders))
          (so.sem Chain.senders)
          (write-other a.net.heap i.buffer i.fresh (some (block bytes)) apart ∙ unused')
          (unused_out Chain.senders l a.net i.fresh so unused') fails))
      (write-same a.net.heap i.buffer _, extra_unsound i.buffer bytes l a.net so unused)
