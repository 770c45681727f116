-- ===== src/Sock/Instance/Asked.antt =====
-- sock_is_connected at a sound instance: the readers of the layout are the peers that it walks along.
use c_axon.Base.{
  ℕ, suc, ◌<◌, ◌≡◌, refl, sym, ap, subst, true, List, [], ◌∷◌, All, arith, length, Bytes, Returns,
}
use c_axon.Sock.State.{Ptr, Role, listenner, reader, messenger, sender, Reader, Chain, Heap, World}
use c_axon.Sock.Chain.Linked.{IsChain}
use c_axon.Sock.Api.{is_connected}
use c_axon.Sock.Api.Connected.{Peer, IsReader, is_connected-among}
use c_axon.Sock.Release.{fits}
use c_axon.Sock.Release.Freed.{Held}
use c_axon.Sock.Instance.{Stores, Item, Layout, Sound}
use c_axon.Sock.Instance.Find.{proper_of}

abbrev held_addrs : List Held → List Ptr
held_addrs = c_axon.Sock.Release.Freed.addrs

abbrev peer_addrs : List Peer → List Ptr
peer_addrs = c_axon.Sock.Api.Connected.addrs

reader_of : (r : Role) → fits Chain.readers r ≡ true → (m : Reader) × (r ≡ reader m)
reader_of (listenner m) e = absurd (ground arith)
reader_of (reader m) e = (m, refl)
reader_of (messenger m) e = absurd (ground arith)
reader_of (sender m) e = absurd (ground arith)

-- The peers of a list of readers.
record PeersOf (h : Heap) (xs : List Held) : Type 0 where
  pub peers : List Peer
  pub same : peer_addrs peers ≡ held_addrs xs
  pub count : length peers ≡ length xs
  pub are : All (IsReader h) peers

module _ (l : Layout) (w : World) (so : Sound l w) where
  peer_at :
      (x : Held) → Item Chain.readers w.heap x → (p : Peer) × (p.addr ≡ x.addr) × IsReader w.heap p
  peer_at x it =
      let (m, role) = reader_of it.is_held.at.role it.is_held.fit in
      let (name, holds) = subst (Stores w.heap) role it.stores in
      (
        record { addr = x.addr; hostname = name; port = m.port },
        refl,
        record {
          at = it.is_held.at;
          read = m;
          holds = it.is_held.holds;
          role = role;
          port = refl;
          proper = proper_of l w m.hostname _ so holds;
          name = holds;
        },
      )

  peers_of : (xs : List Held) → All (Item Chain.readers w.heap) xs → PeersOf w.heap xs
  peers_of [] its = record { peers = []; same = refl; count = refl; are = tt }
  peers_of (x ∷ xs) its =
      let (p, same, is) = peer_at x its.0 in
      let rest = peers_of xs its.1 in
      record {
        peers = p ∷ rest.peers;
        same = rw (same, rest.same) refl;
        count = ap suc rest.count;
        are = (is, rest.are);
      }

  -- With fuel for its readers sock_is_connected returns, and changes nothing.
  pub is_connected-Sound :
      (hostname : Bytes) (port fuel : ℕ)
      → length (l Chain.readers) < fuel
      → Returns (λ _ v. Sound l v) (is_connected fuel hostname port w)
  is_connected-Sound hostname port fuel lt =
      let ps = peers_of (l Chain.readers) (so.items Chain.readers) in
      rw
        (is_connected-among hostname port fuel 0 ps.peers w (omega (arith, lt, ps.count))
          (subst (IsChain w.heap w.sock.readers) (sym ps.same) (so.chain Chain.readers))
          (so.sem Chain.readers) ps.are)
        so
