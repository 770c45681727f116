-- ===== src/Sock/Release.antt =====
-- sock_release of src/sock.c.
pub mod Freed
pub mod Workers
pub mod Whole
use c_axon.Base.{
  ℕ, zero, suc, ◌+◌, Bool, pos, ◌==◌, if◌then◌else◌, fault, out_of_fuel, pure, ◌>>=◌, ◌>>◌,
}
use c_axon.Sock.State.{
  Ptr, null, FdSet, fd_setsize, Role, listenner, reader, messenger, sender, Chain, Event,
}
use c_axon.Sock.Machine.{Io, free, load_worker, get_chain, wait_chain, post_chain, emit}

-- for (int index = 0; index < FD_SETSIZE; index++), with the rounds left and the index.
unfoldable pub close_fds : ℕ → ℕ → FdSet → Io (Unit {0})
close_fds zero index fds = pure tt
close_fds (suc rest) index fds =
    (if fds index then emit (Event.closed (pos index)) else pure tt)
    >> close_fds rest (index + 1) fds

-- What becomes of the member of the union before the worker itself is freed.
unfoldable pub release_role : Role → Io (Unit {0})
unfolding close_fds free
release_role (listenner l) = close_fds fd_setsize 0 l.fds
release_role (reader r) = do close_fds fd_setsize 0 r.fds; free r.hostname
release_role (messenger m) = free m.buffer
release_role (sender s) = free s.buffer

-- Whether the workers of the chain are of the kind that the loop over it takes them for.
abbrev pub fits : Chain → Role → Bool
fits Chain.listenners (listenner l) = Bool.true
fits Chain.readers (reader r) = Bool.true
fits Chain.messengers (messenger m) = Bool.true
fits Chain.senders (sender s) = Bool.true
fits c r = Bool.false

-- The loop over one chain: each thread is cancelled and joined, and its worker is freed. The two
-- events stand for the calls; nothing is taken to follow from them, as the threads are detached.
unfoldable pub release_workers : ℕ → Chain → Ptr → Io (Unit {0})
unfolding load_worker release_role free
release_workers zero c p = λ w. out_of_fuel
release_workers (suc fuel) c p = if p == null then pure tt else do
  k ← load_worker p
  emit (Event.cancelled k.thread)
  emit (Event.joined k.thread)
  if fits c k.role then release_role k.role else λ w. fault
  free p
  release_workers fuel c k.next

unfoldable pub release_chain : ℕ → Chain → Io (Unit {0})
unfolding wait_chain release_workers post_chain
release_chain fuel c = do
  wait_chain c
  l ← get_chain c
  release_workers fuel c l.first
  post_chain c

unfoldable pub release : ℕ → Io (Unit {0})
unfolding release_chain
release fuel = do
  release_chain fuel Chain.listenners
  release_chain fuel Chain.readers
  release_chain fuel Chain.messengers
  release_chain fuel Chain.senders
  emit Event.sock_freed
