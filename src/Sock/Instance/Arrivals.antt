-- ===== src/Sock/Instance/Arrivals.antt =====
-- Data that arrive keep the instance sound.
use c_axon.Base.{
  ℕ, ◌<◌, ◌≡◌, ◌≢◌, refl, sym, ◌∙◌, ap, true, false, Option, none, some, List, [], ◌∷◌, ◌++◌, ◌==◌,
  ℤ, pos, int_eq, Returns, Returns-mono, Bool-cases, eq_of_==, ne_of_==, ne→==, inl, inr,
}
use c_axon.Sock.State.{
  Ptr, null, fd_setsize, fd_clr, Worker, fresh_worker, messenger, listenner, reader, Listenner,
  Reader, Chain, worker, World, Event,
}
use c_axon.Sock.Machine.{Io}
use c_axon.Sock.Machine.Steps.{clients_without}
use c_axon.Sock.Chain.Linked.{write-same, write-other}
use c_axon.Sock.Chain.Changed.{Changed}
use c_axon.Sock.Chain.Start.{started, write_worker}
use c_axon.Sock.Api.Connect.{named}
use c_axon.Sock.Listenner.{drop_client}
use c_axon.Sock.Listenner.Accept.{ignoring, drop_client_leaves}
use c_axon.Sock.Reader.{drop_server}
use c_axon.Sock.Reader.Attempt.{drop_server_leaves}
use c_axon.Sock.Messenger.{Input, kept, receive}
use c_axon.Sock.Messenger.Receive.{
  new_messenger, receive_no_worker, receive_no_buffer, receive_lost, receive_unstarted,
  receive_starts,
}
use c_axon.Sock.Release.Freed.{Held, addrs}
use c_axon.Sock.Instance.{Layout, put, Sound, IsSound}
use c_axon.Sock.Instance.Rebuild.{none≢some}
use c_axon.Sock.Instance.Find.{proper_of}
use c_axon.Sock.Instance.Kept.{clients-Sound}
use c_axon.Sock.Instance.Grow.{grow}
use c_axon.Sock.Instance.Peers.{listenner_with, reader_with}
use c_axon.Sock.Instance.Fresh.{unused_out, pair-Made}

-- The worker and the buffer that malloc hands out are not in use, and apart.
pub record IsFresh (i : Input) (w : World) : Type 0 where
  pub worker_unused : w.heap i.fresh ≡ none
  pub buffer_unused : w.heap i.fresh_buffer ≡ none
  pub apart : (i.fresh == i.fresh_buffer) ≡ false

-- What is allocated is not what malloc hands out.
used_apart :
    (w : World) (p a : Ptr) (k : Worker)
    → w.heap p ≡ some (worker k)
    → w.heap a ≡ none
    → (p == a) ≡ false
used_apart w p a k at e = ne→== p a (λ q. none≢some (worker k) (sym e ∙ ap w.heap (sym q) ∙ at))

module _ (socket : ℤ) (close : Io (Unit {0})) (i : Input) (l : Layout) (w : World) (so : Sound l w)
    (fresh : IsFresh i w) where
  abbrev messengers_of : List Ptr
  messengers_of = addrs (l Chain.messengers)

  receive_by_thread :
      (thread : Option ℕ)
      → i.thread ≡ thread
      → i.fresh ≢ null
      → i.fresh_buffer ≢ null
      → int_eq (pos i.pending) i.received ≡ true
      → Returns (λ _ v. IsSound v) (receive socket close i w)
  receive_by_thread none e ne ne' whole =
      rw
        (receive_unstarted socket close i w ne fresh.worker_unused ne' fresh.buffer_unused
          fresh.apart messengers_of 0 (so.chain Chain.messengers) (so.sem Chain.messengers)
          (unused_out Chain.messengers l w i.fresh so fresh.worker_unused)
          (unused_out Chain.messengers l w i.fresh_buffer so fresh.buffer_unused) whole e)
        (l, so)
  receive_by_thread (some t) e ne ne' whole =
      let x : Held = record { addr = i.fresh; owns = i.fresh_buffer ∷ [] } in
      let k = started (fresh_worker (messenger (new_messenger socket i))) w.self t in
      let v1 = named i.fresh_buffer i.bytes w in
      let b_apart : (i.fresh_buffer == i.fresh) ≡ false =
        ne→== i.fresh_buffer i.fresh (λ q. ne_of_== i.fresh i.fresh_buffer fresh.apart (sym q)) in
      Returns-mono
        (λ r v.
          (r ≡ kept)
          × Changed Chain.messengers (i.fresh ∷ messengers_of) (messengers_of ++ i.fresh ∷ [])
              (write_worker i.fresh k v1) v)
        (λ _ v. IsSound v) _
        (receive_starts socket close i w ne fresh.worker_unused ne' fresh.buffer_unused fresh.apart
          messengers_of 0 (so.chain Chain.messengers) (so.sem Chain.messengers)
          (unused_out Chain.messengers l w i.fresh so fresh.worker_unused)
          (unused_out Chain.messengers l w i.fresh_buffer so fresh.buffer_unused) whole t e)
        λ r v (stays, ch). (
          put Chain.messengers (l Chain.messengers ++ x ∷ []) l,
          grow Chain.messengers x l w (write_worker i.fresh k v1) v so
              (pair-Made Chain.messengers i.fresh i.fresh_buffer i.bytes k w fresh.worker_unused
                fresh.buffer_unused ne ne' fresh.apart refl refl
                (
                  i.bytes,
                  write-other v1.heap i.fresh i.fresh_buffer _ b_apart
                      ∙ write-same w.heap i.fresh_buffer _,
                ))
              ch,
        )

  -- All ways but the one where the connection is lost.
  receive-IsSound :
      (i.fresh ≢ null
        → i.fresh_buffer ≢ null
        → int_eq (pos i.pending) i.received ≡ false
        → Returns (λ _ v. IsSound v) (receive socket close i w))
      → Returns (λ _ v. IsSound v) (receive socket close i w)
  receive-IsSound short = elim (Bool-cases (i.fresh == null)) [
    | inl nothing ↦ rw (receive_no_worker socket close i w (eq_of_== i.fresh null nothing)) (l, so)
    | inr made ↦
        let ne = ne_of_== i.fresh null made in
        elim (Bool-cases (i.fresh_buffer == null)) [
          | inl no_buffer ↦
              rw
                (receive_no_buffer socket close i w ne fresh.worker_unused
                  (eq_of_== i.fresh_buffer null no_buffer))
                (l, so)
          | inr buffered ↦
              let ne' = ne_of_== i.fresh_buffer null buffered in
              elim (Bool-cases (int_eq (pos i.pending) i.received)) [
                | inl whole ↦ receive_by_thread i.thread refl ne ne' whole
                | inr less ↦ short ne ne' less
              ]
        ]
  ]

-- Data from a client below FD_SETSIZE, at unused memory: the messenger is started, or there is no
-- memory or no thread for it, or read fails and the client is dropped.
pub client_sends-IsSound :
    (p : Ptr) (k : Worker) (m : Listenner) (d : ℕ) (i : Input) (w : World)
    → IsSound w
    → w.heap p ≡ some (worker k)
    → k.role ≡ listenner m
    → d < fd_setsize
    → IsFresh i w
    → Returns (λ _ v. IsSound v) (receive (pos d) (drop_client p d) i w)
client_sends-IsSound p k m d i w (l, so) at role lt fresh =
    receive-IsSound (pos d) (drop_client p d) i l w so fresh λ ne ne' less.
      let v =
        write_worker i.fresh (fresh_worker (messenger (new_messenger (pos d) i)))
          (named i.fresh_buffer i.bytes w) in
      let pf = used_apart w p i.fresh k at fresh.worker_unused in
      let pb = used_apart w p i.fresh_buffer k at fresh.buffer_unused in
      let at_v : v.heap p ≡ some (worker k) =
        write-other (named i.fresh_buffer i.bytes w).heap i.fresh p _ pf
        ∙ write-other w.heap i.fresh_buffer p _ pb
        ∙ at in
      rw
        (receive_lost (pos d) (drop_client p d) i w ne fresh.worker_unused ne' fresh.buffer_unused
          fresh.apart p (some (worker (ignoring k m d))) (clients_without d w).sock
          (Event.closed (pos d) ∷ w.log) less pf pb
          (drop_client_leaves p k m d v (proper_of l w p (worker k) so at) at_v role 0 lt
            so.clients_sem))
        (
          l,
          clients-Sound l (write_worker p (ignoring k m d) w) (clients_without d w).sock.clients
              (Event.closed (pos d) ∷ w.log) refl
              (listenner_with p k m l w so at role (record m { fds = fd_clr d m.fds })),
        )

-- Data from the server of a reader, on a socket below FD_SETSIZE, at unused memory: the messenger is
-- started, or there is no memory or no thread for it, or read fails and the connection is dropped.
pub server_sends-IsSound :
    (p : Ptr) (k : Worker) (r : Reader) (d : ℕ) (i : Input) (w : World)
    → IsSound w
    → w.heap p ≡ some (worker k)
    → k.role ≡ reader r
    → d < fd_setsize
    → IsFresh i w
    → Returns (λ _ v. IsSound v) (receive (pos 0) (drop_server p d) i w)
server_sends-IsSound p k r d i w (l, so) at role lt fresh =
    receive-IsSound (pos 0) (drop_server p d) i l w so fresh λ ne ne' less.
      let q = record k { role = reader (record r { fds = fd_clr d r.fds }) } in
      let v =
        write_worker i.fresh (fresh_worker (messenger (new_messenger (pos 0) i)))
          (named i.fresh_buffer i.bytes w) in
      let pf = used_apart w p i.fresh k at fresh.worker_unused in
      let pb = used_apart w p i.fresh_buffer k at fresh.buffer_unused in
      let at_v : v.heap p ≡ some (worker k) =
        write-other (named i.fresh_buffer i.bytes w).heap i.fresh p _ pf
        ∙ write-other w.heap i.fresh_buffer p _ pb
        ∙ at in
      rw
        (receive_lost (pos 0) (drop_server p d) i w ne fresh.worker_unused ne' fresh.buffer_unused
          fresh.apart p (some (worker q)) (clients_without d w).sock (Event.closed (pos d) ∷ w.log)
          less pf pb
          (drop_server_leaves p k r v (proper_of l w p (worker k) so at) at_v role d 0 lt
            so.clients_sem))
        (
          l,
          clients-Sound l (write_worker p q w) (clients_without d w).sock.clients
              (Event.closed (pos d) ∷ w.log) refl
              (reader_with p k r l w so at role r.socket (fd_clr d r.fds)),
        )
