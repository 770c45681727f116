-- ===== src/Sock/Listenner.antt =====
-- sock_thread_listenner of src/sock.c. The code behind its endless loop (lines 539 to 547) is not
-- reached.
pub mod Accept
use c_axon.Base.{
  ℕ, zero, suc, ◌+◌, Bool, true, false, List, [], ◌∷◌, ℤ, pos, is_neg, int_eq, ltb, ◌==◌,
  if◌then◌else◌, Bytes, codes, ok, fault, pure, ◌>>=◌, ◌>>◌,
}
use c_axon.Sock.State.{
  Ptr, null, FdSet, fd_setsize, fd_set, fd_clr, Listenner, Role, listenner, reader, messenger,
  sender, Chain, Event,
}
use c_axon.Sock.Machine.{
  Io, free, load_worker, set_role, get_sock, at_fd, emit, notify_error, clients_set, clients_clr,
}
use c_axon.Sock.Chain.{remove_worker}
use c_axon.Sock.Messenger.{Input, receive}

abbrev pub as_listenner : Role → Io Listenner
as_listenner (listenner l) w = ok l w
as_listenner (reader r) w = fault
as_listenner (messenger m) w = fault
as_listenner (sender s) w = fault

unfoldable pub load_listenner : Ptr → Io Listenner
unfolding load_worker
load_listenner p = do k ← load_worker p; as_listenner k.role

-- What socket, setsockopt, bind, getsockname and listen return.
pub record Setup : Type 0 where
  pub socket : ℤ
  pub setsockopt : ℤ
  pub bind : ℤ
  pub port : ℕ
  pub listen : ℤ

-- close, the report to the error callback, and the jump to END.
unfoldable pub give_up : ℤ → Bytes → Io Bool
unfolding notify_error
give_up socket message = do emit (Event.closed socket); notify_error message; pure false

unfoldable pub notify_bind : ℕ → Io (Unit {0})
notify_bind port = do
  s ← get_sock
  if s.cb.bind.fct == null then pure tt else emit (Event.bind_call s.cb.bind port)

-- Everything before the loop. false stands for the jump to END.
unfoldable pub listenner_open : Ptr → Setup → Io Bool
unfolding load_listenner set_role at_fd give_up notify_bind notify_error
listenner_open p s = do
  l ← load_listenner p
  set_role p (listenner (record l { socket = s.socket }))
  if is_neg s.socket
      then (do notify_error (codes "sock: unable to create listenner socket"); pure false)
      else do
        fds ← at_fd fd_set s.socket l.fds
        set_role p (listenner (record l { socket = s.socket; fds = fds }))
        if is_neg s.setsockopt
            then give_up s.socket (codes "sock: unable to set socket option SO_REUSEADDR")
            else if is_neg s.bind
            then give_up s.socket (codes "sock: unable to bind socket")
            else do
              notify_bind s.port
              if is_neg s.listen
                  then give_up s.socket (codes "sock: unable to listen socket")
                  else pure true

unfoldable pub listenner_end : Ptr → Io (Unit {0})
unfolding remove_worker free
listenner_end p = do remove_worker Chain.listenners p; free p

-- A client's socket is taken from both sets and closed.
unfoldable pub drop_client : Ptr → ℕ → Io (Unit {0})
unfolding load_listenner set_role clients_clr
drop_client p index = do
  l ← load_listenner p
  set_role p (listenner (record l { fds = fd_clr index l.fds }))
  clients_clr (pos index)
  emit (Event.closed (pos index))

unfoldable pub accept_client : Ptr → ℤ → Io (Unit {0})
unfolding load_listenner set_role at_fd clients_set
accept_client p c = if is_neg c then pure tt else do
  l ← load_listenner p
  fds ← at_fd fd_set c l.fds
  set_role p (listenner (record l { fds = fds }))
  clients_set c

-- One descriptor with input pending.
unfoldable pub listenner_ready : Ptr → ℕ → Input → Io (Unit {0})
unfolding load_listenner accept_client receive drop_client
listenner_ready p index i = do
  l ← load_listenner p
  if int_eq l.socket (pos index)
      then accept_client p i.accepted
      else if ltb 0 i.pending
      then (do receive (pos index) (drop_client p index) i; pure tt)
      else drop_client p index

-- for (int index = 0; index < FD_SETSIZE; index++), with the rounds left and the index. `fds` is the
-- set that select left.
unfoldable pub listenner_scan : Ptr → FdSet → (ℕ → Input) → ℕ → ℕ → Io (Unit {0})
unfolding listenner_ready
listenner_scan p fds inputs zero index = pure tt
listenner_scan p fds inputs (suc rest) index =
    (if fds index then listenner_ready p index (inputs index) else pure tt)
    >> listenner_scan p fds inputs rest (index + 1)

-- The loop: one entry for each time that select returned so far.
unfoldable pub listenner_rounds : Ptr → List (FdSet × (ℕ → Input)) → Io (Unit {0})
unfolding listenner_scan
listenner_rounds p [] = pure tt
listenner_rounds p ((fds, inputs) ∷ rounds) =
    listenner_scan p fds inputs fd_setsize 0 >> listenner_rounds p rounds

unfoldable pub listenner_thread : Ptr → Setup → List (FdSet × (ℕ → Input)) → Io (Unit {0})
unfolding listenner_open listenner_rounds listenner_end
listenner_thread p s rounds = do
  opened ← listenner_open p s
  if opened then listenner_rounds p rounds else listenner_end p
