-- ===== src/Sock/Sender.antt =====
-- sock_thread_sender of src/sock.c.
pub mod Pick
pub mod Broadcast
pub mod Deliver
pub mod Thread
pub mod Sent
pub mod Quiet
pub mod Search
use c_axon.Base.{
  ℕ, zero, suc, ◌+◌, ◌*◌, ◌/◌, ◌%◌, Bool, Option, none, some, ℤ, pos, negsuc, is_neg, int_eq, ltb,
  ◌==◌, ◌&&◌, not, if◌then◌else◌, Bytes, length, take, ok, fault, out_of_fuel, pure, ◌>>=◌, ◌>>◌,
}
use c_axon.Sock.State.{
  Ptr, null, FdSet, fd_setsize, fd_clr, sock_send_broadcast, sock_send_round_robin, Role, listenner,
  reader, messenger, sender, Sender, Clients, Chain, Event,
}
use c_axon.Sock.Machine.{
  Io, free, load_worker, load_block, get_clients, put_clients, wait_clients, post_clients, at_fd,
  emit,
}
use c_axon.Sock.Chain.{remove_worker}
use c_axon.Sock.Reader.{backoff, first_retry}

abbrev pub as_sender : Role → Io Sender
as_sender (listenner l) w = fault
as_sender (reader r) w = fault
as_sender (messenger m) w = fault
as_sender (sender s) w = ok s w

-- What send returns, by the socket.
abbrev pub SendResult : Type 0
SendResult = ℤ → ℤ

-- send(socket, buffer, size, MSG_NOSIGNAL), and whether it returned the size. A size beyond the
-- buffer reads outside it.
unfoldable pub send_buffer : SendResult → Sender → ℤ → Io Bool
unfolding load_block
send_buffer result s socket = do
  bytes ← load_block s.buffer
  if ltb (length bytes) s.size then (λ w. fault) else do
    emit (Event.sent socket (take s.size bytes))
    pure (int_eq (pos s.size) (result socket))

-- The client is dropped: FD_CLR, close.
unfoldable pub drop_socket : ℤ → Io (Unit {0})
unfolding at_fd
drop_socket socket = do
  c ← get_clients
  fds ← at_fd fd_clr socket c.fds
  put_clients (record c { fds = fds })
  emit (Event.closed socket)

unfoldable pub send_or_drop : SendResult → Sender → ℤ → Io (Unit {0})
unfolding send_buffer wait_clients drop_socket post_clients
send_or_drop result s socket = do
  done ← send_buffer result s socket
  if done then pure tt else do wait_clients; drop_socket socket; post_clients

-- The search for the next client socket: every set descriptor met overwrites the one before, in the
-- order index + 1, index + 2, …, index.
unfoldable pub pick : FdSet → ℕ → ℕ → ℕ → ℤ → ℤ
pick fds start zero index socket = socket
pick fds start (suc rest) index socket =
    let tmp = (index + start + 1) % fd_setsize in
    pick fds start rest (index + 1) (if fds tmp then pos tmp else socket)

-- What other threads did to the clients during the k-th call of usleep.
abbrev pub Meanwhile : Type 0
Meanwhile = ℕ → Clients → Clients

-- while (0 > socket), on fuel, with the local variables of the loop and the count of sleeps. The
-- result is the socket, or none for the jump to END.
unfoldable pub find_client : Meanwhile → ℕ → ℕ → ℕ → ℕ → Io (Option ℤ)
unfolding wait_clients post_clients backoff
find_client others zero sleeps retry loop = λ w. out_of_fuel
find_client others (suc fuel) sleeps retry loop = do
  wait_clients
  c ← get_clients
  let socket = pick c.fds c.index fd_setsize 0 (negsuc 0)
  post_clients
  if not (is_neg socket) then pure (some socket) else do
    let capped = ltb 5000 (retry * 3 / 2)
    if capped && ltb 3 (loop + 1) then pure none else do
      emit (Event.slept (backoff retry * 1000))
      c' ← get_clients
      put_clients (others sleeps c')
      find_client others fuel (sleeps + 1) (backoff retry) (if capped then loop + 1 else loop)

-- Increase Round-Robin index.
unfoldable pub advance : Io (Unit {0})
unfolding wait_clients post_clients
advance = do
  wait_clients
  c ← get_clients
  put_clients (record c { index = (c.index + 1) % fd_setsize })
  post_clients

-- The rounds that find_client takes at most.
abbrev pub search_fuel : ℕ
search_fuel = 13

unfoldable pub send_round_robin : Meanwhile → SendResult → Sender → Io (Unit {0})
send_round_robin others result s = do
  found ← find_client others search_fuel 0 first_retry 0
  elim found [ none ↦ pure tt | some socket ↦ do send_or_drop result s socket; advance ]

-- One descriptor of the broadcast.
unfoldable pub broadcast_index : SendResult → Sender → ℕ → Io (Unit {0})
unfolding send_buffer drop_socket
broadcast_index result s index = do
  c ← get_clients
  if c.fds index
      then (do
        done ← send_buffer result s (pos index)
        if done then pure tt else drop_socket (pos index))
      else pure tt

unfoldable pub broadcast_scan : SendResult → Sender → ℕ → ℕ → Io (Unit {0})
unfolding broadcast_index
broadcast_scan result s zero index = pure tt
broadcast_scan result s (suc rest) index =
    broadcast_index result s index >> broadcast_scan result s rest (index + 1)

unfoldable pub send_broadcast : SendResult → Sender → Io (Unit {0})
unfolding wait_clients post_clients
send_broadcast result s = do wait_clients; broadcast_scan result s fd_setsize 0; post_clients

-- Check wanted destination.
unfoldable pub deliver_to : Meanwhile → SendResult → Sender → ℤ → Io (Unit {0})
deliver_to others result s socket =
    if int_eq socket sock_send_round_robin
    then send_round_robin others result s
    else if int_eq socket sock_send_broadcast
    then send_broadcast result s
    else send_or_drop result s socket

unfoldable pub deliver : Meanwhile → SendResult → Sender → Io (Unit {0})
unfolding deliver_to
deliver others result s = deliver_to others result s s.socket

unfoldable pub sender_thread : Meanwhile → SendResult → Ptr → Io (Unit {0})
sender_thread others result p = do
  k ← load_worker p
  s ← as_sender k.role
  deliver others result s
  remove_worker Chain.senders p
  free s.buffer
  free p
