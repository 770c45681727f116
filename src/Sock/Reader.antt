-- ===== src/Sock/Reader.antt =====
-- sock_thread_reader of src/sock.c. The code behind its endless loop (lines 678 to 689) is not
-- reached.
pub mod Attempt
use c_axon.Base.{
  ℕ, zero, suc, ◌+◌, ◌*◌, ◌/◌, Bool, true, false, List, [], ◌∷◌, ℤ, pos, is_neg, int_eq, ltb, ◌&&◌,
  if◌then◌else◌, pure, ◌>>=◌, ◌>>◌,
}
use c_axon.Sock.State.{Ptr, FdSet, fd_setsize, fd_zero, fd_set, fd_clr, Reader, reader, Event}
use c_axon.Sock.Machine.{Io, load_worker, set_role, at_fd, emit, clients_set, clients_clr}
use c_axon.Sock.Api.{as_reader}
use c_axon.Sock.Messenger.{Input, Received, kept, lost, receive}

-- retry = (int)(retry * 1.5), at most 5000. The product is exact in double at these sizes.
unfoldable pub backoff : ℕ → ℕ
backoff retry = let r = retry * 3 / 2 in if ltb 5000 r then 5000 else r

abbrev pub first_retry : ℕ
first_retry = 100

unfoldable pub load_reader : Ptr → Io Reader
unfolding load_worker
load_reader p = do k ← load_worker p; as_reader k.role

-- usleep(retry * 1000), with the new retry.
unfoldable pub wait_retry : ℕ → Io (ℕ × Bool)
unfolding backoff
wait_retry retry = do emit (Event.slept (backoff retry * 1000)); pure (backoff retry, false)

-- One round of the outer loop up to the inner one, with what socket and connect return: the next
-- retry, and whether the reader is connected. No path closes a socket that did not connect.
unfoldable pub reader_attempt : Ptr → ℕ → ℤ → ℤ → Io (ℕ × Bool)
unfolding load_reader set_role wait_retry at_fd clients_set
reader_attempt p retry socket connect = do
  r ← load_reader p
  set_role p (reader (record r { socket = socket }))
  if is_neg socket then wait_retry retry else if is_neg connect then wait_retry retry else do
    fds ← at_fd fd_set socket fd_zero
    set_role p (reader (record r { socket = socket; fds = fds }))
    clients_set socket
    pure (first_retry, true)

unfoldable pub drop_server : Ptr → ℕ → Io (Unit {0})
unfolding load_reader set_role clients_clr
drop_server p index = do
  r ← load_reader p
  set_role p (reader (record r { fds = fd_clr index r.fds }))
  clients_clr (pos index)
  emit (Event.closed (pos index))

abbrev pub still : Received → Bool → Bool
still kept connected = connected
still lost connected = false

-- The socket has input pending. The result is the flag `connected`.
unfoldable pub reader_ready : Ptr → ℕ → Bool → Input → Io Bool
unfolding receive drop_server
reader_ready p index connected i =
    if ltb 0 i.pending
    then (do r ← receive (pos 0) (drop_server p index) i; pure (still r connected))
    else do drop_server p index; pure false

unfoldable pub reader_index : Ptr → FdSet → ℕ → Bool → Input → Io Bool
unfolding load_reader reader_ready
reader_index p fds index connected i = do
  r ← load_reader p
  if fds index && int_eq r.socket (pos index)
      then reader_ready p index connected i
      else pure connected

unfoldable pub reader_scan : Ptr → FdSet → (ℕ → Input) → ℕ → ℕ → Bool → Io Bool
unfolding reader_index
reader_scan p fds inputs zero index connected = pure connected
reader_scan p fds inputs (suc rest) index connected = do
  still_connected ← reader_index p fds index connected (inputs index)
  reader_scan p fds inputs rest (index + 1) still_connected

-- while (true == connected): one entry for each time that select returned.
unfoldable pub reader_rounds : Ptr → List (FdSet × (ℕ → Input)) → Bool → Io Bool
unfolding reader_scan
reader_rounds p rounds false = pure false
reader_rounds p [] true = pure true
reader_rounds p ((fds, inputs) ∷ rounds) true = do
  connected ← reader_scan p fds inputs fd_setsize 0 true
  reader_rounds p rounds connected

-- One round of the outer loop: what socket and connect return, and the rounds of the inner loop.
pub record Round : Type 0 where
  pub socket : ℤ
  pub connect : ℤ
  pub inner : List (FdSet × (ℕ → Input))

-- The outer loop, as far as it has come: the retry of the next round.
unfoldable pub reader_thread : Ptr → ℕ → List Round → Io ℕ
unfolding reader_attempt reader_rounds
reader_thread p retry [] = pure retry
reader_thread p retry (r ∷ rounds) = do
  (next, connected) ← reader_attempt p retry r.socket r.connect
  reader_rounds p r.inner connected
  reader_thread p next rounds
