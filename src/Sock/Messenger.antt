-- ===== src/Sock/Messenger.antt =====
-- sock_thread_messenger of src/sock.c, and the messenger that the listenner and the reader start
-- when data arrive.
pub mod Cells
pub mod Receive
pub mod Thread
use c_axon.Base.{
  ℕ, Option, some, ℤ, pos, int_eq, ◌==◌, if◌then◌else◌, Bytes, ok, fault, pure, ◌>>=◌, ◌>>◌, [],
}
use c_axon.Sock.State.{
  Ptr, null, Messenger, Role, listenner, reader, messenger, sender, fresh_worker, Callback, Chain,
  worker, block,
}
use c_axon.Sock.Machine.{Io, malloc, free, load_worker, get_sock, put_cell}
use c_axon.Sock.Chain.{start_worker, remove_worker}

abbrev pub as_messenger : Role → Io Messenger
as_messenger (listenner l) w = fault
as_messenger (reader r) w = fault
as_messenger (messenger m) w = ok m w
as_messenger (sender s) w = fault

-- What the function registered as the message callback does with a buffer.
abbrev pub OnMessage : Type 0
OnMessage = Callback → (buffer : Ptr) (size : ℕ) (socket : ℤ) → Io (Unit {0})

unfoldable pub invoke_message : OnMessage → Messenger → Io (Unit {0})
invoke_message on_message m = do
  s ← get_sock
  if s.cb.message.fct == null then pure tt else on_message s.cb.message m.buffer m.size m.socket

unfoldable pub messenger_thread : OnMessage → Ptr → Io (Unit {0})
unfolding load_worker invoke_message remove_worker free
messenger_thread on_message p = do
  k ← load_worker p
  m ← as_messenger k.role
  invoke_message on_message m
  remove_worker Chain.messengers p
  free m.buffer
  free p

-- What the outside answers when a descriptor is ready: accept, FIONREAD, the two calls of malloc,
-- read with the bytes that it stores, pthread_create.
pub record Input : Type 0 where
  pub accepted : ℤ
  pub pending : ℕ
  pub fresh : Ptr
  pub fresh_buffer : Ptr
  pub bytes : Bytes
  pub received : ℤ
  pub thread : Option ℕ

-- What a step of the two reading threads comes to: the connection goes on, or it was closed.
pub data Received : Type 0 where
  kept lost : Received

-- The block that starts a messenger, the same lines in both threads but for the socket and for
-- what closes the connection when read fails: the listenner stores the socket that it read from,
-- the reader leaves the 0 of memset.
unfoldable pub receive : ℤ → Io (Unit {0}) → Input → Io Received
unfolding malloc free start_worker put_cell
receive socket close i = do
  p ← malloc i.fresh (
      worker
        (fresh_worker (messenger (record { socket = socket; buffer = null; size = i.pending }))))
  if p == null then pure kept else do
    b ← malloc i.fresh_buffer (block [])
    if b == null then (do free p; pure kept) else do
      put_cell b (some (block i.bytes))
      put_cell p (
          some (
            worker (
              fresh_worker (messenger (record { socket = socket; buffer = b; size = i.pending })))))
      if int_eq (pos i.pending) i.received
          then (do
            started ← start_worker Chain.messengers p i.thread
            if int_eq started (pos 0) then pure kept else do free b; free p; pure kept)
          else do close; free b; free p; pure lost
