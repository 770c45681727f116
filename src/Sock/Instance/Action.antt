-- ===== src/Sock/Instance/Action.antt =====
-- What happens to a sock instance, and that it keeps the instance sound.
use c_axon.Base.{
  [], ℕ, ◌<◌, ◌≡◌, ◌≢◌, true, false, Option, none, some, ◌==◌, ◌||◌, ℤ, pos, is_neg, length, Bytes,
  pure, ◌>>◌, Returns, Returns-mono, and_then-Returns,
}
use c_axon.Sock.State.{
  Ptr, null, fd_setsize, Role, listenner, reader, messenger, sender, Worker, worker, block, World,
  Chain,
}
use c_axon.Sock.Machine.{Io, put_cell}
use c_axon.Sock.Api.{bind, connect, is_connected, on, register, set_callback}
use c_axon.Sock.Listenner.{Setup, listenner_thread, accept_client, drop_client}
use c_axon.Sock.Reader.{reader_attempt, drop_server}
use c_axon.Sock.Messenger.{OnMessage, Input, receive, messenger_thread}
use c_axon.Sock.Sender.{Meanwhile, SendResult, sender_thread}
use c_axon.Sock.Sender.Search.{IsPolite}
use c_axon.Sock.Sender.Deliver.{IsDestination}
use c_axon.Sock.Instance.{Layout, Sound, IsSound}
use c_axon.Sock.Instance.Kept.{callbacks-Sound}
use c_axon.Sock.Instance.Threads.{IsGentle, sender_thread-IsSound, messenger_thread-IsSound}
use c_axon.Sock.Instance.Peers.{
  accept_client-Sound, drop_client-Sound, attempt_fails-Sound, attempt_connects-Sound,
  drop_server-Sound,
}
use c_axon.Sock.Instance.Calls.{bind-IsSound, connect-IsSound}
use c_axon.Sock.Instance.Sends.{send_or_free, send-IsSound}
use c_axon.Sock.Instance.Asked.{is_connected-Sound}
use c_axon.Sock.Instance.Opening.{InSet}
use c_axon.Sock.Instance.Listening.{listenner_starts-IsSound}
use c_axon.Sock.Instance.Arrivals.{IsFresh, client_sends-IsSound, server_sends-IsSound}

-- What happens to an instance: the calls of the user, a sender or a messenger that runs, and what the
-- threads of listenners and readers do when a descriptor is ready.
pub data Action : Type 0 where
  bound : (port : ℕ) (fresh : Ptr) (thread : Option ℕ) → Action
  connected : (hostname : Bytes) (port : ℕ) (fresh copy : Ptr) (thread : Option ℕ) → Action
  registered : (topic : Bytes) (fct user : Ptr) → Action
  sent : (bytes : Bytes) (buffer : Ptr) (socket : ℤ) (fresh : Ptr) (thread : Option ℕ) → Action
  asked : (fuel : ℕ) (hostname : Bytes) (port : ℕ) → Action
  listenner_started : (p : Ptr) (s : Setup) → Action
  sender_ran : (others : Meanwhile) (result : SendResult) (p : Ptr) → Action
  messenger_ran : (on_message : OnMessage) (p : Ptr) → Action
  client_joined : (p : Ptr) (d : ℕ) → Action
  client_left : (p : Ptr) (d : ℕ) → Action
  client_wrote : (p : Ptr) (d : ℕ) (i : Input) → Action
  attempt_failed : (p : Ptr) (retry : ℕ) (socket connect : ℤ) → Action
  attempt_connected : (p : Ptr) (retry d : ℕ) (connect : ℤ) → Action
  server_left : (p : Ptr) (d : ℕ) → Action
  server_wrote : (p : Ptr) (d : ℕ) (i : Input) → Action

abbrev done {ℓ} : {A : Type ℓ} → Io A → Io (Unit {0})
done run = do run; pure tt

-- The code that runs then. The buffer of a message is allocated by the caller of
-- sock_send, who frees it where that fails.
abbrev pub run : Action → Io (Unit {0})
run (bound port fresh thread) = done (bind port fresh thread)
run (connected hostname port fresh copy thread) = done (connect hostname port fresh copy thread)
run (registered topic fct user) = done (on topic fct user)
run (sent bytes buffer socket fresh thread) = do
  put_cell buffer (some (block bytes))
  send_or_free buffer (length bytes) socket fresh thread
run (asked fuel hostname port) = done (is_connected fuel hostname port)
run (listenner_started p s) = listenner_thread p s []
run (sender_ran others result p) = sender_thread others result p
run (messenger_ran on_message p) = messenger_thread on_message p
run (client_joined p d) = accept_client p (pos d)
run (client_left p d) = drop_client p d
run (client_wrote p d i) = done (receive (pos d) (drop_client p d) i)
run (attempt_failed p retry socket connect) = done (reader_attempt p retry socket connect)
run (attempt_connected p retry d connect) = done (reader_attempt p retry (pos d) connect)
run (server_left p d) = drop_server p d
run (server_wrote p d i) = done (receive (pos 0) (drop_server p d) i)

-- At `p` lies a worker whose role `make` makes.
pub record Runs {A : Type 0} (make : A → Role) (w : World) (p : Ptr) : Type 0 where
  pub at : Worker
  pub holds : w.heap p ≡ some (worker at)
  pub body : A
  pub role : at.role ≡ make body

-- When it may happen: malloc hands out memory that is not in use, a thread runs for its own worker,
-- descriptors are below FD_SETSIZE, and other code gives back the semaphore of the clients and leaves
-- the messengers in place.
abbrev pub Allowed : Action → World → Type 0
Allowed (bound port fresh thread) w = w.heap fresh ≡ none
Allowed (connected hostname port fresh copy thread) w =
    (w.heap fresh ≡ none) × (w.heap copy ≡ none) × ((fresh == copy) ≡ false)
Allowed (registered topic fct user) w = Unit {0}
Allowed (sent bytes buffer socket fresh thread) w =
    (w.heap fresh ≡ none)
    × (w.heap buffer ≡ none)
    × (buffer ≢ null)
    × ((fresh == buffer) ≡ false)
    × IsDestination socket
Allowed (asked fuel hostname port) w = (l : Layout) → Sound l w → length (l Chain.readers) < fuel
Allowed (listenner_started p s) w = InSet s.socket × Runs listenner w p
Allowed (sender_ran others result p) w = IsPolite others × Runs sender w p
Allowed (messenger_ran on_message p) w = IsGentle on_message × Runs messenger w p
Allowed (client_joined p d) w = (d < fd_setsize) × Runs listenner w p
Allowed (client_left p d) w = (d < fd_setsize) × Runs listenner w p
Allowed (client_wrote p d i) w = (d < fd_setsize) × IsFresh i w × Runs listenner w p
Allowed (attempt_failed p retry socket connect) w =
    (is_neg socket || is_neg connect ≡ true) × Runs reader w p
Allowed (attempt_connected p retry d connect) w =
    (is_neg connect ≡ false) × (d < fd_setsize) × Runs reader w p
Allowed (server_left p d) w = (d < fd_setsize) × Runs reader w p
Allowed (server_wrote p d i) w = (d < fd_setsize) × IsFresh i w × Runs reader w p

-- The result of a call has no part in the instance.
done-IsSound {ℓ} :
    {A : Type ℓ} (go : Io A) (w : World)
    → Returns (λ _ v. IsSound v) (go w)
    → Returns (λ _ v. IsSound v) (done go w)
done-IsSound go w r = and_then-Returns (λ _ v. IsSound v) (λ _ v. IsSound v) (go w) _ r λ _ v is. is

keeps {ℓ} :
    {A : Type ℓ} (l : Layout) (go : Io A) (w : World)
    → Returns (λ _ v. Sound l v) (go w)
    → Returns (λ _ v. IsSound v) (go w)
keeps l go w r = Returns-mono (λ _ v. Sound l v) (λ _ v. IsSound v) _ r λ _ v so. (l, so)

registered-IsSound :
    (topic : Bytes) (fct user : Ptr) (w : World)
    → IsSound w
    → Returns (λ _ v. IsSound v) (on topic fct user w)
unfolding on register
registered-IsSound topic fct user w (l, so) =
    (l, callbacks-Sound l w (set_callback topic (record { fct = fct; user = user }) w.sock.cb) so)

-- A sock instance is sound when its four chains are intact with their semaphores free, and each piece
-- of memory that is allocated belongs to one worker, once. At a sound instance each of these returns,
-- without waiting for a semaphore for ever and without an access to memory that is not allocated, and
-- leaves the instance sound: sock_bind, sock_connect, sock_on, sock_is_connected with fuel for the
-- readers, sock_send with a caller that frees the buffer where it fails, a listenner up to its loop,
-- whether socket, setsockopt, bind and listen work or not, a sender and a messenger from end to end, and
-- what listenners and readers do with peers that come, go and write; where malloc hands out memory that
-- is not in use, descriptors are below FD_SETSIZE, other threads give the semaphore of the clients back,
-- and the message callback keeps the instance sound and the messengers in place.
pub run-IsSound :
    (a : Action) (w : World) → IsSound w → Allowed a w → Returns (λ _ v. IsSound v) (run a w)
unfolding put_cell
run-IsSound (bound port fresh thread) w is ok_ =
    done-IsSound (bind port fresh thread) w (bind-IsSound port fresh thread w is ok_)
run-IsSound (connected hostname port fresh copy thread) w is (f, c, apart) =
    done-IsSound (connect hostname port fresh copy thread) w
      (connect-IsSound hostname port fresh copy thread w is f c apart)
run-IsSound (registered topic fct user) w is ok_ =
    done-IsSound (on topic fct user) w (registered-IsSound topic fct user w is)
run-IsSound (sent bytes buffer socket fresh thread) w is (f, b, ne', apart, dest) =
    send-IsSound bytes buffer socket fresh thread w is f b ne' apart dest
run-IsSound (asked fuel hostname port) w (l, so) enough =
    done-IsSound (is_connected fuel hostname port) w (
      keeps l (is_connected fuel hostname port) w
        (is_connected-Sound l w so hostname port fuel (enough l so)))
run-IsSound (listenner_started p s) w is (lt, r) =
    listenner_starts-IsSound p r.at r.body s w lt is r.holds r.role
run-IsSound (sender_ran others result p) w is (polite, r) =
    sender_thread-IsSound others result p r.at r.body w polite is r.holds r.role
run-IsSound (messenger_ran on_message p) w is (gentle, r) =
    messenger_thread-IsSound on_message p r.at r.body w gentle is r.holds r.role
run-IsSound (client_joined p d) w (l, so) (lt, r) =
    keeps l (accept_client p (pos d)) w
      (accept_client-Sound p r.at r.body l w so r.holds r.role d lt)
run-IsSound (client_left p d) w (l, so) (lt, r) =
    keeps l (drop_client p d) w (drop_client-Sound p r.at r.body l w so r.holds r.role d lt)
run-IsSound (client_wrote p d i) w is (lt, fresh, r) =
    done-IsSound (receive (pos d) (drop_client p d) i) w
      (client_sends-IsSound p r.at r.body d i w is r.holds r.role lt fresh)
run-IsSound (attempt_failed p retry socket answer) w (l, so) (fails, r) =
    done-IsSound (reader_attempt p retry socket answer) w (
      keeps l (reader_attempt p retry socket answer) w
        (attempt_fails-Sound p r.at r.body l w so r.holds r.role retry socket answer fails))
run-IsSound (attempt_connected p retry d answer) w (l, so) (works, lt, r) =
    done-IsSound (reader_attempt p retry (pos d) answer) w (
      keeps l (reader_attempt p retry (pos d) answer) w
        (attempt_connects-Sound p r.at r.body l w so r.holds r.role retry d answer works lt))
run-IsSound (server_left p d) w (l, so) (lt, r) =
    keeps l (drop_server p d) w (drop_server-Sound p r.at r.body l w so r.holds r.role d lt)
run-IsSound (server_wrote p d i) w is (lt, fresh, r) =
    done-IsSound (receive (pos 0) (drop_server p d) i) w
      (server_sends-IsSound p r.at r.body d i w is r.holds r.role lt fresh)
