-- ===== src/Axon/Send.antt =====
-- axon_send, axon_vsend and axon_reply of src/axon.c.
pub mod Decimal
pub mod Params
pub mod Built
pub mod Ids
pub mod Transmit
use c_axon.Base.{
  ℕ, zero, suc, ◌+◌, ◌-◌, ◌*◌, ◌/◌, ◌%◌, ◌^◌, Bool, true, false, Option, none, some, List, [], ◌∷◌,
  ◌++◌, ℤ, pos, negsuc, int_eq, not, ltb, ◌==◌, ◌&&◌, ◌||◌, if◌then◌else◌, Bytes, str_eq, length,
  take, ok, fault, pure, ◌>>=◌, ◌>>◌,
}
use c_axon.Sock.State.{Ptr, sock_send_broadcast, sock_send_round_robin, block}
use c_axon.Sock.Machine
use c_axon.Sock.Api
use c_axon.Axon.State.{
  AxonType, type_pub, type_push, type_req, type_rep, type_eq, AmpType, blob, string, bigint, json,
  Item, Msg, empty_msg, Axon, AxonEvent, AxonWorld, Ax, on_net, get_axon, put_axon, note,
}
use c_axon.Axon.Amp.{Amp}
use Decimal.{decimal}
use Params.{Param, take_int, take_ptr, item, push_params, push_first}

-- How long a message queue is waited for: tm.tv_sec += timeout / 1000 on the time of day.
unfoldable pub deadline : ℕ × ℕ → ℕ → ℕ × ℕ
deadline (sec, nsec) timeout = (sec + timeout / 1000, nsec)

-- snprintf(str_id, 32, "%d:%u", getpid(), msg_id): at most 31 characters are stored.
unfoldable pub request_id : ℕ → ℕ → Bytes
request_id pid msg_id = take 31 (decimal pid ++ b':' ∷ decimal msg_id)

-- snprintf(str_mq, 64, "/%s", id).
unfoldable pub queue_name : Bytes → Bytes
queue_name id = take 63 (b'/' ∷ id)

-- What the outside answers during one send. `answered` is the time of day at which what the other
-- threads do to the queues, `meanwhile`, is done.
pub record SendInput : Type 0 where
  pub created : Bool
  pub pid : ℕ
  pub queue_opened : Bool
  pub buffer : Ptr
  pub fresh : Ptr
  pub thread : Option ℕ
  pub now : ℕ × ℕ
  pub answered : ℕ × ℕ
  pub meanwhile : (Bytes → Option (List Msg)) → Bytes → Option (List Msg)

abbrev pub set_queue :
    Bytes → Option (List Msg) → (Bytes → Option (List Msg)) → Bytes → Option (List Msg)
set_queue name q queues n = if str_eq n name then q else queues n

abbrev pub get_queues : Ax (Bytes → Option (List Msg))
get_queues a = ok a.queues a

abbrev pub put_queues : (Bytes → Option (List Msg)) → Ax (Unit {0})
put_queues q a = ok tt (record a { queues = q })

-- The descriptor that mq_open returns, until mq_close.
abbrev pub pred : ℕ → ℕ
pred zero = zero
pred (suc n) = n

unfoldable pub open_mq : Ax (Unit {0})
open_mq a = ok tt (record a { mqs = suc a.mqs })

unfoldable pub close_mq : Ax (Unit {0})
close_mq a = ok tt (record a { mqs = pred a.mqs })

-- mq_open with O_CREAT: a queue of that name is opened as it is.
abbrev pub opened : Option (List Msg) → List Msg
opened none = []
opened (some q) = q

abbrev pub first_of_queue : Option (List Msg) → Option Msg
first_of_queue none = none
first_of_queue (some []) = none
first_of_queue (some (m ∷ q)) = some m

module _ (amp : Amp) where
  -- axon_reply: none stands for NULL. `created` says whether amp_create returns a message.
  unfoldable pub reply : Bool → ℕ → List Param → Ax (Option Msg)
  unfolding push_params
  reply created count ps = do
    x ← get_axon
    if not (type_eq x.type type_rep) || not created
        then pure none
        else do (m, rest) ← push_params amp count ps empty_msg; pure (some m)

  -- The id goes behind the fields, and the counter up by one.
  unfoldable pub push_id : ℕ → Msg → Ax (Msg × Bytes)
  unfolding request_id
  push_id pid m = do
    x ← get_axon
    let id = request_id pid x.msg_id
    put_axon (record x { msg_id = (x.msg_id + 1) % 2 ^ 32 })
    m' ← amp.push m (item string (some id) (length id))
    pure (m', id)

-- The last arguments of a requester: where the response goes, and the timeout.
unfoldable pub take_request : List Param → Ax ℕ
take_request ps = do (resp, ps1) ← take_ptr ps; (timeout, ps2) ← take_int ps1; pure timeout

-- The name of the queue and the timeout of a request.
abbrev pub Request : Type 0
Request = Option (Bytes × ℕ)

-- mq_open, if it succeeds.
unfoldable pub open_queue : SendInput → Request → Ax Bool
unfolding open_mq
open_queue i none = pure true
open_queue i (some (name, timeout)) = if not i.queue_opened then pure false else do
  open_mq
  q ← get_queues
  put_queues (set_queue name (some (opened (q name))) q)
  pure true

-- mq_close and mq_unlink.
unfoldable pub unlink_queue : Request → Ax (Unit {0})
unfolding close_mq
unlink_queue none = pure tt
unlink_queue (some (name, timeout)) = do
  close_mq
  q ← get_queues
  put_queues (set_queue name none q)

abbrev pub earlier : ℕ × ℕ → ℕ × ℕ → Bool
earlier (s, n) (t, m) = ltb s t || (s == t && ltb n m)

-- mq_timedreceive: a message that is there is taken at once, whatever the deadline; at an empty queue
-- the call waits for what the others do, and expires at the deadline where that comes later.
unfoldable pub waited :
    SendInput → ℕ × ℕ → Option Msg → (Bytes → Option (List Msg)) → Bytes → Option (List Msg)
waited i limit (some m) q = q
waited i limit none q = if earlier i.answered limit then i.meanwhile q else q

-- The queue is waited for, closed and unlinked. The result is what axon_vsend returns, with what it
-- stores at the address of the response.
unfoldable pub await_response : SendInput → Request → Ax (ℤ × Option Msg)
unfolding deadline unlink_queue waited
await_response i none = pure (pos 0, none)
await_response i (some (name, timeout)) = do
  let limit = deadline i.now timeout
  note (AxonEvent.receive_until limit.0 limit.1)
  q ← get_queues
  let q' = waited i limit (first_of_queue (q name)) q
  put_queues q'
  unlink_queue (some (name, timeout))
  elim (first_of_queue (q' name)) [ none ↦ pure (negsuc 0, none) | some m ↦ pure (pos 0, some m) ]

-- From the encoded buffer to the end. The buffer goes to the sender that sock_send starts, and is
-- freed here where there is none.
unfoldable pub transmit : SendInput → Bytes → ℤ → Request → Ax (ℤ × Option Msg)
unfolding open_queue unlink_queue await_response
transmit i bytes destination request = do
  on_net (Machine.put_cell i.buffer (some (block bytes)))
  ready ← open_queue i request
  if not ready then (do on_net (Machine.free i.buffer); pure (negsuc 0, none)) else do
    started ← on_net (Api.send i.buffer (length bytes) destination i.fresh i.thread)
    if int_eq started (pos 0)
        then await_response i request
        else do unlink_queue request; on_net (Machine.free i.buffer); pure (negsuc 0, none)

-- The instances that send.
abbrev pub sends : AxonType → Bool
sends t = type_eq t type_pub || type_eq t type_push || type_eq t type_req

abbrev pub destination : AxonType → ℤ
destination t = if type_eq t type_pub then sock_send_broadcast else sock_send_round_robin

module _ (amp : Amp) where
  -- For a requester, what it takes from the list and adds to the message.
  unfoldable pub prepare_request : SendInput → AxonType → List Param → Msg → Ax (Msg × Request)
  unfolding take_request push_id queue_name
  prepare_request i t ps m = if not (type_eq t type_req) then pure (m, none) else do
    timeout ← take_request ps
    (m', id) ← push_id amp i.pid m
    pure (m', some (queue_name id, timeout))

  unfoldable pub vsend :
      SendInput → ℕ → Option AmpType → Option Bytes → List Param → Ax (ℤ × Option Msg)
  unfolding push_first push_params prepare_request transmit
  vsend i count type1 value1 params = do
    x ← get_axon
    if not (sends x.type) || not i.created then pure (negsuc 0, none) else do
      (m1, ps1) ← push_first amp type1 value1 params empty_msg
      (m2, ps2) ← push_params amp (count - 1) ps1 m1
      (m3, request) ← prepare_request i x.type ps2 m2
      elim (amp.encode m3) [
        | none ↦ do amp.release m3; pure (negsuc 0, none)
        | some bytes ↦ do amp.release m3; transmit i bytes (destination x.type) request
      ]
