-- ===== src/Axon/Message.antt =====
-- axon_message_cb of src/axon.c.
pub mod Fields
pub mod Memory
pub mod Leak
pub mod Callbacks
pub mod Published
pub mod Deadlock
pub mod Loop
pub mod Every
pub mod Answer
use c_axon.Base.{
  ℕ, zero, suc, ◌+◌, ◌-◌, Bool, true, false, Option, none, some, List, [], ◌∷◌, ◌++◌, ℤ, pos,
  negsuc, int_eq, not, ◌||◌, ◌&&◌, ◌==◌, if◌then◌else◌, Bytes, length, ok, fault, out_of_fuel, pure,
  ◌>>=◌, ◌>>◌,
}
use c_axon.Sock.State.{Ptr, null, Callback, block}
use c_axon.Sock.Machine
use c_axon.Sock.Api
use c_axon.Axon.State.{
  AxonType, type_req, type_rep, type_eq, is_string, Subscription, Field, Item, item_of, Msg,
  AxonEvent, Ax, on_net, get_axon, note, free_field,
}
use c_axon.Axon.Amp.{Amp}
use c_axon.Axon.Create.{wait_subs, post_subs}
use c_axon.Axon.Send.{get_queues, put_queues, open_mq, close_mq, set_queue, queue_name}

-- What the outside answers while one message is handled: amp_create, mq_send on the queue, what the
-- message callback does, with its reply, what the callbacks of the subscriptions do, and the memory and the thread of the sender of a reply.
pub record MessageInput : Type 0 where
  pub created : Bool
  pub queue_accepts : Bool
  pub reply : Callback → Msg → Ax (Option Msg)
  pub on_topic : Subscription → Option Bytes → Msg → Ax (Unit {0})
  pub buffer : Ptr
  pub fresh : Ptr
  pub thread : Option ℕ

-- regcomp with REG_EXTENDED and regexec: none is a pattern that does not compile.
abbrev pub Regex : Type 0
Regex = Bytes → Bytes → Option Bool

abbrev pub is_match : Option Bool → Bool
is_match none = false
is_match (some b) = b

abbrev pub bytes_of : Option Bytes → Bytes
bytes_of none = []
bytes_of (some b) = b

abbrev pub is_set {ℓ} : {A : Type ℓ} → Option A → Bool
is_set none = false
is_set (some a) = true

-- The last field of `first ∷ rest`, and the fields before it.
unfoldable pub last_field : Field → List Field → Field
last_field f [] = f
last_field f (g ∷ gs) = last_field g gs

unfoldable pub before_last : Field → List Field → List Field
before_last f [] = []
before_last f (g ∷ gs) = f ∷ before_last g gs

-- amp->last is taken off the chain if it has a field before it. A single field stays where it is. The
-- count goes down in both cases.
unfoldable pub detach_last : Field → List Field → ℕ → Msg
unfolding before_last
detach_last f [] count = record { fields = f ∷ []; count = count - 1 }
detach_last f (g ∷ gs) count = record { fields = before_last f (g ∷ gs); count = count - 1 }

-- The queue of a request holds one message at most; mq_send waits where it is full, which
-- `queue_accepts` tells of.
unfoldable pub send_to_queue : Bytes → Msg → Ax Bool
unfolding open_mq close_mq
send_to_queue name m = do
  q ← get_queues
  elim (q name) [
    | none ↦ pure false
    | some waiting ↦ do
      open_mq
      put_queues (set_queue name (some (waiting ++ m ∷ [])) q)
      close_mq
      pure true
  ]

abbrev pub is_nonempty : List Subscription → Bool
is_nonempty [] = false
is_nonempty (s ∷ subs) = true

-- The buffer is left allocated where no sender takes it.
unfoldable pub send_encoded : MessageInput → ℤ → Option Bytes → Ax (Unit {0})
send_encoded i socket none = pure tt
send_encoded i socket (some bytes) = do
  on_net (Machine.put_cell i.buffer (some (block bytes)))
  sent ← on_net (Api.send i.buffer (length bytes) socket i.fresh i.thread)
  pure tt

-- The callbacks of the subscriptions whose pattern matches the topic.
unfoldable pub call_subs : MessageInput → Regex → Field → Msg → List Subscription → Ax (Unit {0})
call_subs i regex topic m [] = pure tt
call_subs i regex topic m (s ∷ subs) = do
  if not (s.fct == null) && is_match (regex s.topic (bytes_of topic.value))
      then (do note (AxonEvent.topic_called s topic.value m); i.on_topic s topic.value m)
      else pure tt
  call_subs i regex topic m subs

-- The message callback of a subscriber or a puller, if it is defined. What it returns is not used.
unfoldable pub announce : MessageInput → Msg → Ax (Unit {0})
announce i m = do
  x ← get_axon
  if x.cb.message.fct == null
      then pure tt
      else do note (AxonEvent.message_called x.cb.message m); rep ← i.reply x.cb.message m; pure tt

module _ (amp : Amp) where
  -- Requester: the message without its id goes to the queue that the id names, or is released.
  unfoldable pub handle_response : MessageInput → Field → List Field → ℕ → Ax (Unit {0})
  unfolding detach_last last_field send_to_queue queue_name free_field
  handle_response i f fs count = do
    let id = last_field f fs
    let m = detach_last f fs count
    sent ←
        (if i.queue_accepts then send_to_queue (queue_name (bytes_of id.value)) m else pure false)
    if sent then pure tt else amp.release m
    free_field id

  -- The reply goes back to the socket that the request came from, with the id at its end.
  unfoldable pub send_reply : MessageInput → Field → ℤ → Option Msg → Ax (Unit {0})
  unfolding send_encoded
  send_reply i id socket none = pure tt
  send_reply i id socket (some rep) = do
    rep' ← amp.push rep (item_of id)
    send_encoded i socket (amp.encode rep')
    amp.release rep'

  -- The message callback, if it is defined, and its reply.
  unfoldable pub call_message : MessageInput → Field → ℤ → Msg → Ax (Unit {0})
  unfolding send_reply
  call_message i id socket m = do
    x ← get_axon
    if x.cb.message.fct == null then pure tt else do
      note (AxonEvent.message_called x.cb.message m)
      rep ← i.reply x.cb.message m
      send_reply i id socket rep

  -- Replier.
  unfoldable pub handle_request : MessageInput → ℤ → Field → List Field → ℕ → Ax (Unit {0})
  unfolding detach_last last_field call_message free_field
  handle_request i socket f fs count = do
    let id = last_field f fs
    let m = detach_last f fs count
    call_message i id socket m
    amp.release m
    free_field id

  -- The subscriptions. The semaphore is held while the callbacks run.
  unfoldable pub deliver_topic : MessageInput → Regex → Field → List Field → ℕ → Ax (Unit {0})
  unfolding wait_subs post_subs free_field
  deliver_topic i regex f fs count = do
    wait_subs
    y ← get_axon
    if is_nonempty y.subs.first && is_string f.type && is_set f.value
        then (do
          call_subs i regex f (record { fields = fs; count = count - 1 }) y.subs.first
          free_field f
          post_subs
          amp.release (record { fields = fs; count = count - 1 }))
        else do post_subs; amp.release (record { fields = f ∷ fs; count = count })

  -- Subscriber and Puller.
  unfoldable pub handle_published : MessageInput → Regex → Field → List Field → ℕ → Ax (Unit {0})
  unfolding announce
  handle_published i regex f fs count = do
    announce i (record { fields = f ∷ fs; count = count })
    deliver_topic i regex f fs count

  -- The treatment by type, for a message with at least one field.
  unfoldable pub handle : Regex → MessageInput → ℤ → Field → List Field → ℕ → Ax (Unit {0})
  unfolding handle_response handle_request handle_published
  handle regex i socket f fs count = do
    x ← get_axon
    if type_eq x.type type_req
        then handle_response i f fs count
        else if type_eq x.type type_rep
        then handle_request i socket f fs count
        else handle_published i regex f fs count

  -- The check of the fields, and whether the loop goes on.
  unfoldable pub handle_msg : Regex → MessageInput → ℤ → List Field → ℕ → Ax Bool
  unfolding handle
  handle_msg regex i socket [] count = do
    amp.release (record { fields = []; count = count })
    pure false
  handle_msg regex i socket (f ∷ fs) count = do handle regex i socket f fs count; pure true

  -- while (0 < size), on fuel, with the inputs of each round.
  unfoldable pub message_cb : Regex → (ℕ → MessageInput) → ℤ → ℕ → ℕ → Bytes → Ax (Unit {0})
  unfolding handle_msg
  message_cb regex inputs socket zero round buffer = λ a. out_of_fuel
  message_cb regex inputs socket (suc fuel) round [] = pure tt
  message_cb regex inputs socket (suc fuel) round (b ∷ buffer) =
      if not (inputs round).created then pure tt else do
        decoded ← amp.decode (b ∷ buffer)
        elim decoded [
          | none ↦ pure tt
          | some (m, rest) ↦ do
            more ← handle_msg regex (inputs round) socket m.fields m.count
            if more then message_cb regex inputs socket fuel (round + 1) rest else pure tt
        ]
