-- ===== src/Tests/Axon.antt =====
-- Subscriptions, requests, responses and published messages at a concrete instance.
use c_axon.Base.{
  ℕ, ◌≡◌, refl, true, false, Option, none, some, List, [], ◌∷◌, ◌++◌, ◌==◌, ◌||◌, ◌⊎◌, ◌+◌, ◌*◌,
  ◌<◌, ◌≤◌, if◌then◌else◌, pos, negsuc, arith, blocked, fault, Returns, Bytes, codes, has, pure,
}
use c_axon.Sock.State.{Callback}
use c_axon.Sock.Api.{no_callback}
use c_axon.Axon.State.{
  AxonType, type_req, type_rep, type_sub, string, Field, Item, Msg, Subscription, AxonWorld,
  AxonEvent,
}
use c_axon.Axon.Create.{new_axon}
use c_axon.Axon.Subs.{subscribe, unsubscribe}
use c_axon.Axon.Subs.Lookup.{find_sub, has_topic, IsUnique}
use c_axon.Axon.Subs.Calls.{Subscribed, with_subs, find_sub-subscribe, find_sub-unsubscribe}
use c_axon.Axon.Send.{request_id, queue_name, deadline}
use c_axon.Axon.Send.Decimal.{decimal}
use c_axon.Axon.Send.Ids.{request_id-whole, queue_name-injective, deadline_early}
use c_axon.Axon.Message.{
  MessageInput, Regex, handle_request, handle_response, handle_published, detach_last, last_field,
  call_message, send_reply,
}
use c_axon.Axon.Message.Fields.{addrs, Freed}
use c_axon.Axon.Message.Memory.{handle_request_single, handle_request-Freed, handle_response_single}
use c_axon.Axon.Message.Callbacks.{calls, announced, IsTame}
use c_axon.Axon.Message.Published.{Delivered, handle_published-Delivered}
use c_axon.Base.Text.{str_eq}
use c_axon.Tests.Worlds.{world}
use c_axon.Tests.Codec.{codec, codec-IsAmp, write_value}
use c_axon.Axon.Message.Every.{every, message_cb-every}
use c_axon.Axon.Message.Deadlock.{calling, handle_published_blocked}
use c_axon.Axon.Message.{message_cb}

abbrev news : Subscription
news = record { topic = codes "news"; fct = 61; user = 0 }

abbrev pub title : Field
title = record { addr = 40; type = string; value = some (codes "news"); size = 5 }

abbrev pub body : Field
body = record { addr = 41; type = string; value = some (codes "hi"); size = 3 }

-- The message queues: a requester waits at the queue /hi.
abbrev pub queues : Bytes → Option (List Msg)
queues name = if str_eq name (codes "/hi") then some [] else none

abbrev on_message : Callback
on_message = record { fct = 63; user = 0 }

abbrev pub axon_at : AxonType → AxonWorld
axon_at t = record {
  axon = record (new_axon t) {
    subs = record { first = news ∷ []; sem = 1 };
    cb = record { bind = no_callback; message = on_message; error = no_callback };
  };
  net = world;
  live = λ p. (p == 40) || (p == 41);
  next = 50;
  queues = queues;
  mqs = 1;
  log = [];
}

abbrev pub no_reply : MessageInput
no_reply = record {
  created = true;
  queue_accepts = true;
  reply = λ c m. pure none;
  on_topic = λ s v m. pure tt;
  buffer = 71;
  fresh = 72;
  thread = some 3;
}

-- A pattern is looked for as it is written.
abbrev pub regex : Regex
regex pattern text = some (str_eq pattern text)

news-IsUnique : IsUnique (news ∷ [])
unfolding has_topic
news-IsUnique = (refl, tt)

-- Nobody waits for a response.
abbrev unasked : AxonWorld
unasked = record (axon_at type_req) { queues = λ name. none }

find_sub-subscribe_example :
    Returns
      (λ r a'.
        ((r ≡ pos 0) × Subscribed (codes "sport") 62 0 true (axon_at type_sub) a')
        ⊎ ((r ≡ negsuc 0)
            × (a' ≡ axon_at type_sub)
            × (true ≡ false)
            × (has_topic (codes "sport") (news ∷ []) ≡ false)))
      (subscribe (codes "sport") 62 0 true (axon_at type_sub))
find_sub-subscribe_example =
    find_sub-subscribe (codes "sport") 62 0 true 0 (axon_at type_sub) refl refl news-IsUnique

find_sub-unsubscribe_example :
    Returns
      (λ r a'.
        (r ≡ pos 0)
        × ((subs : List Subscription) × (a' ≡ with_subs subs (axon_at type_sub))
            × IsUnique subs
            × ((j : Bytes)
                → find_sub j subs
                  ≡ (if str_eq j (codes "news") then none else find_sub j (news ∷ [])))))
      (unsubscribe (codes "news") (axon_at type_sub))
find_sub-unsubscribe_example =
    find_sub-unsubscribe (codes "news") 0 (axon_at type_sub) refl refl news-IsUnique

request_id-whole_example : queue_name (request_id 4242 7) ≡ b'/' ∷ decimal 4242 ++ b':' ∷ decimal 7
request_id-whole_example = request_id-whole 4242 7

queue_name-injective_example : ◌≡◌ {A = ℕ} 7 7
queue_name-injective_example = queue_name-injective 4242 7 7 (omega arith) (omega arith) refl

deadline_early_example :
    (100 * 1000 + 1500 < (deadline (100, 5) 1500).0 * 1000 + 1000)
    × ((deadline (100, 5) 1500).0 * 1000 ≤ 100 * 1000 + 1500)
    × ((deadline (100, 5) 1500).1 ≡ 5)
deadline_early_example = deadline_early 100 5 1500

two_live : (p : ℕ) → has p (addrs (title ∷ body ∷ [])) ≡ true → (p == 40) || (p == 41) ≡ true
two_live p h = ground arith

-- The instance once the message callback was called, without a reply.
abbrev told : Msg → AxonWorld
told m = record (axon_at type_rep) { log = AxonEvent.message_called on_message m ∷ [] }

handle_request_single_example :
    handle_request codec no_reply (pos 9) body [] 1 (axon_at type_rep) ≡ fault
unfolding call_message detach_last send_reply
handle_request_single_example =
    handle_request_single codec codec-IsAmp no_reply (pos 9) body 1 (axon_at type_rep)
      (told (record { fields = body ∷ []; count = 0 })) refl

handle_request-Freed_example :
    Returns
      (λ _ a'.
        Freed (addrs (title ∷ body ∷ [])) (told (record { fields = title ∷ []; count = 1 })) a')
      (handle_request codec no_reply (pos 9) title (body ∷ []) 2 (axon_at type_rep))
unfolding call_message detach_last last_field send_reply
handle_request-Freed_example =
    handle_request-Freed codec codec-IsAmp no_reply (pos 9) title body [] 2 (axon_at type_rep)
      (told (record { fields = title ∷ []; count = 1 })) refl (refl, (refl, tt)) two_live

handle_response_single_example : handle_response codec no_reply body [] 1 unasked ≡ fault
handle_response_single_example =
    handle_response_single codec codec-IsAmp no_reply body 1 unasked refl

pub no_reply-IsTame : IsTame no_reply
no_reply-IsTame = record {
  reply = λ c m a. record { axon = refl; live = refl; log = refl };
  on_topic = λ s v m a. record { axon = refl; live = refl; log = refl };
}

cons≢nil : (x : Item) (xs : List Item) → ◌≡◌ {A = List Item} (x ∷ xs) [] → ⊥
cons≢nil x xs e = cc

handle_published-Delivered_example :
    Returns
      (λ _ a'.
        Delivered
          (calls regex title
            (record { fields = body ∷ []; count = 1 })
            (news ∷ [])
            (announced (record { fields = title ∷ body ∷ []; count = 2 }) (axon_at type_sub)))
          (title ∷ body ∷ [])
          (axon_at type_sub)
          a')
      (handle_published codec no_reply regex title (body ∷ []) 2 (axon_at type_sub))
handle_published-Delivered_example =
    handle_published-Delivered codec codec-IsAmp no_reply no_reply-IsTame regex title (body ∷ []) 2
      0 (axon_at type_sub) refl refl refl refl (refl, (refl, tt)) two_live

abbrev two_messages : List Msg
two_messages =
    record { fields = title ∷ []; count = 1 } ∷ record { fields = body ∷ []; count = 1 } ∷ []

abbrev pub wire : Bytes
wire = (1 ∷ 5 ∷ write_value (codes "news")) ++ (1 ∷ 3 ∷ write_value (codes "hi")) ++ []

message_cb-every_example :
    message_cb codec regex (λ k. no_reply) (pos 9) 3 0 wire (axon_at type_sub)
    ≡ every codec regex (λ k. no_reply) (pos 9) 0 two_messages (axon_at type_sub)
message_cb-every_example =
    message_cb-every codec regex (λ k. no_reply) (pos 9) 3 0 two_messages wire (axon_at type_sub)
      codec-IsAmp (λ k. refl) (omega arith)
      (
        1 ∷ 5 ∷ write_value (codes "news"),
        (1 ∷ 3 ∷ write_value (codes "hi")) ++ [],
        refl,
        refl,
        (1 ∷ 3 ∷ write_value (codes "hi"), [], refl, refl, refl),
      )
      ((λ e. cons≢nil _ _ e), ((λ e. cons≢nil _ _ e), tt))

-- The callbacks of the subscriptions subscribe, or unsubscribe.
handle_published_blocked_example :
    (handle_published codec
        (calling (subscribe (codes "sport") 62 0 true) no_reply)
        regex
        title
        (body ∷ [])
        2
        (axon_at type_sub)
      ≡ blocked)
    × (handle_published codec
          (calling (unsubscribe (codes "sport")) no_reply)
          regex
          title
          (body ∷ [])
          2
          (axon_at type_sub)
        ≡ blocked)
unfolding str_eq
handle_published_blocked_example =
    handle_published_blocked codec no_reply no_reply-IsTame regex title (body ∷ []) 2
      (axon_at type_sub) refl refl refl refl (codes "sport") 62 0 true refl
