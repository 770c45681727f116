-- ===== src/Tests/Requests.antt =====
-- A requester that sends, and one that gets its response.
use c_axon.Base.{
  ◌≡◌, refl, true, false, none, some, [], ◌∷◌, ◌==◌, ◌||◌, if◌then◌else◌, pos, negsuc, arith, inr,
  Returns, codes,
}
use c_axon.Base.Text.{str_eq}
use c_axon.Axon.State.{type_req, Axon, AxonWorld}
use c_axon.Sock.State.{Sock}
use c_axon.Axon.Create.{Symbols, create}
use c_axon.Axon.Create.Attached.{Blank, Attached, create-Attached}
use c_axon.Axon.Send.{SendInput, transmit, await_response, set_queue, queue_name}
use c_axon.Axon.Send.Transmit.{Room, Unsent, transmit-Unsent}
use c_axon.Axon.Message.{detach_last, last_field, handle_response}
use c_axon.Axon.Message.Answer.{await_response-handle_response}
use c_axon.Tests.Worlds.{world}
use c_axon.Tests.Chain.{world-IsChain}
use c_axon.Tests.Codec.{codec}
use c_axon.Tests.Axon.{title, body, queues, no_reply, axon_at, wire}

-- A send of a requester: the system has no thread left, or the response comes in time.
abbrev pub no_thread : SendInput
no_thread = record {
  created = true;
  pid = 4242;
  queue_opened = true;
  buffer = 41;
  fresh = 40;
  thread = none;
  now = (100, 5);
  answered = (101, 0);
  meanwhile = λ q. q;
}

room : Room no_thread (10 ∷ 20 ∷ []) world
room = record {
  chain = world-IsChain;
  count = 0;
  sem = refl;
  proper = omega arith;
  buffer_unused = refl;
  buffer_out = refl;
  fresh_unused = refl;
  fresh_out = refl;
  apart = refl;
}

transmit-Unsent_example :
    Returns
      (λ r a'. Unsent no_thread (some (codes "/hi", 1500)) (axon_at type_req) r a')
      (transmit no_thread wire (negsuc 1) (some (codes "/hi", 1500)) (axon_at type_req))
transmit-Unsent_example =
    transmit-Unsent no_thread wire (negsuc 1) (10 ∷ 20 ∷ []) (axon_at type_req) room
      (some (codes "/hi", 1500)) (inr refl)

-- The instance once the response was put into its queue.
abbrev answered : AxonWorld
answered = record (axon_at type_req) {
  queues =
      set_queue (queue_name (codes "hi")) (some (record { fields = title ∷ []; count = 1 } ∷ []))
        queues;
  live = λ p. if p == 41 then false else (p == 40) || (p == 41);
}

abbrev in_time : SendInput
in_time = record no_thread { meanwhile = λ q. answered.queues }

await_response-handle_response_example :
    Returns
      (λ r a'.
        (r ≡ (pos 0, some (detach_last title (body ∷ []) 2)))
        × (a'.queues (queue_name (codes "hi")) ≡ none)
        × (a'.mqs ≡ 0))
      (await_response in_time (some (queue_name (codes "hi"), 1500)) (axon_at type_req))
unfolding queue_name detach_last last_field handle_response str_eq
await_response-handle_response_example =
    await_response-handle_response codec no_reply in_time title body [] 2 1500 0 (codes "hi")
      (axon_at type_req) answered refl refl refl refl refl refl refl (omega arith) (omega arith)

abbrev pub symbols : Symbols
symbols = record { bind_cb = 91; message_cb = 92; error_cb = 93 }

create-Attached_example :
    (x : Axon) × (s : Sock) × (create symbols (codes "req") 70 71 ≡ some (x, s))
    × Blank type_req x
    × Attached symbols 70 type_req s
create-Attached_example = create-Attached symbols type_req 70 71 (omega arith) (omega arith)
