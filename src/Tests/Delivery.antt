-- ===== src/Tests/Delivery.antt =====
-- A message from a publisher to a subscriber, and what a send and a reply do to the sock instance.
use c_axon.Base.{◌≡◌, refl, arith, some, none, [], ◌∷◌, pos, codes, length, Returns, Bytes, inr}
use c_axon.Axon.State.{string, type_pub, type_sub, AxonWorld}
use c_axon.Axon.Send.{SendInput, transmit, destination, vsend}
use c_axon.Axon.Send.Built.{Arg, string_arg, arg_item}
use c_axon.Axon.Message.{MessageInput, send_encoded, message_cb}
use c_axon.Axon.Delivery.{Released}
use c_axon.Axon.Delivery.Heard.{Heard}
use c_axon.Axon.Delivery.Whole.{vsend-message_cb}
use c_axon.Axon.Delivery.Sending.{Spare}
use c_axon.Axon.Delivery.Steps.{vsend-Reach}
use c_axon.Axon.Message.Leak.{send_encoded_leaks}
use c_axon.Sock.Instance.{IsSound}
use c_axon.Sock.State.{block}
use c_axon.Sock.Instance.Reached.{initial, Reach, start, Reach-IsSound}
use c_axon.Tests.Codec.{codec, codec-IsAmp, write_value}
use c_axon.Tests.Axon.{axon_at, no_reply, no_reply-IsTame, regex}
use c_axon.Tests.Requests.{no_thread}

abbrev greeting : Arg
greeting = string_arg (codes "hi")

-- What goes over the wire.
abbrev packet : Bytes
packet = 1 ∷ length (codes "hi") ∷ write_value (codes "hi")

-- A subscriber with a message callback only.
abbrev listener : AxonWorld
listener = record (axon_at type_sub) {
  axon = record (axon_at type_sub).axon { subs = record { first = []; sem = 1 } };
}

vsend-message_cb_example :
    ((c : AxonWorld) × Released (axon_at type_pub) c
      × (vsend codec no_thread 1 (some string) (some (codes "hi")) [] (axon_at type_pub)
          ≡ transmit no_thread packet (destination type_pub) none c))
    × Returns
        (λ _ b'. Heard (arg_item greeting ∷ []) listener b')
        (message_cb codec regex (λ k. no_reply) (pos 9) 2 0 packet listener)
vsend-message_cb_example =
    vsend-message_cb codec regex (λ k. no_reply) (pos 9) no_thread greeting [] packet 0 2
      (axon_at type_pub) listener codec-IsAmp refl refl refl refl refl refl refl refl refl
      (λ k. refl) (λ k. no_reply-IsTame) (omega arith)

-- A publisher that has not sent yet, and a thread for its first sender.
abbrev publisher : AxonWorld
publisher = record (axon_at type_pub) { net = initial 1 }

publisher_reached : Reach 1 publisher.net
publisher_reached = start

abbrev with_thread : SendInput
with_thread = record no_thread { thread = some 8 }

spare : Spare with_thread publisher.net
spare = record { proper = omega arith; buffer_unused = refl; fresh_unused = refl; apart = refl }

vsend-Reach_example :
    Returns
      (λ _ b. Reach 1 b.net)
      (vsend codec with_thread 1 (some string) (some (codes "hi")) [] publisher)
vsend-Reach_example =
    vsend-Reach codec with_thread greeting [] packet 1 publisher codec-IsAmp refl refl refl refl
      start spare

-- No thread for the sender of a reply.
abbrev threadless : MessageInput
threadless = record no_reply { thread = none }

send_encoded_leaks_example :
    Returns
      (λ _ b. (b.net.heap 71 ≡ some (block packet)) × (¬ IsSound b.net))
      (send_encoded threadless (pos 9) (some packet) publisher)
send_encoded_leaks_example =
    send_encoded_leaks threadless (pos 9) packet publisher (Reach-IsSound publisher_reached) refl
      refl refl (inr refl)
