-- ===== src/Axon/Delivery/Whole.antt =====
-- axon_send at one end and axon_message_cb at the other.
use c_axon.Base.{
  none, ℕ, suc, ◌<◌, ◌≡◌, refl, true, false, some, List, ◌∷◌, ◌++◌, ℤ, Bytes, length, Returns, map,
  ◌==◌,
}
use c_axon.Sock.State.{null}
use c_axon.Axon.State.{type_req, type_rep, type_eq, AxonWorld}
use c_axon.Axon.Amp.{Amp, IsAmp}
use c_axon.Axon.Send.{SendInput, sends, destination, transmit, vsend}
use c_axon.Axon.Send.Built.{Arg, arg_type, arg_value, arg_item, spell_first, spell_all}
use c_axon.Axon.Message.{MessageInput, Regex, is_nonempty, message_cb}
use c_axon.Axon.Delivery.{message, Released, vsend-transmit}
use c_axon.Axon.Message.Callbacks.{IsTame}
use c_axon.Axon.Delivery.Heard.{Heard, message_cb-Heard}

-- A publisher or a pusher `a` sends fields that the library can encode, of any types and number, and
-- amp_create does not fail: axon_vsend hands their encoding to its last part, with all fields that it
-- allocated released: no field is allocated there that was not before, none that was given out before
-- is freed, and nothing else but the address of the next field has changed. A subscriber or a puller `b`
-- without subscriptions, with its semaphore free and a message callback that returns and leaves the
-- instance, the fields and the events alone, takes in those bytes: the callback is called once, with
-- exactly these fields in their order, which are freed afterwards.
pub vsend-message_cb :
    (amp : Amp) (regex : Regex) (inputs : ℕ → MessageInput) (socket : ℤ) (i : SendInput) (x : Arg)
    (xs : List Arg) (bytes : Bytes) (n fuel : ℕ) (a b : AxonWorld)
    → IsAmp amp
    → i.created ≡ true
    → sends a.axon.type ≡ true
    → type_eq a.axon.type type_req ≡ false
    → amp.encode (message (map arg_item (x ∷ xs))) ≡ some bytes
    → type_eq b.axon.type type_req ≡ false
    → type_eq b.axon.type type_rep ≡ false
    → (b.axon.cb.message.fct == null) ≡ false
    → is_nonempty b.axon.subs.first ≡ false
    → b.axon.subs.sem ≡ suc n
    → ((k : ℕ) → (inputs k).created ≡ true)
    → ((k : ℕ) → IsTame (inputs k))
    → 1 < fuel
    → ((c : AxonWorld) × Released a c
        × (vsend amp i
              (suc (length xs))
              (some (arg_type x))
              (some (arg_value x))
              (spell_first x ++ spell_all xs)
              a
            ≡ transmit i bytes (destination a.axon.type) none c))
      × Returns
          (λ _ b'. Heard (map arg_item (x ∷ xs)) b b')
          (message_cb amp regex inputs socket fuel 0 bytes b)
vsend-message_cb amp regex inputs socket i x xs bytes n fuel a b laws made sending no_req enc
      no_req' no_rep loud no_subs e created tame lt =
    (
      vsend-transmit amp laws i x xs bytes a made sending no_req enc,
      message_cb-Heard amp laws regex inputs socket n (map arg_item (x ∷ xs)) b no_req' no_rep loud
          no_subs e fuel (arg_item x) (map arg_item xs) bytes created tame lt refl enc,
    )
