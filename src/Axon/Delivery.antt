-- ===== src/Axon/Delivery.antt =====
-- A message on its whole way: from the arguments of axon_send to the message callback of a peer.
pub mod Given
pub mod Heard
pub mod Whole
pub mod Sending
pub mod Steps
use c_axon.Base.{
  ℕ, suc, ◌+◌, ◌-◌, ◌≤◌, ◌<◌, ◌≡◌, ◌≢◌, refl, sym, ◌∙◌, ap, subst, Bool, true, false, Option, none,
  some, List, [], ◌∷◌, ◌++◌, append_nil, arith, ℤ, Bytes, length, ok, Returns, Returns-eq,
  Returns-mono, and_then-Returns, map, ◌==◌, Bool-cases, inl, inr, if◌then◌else◌, pure, ◌>>=◌, has,
  Distinct,
}
use c_axon.Sock.State.{Ptr, null}
use c_axon.Axon.State.{
  AxonType, type_req, type_rep, type_eq, AmpType, Field, Item, items, Msg, empty_msg, AxonWorld,
  AxonEvent,
}
use c_axon.Axon.Amp.{Amp, IsAmp, free_all, alloc_all, alloc_msg}
use c_axon.Axon.Create.{wait_subs}
use c_axon.Axon.Subs.Calls.{wait_subs-ok}
use c_axon.Axon.Send.{SendInput, sends, destination, prepare_request, transmit, vsend}
use c_axon.Axon.Send.Params.{Param, push_first, push_params}
use c_axon.Axon.Send.Built.{
  Arg, arg_type, arg_value, arg_item, spell_first, spell_all, IsBuilt, Built, Built-trans,
  push_first-Built, push_params-Built,
}
use c_axon.Axon.Message.{
  MessageInput, Regex, deliver_topic, handle_published, handle, handle_msg, message_cb,
}
use c_axon.Axon.Message.Fields.{addrs, AllLive, Freed, free_all-Freed}
use c_axon.Axon.Message.Loop.{Encoded, each, message_cb-each}

-- A message with these fields, before it has memory.
abbrev field_of : Item → Field
field_of i = record { addr = 0; type = i.type; value = i.value; size = i.size }

abbrev pub message : List Item → Msg
message is = record { fields = map field_of is; count = length is }

pub items-message : (is : List Item) → items (message is).fields ≡ is
items-message [] = refl
items-message (i ∷ is) = ap (◌∷◌ i) (items-message is)

-- From `a` to `c` fields were given out and all of them released again: what is allocated was allocated
-- before, below the addresses that were given out nothing was freed, and nothing else changed.
pub record Released (a c : AxonWorld) : Type 0 where
  pub none_left : (p : Ptr) → c.live p ≡ true → a.live p ≡ true
  pub others_kept : (p : Ptr) → p < a.next → c.live p ≡ a.live p
  pub rest : c ≡ record a { live = c.live; next = c.next }

-- Only the fields that are allocated, and where the next one goes, may differ.
abbrev pub SameButFields : AxonWorld → AxonWorld → Type 0
SameButFields a b = b ≡ record a { live = b.live; next = b.next }

less_one : (n : ℕ) → suc n - 1 ≡ n
less_one n = omega arith

SameButFields-trans :
    (a b c : AxonWorld) → SameButFields a b → SameButFields b c → SameButFields a c
SameButFields-trans a b c p q =
    q ∙ ap (λ (d : AxonWorld). record d { live = c.live; next = c.next }) p

Freed-SameButFields : (ps : List Ptr) (a b : AxonWorld) → Freed ps a b → SameButFields a b
Freed-SameButFields ps a b f =
    f.rest
    ∙ ap (λ n. record a { live = b.live; next = n }) (sym (ap (λ (d : AxonWorld). d.next) f.rest))

module _ (amp : Amp) (laws : IsAmp amp) where
  -- A message that was built from nothing, and released.
  Built-Released :
      (is : List Item) (m : Msg) (a b c : AxonWorld)
      → Built empty_msg is a m b
      → Freed (addrs m.fields) b c
      → Released a c
  Built-Released is m a b c bt f = record {
    none_left = λ p alive. elim (Bool-cases (has p (addrs m.fields))) [
      | inl mine ↦ absurd (ground (arith, f.live p, mine, alive))
      | inr other ↦ sym (bt.frame p other) ∙ (sym (f.live p ∙ rw other refl) ∙ alive)
    ];
    others_kept = λ p lt. elim (Bool-cases (has p (addrs m.fields))) [
      | inl mine ↦ elim (bt.fresh p mine) [
        | inl nil ↦ absurd (ground arith)
        | inr new ↦ absurd (omega (arith, lt, new))
      ]
      | inr other ↦ f.live p ∙ rw other (bt.frame p other)
    ];
    rest = SameButFields-trans a b c bt.rest (Freed-SameButFields (addrs m.fields) b c f);
  }

  pub empty-IsBuilt : (a : AxonWorld) → IsBuilt empty_msg a
  empty-IsBuilt a = record {
    live = λ p h. absurd (ground arith);
    distinct = tt;
    below = λ p h. absurd (ground arith);
  }

  fields-Built :
      (xs : List Arg) (m : Msg) (a : AxonWorld)
      → IsBuilt m a
      → Returns
          (λ r a'. Built m (map arg_item xs) a r.0 a' × (r.1 ≡ []))
          (push_params amp (length xs) (spell_all xs) m a)
  fields-Built xs m a b =
      subst
        (λ ps.
          Returns (λ (r : Msg × List Param) a'. Built m (map arg_item xs) a r.0 a' × (r.1 ≡ []))
            (push_params amp (length xs) ps m a))
        (append_nil (spell_all xs)) (push_params-Built amp laws xs [] m a b)

  first-Built :
      (x : Arg) (xs : List Arg) (a : AxonWorld)
      → Returns
          (λ r a'. Built empty_msg (arg_item x ∷ []) a r.0 a' × (r.1 ≡ spell_all xs))
          (push_first amp
            (some (arg_type x))
            (some (arg_value x))
            (spell_first x ++ spell_all xs)
            empty_msg
            a)
  first-Built x xs a = push_first-Built amp laws x (spell_all xs) empty_msg a (empty-IsBuilt a)

  module _ (i : SendInput) (x : Arg) (xs : List Arg) (bytes : Bytes) (a : AxonWorld)
      (made : i.created ≡ true) (sending : sends a.axon.type ≡ true)
      (no_req : type_eq a.axon.type type_req ≡ false)
      (enc : amp.encode (message (map arg_item (x ∷ xs))) ≡ some bytes) where
    -- The end of the send, from `b` where the fields are released.
    abbrev Transmitted : Type 0
    Transmitted =
        (b : AxonWorld) × Released a b
        × (vsend amp i (suc (length xs)) (some (arg_type x)) (some (arg_value x))
              (spell_first x ++ spell_all xs) a
            ≡ transmit i bytes (destination a.axon.type) none b)

    vsend_released :
        (r1 r2 : Msg × List Param) (a1 a2 b : AxonWorld)
        → push_first amp
            (some (arg_type x))
            (some (arg_value x))
            (spell_first x ++ spell_all xs)
            empty_msg
            a
          ≡ ok r1 a1
        → r1.1 ≡ spell_all xs
        → push_params amp (length xs) (spell_all xs) r1.0 a1 ≡ ok r2 a2
        → free_all r2.0.fields a2 ≡ ok tt b
        → amp.encode r2.0 ≡ some bytes
        → Released a b
        → Transmitted
    unfolding vsend prepare_request
    vsend_released r1 r2 a1 a2 b run1 left1 run2 run3 same rest = (
      b,
      rest,
      rw
          (
            sending,
            made,
            run1,
            left1,
            less_one (length xs),
            run2,
            no_req,
            same,
            laws.release_lem r2.0 a2,
            run3,
          )
          refl,
    )

    vsend_pushed :
        (r1 r2 : Msg × List Param) (a1 a2 : AxonWorld)
        → push_first amp
            (some (arg_type x))
            (some (arg_value x))
            (spell_first x ++ spell_all xs)
            empty_msg
            a
          ≡ ok r1 a1
        → Built empty_msg (arg_item x ∷ []) a r1.0 a1
        → r1.1 ≡ spell_all xs
        → push_params amp (length xs) (spell_all xs) r1.0 a1 ≡ ok r2 a2
        → Built r1.0 (map arg_item xs) a1 r2.0 a2
        → Transmitted
    vsend_pushed r1 r2 a1 a2 run1 bt1 left1 run2 bt2 =
        let end =
          Returns-eq (λ _ b. Freed (addrs r2.0.fields) a2 b) (free_all r2.0.fields a2)
            (free_all-Freed r2.0.fields a2 bt2.built.distinct bt2.built.live) in
        vsend_released r1 r2 a1 a2 end.1 run1 left1 run2 end.2
          (laws.encode_items r2.0 (message (map arg_item (x ∷ xs))) (
              bt2.fields
              ∙ ap (λ zs. zs ++ map arg_item xs) bt1.fields
              ∙ sym (items-message (map arg_item (x ∷ xs))))
            ∙ enc)
          (Built-Released _ r2.0 a a2 end.1 (Built-trans empty_msg r1.0 r2.0 _ _ a a1 a2 bt1 bt2)
            end.3)

    -- axon_vsend of a publisher or a pusher, of fields that the library can encode: the fields are
    -- released, and what is sent is the encoding of the fields in their order.
    pub vsend-transmit : Transmitted
    vsend-transmit =
        let first =
          Returns-eq
            (λ (r : Msg × List Param) a'.
              Built empty_msg (arg_item x ∷ []) a r.0 a' × (r.1 ≡ spell_all xs))
            _ (first-Built x xs a) in
        let rest =
          Returns-eq
            (λ (r : Msg × List Param) a'.
              Built first.0.0 (map arg_item xs) first.1 r.0 a' × (r.1 ≡ []))
            _ (fields-Built xs first.0.0 first.1 first.3.0.built) in
        vsend_pushed first.0 rest.0 first.1 rest.1 first.2 first.3.0 first.3.1 rest.2 rest.3.0
