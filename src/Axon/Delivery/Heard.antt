-- ===== src/Axon/Delivery/Heard.antt =====
-- What the message callback of a subscriber or a puller sees of a message that was sent.
use c_axon.Base.{
  ℕ, suc, ◌<◌, ◌≡◌, refl, sym, ◌∙◌, ap, subst, Bool, true, false, some, List, [], ◌∷◌, append_nil,
  ℤ, Bytes, length, Returns, Returns-mono, and_then-Returns, ◌==◌, has, Distinct,
}
use c_axon.Sock.State.{Ptr, null}
use c_axon.Axon.State.{
  type_req, type_rep, type_eq, Field, Item, items, Msg, Subs, Axon, AxonWorld, AxonEvent,
}
use c_axon.Axon.Amp.{Amp, IsAmp, alloc_msg}
use c_axon.Axon.Subs.Calls.{wait_subs-ok}
use c_axon.Axon.Message.{
  MessageInput, Regex, is_nonempty, announce, deliver_topic, handle_published, handle, handle_msg,
  message_cb,
}
use c_axon.Axon.Message.Callbacks.{IsTame, Called, announced, announce-Called}
use c_axon.Axon.Create.{post_subs}
use c_axon.Axon.Message.Fields.{addrs, Freed, free_all-Freed}
use c_axon.Axon.Message.Loop.{message_cb-each}
use c_axon.Axon.Delivery.{message, items-message}
use c_axon.Axon.Delivery.Given.{Given, alloc_msg-Given}

-- From `b` to `b'` the message callback was called once, with a message of these fields, whose memory
-- was given out for it and is freed again; the instance is as it was.
pub record Heard (is : List Item) (b b' : AxonWorld) : Type 0 where
  pub seen : Msg
  pub same : items seen.fields ≡ is
  pub log : b'.log ≡ AxonEvent.message_called b.axon.cb.message seen ∷ b.log
  pub freed : (p : Ptr) → has p (addrs seen.fields) ≡ true → b'.live p ≡ false
  pub others : (p : Ptr) → has p (addrs seen.fields) ≡ false → b'.live p ≡ b.live p
  pub axon : b'.axon ≡ b.axon

nil≢cons : (x : Item) (rest : List Item) → ◌≡◌ {A = List Item} [] (x ∷ rest) → ⊥
nil≢cons x rest q = cc

module _ (amp : Amp) (laws : IsAmp amp) (regex : Regex) (inputs : ℕ → MessageInput) (socket : ℤ)
    (n : ℕ) (is : List Item) (b : AxonWorld) (no_req : type_eq b.axon.type type_req ≡ false)
    (no_rep : type_eq b.axon.type type_rep ≡ false) (loud : (b.axon.cb.message.fct == null) ≡ false)
    (no_subs : is_nonempty b.axon.subs.first ≡ false) (e : b.axon.subs.sem ≡ suc n) where
  module _ (f : Field) (fs : List Field) (count : ℕ) (live : Ptr → Bool) (next : Ptr)
      (same_items : items (f ∷ fs) ≡ is) (distinct : Distinct (addrs (f ∷ fs)))
      (given : (p : Ptr) → has p (addrs (f ∷ fs)) ≡ true → live p ≡ true)
      (others : (p : Ptr) → has p (addrs (f ∷ fs)) ≡ false → live p ≡ b.live p) where
    abbrev whole : Msg
    whole = record { fields = f ∷ fs; count = count }

    abbrev taken : AxonWorld
    taken = record b { live = live; next = next }

    -- Without subscriptions, what is left is the release.
    deliver_topic-Heard :
        (i : MessageInput) (u : AxonWorld)
        → Called (announced whole taken) taken u
        → Returns (λ _ b'. Heard is b b') (deliver_topic amp i regex f fs count u)
    unfolding deliver_topic post_subs
    deliver_topic-Heard i u c =
        let subs = ap (λ (x : Axon). x.subs) c.axon in
        let same : (p : Ptr) → u.live p ≡ live p = λ p. ap (λ (g : Ptr → Bool). g p) c.live in
        let posted : AxonWorld = record u {
          axon = record u.axon { subs = record u.axon.subs { sem = suc n } };
        } in
        rw
          (
            wait_subs-ok n u (ap (λ (x : Subs). x.sem) subs ∙ e),
            ap (λ (x : Subs). is_nonempty x.first) subs ∙ no_subs,
            laws.release_lem whole posted,
          )
          (Returns-mono (λ _ b'. Freed (addrs (f ∷ fs)) posted b') (λ _ b'. Heard is b b') _
            (free_all-Freed (f ∷ fs) posted distinct (λ p h. same p ∙ given p h))
            λ _ b' r. record {
              seen = whole;
              same = same_items;
              log = ap (λ (d : AxonWorld). d.log) r.rest ∙ c.log ∙ rw loud refl;
              freed = λ p h. r.live p ∙ rw h refl;
              others = λ p h. r.live p ∙ rw h (same p ∙ others p h);
              axon =
                  ap (λ (d : AxonWorld). d.axon) r.rest
                  ∙ ap (λ (x : Axon). record x { subs = record x.subs { sem = suc n } }) c.axon
                  ∙ ap (λ k. record b.axon { subs = record b.axon.subs { sem = k } }) (sym e);
            })

    -- The message callback, and the release.
    published-Heard :
        (i : MessageInput)
        → IsTame i
        → Returns (λ _ b'. Heard is b b') (handle_published amp i regex f fs count taken)
    unfolding handle_published
    published-Heard i tame =
        and_then-Returns (λ _ u. Called (announced whole taken) taken u) (λ _ b'. Heard is b b')
          (announce i whole taken) _ (announce-Called i tame whole taken)
          λ _ u c. deliver_topic-Heard i u c

  -- In fields that were given out for it.
  handle_msg-Heard :
      (i : MessageInput) (fs : List Field) (count : ℕ) (x : Item) (rest : List Item) (c : AxonWorld)
      → is ≡ x ∷ rest
      → Given is fs b c
      → IsTame i
      → Returns
          (λ more b'. (more ≡ true) × Heard is b b')
          (handle_msg amp regex i socket fs count c)
  unfolding handle_msg handle
  handle_msg-Heard i [] count x rest c some_field g tame =
      absurd (nil≢cons x rest (g.same ∙ some_field))
  handle_msg-Heard i (f ∷ fs) count x rest c some_field g tame =
      subst
        (λ d.
          Returns (λ (more : Bool) b'. (more ≡ true) × Heard is b b')
            (handle_msg amp regex i socket (f ∷ fs) count d))
        (sym g.rest)
        (rw (no_req, no_rep)
          (and_then-Returns (λ _ b'. Heard is b b')
            (λ (more : Bool) b'. (more ≡ true) × Heard is b b')
            (handle_published amp i regex f fs count (record b { live = c.live; next = c.next })) _
            (published-Heard f fs count c.live c.next g.same g.distinct g.live g.others i tame)
            λ _ b' h. (refl, h)))

  -- The whole buffer.
  pub message_cb-Heard :
      (fuel : ℕ) (x : Item) (rest : List Item) (bytes : Bytes)
      → ((k : ℕ) → (inputs k).created ≡ true)
      → ((k : ℕ) → IsTame (inputs k))
      → 1 < fuel
      → is ≡ x ∷ rest
      → amp.encode (message is) ≡ some bytes
      → Returns (λ _ b'. Heard is b b') (message_cb amp regex inputs socket fuel 0 bytes b)
  message_cb-Heard fuel x rest bytes made tame lt some_field enc =
      rw
        (message_cb-each amp laws regex inputs socket fuel 0 (message is ∷ []) bytes b made lt
          (bytes, [], enc, sym (append_nil bytes), refl))
        (and_then-Returns (λ (m : Msg) c. Given is m.fields b c) (λ _ b'. Heard is b b')
          (alloc_msg (items (message is).fields) b) _
          (rw (items-message is) (
            Returns-mono (λ (m : Msg) c. Given is m.fields b c × (m.count ≡ length is))
              (λ (m : Msg) c. Given is m.fields b c) (alloc_msg is b) (alloc_msg-Given is b)
              λ m c g. g.0))
          λ m c g.
            and_then-Returns (λ (more : Bool) b'. (more ≡ true) × Heard is b b')
              (λ _ b'. Heard is b b') (handle_msg amp regex (inputs 0) socket m.fields m.count c) _
              (handle_msg-Heard (inputs 0) m.fields m.count x rest c some_field g (tame 0))
              λ more b' (on, h). rw on h)
