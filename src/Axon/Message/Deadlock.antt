-- ===== src/Axon/Message/Deadlock.antt =====
-- A subscription whose callback subscribes or unsubscribes at its own instance.
use c_axon.Base.{
  ℕ, ◌-◌, ◌≡◌, ◌∙◌, ap, refl, Bool, true, false, not, ◌&&◌, ◌||◌, List, [], ◌∷◌, ℤ, Bytes, blocked,
  pure, ◌>>◌, ◌==◌, arith, Bool-cases, inl, inr, Returns-eq,
}
use c_axon.Sock.State.{Ptr, null}
use c_axon.Axon.State.{Field, Msg, Subscription, Axon, AxonWorld, AxonEvent, Ax, is_string}
use c_axon.Axon.Amp.{Amp}
use c_axon.Axon.Create.{wait_subs}
use c_axon.Axon.Subs.{subscribes, subscribe, unsubscribe}
use c_axon.Axon.Subs.Calls.{wait_subs-ok}
use c_axon.Axon.Message.{
  MessageInput, Regex, is_match, bytes_of, is_set, is_nonempty, call_subs, announce, deliver_topic,
  handle_published,
}
use c_axon.Axon.Message.Callbacks.{IsTame, Called, announced, announce-Called}

-- The callbacks of the subscriptions make this call.
abbrev pub calling : Ax ℤ → MessageInput → MessageInput
calling go i = record i { on_topic = λ s v m. (do go; pure tt) }

-- Whether one of the subscriptions has a function and a pattern that matches the topic.
abbrev pub any_match : Regex → Field → List Subscription → Bool
any_match regex f [] = false
any_match regex f (s ∷ subs) =
    (not (s.fct == null) && is_match (regex s.topic (bytes_of f.value))) || any_match regex f subs

any_match-nonempty :
    (regex : Regex) (f : Field) (subs : List Subscription)
    → any_match regex f subs ≡ true
    → is_nonempty subs ≡ true
any_match-nonempty regex f subs hit = ground (arith, hit)

-- A call that waits at every log of a world.
abbrev Waits : Ax ℤ → AxonWorld → Type 0
Waits go a = (log : List AxonEvent) → go (record a { log = log }) ≡ blocked

call_subs_blocked :
    (go : Ax ℤ) (i : MessageInput) (regex : Regex) (f : Field) (m : Msg) (subs : List Subscription)
    (a : AxonWorld)
    → Waits go a
    → any_match regex f subs ≡ true
    → call_subs (calling go i) regex f m subs a ≡ blocked
unfolding call_subs
call_subs_blocked go i regex f m [] a waits hit = absurd (ground arith)
call_subs_blocked go i regex f m (s ∷ subs) a waits hit =
    elim (Bool-cases (not (s.fct == null) && is_match (regex s.topic (bytes_of f.value)))) [
      | inl here ↦ rw (here, waits (AxonEvent.topic_called s f.value m ∷ a.log)) refl
      | inr further ↦
          rw further (call_subs_blocked go i regex f m subs a waits (ground (arith, hit, further)))
    ]

subscribe-Waits :
    (topic : Bytes) (fct user : Ptr) (allocated : Bool) (a : AxonWorld)
    → subscribes a.axon.type ≡ true
    → a.axon.subs.sem ≡ 0
    → Waits (subscribe topic fct user allocated) a
unfolding subscribe wait_subs
subscribe-Waits topic fct user allocated a t e log = rw (t, e) refl

unsubscribe-Waits :
    (topic : Bytes) (a : AxonWorld)
    → subscribes a.axon.type ≡ true
    → a.axon.subs.sem ≡ 0
    → Waits (unsubscribe topic) a
unfolding unsubscribe wait_subs
unsubscribe-Waits topic a t e log = rw (t, e) refl

module _ (amp : Amp) (i : MessageInput) (tame : IsTame i) (regex : Regex) (f : Field)
    (fs : List Field) (count : ℕ) (a : AxonWorld) (free_sem : a.axon.subs.sem ≡ 1)
    (hit : any_match regex f a.axon.subs.first ≡ true) (str : is_string f.type ≡ true)
    (set : is_set f.value ≡ true) where
  calling_blocked :
      (go : Ax ℤ)
      → ((b : AxonWorld) → b.axon.type ≡ a.axon.type → b.axon.subs.sem ≡ 0 → Waits go b)
      → handle_published amp (calling go i) regex f fs count a ≡ blocked
  unfolding handle_published deliver_topic announce
  calling_blocked go waits =
      let whole : Msg = record { fields = f ∷ fs; count = count } in
      let (t, u, run, c) =
        Returns-eq (λ _ u. Called (announced whole a) a u) (announce i whole a)
          (announce-Called i tame whole a) in
      let v : AxonWorld = record u {
        axon = record u.axon { subs = record u.axon.subs { sem = 0 } };
      } in
      let matches : any_match regex f u.axon.subs.first ≡ true =
        ap (λ (x : Axon). any_match regex f x.subs.first) c.axon ∙ hit in
      rw
        (
          run,
          wait_subs-ok 0 u (ap (λ (x : Axon). x.subs.sem) c.axon ∙ free_sem),
          any_match-nonempty regex f u.axon.subs.first matches,
          str,
          set,
          call_subs_blocked go i regex f (record { fields = fs; count = count - 1 })
              u.axon.subs.first v (waits v (ap (λ (x : Axon). x.type) c.axon) refl) matches,
        )
        refl

  -- A subscriber or a puller, with its semaphore free, takes in a message whose first field is a string
  -- that matches one of the subscriptions, and the message callback, if there is one, returns and leaves
  -- the instance, the fields and the events alone: where the callbacks of the subscriptions call axon_subscribe or axon_unsubscribe
  -- of the instance, the treatment of the message waits for its own semaphore for ever.
  pub handle_published_blocked :
      (topic : Bytes) (fct user : Ptr) (allocated : Bool)
      → subscribes a.axon.type ≡ true
      → (handle_published amp (calling (subscribe topic fct user allocated) i) regex f fs count a
          ≡ blocked)
        × (handle_published amp (calling (unsubscribe topic) i) regex f fs count a ≡ blocked)
  handle_published_blocked topic fct user allocated t = (
    calling_blocked (subscribe topic fct user allocated)
        (λ b same e. subscribe-Waits topic fct user allocated b (ap subscribes same ∙ t) e),
    calling_blocked (unsubscribe topic)
        (λ b same e. unsubscribe-Waits topic b (ap subscribes same ∙ t) e),
  )
