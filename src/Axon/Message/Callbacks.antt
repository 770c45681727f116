-- ===== src/Axon/Message/Callbacks.antt =====
-- The callbacks of a subscriber or a puller: which are called, in which order, and what is left after
-- callbacks that leave the instance alone.
use c_axon.Base.{
  Option, and_then-Returns, ◌≡◌, refl, ◌∙◌, ap, not, ◌&&◌, List, [], ◌∷◌, Returns, Returns-mono,
  Bool-cases, inl, inr, if◌then◌else◌, ◌==◌, Bytes,
}
use c_axon.Sock.State.{null, Callback}
use c_axon.Axon.State.{Field, Msg, Subscription, AxonWorld, AxonEvent}
use c_axon.Axon.Message.{MessageInput, announce, Regex, is_match, bytes_of, call_subs}

-- The calls that a message with this topic makes, behind those of `log`: the subscriptions in their
-- order, where a function is registered and the pattern compiles and matches.
abbrev pub calls : Regex → Field → Msg → List Subscription → List AxonEvent → List AxonEvent
calls regex topic m [] log = log
calls regex topic m (s ∷ subs) log = calls regex topic m subs (
    if not (s.fct == null) && is_match (regex s.topic (bytes_of topic.value))
    then AxonEvent.topic_called s topic.value m ∷ log
    else log)

-- The events once the message callback, if there is one, was called.
abbrev pub announced : Msg → AxonWorld → List AxonEvent
announced m a =
    if a.axon.cb.message.fct == null
    then a.log
    else AxonEvent.message_called a.axon.cb.message m ∷ a.log

-- From `a` to `b` a callback left the instance, the fields and the events alone: it may send, receive
-- and use message queues.
pub record Tame (a b : AxonWorld) : Type 0 where
  pub axon : b.axon ≡ a.axon
  pub live : b.live ≡ a.live
  pub log : b.log ≡ a.log

-- The callbacks of a subscriber return, and leave the instance, the fields and the events alone.
pub record IsTame (i : MessageInput) : Type 0 where
  pub reply : (c : Callback) (m : Msg) (a : AxonWorld) → Returns (λ _ b. Tame a b) (i.reply c m a)
  pub on_topic :
      (s : Subscription) (v : Option Bytes) (m : Msg) (a : AxonWorld)
      → Returns (λ _ b. Tame a b) (i.on_topic s v m a)

-- From `a` to `b` callbacks were called, with these events since then.
pub record Called (events : List AxonEvent) (a b : AxonWorld) : Type 0 where
  pub axon : b.axon ≡ a.axon
  pub live : b.live ≡ a.live
  pub log : b.log ≡ events

module _ (i : MessageInput) (tame : IsTame i) where
  pub call_subs-Called :
      (regex : Regex) (topic : Field) (m : Msg) (subs : List Subscription) (a : AxonWorld)
      → Returns
          (λ _ b. Called (calls regex topic m subs a.log) a b)
          (call_subs i regex topic m subs a)
  unfolding call_subs
  call_subs-Called regex topic m [] a = record { axon = refl; live = refl; log = refl }
  call_subs-Called regex topic m (s ∷ subs) a =
      elim (Bool-cases (not (s.fct == null) && is_match (regex s.topic (bytes_of topic.value)))) [
        | inl hit ↦
            let told = record a { log = AxonEvent.topic_called s topic.value m ∷ a.log } in
            rw hit (
              and_then-Returns (λ _ u. Tame told u)
                (λ _ b. Called (calls regex topic m subs told.log) a b)
                (i.on_topic s topic.value m told) _ (tame.on_topic s topic.value m told)
                λ _ u t.
                  Returns-mono (λ _ b. Called (calls regex topic m subs u.log) u b)
                    (λ _ b. Called (calls regex topic m subs told.log) a b) _
                    (call_subs-Called regex topic m subs u)
                    λ _ b c. record {
                      axon = c.axon ∙ t.axon;
                      live = c.live ∙ t.live;
                      log = c.log ∙ ap (calls regex topic m subs) t.log;
                    })
        | inr miss ↦ rw miss (call_subs-Called regex topic m subs a)
      ]

  pub announce-Called :
      (m : Msg) (a : AxonWorld) → Returns (λ _ b. Called (announced m a) a b) (announce i m a)
  unfolding announce
  announce-Called m a = elim (Bool-cases (a.axon.cb.message.fct == null)) [
    | inl silent ↦ rw silent (record { axon = refl; live = refl; log = refl })
    | inr loud ↦
        let told = record a { log = AxonEvent.message_called a.axon.cb.message m ∷ a.log } in
        rw loud (
          and_then-Returns (λ _ u. Tame told u) (λ _ b. Called told.log a b)
            (i.reply a.axon.cb.message m told) _ (tame.reply a.axon.cb.message m told)
            λ _ u t. record { axon = t.axon; live = t.live; log = t.log })
  ]
