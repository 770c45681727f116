-- ===== src/Axon/Message/Published.antt =====
-- What a subscriber does with a message.
use c_axon.Base.{
  and_then-Returns, ◌>>◌, ℕ, suc, ◌-◌, ◌≡◌, sym, ◌∙◌, ap, Bool, true, false, List, [], ◌∷◌, arith,
  Returns, Returns-mono, Distinct, has, has-head, has-right, ne→==, ne_of_==, if◌then◌else◌, ◌==◌,
}
use c_axon.Sock.State.{Ptr}
use c_axon.Sock.Chain.Linked.{has-ne}
use c_axon.Axon.State.{Field, Msg, Subs, Axon, AxonWorld, AxonEvent, is_string, free_field}
use c_axon.Axon.Amp.{Amp, IsAmp}
use c_axon.Axon.Subs.Calls.{wait_subs-ok}
use c_axon.Axon.Create.{post_subs}
use c_axon.Axon.Message.{
  MessageInput, announce, Regex, is_set, is_nonempty, call_subs, deliver_topic, handle_published,
}
use c_axon.Axon.Message.Fields.{addrs, AllLive, Freed, free_all-Freed}
use c_axon.Axon.Message.Callbacks.{
  calls, announced, IsTame, Called, call_subs-Called, announce-Called,
}

-- What a message with a topic comes to: these events, and each of its fields freed.
abbrev pub Delivered : List AxonEvent → List Field → AxonWorld → AxonWorld → Type 0
Delivered log fs a a' =
    (a'.log ≡ log)
    × (a'.axon ≡ a.axon)
    × ((p : Ptr) → a'.live p ≡ (if has p (addrs fs) then false else a.live p))

module _ (amp : Amp) (laws : IsAmp amp) (i : MessageInput) (tame : IsTame i) (regex : Regex) where
  -- The topic, the semaphore and the other fields, once the callbacks were called.
  after_calls :
      (f : Field) (fs : List Field) (count n : ℕ) (log : List AxonEvent) (a u : AxonWorld)
      → a.axon.subs.sem ≡ suc n
      → Distinct (addrs (f ∷ fs))
      → AllLive (f ∷ fs) a
      → Called log (record a { axon = record a.axon { subs = record a.axon.subs { sem = n } } }) u
      → Returns
          (λ _ a'. Delivered log (f ∷ fs) a a')
          ((free_field f >> (post_subs >> amp.release (record { fields = fs; count = count - 1 })))
            u)
  unfolding free_field post_subs
  after_calls f fs count n log a u e d l c =
      let m : Msg = record { fields = fs; count = count - 1 } in
      let a3 : AxonWorld = record u {
        axon = record u.axon { subs = record u.axon.subs { sem = suc u.axon.subs.sem } };
        live = λ p. if p == f.addr then false else u.live p;
      } in
      let same : (p : Ptr) → u.live p ≡ a.live p = λ p. ap (λ (g : Ptr → Bool). g p) c.live in
      let live3 : AllLive fs a3 = λ p h.
        rw (ne→== p f.addr (λ q. ne_of_== f.addr p (has-ne f.addr p (addrs fs) d.0 h) (sym q)))
          (same p ∙ l p (has-right p (f.addr ∷ []) (addrs fs) h)) in
      rw (same f.addr ∙ l f.addr (has-head f.addr (addrs fs)), laws.release_lem m a3)
        (Returns-mono (λ _ a'. Freed (addrs fs) a3 a') (λ _ a'. Delivered log (f ∷ fs) a a') _
          (free_all-Freed fs a3 d.1 live3)
          λ _ a' r. (
            ap (λ (b : AxonWorld). b.log) r.rest ∙ c.log,
            ap (λ (b : AxonWorld). b.axon) r.rest
                ∙ ap (λ (x : Axon). record x { subs = record x.subs { sem = suc x.subs.sem } })
                    c.axon
                ∙ ap (λ n'. record a.axon { subs = record a.axon.subs { sem = n' } }) (sym e),
            λ p. r.live p ∙ ground (arith, same p),
          ))

  deliver_topic-Delivered :
      (f : Field) (fs : List Field) (count n : ℕ) (a : AxonWorld)
      → a.axon.subs.sem ≡ suc n
      → is_nonempty a.axon.subs.first ≡ true
      → is_string f.type ≡ true
      → is_set f.value ≡ true
      → Distinct (addrs (f ∷ fs))
      → AllLive (f ∷ fs) a
      → Returns
          (λ _ a'.
            Delivered
              (calls regex f (record { fields = fs; count = count - 1 }) a.axon.subs.first a.log)
              (f ∷ fs)
              a
              a')
          (deliver_topic amp i regex f fs count a)
  unfolding deliver_topic
  deliver_topic-Delivered f fs count n a e some_subs str set d l =
      let m : Msg = record { fields = fs; count = count - 1 } in
      let a1 : AxonWorld = record a {
        axon = record a.axon { subs = record a.axon.subs { sem = n } };
      } in
      let log = calls regex f m a.axon.subs.first a.log in
      rw (wait_subs-ok n a e, some_subs, str, set)
        (and_then-Returns (λ _ u. Called log a1 u) (λ _ a'. Delivered log (f ∷ fs) a a')
          (call_subs i regex f m a.axon.subs.first a1) _
          (call_subs-Called i tame regex f m a.axon.subs.first a1)
          λ _ u c. after_calls f fs count n log a u e d l c)

  -- A message of allocated fields, the first of them a string, at an instance with subscriptions
  -- and a free semaphore, where the callbacks return and leave the instance, the fields and the events
  -- alone: the message callback, if there is one, sees it whole; the subscriptions that match its first
  -- field see it without that field, in their order; then each field is freed once, and the instance
  -- is as before.
  pub handle_published-Delivered :
      (f : Field) (fs : List Field) (count n : ℕ) (a : AxonWorld)
      → a.axon.subs.sem ≡ suc n
      → is_nonempty a.axon.subs.first ≡ true
      → is_string f.type ≡ true
      → is_set f.value ≡ true
      → Distinct (addrs (f ∷ fs))
      → AllLive (f ∷ fs) a
      → Returns
          (λ _ a'.
            Delivered
              (calls regex f
                (record { fields = fs; count = count - 1 })
                a.axon.subs.first
                (announced (record { fields = f ∷ fs; count = count }) a))
              (f ∷ fs)
              a
              a')
          (handle_published amp i regex f fs count a)
  unfolding handle_published
  handle_published-Delivered f fs count n a e some_subs str set d l =
      let m : Msg = record { fields = f ∷ fs; count = count } in
      and_then-Returns (λ _ u. Called (announced m a) a u) _ (announce i m a) _
        (announce-Called i tame m a)
        λ _ u c.
          let subs = ap (λ (x : Axon). x.subs) c.axon in
          Returns-mono
            (λ _ a'.
              Delivered
                (calls regex f (record { fields = fs; count = count - 1 }) u.axon.subs.first u.log)
                (f ∷ fs) u a')
            _ _
            (deliver_topic-Delivered f fs count n u (ap (λ (x : Subs). x.sem) subs ∙ e)
              (ap (λ (x : Subs). is_nonempty x.first) subs ∙ some_subs) str set d
              (λ p h. ap (λ (g : Ptr → Bool). g p) c.live ∙ l p h))
            λ _ a' (lg, ax, lv). (
              lg
                  ∙ ap
                      (λ (x : Subs).
                        calls regex f (record { fields = fs; count = count - 1 }) x.first u.log)
                      subs
                  ∙ ap (calls regex f (record { fields = fs; count = count - 1 }) a.axon.subs.first)
                      c.log,
              ax ∙ c.axon,
              λ p.
                  lv p
                  ∙ ap (λ (g : Ptr → Bool). if has p (addrs (f ∷ fs)) then false else g p) c.live,
            )
