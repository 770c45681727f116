-- ===== src/Axon/Message/Answer.antt =====
-- A request and its response: the queue between axon_vsend and axon_message_cb.
use c_axon.Base.{
  suc, ◌+◌, ◌*◌, ◌/◌, ◌<◌, ltb, arith, negsuc, if◌then◌else◌, Bool-cases, inl, inr, ℕ, ◌≡◌, sym,
  ◌∙◌, ap, refl, subst, true, some, none, List, [], ◌∷◌, pos, Bytes, ok, Returns, str_eq_refl,
}
use c_axon.Axon.State.{AxonWorld, Field}
use c_axon.Axon.Amp.{Amp}
use c_axon.Axon.Send.{
  SendInput, deadline, earlier, waited, unlink_queue, await_response, queue_name,
}
use c_axon.Axon.Message.{MessageInput, last_field, detach_last, handle_response, bytes_of}
use c_axon.Axon.Message.Memory.{Handed, handle_response_delivers}

abbrev pub nanos : ℕ × ℕ → ℕ
nanos (s, n) = s * 1000000000 + n

earlier-ltb :
    (s n t m : ℕ)
    → n < 1000000000
    → m < 1000000000
    → earlier (s, n) (t, m) ≡ ltb (s * 1000000000 + n) (t * 1000000000 + m)
earlier-ltb s n t m ln lm = ground arith

in_time :
    (now answered : ℕ × ℕ) (timeout : ℕ)
    → now.1 < 1000000000
    → answered.1 < 1000000000
    → earlier answered (deadline now timeout)
      ≡ ltb (nanos answered) (nanos now + timeout / 1000 * 1000000000)
unfolding deadline
in_time (s, n) (t, m) timeout ln lm =
    earlier-ltb t m (s + timeout / 1000) n lm ln ∙ ap (ltb (t * 1000000000 + m)) (omega arith)

module _ (amp : Amp) (i : MessageInput) (s : SendInput) where
  -- A requester waits at the empty queue of an id, with a descriptor open, from `now` on, while its
  -- message callback handles a response of at least two fields whose last one is allocated and holds
  -- that id; that returns, mq_send does not fail, and it is done at `answered`, both times with less
  -- than 1000000000 nanoseconds. Where `answered` is before `now` plus the timeout, which is in
  -- milliseconds, in whole seconds, the requester gets the response without the id; where it is not,
  -- the receive fails with -1. In both cases its queue is gone afterwards, and the descriptor closed.
  pub await_response-handle_response :
      (f g : Field) (gs : List Field) (count timeout n : ℕ) (id : Bytes) (a b : AxonWorld)
      → i.queue_accepts ≡ true
      → (last_field f (g ∷ gs)).value ≡ some id
      → a.queues (queue_name id) ≡ some []
      → a.mqs ≡ suc n
      → a.live (last_field f (g ∷ gs)).addr ≡ true
      → handle_response amp i f (g ∷ gs) count a ≡ ok tt b
      → s.meanwhile a.queues ≡ b.queues
      → s.now.1 < 1000000000
      → s.answered.1 < 1000000000
      → Returns
          (λ r a'.
            (r ≡ (
              if ltb (nanos s.answered) (nanos s.now + timeout / 1000 * 1000000000)
              then (pos 0, some (detach_last f (g ∷ gs) count))
              else (negsuc 0, none)))
            × (a'.queues (queue_name id) ≡ none)
            × (a'.mqs ≡ n))
          (await_response s (some (queue_name id, timeout)) a)
  unfolding await_response unlink_queue waited
  await_response-handle_response f g gs count timeout n id a b acc last q fd live run between ln
        lm =
      let named : queue_name (bytes_of (last_field f (g ∷ gs)).value) ≡ queue_name id =
        ap (λ v. queue_name (bytes_of v)) last in
      let got = handle_response_delivers amp i f g gs count [] a acc (ap a.queues named ∙ q) live in
      let handed : Returns {0} (λ _ a'. Handed f g gs count [] a a') (ok tt b) =
        subst (λ r. Returns {0} (λ _ a'. Handed f g gs count [] a a') r) run got in
      let filled : b.queues (queue_name id) ≡ some (detach_last f (g ∷ gs) count ∷ []) =
        ap b.queues (sym named) ∙ handed.0 in
      rw (← in_time s.now s.answered timeout ln lm, q)
        (elim (Bool-cases (earlier s.answered (deadline s.now timeout))) [
          | inl early ↦
              rw (early, between, filled, fd, str_eq_refl (queue_name id)) (refl, refl, refl)
          | inr late ↦ rw (late, q, fd, str_eq_refl (queue_name id)) (refl, refl, refl)
        ])
