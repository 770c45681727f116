-- ===== src/Axon/Message/Memory.antt =====
-- Whose fields are freed when a message is handled.
use c_axon.Base.{
  ℕ, ◌-◌, ◌≡◌, refl, sym, ◌∙◌, ap, subst, true, false, none, some, ℤ, List, [], ◌∷◌, ◌++◌, arith,
  ok, fault, and_then, Returns, Returns-mono, and_then-Returns, has, has-left, has-right, has-head,
  Distinct, Distinct-split, Bool-cases, inl, inr, if◌then◌else◌, ◌==◌, apart_symm, str_eq_refl,
}
use c_axon.Sock.State.{Ptr}
use c_axon.Axon.State.{Field, Msg, AxonWorld, free_field}
use c_axon.Axon.Amp.{Amp, IsAmp, free_all}
use c_axon.Axon.Send.{queue_name}
use c_axon.Axon.Message.{
  MessageInput, last_field, detach_last, call_message, handle_request, handle_response, bytes_of,
}
use c_axon.Axon.Message.Fields.{
  addrs, AllLive, Freed, Freed-trans, free_field-Freed, free_all-Freed, detach_last-append,
  addrs-append,
}

-- A field that is released and then freed once more is a fault.
free_twice :
    (f : Field) (b : AxonWorld) → and_then (free_all (f ∷ []) b) (λ _. free_field f) ≡ fault
unfolding free_all free_field
free_twice f b = ground arith

release_split :
    (fs : List Field) (id : Field) (b : AxonWorld)
    → Distinct (addrs fs ++ id.addr ∷ [])
    → ((p : Ptr) → has p (addrs fs ++ id.addr ∷ []) ≡ true → b.live p ≡ true)
    → Returns
        (λ _ a'. Freed (addrs fs ++ id.addr ∷ []) b a')
        (and_then (free_all fs b) (λ _. free_field id))
release_split fs id b d l =
    let parts = Distinct-split (addrs fs) (id.addr ∷ []) d in
    let out = apart_symm (addrs fs) (id.addr ∷ []) parts.2 id.addr (has-head id.addr []) in
    and_then-Returns (λ _ c. Freed (addrs fs) b c) _ (free_all fs b) _
      (free_all-Freed fs b parts.0 (λ p h. l p (has-left p (addrs fs) (id.addr ∷ []) h)))
      λ _ c first.
        let live =
          first.live id.addr
          ∙ rw out
              (l id.addr (has-right id.addr (addrs fs) (id.addr ∷ []) (has-head id.addr []))) in
        Returns-mono (λ _ a'. Freed (id.addr ∷ []) c a')
          (λ _ a'. Freed (addrs fs ++ id.addr ∷ []) b a') _ (free_field-Freed id c live)
          λ _ a'. Freed-trans (addrs fs) (id.addr ∷ []) b c a' first

-- The addresses of a message, and those of its parts once the last field is off.
detached_addrs :
    (f g : Field) (gs : List Field) (count : ℕ)
    → addrs (detach_last f (g ∷ gs) count).fields ++ (last_field f (g ∷ gs)).addr ∷ []
      ≡ addrs (f ∷ g ∷ gs)
detached_addrs f g gs count =
    sym (addrs-append (detach_last f (g ∷ gs) count).fields (last_field f (g ∷ gs) ∷ []))
    ∙ ap addrs (detach_last-append f g gs count)

module _ (amp : Amp) (laws : IsAmp amp) (i : MessageInput) where
  -- A request with a single field is a double free once the message callback, with its reply, has
  -- returned: the field is released with the message, and then as the id.
  pub handle_request_single :
      (socket : ℤ) (f : Field) (count : ℕ) (a b : AxonWorld)
      → call_message amp i f socket (detach_last f [] count) a ≡ ok tt b
      → handle_request amp i socket f [] count a ≡ fault
  unfolding handle_request
  handle_request_single socket f count a b e =
      rw (e, laws.release_lem (detach_last f [] count) b) (free_twice f b)

  -- The fields before the id and the id itself are freed, each once.
  release_with_id :
      (f g : Field) (gs : List Field) (count : ℕ) (b : AxonWorld)
      → Distinct (addrs (f ∷ g ∷ gs))
      → AllLive (f ∷ g ∷ gs) b
      → Returns
          (λ _ a'. Freed (addrs (f ∷ g ∷ gs)) b a')
          (and_then
            (amp.release (detach_last f (g ∷ gs) count) b)
            (λ _. free_field (last_field f (g ∷ gs))))
  release_with_id f g gs count b d l =
      let whole = detached_addrs f g gs count in
      rw (laws.release_lem (detach_last f (g ∷ gs) count) b, ← whole)
        (release_split (detach_last f (g ∷ gs) count).fields (last_field f (g ∷ gs)) b
          (subst Distinct (sym whole) d) (λ p h. l p (subst (λ ps. has p ps ≡ true) whole h)))

  -- A replier that handles a request of at least two fields frees each of them once and nothing
  -- else, if the call of the message callback, with its reply, returns and leaves the fields
  -- allocated, each at an address of its own.
  pub handle_request-Freed :
      (socket : ℤ) (f g : Field) (gs : List Field) (count : ℕ) (a b : AxonWorld)
      → call_message amp i (last_field f (g ∷ gs)) socket (detach_last f (g ∷ gs) count) a ≡ ok tt b
      → Distinct (addrs (f ∷ g ∷ gs))
      → AllLive (f ∷ g ∷ gs) b
      → Returns
          (λ _ a'. Freed (addrs (f ∷ g ∷ gs)) b a')
          (handle_request amp i socket f (g ∷ gs) count a)
  unfolding handle_request
  handle_request-Freed socket f g gs count a b e d l = rw e (release_with_id f g gs count b d l)

  -- A response of at least two fields, allocated and each at an address of its own, that nobody
  -- waits for is freed as a whole, each field once.
  pub handle_response-Freed :
      (f g : Field) (gs : List Field) (count : ℕ) (a : AxonWorld)
      → a.queues (queue_name (bytes_of (last_field f (g ∷ gs)).value)) ≡ none
      → Distinct (addrs (f ∷ g ∷ gs))
      → AllLive (f ∷ g ∷ gs) a
      → Returns (λ _ a'. Freed (addrs (f ∷ g ∷ gs)) a a') (handle_response amp i f (g ∷ gs) count a)
  unfolding handle_response
  handle_response-Freed f g gs count a q d l = elim (Bool-cases i.queue_accepts) [
    | inl accepts ↦ rw (accepts, q) (release_with_id f g gs count a d l)
    | inr full ↦ rw full (release_with_id f g gs count a d l)
  ]

  -- A response with a single field that nobody waits for is a double free: the field is released
  -- with the message, and then as the id.
  pub handle_response_single :
      (f : Field) (count : ℕ) (a : AxonWorld)
      → a.queues (queue_name (bytes_of f.value)) ≡ none
      → handle_response amp i f [] count a ≡ fault
  unfolding handle_response
  handle_response_single f count a q = elim (Bool-cases i.queue_accepts) [
    | inl accepts ↦ rw (accepts, q, laws.release_lem (detach_last f [] count) a) (free_twice f a)
    | inr full ↦ rw (full, laws.release_lem (detach_last f [] count) a) (free_twice f a)
  ]

-- The message without its id is the last in the queue that the id names; with the id it is the whole
-- message; and of the fields only the id was freed.
abbrev pub Handed : Field → Field → List Field → ℕ → List Msg → AxonWorld → AxonWorld → Type 0
Handed f g gs count waiting a a' =
    (a'.queues (queue_name (bytes_of (last_field f (g ∷ gs)).value))
      ≡ some (waiting ++ detach_last f (g ∷ gs) count ∷ []))
    × ((detach_last f (g ∷ gs) count).fields ++ last_field f (g ∷ gs) ∷ [] ≡ f ∷ g ∷ gs)
    × ((p : Ptr) → a'.live p ≡ (if p == (last_field f (g ∷ gs)).addr then false else a.live p))

module _ (amp : Amp) (i : MessageInput) where
  -- A response with a single field whose requester waits is handed over with that field in it, and the
  -- field is freed.
  pub handle_response_dangling :
      (f : Field) (count : ℕ) (waiting : List Msg) (a : AxonWorld)
      → i.queue_accepts ≡ true
      → a.queues (queue_name (bytes_of f.value)) ≡ some waiting
      → a.live f.addr ≡ true
      → Returns
          (λ _ a'.
            (a'.queues (queue_name (bytes_of f.value))
              ≡ some (waiting ++ record { fields = f ∷ []; count = count - 1 } ∷ []))
            × (a'.live f.addr ≡ false))
          (handle_response amp i f [] count a)
  unfolding handle_response
  handle_response_dangling f count waiting a acc q l =
      rw (acc, q, l) (rw (str_eq_refl (queue_name (bytes_of f.value))) refl, ground arith)

  -- A response of at least two fields, whose last one names the queue of a requester that waits,
  -- goes to that queue as the message without its last field, which alone is freed.
  pub handle_response_delivers :
      (f g : Field) (gs : List Field) (count : ℕ) (waiting : List Msg) (a : AxonWorld)
      → i.queue_accepts ≡ true
      → a.queues (queue_name (bytes_of (last_field f (g ∷ gs)).value)) ≡ some waiting
      → a.live (last_field f (g ∷ gs)).addr ≡ true
      → Returns
          (λ _ a'. Handed f g gs count waiting a a')
          (handle_response amp i f (g ∷ gs) count a)
  unfolding handle_response
  handle_response_delivers f g gs count waiting a acc q l =
      rw (acc, q, l)
        (
          rw (str_eq_refl (queue_name (bytes_of (last_field f (g ∷ gs)).value))) refl,
          detach_last-append f g gs count,
          λ p. refl,
        )
