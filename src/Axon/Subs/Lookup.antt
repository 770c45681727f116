-- ===== src/Axon/Subs/Lookup.antt =====
-- The chain of subscriptions as a map from topics.
use c_axon.Base.{
  ◌≡◌, refl, Bool, true, false, Option, none, some, List, [], ◌∷◌, ◌||◌, if◌then◌else◌, Bytes,
  str_eq, str_eq_iff, str_eq_comm, arith, Bool-cases, inl, inr, ◌⊎◌,
}
use c_axon.Sock.State.{Ptr}
use c_axon.Axon.State.{Subscription}
use c_axon.Axon.Subs.{update_subs, remove_sub}

-- The function and the user data that a topic is subscribed with.
unfoldable pub find_sub : Bytes → List Subscription → Option (Ptr × Ptr)
find_sub topic [] = none
find_sub topic (s ∷ subs) =
    if str_eq topic s.topic then some (s.fct, s.user) else find_sub topic subs

unfoldable pub has_topic : Bytes → List Subscription → Bool
has_topic topic [] = false
has_topic topic (s ∷ subs) = str_eq topic s.topic || has_topic topic subs

-- No topic is subscribed twice.
abbrev pub IsUnique : List Subscription → Type 0
IsUnique [] = Unit {0}
IsUnique (s ∷ subs) = (has_topic s.topic subs ≡ false) × IsUnique subs

pub find_sub-absent :
    (topic : Bytes) (subs : List Subscription)
    → has_topic topic subs ≡ false
    → find_sub topic subs ≡ none
unfolding find_sub has_topic
find_sub-absent topic [] h = refl
find_sub-absent topic (s ∷ subs) h = ground (arith, find_sub-absent topic subs)

module _ (topic : Bytes) (fct user : Ptr) (allocated : Bool) where
  -- The two ways past a subscription.
  update_subs-cons :
      (s : Subscription) (subs subs' : List Subscription)
      → update_subs topic fct user allocated (s ∷ subs) ≡ some subs'
      → ((str_eq topic s.topic ≡ true) × (subs' ≡ record s { fct = fct; user = user } ∷ subs))
        ⊎ ((r : List Subscription) × (str_eq topic s.topic ≡ false)
            × (update_subs topic fct user allocated subs ≡ some r)
            × (subs' ≡ s ∷ r))
  unfolding update_subs
  update_subs-cons s subs subs' e = go (update_subs topic fct user allocated subs) refl e
    where
      go :
          (o : Option (List Subscription))
          → update_subs topic fct user allocated subs ≡ o
          → (if str_eq topic s.topic
              then some (record s { fct = fct; user = user } ∷ subs)
              else elim o [ none ↦ none | some r ↦ some (s ∷ r) ])
            ≡ some subs'
          → ((str_eq topic s.topic ≡ true) × (subs' ≡ record s { fct = fct; user = user } ∷ subs))
            ⊎ ((r : List Subscription) × (str_eq topic s.topic ≡ false)
                × (update_subs topic fct user allocated subs ≡ some r)
                × (subs' ≡ s ∷ r))
      go none h e' = inl (ground arith, ground arith)
      go (some r) h e' = elim (Bool-cases (str_eq topic s.topic)) [
        | inl hit ↦ inl (hit, ground arith)
        | inr miss ↦ inr (r, miss, h, ground arith)
      ]

  pub update_subs-find :
      (j : Bytes) (subs subs' : List Subscription)
      → update_subs topic fct user allocated subs ≡ some subs'
      → find_sub j subs' ≡ (if str_eq j topic then some (fct, user) else find_sub j subs)
  unfolding update_subs find_sub
  update_subs-find j [] subs' e = ground arith
  update_subs-find j (s ∷ subs) subs' e = elim (update_subs-cons s subs subs' e) [
    | inl (hit, same) ↦ rw same (ground (arith, str_eq_iff topic s.topic))
    | inr (r, miss, rest, same) ↦ rw same (
        ground (
          arith,
          update_subs-find j subs r rest,
          str_eq_iff j s.topic,
          str_eq_iff j topic,
          str_eq_iff topic s.topic,
        ))
  ]

  pub update_subs-has :
      (j : Bytes) (subs subs' : List Subscription)
      → update_subs topic fct user allocated subs ≡ some subs'
      → has_topic j subs' ≡ (str_eq j topic || has_topic j subs)
  unfolding update_subs has_topic
  update_subs-has j [] subs' e = ground arith
  update_subs-has j (s ∷ subs) subs' e = elim (update_subs-cons s subs subs' e) [
    | inl (hit, same) ↦ rw same (ground (arith, str_eq_iff topic s.topic))
    | inr (r, miss, rest, same) ↦ rw same (ground (arith, update_subs-has j subs r rest))
  ]

  pub update_subs-IsUnique :
      (subs subs' : List Subscription)
      → update_subs topic fct user allocated subs ≡ some subs'
      → IsUnique subs
      → IsUnique subs'
  unfolding update_subs has_topic
  update_subs-IsUnique [] subs' e u = ground arith
  update_subs-IsUnique (s ∷ subs) subs' e u = elim (update_subs-cons s subs subs' e) [
    | inl (hit, same) ↦ rw same u
    | inr (r, miss, rest, same) ↦ rw same (
      ground (arith, update_subs-has s.topic subs r rest, str_eq_comm topic s.topic),
      update_subs-IsUnique subs r rest u.1,
    )
  ]

  -- An update fails only where a new subscription cannot be allocated.
  pub update_subs-none :
      (subs : List Subscription)
      → update_subs topic fct user allocated subs ≡ none
      → (allocated ≡ false) × (has_topic topic subs ≡ false)
  unfolding update_subs has_topic
  update_subs-none [] e = ground arith
  update_subs-none (s ∷ subs) e = ground (arith, update_subs-none subs)

pub remove_sub-find :
    (topic j : Bytes) (subs : List Subscription)
    → IsUnique subs
    → find_sub j (remove_sub topic subs) ≡ (if str_eq j topic then none else find_sub j subs)
unfolding remove_sub find_sub
remove_sub-find topic j [] u = ground arith
remove_sub-find topic j (s ∷ subs) u = ground (
  arith,
  remove_sub-find topic j subs u.1,
  find_sub-absent j subs,
  str_eq_iff topic s.topic,
  str_eq_iff j s.topic,
  str_eq_iff j topic,
)

pub remove_sub-has :
    (topic j : Bytes) (subs : List Subscription)
    → has_topic j subs ≡ false
    → has_topic j (remove_sub topic subs) ≡ false
unfolding remove_sub has_topic
remove_sub-has topic j [] h = refl
remove_sub-has topic j (s ∷ subs) h = ground (arith, remove_sub-has topic j subs)

pub remove_sub-IsUnique :
    (topic : Bytes) (subs : List Subscription) → IsUnique subs → IsUnique (remove_sub topic subs)
unfolding remove_sub
remove_sub-IsUnique topic [] u = tt
remove_sub-IsUnique topic (s ∷ subs) u = elim (Bool-cases (str_eq topic s.topic)) [
  | inl hit ↦ rw hit u.1
  | inr miss ↦ rw miss (remove_sub-has topic s.topic subs u.0, remove_sub-IsUnique topic subs u.1)
]
