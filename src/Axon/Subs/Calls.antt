-- ===== src/Axon/Subs/Calls.antt =====
-- axon_subscribe and axon_unsubscribe on every branch.
use c_axon.Base.{
  ℕ, suc, ◌≡◌, refl, Bool, true, false, none, some, List, pos, negsuc, ok, Bytes, str_eq,
  Option-cases, ◌⊎◌, inl, inr, Returns, if◌then◌else◌,
}
use c_axon.Sock.State.{Ptr}
use c_axon.Axon.State.{Subscription, AxonWorld}
use c_axon.Axon.Create.{wait_subs}
use c_axon.Axon.Subs.{subscribes, update_subs, remove_sub, subscribe, unsubscribe}
use c_axon.Axon.Subs.Lookup.{
  find_sub, IsUnique, has_topic, update_subs-find, update_subs-IsUnique, update_subs-none,
  remove_sub-find, remove_sub-IsUnique,
}

pub wait_subs-ok :
    (n : ℕ) (a : AxonWorld)
    → a.axon.subs.sem ≡ suc n
    → wait_subs a
      ≡ ok tt (record a { axon = record a.axon { subs = record a.axon.subs { sem = n } } })
unfolding wait_subs
wait_subs-ok n a e = rw (e, wait_subs)

-- The world with other subscriptions, and nothing else changed.
abbrev pub with_subs : List Subscription → AxonWorld → AxonWorld
with_subs subs a = record a { axon = record a.axon { subs = record a.axon.subs { first = subs } } }

-- A subscription took effect: only the list changed, and its topics are still unique.
abbrev pub Subscribed : Bytes → Ptr → Ptr → Bool → AxonWorld → AxonWorld → Type 0
Subscribed topic fct user allocated a a' =
    (subs : List Subscription) × (a' ≡ with_subs subs a)
    × IsUnique subs
    × ((j : Bytes)
        → find_sub j subs
          ≡ (if str_eq j topic then some (fct, user) else find_sub j a.axon.subs.first))

-- At an instance that subscribes, with the semaphore free and the topics unique, axon_subscribe
-- returns: either 0 comes back, looking up the topic gives the new callback and all other topics
-- what they had, and the topics are still unique; or -1 comes back, memory ran out for a topic
-- that was not subscribed, and nothing changed.
pub find_sub-subscribe :
    (topic : Bytes) (fct user : Ptr) (allocated : Bool) (n : ℕ) (a : AxonWorld)
    → subscribes a.axon.type ≡ true
    → a.axon.subs.sem ≡ suc n
    → IsUnique a.axon.subs.first
    → Returns
        (λ r a'.
          ((r ≡ pos 0) × Subscribed topic fct user allocated a a')
          ⊎ ((r ≡ negsuc 0)
              × (a' ≡ a)
              × (allocated ≡ false)
              × (has_topic topic a.axon.subs.first ≡ false)))
        (subscribe topic fct user allocated a)
unfolding subscribe
find_sub-subscribe topic fct user allocated n a t e u =
    rw (t, wait_subs-ok n a e)
      (elim (Option-cases (update_subs topic fct user allocated a.axon.subs.first)) [
        | inl failed ↦
            let why = update_subs-none topic fct user allocated a.axon.subs.first failed in
            rw failed (inr (refl, rw (← e), why.0, why.1))
        | inr (subs, done) ↦ rw done (
            inl (
              refl,
              (
                subs,
                rw (← e),
                update_subs-IsUnique topic fct user allocated a.axon.subs.first subs done u,
                λ j. update_subs-find topic fct user allocated j a.axon.subs.first subs done,
              ),
            ))
      ])

-- At an instance that subscribes, with the semaphore free and the topics unique, axon_unsubscribe
-- returns 0: looking up the topic finds nothing, all other topics what they had, the topics are
-- still unique, and nothing else changed.
pub find_sub-unsubscribe :
    (topic : Bytes) (n : ℕ) (a : AxonWorld)
    → subscribes a.axon.type ≡ true
    → a.axon.subs.sem ≡ suc n
    → IsUnique a.axon.subs.first
    → Returns
        (λ r a'.
          (r ≡ pos 0)
          × ((subs : List Subscription) × (a' ≡ with_subs subs a)
              × IsUnique subs
              × ((j : Bytes)
                  → find_sub j subs
                    ≡ (if str_eq j topic then none else find_sub j a.axon.subs.first))))
        (unsubscribe topic a)
unfolding unsubscribe
find_sub-unsubscribe topic n a t e u =
    rw (t, wait_subs-ok n a e)
      (
        refl,
        (
          remove_sub topic a.axon.subs.first,
          rw (← e),
          remove_sub-IsUnique topic a.axon.subs.first u,
          λ j. remove_sub-find topic j a.axon.subs.first u,
        ),
      )
