-- ===== src/Axon/Subs.antt =====
-- axon_subscribe and axon_unsubscribe of src/axon.c.
pub mod Lookup
pub mod Calls
use c_axon.Base.{
  Bool, true, false, Option, none, some, List, [], ◌∷◌, ℤ, pos, negsuc, not, ◌||◌, if◌then◌else◌,
  Bytes, str_eq, pure, ◌>>=◌, ◌>>◌,
}
use c_axon.Sock.State.{Ptr}
use c_axon.Axon.State.{
  AxonType, type_sub, type_pull, type_eq, Subscription, Axon, Ax, get_axon, put_axon,
}
use c_axon.Axon.Create.{wait_subs, post_subs}

-- The instances that have subscriptions.
abbrev pub subscribes : AxonType → Bool
subscribes t = type_eq t type_sub || type_eq t type_pull

-- The walk along the chain: the first subscription to the topic is updated; with none, a new one is
-- linked behind the last, if `allocated` says that malloc and strdup both return memory. none is the
-- failure of one of them.
unfoldable pub update_subs :
    Bytes → Ptr → Ptr → Bool → List Subscription → Option (List Subscription)
update_subs topic fct user allocated [] =
    if allocated then some (record { topic = topic; fct = fct; user = user } ∷ []) else none
update_subs topic fct user allocated (s ∷ subs) =
    let rest = update_subs topic fct user allocated subs in
    if str_eq topic s.topic
    then some (record s { fct = fct; user = user } ∷ subs)
    else elim rest [ none ↦ none | some r ↦ some (s ∷ r) ]

-- What the walk came to is stored, and the semaphore is released.
unfoldable pub store_subs : Option (List Subscription) → Ax ℤ
unfolding post_subs
store_subs none = do post_subs; pure (negsuc 0)
store_subs (some subs) = do
  y ← get_axon
  put_axon (record y { subs = record y.subs { first = subs } })
  post_subs
  pure (pos 0)

unfoldable pub subscribe : Bytes → Ptr → Ptr → Bool → Ax ℤ
unfolding wait_subs store_subs
subscribe topic fct user allocated = do
  x ← get_axon
  if not (subscribes x.type) then pure (negsuc 0) else do
    wait_subs
    y ← get_axon
    store_subs (update_subs topic fct user allocated y.subs.first)

-- The first subscription to the topic is unlinked and freed.
unfoldable pub remove_sub : Bytes → List Subscription → List Subscription
remove_sub topic [] = []
remove_sub topic (s ∷ subs) = if str_eq topic s.topic then subs else s ∷ remove_sub topic subs

unfoldable pub unsubscribe : Bytes → Ax ℤ
unfolding wait_subs store_subs
unsubscribe topic = do
  x ← get_axon
  if not (subscribes x.type)
      then pure (negsuc 0)
      else do wait_subs; y ← get_axon; store_subs (some (remove_sub topic y.subs.first))
