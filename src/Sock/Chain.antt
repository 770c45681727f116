-- ===== src/Sock/Chain.antt =====
-- sock_start_worker and sock_remove_worker of src/sock.c: the daisy chains of workers.
pub mod Linked
pub mod Changed
pub mod Start
pub mod Remove
pub mod Ended
use c_axon.Base.{ℕ, Option, none, some, ℤ, pos, negsuc, ◌==◌, if◌then◌else◌, pure, ◌>>=◌, ◌>>◌}
use c_axon.Sock.State.{Ptr, null, Chain}
use c_axon.Sock.Machine.{
  Io, load_worker, set_parent, set_prev, set_next, set_thread, get_self, get_chain, put_chain,
  wait_chain, post_chain,
}

-- The new worker goes to the end of the chain.
unfoldable pub link_last : Chain → Ptr → Io (Unit {0})
unfolding set_prev set_next
link_last c p = do
  l ← get_chain c
  if l.last == null
      then put_chain c (record l { first = p; last = p })
      else do set_prev p l.last; set_next l.last p; put_chain c (record l { last = p })

-- `thread` is what pthread_create stores, or none if it fails.
unfoldable pub start_worker : Chain → Ptr → Option ℕ → Io ℤ
unfolding wait_chain set_parent set_thread link_last post_chain
start_worker c p thread = do
  wait_chain c
  set_parent p (← get_self)
  elim thread [
    | none ↦ do post_chain c; pure (negsuc 0)
    | some t ↦ do set_thread p t; link_last c p; post_chain c; pure (pos 0)
  ]

-- The worker before, or the head of the chain, is made to lead past `p`.
unfoldable pub unlink_prev : Chain → Ptr → Io (Unit {0})
unfolding load_worker set_next
unlink_prev c p = do
  k ← load_worker p
  if k.prev == null
      then (do l ← get_chain c; put_chain c (record l { first = k.next }))
      else set_next k.prev k.next

unfoldable pub unlink_next : Chain → Ptr → Io (Unit {0})
unfolding load_worker set_prev
unlink_next c p = do
  k ← load_worker p
  if k.next == null
      then (do l ← get_chain c; put_chain c (record l { last = k.prev }))
      else set_prev k.next k.prev

unfoldable pub remove_worker : Chain → Ptr → Io ℤ
unfolding wait_chain unlink_prev unlink_next post_chain
remove_worker c p = do wait_chain c; unlink_prev c p; unlink_next c p; post_chain c; pure (pos 0)
