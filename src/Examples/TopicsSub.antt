-- ===== src/Examples/TopicsSub.antt =====
-- examples/pubsub_topics/sub_topic1.c, sub_topic2.c, sub_topic1_topic2.c and sub_topics.c, which
-- differ in what they subscribe to.
use c_axon.Base.{
  ℕ, Option, none, some, List, ◌++◌, if◌then◌else◌, not, ℤ, pos, int_eq, Bytes, codes, fault, pure,
  ◌>>=◌, ◌>>◌,
}
use c_axon.Sock.State.{null}
use c_axon.Axon.State.{Msg}
use c_axon.Axon.Create
use c_axon.Examples.{Cjson, Host, Second, Prog, say, fail, on_axon, axon_create, wait}
use c_axon.Examples.Print.{print_fields}
use c_axon.Axon.Subs.{subscribe}

module _ (cj : Cjson) where
  -- The callback of a subscription, with its topic; NULL is refused by assert.
  unfoldable pub callback : Option Bytes → Msg → Prog (Option Msg)
  unfolding print_fields
  callback none m = λ p. fault
  callback (some topic) m = do
    say (codes "sub client message received from topic '" ++ topic ++ codes "'")
    print_fields cj m.fields
    pure none

unfoldable pub main_topic1 : Host → ℕ → List Second → Prog ℤ
unfolding wait
main_topic1 h fuel seconds = do
  made ← axon_create h (codes "sub")
  if not made then fail (codes "unable to create axon instance") else do
    connected ← on_axon (Create.connect (codes "127.0.0.1") 3000 h.worker h.copy h.thread)
    if not (int_eq connected (pos 0)) then fail (codes "unable to connect axon instance") else do
      on_axon (subscribe (codes "topic1") h.callback null h.allocated)
      say (codes "sub client started")
      wait seconds
      on_axon (Create.release fuel)
      pure (pos 0)

unfoldable pub main_topic2 : Host → ℕ → List Second → Prog ℤ
unfolding wait
main_topic2 h fuel seconds = do
  made ← axon_create h (codes "sub")
  if not made then fail (codes "unable to create axon instance") else do
    connected ← on_axon (Create.connect (codes "127.0.0.1") 3000 h.worker h.copy h.thread)
    if not (int_eq connected (pos 0)) then fail (codes "unable to connect axon instance") else do
      on_axon (subscribe (codes "topic2") h.callback null h.allocated)
      say (codes "sub client started")
      wait seconds
      on_axon (Create.release fuel)
      pure (pos 0)

unfoldable pub main_topic1_topic2 : Host → ℕ → List Second → Prog ℤ
unfolding wait
main_topic1_topic2 h fuel seconds = do
  made ← axon_create h (codes "sub")
  if not made then fail (codes "unable to create axon instance") else do
    connected ← on_axon (Create.connect (codes "127.0.0.1") 3000 h.worker h.copy h.thread)
    if not (int_eq connected (pos 0)) then fail (codes "unable to connect axon instance") else do
      on_axon (subscribe (codes "topic1") h.callback null h.allocated)
      on_axon (subscribe (codes "topic2") h.callback null h.allocated)
      say (codes "sub client started")
      wait seconds
      on_axon (Create.release fuel)
      pure (pos 0)

unfoldable pub main_topics : Host → ℕ → List Second → Prog ℤ
unfolding wait
main_topics h fuel seconds = do
  made ← axon_create h (codes "sub")
  if not made then fail (codes "unable to create axon instance") else do
    connected ← on_axon (Create.connect (codes "127.0.0.1") 3000 h.worker h.copy h.thread)
    if not (int_eq connected (pos 0)) then fail (codes "unable to connect axon instance") else do
      on_axon (subscribe (codes "topic*") h.callback null h.allocated)
      say (codes "sub client started")
      wait seconds
      on_axon (Create.release fuel)
      pure (pos 0)
