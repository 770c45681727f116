-- ===== src/Examples/TopicsPub.antt =====
-- examples/pubsub_topics/pub_topic1_topic2.c.
use c_axon.Base.{
  ℕ, Option, some, List, [], ◌∷◌, if◌then◌else◌, not, ℤ, pos, int_eq, Bytes, codes, pure, ◌>>=◌,
  ◌>>◌,
}
use c_axon.Axon.State.{string, json}
use c_axon.Axon.Amp.{Amp}
use c_axon.Axon.Create
use c_axon.Axon.Send.{vsend}
use c_axon.Axon.Send.Params.{kind, ptr}
use c_axon.Examples.{Cjson, Host, Second, Prog, say, fail, on_axon, axon_create, sleep, loop}

module _ (amp : Amp) (cj : Cjson) where
  abbrev pub tree : Bytes → Option Bytes
  tree payload = cj.object ((codes "payload", payload) ∷ [])

  -- One round of the loop: a message to each topic.
  unfoldable pub round : Second → Prog (Unit {0})
  unfolding sleep
  round s = do
    say (codes "sending")
    on_axon (
        vsend amp (s.sends 0) 2 (some string) (some (codes "topic1"))
          (kind (some json) ∷ ptr (tree (codes "the payload of topic 1")) ∷ []))
    on_axon (
        vsend amp (s.sends 1) 2 (some string) (some (codes "topic2"))
          (kind (some json) ∷ ptr (tree (codes "the payload of topic 2")) ∷ []))
    sleep s

  -- `fuel` is for the release.
  unfoldable pub main : Host → ℕ → List Second → Prog ℤ
  unfolding round loop
  main h fuel seconds = do
    made ← axon_create h (codes "pub")
    if not made then fail (codes "unable to create axon instance") else do
      bound ← on_axon (Create.bind 3000 h.worker h.thread)
      if not (int_eq bound (pos 0)) then fail (codes "unable to bind axon instance") else do
        say (codes "pub server started")
        loop round seconds
        on_axon (Create.release fuel)
        pure (pos 0)
