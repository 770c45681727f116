-- ===== src/Examples/Push.antt =====
-- examples/pushpull/push.c.
use c_axon.Base.{
  ℕ, Option, some, List, [], ◌∷◌, if◌then◌else◌, not, ℤ, pos, int_eq, Bytes, codes, pure, ◌>>=◌,
  ◌>>◌,
}
use c_axon.Axon.State.{blob, string, bigint, json}
use c_axon.Axon.Amp.{Amp}
use c_axon.Axon.Create
use c_axon.Axon.Send.{vsend}
use c_axon.Axon.Send.Params.{int}
use c_axon.Examples.{Cjson, Host, Second, Prog, say, fail, on_axon, axon_create, sleep, loop}

-- The bytes of 123451234512345 as an int64_t, the lowest first.
abbrev pub bint : Bytes
bint = 217 ∷ 237 ∷ 250 ∷ 58 ∷ 71 ∷ 112 ∷ 0 ∷ 0 ∷ []

module _ (amp : Amp) (cj : Cjson) where
  -- The object that is sent.
  abbrev pub tree : Option Bytes
  tree =
      cj.object ((codes "topic", codes "the topic") ∷ (codes "payload", codes "the payload") ∷ [])

  -- One round of the loop: four messages, each with one field.
  unfoldable pub round : Second → Prog (Unit {0})
  unfolding sleep
  round s = do
    say (codes "sending")
    on_axon (vsend amp (s.sends 0) 1 (some blob) (some (1 ∷ 2 ∷ 3 ∷ [])) (int 3 ∷ []))
    on_axon (vsend amp (s.sends 1) 1 (some string) (some (codes "hello")) [])
    on_axon (vsend amp (s.sends 2) 1 (some bigint) (some bint) [])
    on_axon (vsend amp (s.sends 3) 1 (some json) tree [])
    sleep s

  -- `fuel` is for the release.
  unfoldable pub main : Host → ℕ → List Second → Prog ℤ
  unfolding round loop
  main h fuel seconds = do
    made ← axon_create h (codes "push")
    if not made then fail (codes "unable to create axon instance") else do
      bound ← on_axon (Create.bind 3000 h.worker h.thread)
      if not (int_eq bound (pos 0)) then fail (codes "unable to bind axon instance") else do
        say (codes "push server started")
        loop round seconds
        on_axon (Create.release fuel)
        pure (pos 0)
