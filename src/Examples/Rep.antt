-- ===== src/Examples/Rep.antt =====
-- examples/reqrep/rep.c.
use c_axon.Base.{
  ℕ, Bool, Option, some, List, [], ◌∷◌, if◌then◌else◌, not, ℤ, pos, int_eq, codes, pure, ◌>>=◌,
  ◌>>◌,
}
use c_axon.Sock.State.{null}
use c_axon.Axon.State.{json, Msg}
use c_axon.Axon.Amp.{Amp}
use c_axon.Axon.Create
use c_axon.Axon.Send.{reply}
use c_axon.Axon.Send.Params.{kind, ptr}
use c_axon.Examples.{Cjson, Host, Second, Prog, say, fail, on_axon, axon_create, wait}
use c_axon.Examples.Print.{print_fields}

module _ (amp : Amp) (cj : Cjson) where
  -- The message callback, with its reply. `created` says whether amp_create returns a message.
  unfoldable pub callback : Bool → Msg → Prog (Option Msg)
  unfolding print_fields
  callback created m = do
    say (codes "rep server message received")
    print_fields cj m.fields
    say (codes "replying")
    on_axon (
        reply amp created 1
          (kind (some json) ∷ ptr (cj.object ((codes "goodbye", codes "world") ∷ [])) ∷ []))

-- `fuel` is for the release.
unfoldable pub main : Host → ℕ → List Second → Prog ℤ
unfolding wait
main h fuel seconds = do
  made ← axon_create h (codes "rep")
  if not made then fail (codes "unable to create axon instance") else do
    bound ← on_axon (Create.bind 3000 h.worker h.thread)
    if not (int_eq bound (pos 0)) then fail (codes "unable to bind axon instance") else do
      on_axon (Create.on (codes "message") h.callback null)
      say (codes "rep server started")
      wait seconds
      on_axon (Create.release fuel)
      pure (pos 0)
