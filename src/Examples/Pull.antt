-- ===== src/Examples/Pull.antt =====
-- examples/pushpull/pull.c.
use c_axon.Base.{
  ℕ, Option, none, List, if◌then◌else◌, not, ℤ, pos, int_eq, codes, pure, ◌>>=◌, ◌>>◌,
}
use c_axon.Sock.State.{null}
use c_axon.Axon.State.{Msg}
use c_axon.Axon.Create
use c_axon.Examples.{Cjson, Host, Second, Prog, say, fail, on_axon, axon_create, wait}
use c_axon.Examples.Print.{print_fields}

module _ (cj : Cjson) where
  -- The message callback.
  unfoldable pub callback : Msg → Prog (Option Msg)
  unfolding print_fields
  callback m = do say (codes "pull client message received"); print_fields cj m.fields; pure none

-- `fuel` is for the release.
unfoldable pub main : Host → ℕ → List Second → Prog ℤ
unfolding wait
main h fuel seconds = do
  made ← axon_create h (codes "pull")
  if not made then fail (codes "unable to create axon instance") else do
    connected ← on_axon (Create.connect (codes "127.0.0.1") 3000 h.worker h.copy h.thread)
    if not (int_eq connected (pos 0)) then fail (codes "unable to connect axon instance") else do
      on_axon (Create.on (codes "message") h.callback null)
      say (codes "pull client started")
      wait seconds
      on_axon (Create.release fuel)
      pure (pos 0)
