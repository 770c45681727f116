-- ===== src/Examples/Req.antt =====
-- examples/reqrep/req.c.
use c_axon.Base.{
  ℕ, Option, none, some, List, [], ◌∷◌, if◌then◌else◌, not, ℤ, pos, int_eq, codes, fault, pure,
  ◌>>=◌, ◌>>◌,
}
use c_axon.Axon.State.{json, Msg}
use c_axon.Axon.Amp.{Amp}
use c_axon.Axon.Create
use c_axon.Axon.Send.{vsend}
use c_axon.Axon.Send.Params.{int, ptr}
use c_axon.Examples.{Cjson, Host, Second, Prog, say, fail, on_axon, axon_create, sleep, loop}
use c_axon.Examples.Print.{print_fields}

module _ (amp : Amp) (cj : Cjson) where
  -- What main does with a response: NULL is refused by assert; the message is printed and released.
  unfoldable pub show_response : Option Msg → Prog (Unit {0})
  unfolding print_fields
  show_response none = λ p. fault
  show_response (some m) = do
    say (codes "req client message received")
    print_fields cj m.fields
    on_axon (amp.release m)

  -- One round of the loop: a request, and its response if it comes in time.
  unfoldable pub round : Second → Prog (Unit {0})
  unfolding sleep show_response
  round s = do
    say (codes "sending")
    (ret, response) ← on_axon (
        vsend amp (s.sends 0) 1 (some json) (cj.object ((codes "hello", codes "world") ∷ []))
          (ptr (some []) ∷ int 5000 ∷ []))
    if int_eq ret (pos 0) then show_response response else pure tt
    sleep s

  -- `fuel` is for the release.
  unfoldable pub main : Host → ℕ → List Second → Prog ℤ
  unfolding round loop
  main h fuel seconds = do
    made ← axon_create h (codes "req")
    if not made then fail (codes "unable to create axon instance") else do
      connected ← on_axon (Create.connect (codes "127.0.0.1") 3000 h.worker h.copy h.thread)
      if not (int_eq connected (pos 0)) then fail (codes "unable to connect axon instance") else do
        say (codes "req client started")
        loop round seconds
        on_axon (Create.release fuel)
        pure (pos 0)
