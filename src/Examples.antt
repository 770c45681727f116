-- ===== src/Examples.antt =====
-- The programs of examples/: a process with an axon instance, its output and the flag that SIGINT sets.
pub mod Print
pub mod Printed
pub mod Ends
pub mod Starts
pub mod Replies
pub mod Pub
pub mod Sub
pub mod Push
pub mod Pull
pub mod TopicsPub
pub mod TopicsSub
pub mod Rep
pub mod Req
use c_axon.Base.{
  ℕ, Bool, true, false, Option, none, some, List, [], ◌∷◌, ◌++◌, ◌==◌, if◌then◌else◌, ℤ, pos, Bytes,
  codes, Cmd, ok, out_of_fuel, zoom, pure, ◌>>=◌, ◌>>◌,
}
use c_axon.Sock.State.{Ptr, Sock}
use c_axon.Axon.State.{Axon, AxonWorld, Ax}
use c_axon.Axon.Create
use c_axon.Axon.Create.{Symbols}
use c_axon.Axon.Send.{SendInput}

-- The cJSON library: an object of strings, NULL if there is no memory, and its text.
pub record Cjson : Type 0 where
  pub object : List (Bytes × Bytes) → Option Bytes
  pub print : Bytes → Option Bytes

-- `axon` stands for the instance and all that it works on, `out` is what was printed.
pub record Process : Type 0 where
  pub ax : AxonWorld
  pub out : Bytes
  pub terminate : Bool

abbrev pub Prog {ℓ} : Type ℓ → Type ℓ
Prog A = Cmd Process A

-- What the system answers to the calls in main, and the address of the callback.
pub record Host : Type 0 where
  pub symbols : Symbols
  pub fresh : Ptr
  pub fresh_sock : Ptr
  pub worker : Ptr
  pub copy : Ptr
  pub thread : Option ℕ
  pub callback : Ptr
  pub allocated : Bool

-- One second of sleep: what the threads of the instance do meanwhile, and the signals that come.
-- `sends` are the answers to the sends before it.
pub record Second : Type 0 where
  pub sends : ℕ → SendInput
  pub meanwhile : AxonWorld → AxonWorld
  pub signals : List ℕ

abbrev pub newline : ℕ
newline = 10

abbrev pub print : Bytes → Prog (Unit {0})
print text p = ok tt (record p { out = p.out ++ text })

-- printf of a text that ends its line.
abbrev pub say : Bytes → Prog (Unit {0})
say text = print (text ++ newline ∷ [])

abbrev pub on_axon {ℓ} : {A : Type ℓ} → Ax A → Prog A
on_axon m = zoom (λ p. p.ax) (λ a p. record p { ax = a }) m

-- axon_create; false for NULL.
abbrev pub store : Option (Axon × Sock) → Prog Bool
store none p = ok false p
store (some (x, s)) p =
    ok true (record p { ax = record p.ax { axon = x; net = record p.ax.net { sock = s } } })

abbrev pub axon_create : Host → Bytes → Prog Bool
axon_create h type = store (Create.create h.symbols type h.fresh h.fresh_sock)

-- A message, and exit(EXIT_FAILURE).
abbrev pub fail : Bytes → Prog ℤ
fail text = do say text; pure (pos 1)

abbrev pub sigint : ℕ
sigint = 2

unfoldable pub sig_handler : ℕ → Prog (Unit {0})
sig_handler signo p = ok tt (if signo == sigint then record p { terminate = true } else p)

abbrev pub signals : List ℕ → Prog (Unit {0})
unfolding sig_handler
signals [] = pure tt
signals (s ∷ ss) = do sig_handler s; signals ss

abbrev others : (AxonWorld → AxonWorld) → Prog (Unit {0})
others f p = ok tt (record p { ax = f p.ax })

-- sleep(1).
unfoldable pub sleep : Second → Prog (Unit {0})
unfolding sig_handler
sleep s = do others s.meanwhile; signals s.signals

-- while (false == terminate): `body` runs once for each of the seconds given, and where they do not
-- last until SIGINT the program still runs.
unfoldable pub loop : (Second → Prog (Unit {0})) → List Second → Prog (Unit {0})
loop body [] p = if p.terminate then ok tt p else out_of_fuel
loop body (s ∷ ss) p =
    let rest = (body s >> loop body ss) p in if p.terminate then ok tt p else rest

-- The loop of a program that only waits.
unfoldable pub wait : List Second → Prog (Unit {0})
unfolding loop sleep
wait = loop sleep
