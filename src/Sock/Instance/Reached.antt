-- ===== src/Sock/Instance/Reached.antt =====
-- A sock instance over time: every operation keeps it sound, so every instance that is reached is, and
-- is released without a leak.
use c_axon.Base.{ℕ, ◌+◌, ◌≤◌, ◌<◌, ◌≡◌, refl, ap, subst, none, [], length, arith, ok, Returns}
use c_axon.Sock.State.{Ptr, Chain, chain_of, WorkerList, World}
use c_axon.Sock.Api.{new_sock, empty_list}
use c_axon.Sock.Release.{release}
use c_axon.Sock.Instance.{Layout, Sound, IsSound}
use c_axon.Sock.Instance.Gone.{release-Gone}
use c_axon.Sock.Instance.Action.{Action, run, Allowed, run-IsSound}

-- What sock_create returns, with no memory in use.
abbrev pub initial : Ptr → World
initial self = record { self = self; sock = new_sock; heap = λ p. none; log = [] }

pub data Step : World → World → Type 0 where
  step : (a : Action) (w v : World) → Allowed a w → run a w ≡ ok tt v → Step w v

pub data Reach (self : Ptr) : World → Type 0 where
  start : Reach self (initial self)
  later : {w v : World} → Reach self w → Step w v → Reach self v

pub new_chain : (c : Chain) → chain_of c new_sock ≡ empty_list
new_chain Chain.listenners = refl
new_chain _ = refl

initial-Sound : (self : Ptr) → Sound (λ c. []) (initial self)
initial-Sound self = record {
  chain = λ c. record {
    first = ap (λ (o : WorkerList). o.first) (new_chain c);
    last = ap (λ (o : WorkerList). o.last) (new_chain c);
    linked = tt;
    distinct = tt;
    proper = tt;
  };
  sem = λ c. ap (λ (o : WorkerList). o.sem) (new_chain c);
  clients_sem = refl;
  items = λ c. tt;
  balance = λ p. refl;
  null_free = refl;
}

pub Step-IsSound : {w v : World} → Step w v → IsSound w → IsSound v
Step-IsSound (step a w v may e) is = subst (Returns (λ _ u. IsSound u)) e (run-IsSound a w is may)

-- Every instance that is reached is sound.
pub Reach-IsSound : {self : Ptr} {w : World} → Reach self w → IsSound w
Reach-IsSound {self} start = (λ c. [], initial-Sound self)
Reach-IsSound (later r st) = Step-IsSound st (Reach-IsSound r)

pub longest : Layout → ℕ
longest l =
    length (l Chain.listenners)
    + length (l Chain.readers)
    + length (l Chain.messengers)
    + length (l Chain.senders)

pub length_le_longest : (l : Layout) (c : Chain) → length (l c) ≤ longest l
unfolding longest
length_le_longest l Chain.listenners = omega arith
length_le_longest l Chain.readers = omega arith
length_le_longest l Chain.messengers = omega arith
length_le_longest l Chain.senders = omega arith

-- A sock instance from sock_create, after any sequence of the operations that keep an instance sound,
-- each where it may happen: sock_release, with enough fuel for its chains, returns, and no memory is
-- allocated any more.
pub release-Reach :
    (self : Ptr) (w : World)
    → Reach self w
    → (enough : ℕ) × ((fuel : ℕ)
        → enough < fuel
        → Returns (λ _ v. (p : Ptr) → v.heap p ≡ none) (release fuel w))
release-Reach self w r =
    let (l, so) = Reach-IsSound r in
    (longest l, λ fuel lt. release-Gone fuel l w so (λ c. omega (arith, lt, length_le_longest l c)))
