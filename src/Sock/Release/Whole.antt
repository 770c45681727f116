-- ===== src/Sock/Release/Whole.antt =====
-- sock_release from end to end.
use c_axon.Base.{
  ℕ, suc, ◌<◌, ◌≡◌, subst, ◌>>◌, sym, ◌∙◌, ap, refl, true, false, List, [], ◌∷◌, ◌++◌, length, has,
  has-right, has-left, Distinct, Distinct-split, apart_symm, All, Returns, Returns-mono,
  and_then-Returns,
}
use c_axon.Sock.State.{Ptr, null, Chain, chain_of, set_chain, World, WorkerList, Sock, Event}
use c_axon.Sock.Machine.{Io, emit}
use c_axon.Sock.Machine.Steps.{
  wait_chain-ok, chain_of-set_chain, set_chain-set_chain, set_chain_self,
}
use c_axon.Sock.Chain.Linked.{head_or, frame}
use c_axon.Sock.Chain.Changed.{held}
use c_axon.Sock.Release.{release_workers, release_chain, release}
use c_axon.Sock.Release.Freed.{Held, addrs, memory, Released, Released-trans, Live-Released}
use c_axon.Sock.Release.Workers.{Intact, release_workers-Released, held_frame, kept, addrs_in}

-- The chain `c` holds the workers `xs`, its semaphore is free, and `fuel` is enough for it.
pub record Ready (fuel : ℕ) (w : World) (c : Chain) (xs : List Held) : Type 0 where
  pub first : (chain_of c w.sock).first ≡ head_or (addrs xs) null
  pub count : ℕ
  pub sem : (chain_of c w.sock).sem ≡ suc count
  pub intact : Intact c null xs w.heap
  pub enough : length xs < fuel

abbrev posted : Chain → Sock → Sock
posted c s = set_chain c (record (chain_of c s) { sem = suc (chain_of c s).sem }) s

-- A semaphore that is waited for and posted is as before.
posted_held :
    (c : Chain) (n : ℕ) (s : Sock)
    → (chain_of c s).sem ≡ suc n
    → posted c (set_chain c (record (chain_of c s) { sem = n }) s) ≡ s
posted_held c n s e = rw (chain_of-set_chain, set_chain-set_chain, ← e) (set_chain_self c s)

release_chain-Released :
    (fuel : ℕ) (w : World) (c : Chain) (xs : List Held)
    → Ready fuel w c xs
    → Returns (λ _ v. Released (memory xs) w v) (release_chain fuel c w)
unfolding release_chain
release_chain-Released fuel w c xs r =
    let w1 = held c r.count w in
    let first : (chain_of c w1.sock).first ≡ head_or (addrs xs) null =
      ap (λ (l : WorkerList). l.first) (chain_of-set_chain c _ w.sock) ∙ r.first in
    rw (wait_chain-ok c r.count w r.sem) (
      and_then-Returns (λ _ v. Released (memory xs) w1 v) (λ _ v. Released (memory xs) w v)
        (release_workers fuel c (chain_of c w1.sock).first w1) _
        (subst (λ q. Returns (λ _ v. Released (memory xs) w1 v) (release_workers fuel c q w1))
          (sym first) (release_workers-Released c fuel null xs w1 r.enough r.intact))
        λ _ v q. record {
          heap = q.heap;
          sock = ap (posted c) q.sock ∙ posted_held c r.count w.sock r.sem;
          self = q.self;
        })

-- A chain apart from what was freed is as it was.
Ready-Released :
    (fuel : ℕ) (ps : List Ptr) (w v : World) (c : Chain) (xs : List Held)
    → ((a : Ptr) → has a (memory xs) ≡ true → has a ps ≡ false)
    → Released ps w v
    → Ready fuel w c xs
    → Ready fuel v c xs
Ready-Released fuel ps w v c xs apart r is =
    let same : (a : Ptr) → has a (addrs xs) ≡ true → v.heap a ≡ w.heap a =
      λ a i. kept ps w v r a (apart a (addrs_in xs a i)) in
    record {
      first = ap (λ s. (chain_of c s).first) r.sock ∙ is.first;
      count = is.count;
      sem = ap (λ s. (chain_of c s).sem) r.sock ∙ is.sem;
      intact = record {
        linked = frame w.heap v.heap null (addrs xs) null same is.intact.linked;
        held = held_frame c w.heap v.heap xs same is.intact.held;
        distinct = is.intact.distinct;
        live = Live-Released ps (memory xs) w v apart r is.intact.live;
      };
      enough = is.enough;
    }

-- Chains with their workers, and their memory in the order in which it is freed.
abbrev pub Chains : Type 0
Chains = List (Chain × List Held)

abbrev pub all_memory : Chains → List Ptr
all_memory [] = []
all_memory ((c, xs) ∷ cs) = memory xs ++ all_memory cs

abbrev release_all : ℕ → Chains → Io (Unit {0})
release_all fuel [] = emit Event.sock_freed
release_all fuel ((c, xs) ∷ cs) = do release_chain fuel c; release_all fuel cs

abbrev pub AllReady : ℕ → World → Chains → Type 0
AllReady fuel w cs = All (λ x. Ready fuel w x.0 x.1) cs

AllReady-Released :
    (fuel : ℕ) (ps : List Ptr) (w v : World) (cs : Chains)
    → ((a : Ptr) → has a (all_memory cs) ≡ true → has a ps ≡ false)
    → Released ps w v
    → AllReady fuel w cs
    → AllReady fuel v cs
AllReady-Released fuel ps w v [] apart r is = tt
AllReady-Released fuel ps w v ((c, xs) ∷ cs) apart r is = (
  Ready-Released fuel ps w v c xs (λ a i. apart a (has-left a (memory xs) (all_memory cs) i)) r
      is.0,
  AllReady-Released fuel ps w v cs (λ a i. apart a (has-right a (memory xs) (all_memory cs) i)) r
      is.1,
)

release_all-Released :
    (fuel : ℕ) (cs : Chains) (w : World)
    → Distinct (all_memory cs)
    → AllReady fuel w cs
    → Returns (λ _ v. Released (all_memory cs) w v) (release_all fuel cs w)
release_all-Released fuel [] w d is = record { heap = λ a. refl; sock = refl; self = refl }
release_all-Released fuel ((c, xs) ∷ cs) w d is =
    let parts = Distinct-split (memory xs) (all_memory cs) d in
    and_then-Returns (λ _ v. Released (memory xs) w v)
      (λ _ v. Released (memory xs ++ all_memory cs) w v) (release_chain fuel c w) _
      (release_chain-Released fuel w c xs is.0)
      λ _ v r.
        Returns-mono (λ _ u. Released (all_memory cs) v u)
          (λ _ u. Released (memory xs ++ all_memory cs) w u) _
          (release_all-Released fuel cs v parts.1 (
            AllReady-Released fuel (memory xs) w v cs
              (apart_symm (memory xs) (all_memory cs) parts.2) r is.1))
          λ _ u. Released-trans (memory xs) (all_memory cs) w v u r

-- The four chains of a sock instance.
abbrev pub chains : List Held → List Held → List Held → List Held → Chains
chains ls rs ms ss =
    (Chain.listenners, ls) ∷ (Chain.readers, rs) ∷ (Chain.messengers, ms) ∷ (Chain.senders, ss) ∷ []

-- Where the four chains are intact and their semaphores free, the memory of all workers is
-- allocated and no part of it shared, and fuel is more than the workers of each chain,
-- sock_release returns: it has freed every worker, every host name and every buffer once, and
-- nothing else.
pub release-Released :
    (fuel : ℕ) (ls rs ms ss : List Held) (w : World)
    → Distinct (all_memory (chains ls rs ms ss))
    → AllReady fuel w (chains ls rs ms ss)
    → Returns (λ _ v. Released (all_memory (chains ls rs ms ss)) w v) (release fuel w)
unfolding release
release-Released fuel ls rs ms ss = release_all-Released fuel (chains ls rs ms ss)
