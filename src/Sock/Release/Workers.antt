-- ===== src/Sock/Release/Workers.antt =====
-- The loop of sock_release over one chain.
use c_axon.Base.{
  ℕ, zero, suc, ◌<◌, ◌≡◌, ◌≢◌, sym, ◌∙◌, ap, refl, subst, true, false, some, List, [], ◌∷◌, arith,
  length, has, has-head, has-right, Distinct, Distinct-split, All-split, apart_symm, All, Returns,
  Returns-mono, and_then-Returns,
}
use c_axon.Sock.State.{Ptr, null, Worker, Chain, worker, Heap, World, Event}
use c_axon.Sock.Machine.{free}
use c_axon.Sock.Machine.Steps.{load_worker-ok, not_null}
use c_axon.Sock.Chain.Linked.{Linked, head_or, frame}
use c_axon.Sock.Release.{release_role, release_workers}
use c_axon.Sock.Release.Freed.{
  Held, addrs, memory, IsHeld, Live, Released, Released-trans, Released-free, release_role-Released,
  Live-Released,
}

-- The workers lie in their memory.
pub addrs_in : (xs : List Held) (a : Ptr) → has a (addrs xs) ≡ true → has a (memory xs) ≡ true
addrs_in [] a i = i
addrs_in (x ∷ xs) a i = has-right a x.owns (x.addr ∷ memory xs) (ground (arith, addrs_in xs a))

pub held_frame :
    (c : Chain) (h g : Heap) (xs : List Held)
    → ((a : Ptr) → has a (addrs xs) ≡ true → g a ≡ h a)
    → All (IsHeld c h) xs
    → All (IsHeld c g) xs
held_frame c h g [] same is = tt
held_frame c h g (x ∷ xs) same is = (
  record {
    at = is.0.at;
    holds = same x.addr (has-head x.addr (addrs xs)) ∙ is.0.holds;
    owner = is.0.owner;
    fit = is.0.fit;
  },
  held_frame c h g xs (λ a i. same a (has-right a (x.addr ∷ []) (addrs xs) i)) is.1,
)

-- What was not freed is as it was.
pub kept :
    (ps : List Ptr) (w v : World)
    → Released ps w v
    → (a : Ptr) → has a ps ≡ false
    → v.heap a ≡ w.heap a
kept ps w v r a out = r.heap a ∙ rw out refl

-- What the loop over a chain needs of the memory.
pub record Intact (c : Chain) (p : Ptr) (xs : List Held) (h : Heap) : Type 0 where
  pub linked : Linked h p (addrs xs) null
  pub held : All (IsHeld c h) xs
  pub distinct : Distinct (memory xs)
  pub live : Live h (memory xs)

-- The rest of the chain is intact once the first worker is freed.
Intact-rest :
    (c : Chain) (p : Ptr) (x : Held) (xs : List Held) (w v u : World)
    → Intact c p (x ∷ xs) w.heap
    → Released x.owns w v
    → Released (x.addr ∷ []) v u
    → Live v.heap (x.addr ∷ memory xs)
    → Intact c x.addr xs u.heap
Intact-rest c p x xs w v u is one two live =
    let parts = Distinct-split x.owns (x.addr ∷ memory xs) is.distinct in
    let apart : (a : Ptr) → has a (memory xs) ≡ true → has a (x.addr ∷ []) ≡ false =
      apart_symm (x.addr ∷ []) (memory xs) (Distinct-split (x.addr ∷ []) (memory xs) parts.1).2 in
    let same : (a : Ptr) → has a (addrs xs) ≡ true → u.heap a ≡ w.heap a = λ a i.
      let j = addrs_in xs a i in
      kept (x.addr ∷ []) v u two a (apart a j)
      ∙ kept x.owns w v one a (
          apart_symm x.owns (x.addr ∷ memory xs) parts.2 a
            (has-right a (x.addr ∷ []) (memory xs) j)) in
    record {
      linked = frame w.heap u.heap x.addr (addrs xs) null same is.linked.1;
      held = held_frame c w.heap u.heap xs same is.held.1;
      distinct = parts.1.1;
      live = Live-Released (x.addr ∷ []) (memory xs) v u apart two live.1;
    }

worker_same :
    (h : Heap) (a : Ptr) (k j : Worker) → h a ≡ some (worker k) → h a ≡ some (worker j) → k ≡ j
worker_same h a k j e f = cc

-- The loop over a chain frees every worker, and what it owns, once.
pub release_workers-Released :
    (c : Chain) (fuel : ℕ) (p : Ptr) (xs : List Held) (w : World)
    → length xs < fuel
    → Intact c p xs w.heap
    → Returns (λ _ v. Released (memory xs) w v) (release_workers fuel c (head_or (addrs xs) null) w)
unfolding release_workers
release_workers-Released c zero p xs w lt is = absurd (omega arith)
release_workers-Released c (suc fuel) p [] w lt is = record {
  heap = λ a. refl;
  sock = refl;
  self = refl;
}
release_workers-Released c (suc fuel) p (x ∷ xs) w lt is =
    let k = is.held.0.at in
    let (mine, others) = All-split _ x.owns (x.addr ∷ memory xs) is.live in
    let ne : x.addr ≢ null = others.0.0 in
    let same : is.linked.0.at ≡ k =
      worker_same w.heap x.addr _ _ is.linked.0.holds is.held.0.holds in
    let after : k.next ≡ head_or (addrs xs) null =
      ap (λ (j : Worker). j.next) (sym same) ∙ is.linked.0.after in
    let w1 : World = record w { log = Event.joined k.thread ∷ Event.cancelled k.thread ∷ w.log } in
    rw (not_null x.addr ne, load_worker-ok x.addr k w ne is.held.0.holds, is.held.0.fit)
      (and_then-Returns (λ _ v. Released x.owns w1 v) (λ _ v. Released (memory (x ∷ xs)) w v)
        (release_role k.role w1) _
        (subst (λ ps. Returns (λ _ v. Released ps w1 v) (release_role k.role w1)) is.held.0.owner
          (release_role-Released k.role w1 (subst (Live w.heap) (sym is.held.0.owner) mine)))
        λ _ v one.
          let live =
            Live-Released x.owns (x.addr ∷ memory xs) w1 v
              (apart_symm x.owns (x.addr ∷ memory xs)
                (Distinct-split x.owns (x.addr ∷ memory xs) is.distinct).2)
              one others in
          and_then-Returns (λ _ u. Released (x.addr ∷ []) v u)
            (λ _ u. Released (memory (x ∷ xs)) w u) (free x.addr v) _
            (Released-free x.addr live.0.1.0 v ne live.0.1.1)
            λ _ u two. rw after (
              Returns-mono (λ _ z. Released (memory xs) u z) (λ _ z. Released (memory (x ∷ xs)) w z)
                _
                (release_workers-Released c fuel x.addr xs u (omega arith)
                  (Intact-rest c p x xs w1 v u is one two live))
                λ _ z r.
                  let all =
                    Released-trans x.owns (x.addr ∷ memory xs) w1 v z one
                      (Released-trans (x.addr ∷ []) (memory xs) v u z two r) in
                  record { heap = all.heap; sock = all.sock; self = all.self }))
