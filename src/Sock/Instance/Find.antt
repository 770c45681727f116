-- ===== src/Sock/Instance/Find.antt =====
-- Which chain a worker stands in.
use c_axon.Base.{
  ◌≤◌, ◌≡◌, ◌≢◌, refl, sym, ◌∙◌, ap, subst, true, some, List, [], ◌∷◌, ◌++◌, Bytes, All,
  count-not-has, has, has-append, arith, ◌==◌, inl, inr, Bool-cases, eq_of_==,
}
use c_axon.Sock.State.{
  Ptr, null, Role, listenner, reader, messenger, sender, Worker, Chain, Cell, worker, block, Heap,
  World,
}
use c_axon.Sock.Release.{fits}
use c_axon.Sock.Release.Freed.{Held, memory, owned}
use c_axon.Sock.Instance.{alloc, Stores, Item, Layout, tally, Sound}
use c_axon.Sock.Instance.Rebuild.{none≢some}

pub Stores-block :
    (h : Heap) (r : Role) (a : Ptr)
    → Stores h r
    → has a (owned r) ≡ true
    → (b : Bytes) × (h a ≡ some (block b))
Stores-block h (listenner l) a st i = absurd (ground arith)
Stores-block h (reader r) a (b, e) i = (b, ap h (eq_of_== a r.hostname (ground arith)) ∙ e)
Stores-block h (messenger m) a (b, e) i = (b, ap h (eq_of_== a m.buffer (ground arith)) ∙ e)
Stores-block h (sender s) a (b, e, size, dest) i =
    (b, ap h (eq_of_== a s.buffer (ground arith)) ∙ e)

-- A place in a chain.
pub record Place (c : Chain) (p : Ptr) (k : Worker) (xs : List Held) : Type 0 where
  pub front : List Held
  pub back : List Held
  pub stands : xs ≡ front ++ record { addr = p; owns = owned k.role } ∷ back
  pub fit : fits c k.role ≡ true

Item-owns :
    (c : Chain) (h : Heap) (x : Held) (k : Worker)
    → Item c h x
    → h x.addr ≡ some (worker k)
    → (owned k.role ≡ x.owns) × (fits c k.role ≡ true)
Item-owns c h x k it e =
    let same : it.is_held.at ≡ k = cc in
    (
      ap (λ (j : Worker). owned j.role) (sym same) ∙ it.is_held.owner,
      ap (λ (j : Worker). fits c j.role) (sym same) ∙ it.is_held.fit,
    )

held_eta :
    (x : Held) (p : Ptr) (os : List Ptr)
    → p ≡ x.addr
    → os ≡ x.owns
    → x ≡ record { addr = p; owns = os }
held_eta x p os e f = rw (e, f) refl

here-Place :
    (c : Chain) (h : Heap) (p : Ptr) (k : Worker) (xs : List Held)
    → All (Item c h) xs
    → h p ≡ some (worker k)
    → has p (memory xs) ≡ true
    → Place c p k xs
here-Place c h p k [] its e i = absurd (ground arith)
here-Place c h p k (x ∷ xs) its e i = elim (Bool-cases (has p x.owns)) [
  | inl owned_by ↦
      let (b, at) =
        Stores-block h its.0.is_held.at.role p its.0.stores
          (subst (λ os. has p os ≡ true) (sym its.0.is_held.owner) owned_by) in
      absurd (ground (arith, at, e))
  | inr not_owned ↦ elim (Bool-cases (p == x.addr)) [
    | inl here ↦
        let at = eq_of_== p x.addr here in
        let (own, fit) = Item-owns c h x k its.0 (ap h (sym at) ∙ e) in
        record {
          front = [];
          back = xs;
          stands = ap (λ y. y ∷ xs) (held_eta x p (owned k.role) at own);
          fit = fit;
        }
    | inr further ↦
        let rest =
          here-Place c h p k xs its.1 e
            (ground (arith, has-append p x.owns (x.addr ∷ memory xs))) in
        record {
          front = x ∷ rest.front;
          back = rest.back;
          stands = ap (◌∷◌ x) rest.stands;
          fit = rest.fit;
        }
  ]
]

pub tally_in : (p : Ptr) (l : Layout) → 1 ≤ tally p l → (c : Chain) × (has p (memory (l c)) ≡ true)
tally_in p l le = elim (Bool-cases (has p (memory (l Chain.listenners)))) [
  | inl i ↦ (Chain.listenners, i)
  | inr n1 ↦ elim (Bool-cases (has p (memory (l Chain.readers)))) [
    | inl i ↦ (Chain.readers, i)
    | inr n2 ↦ elim (Bool-cases (has p (memory (l Chain.messengers)))) [
      | inl i ↦ (Chain.messengers, i)
      | inr n3 ↦ elim (Bool-cases (has p (memory (l Chain.senders)))) [
        | inl i ↦ (Chain.senders, i)
        | inr n4 ↦ absurd (
            omega (
              arith,
              le,
              count-not-has p (memory (l Chain.listenners)) n1,
              count-not-has p (memory (l Chain.readers)) n2,
              count-not-has p (memory (l Chain.messengers)) n3,
              count-not-has p (memory (l Chain.senders)) n4,
            ))
      ]
    ]
  ]
]

-- A worker that is allocated stands in one of the chains.
pub place :
    (l : Layout) (w : World) (p : Ptr) (k : Worker)
    → Sound l w
    → w.heap p ≡ some (worker k)
    → (c : Chain) × Place c p k (l c)
place l w p k so e =
    let (c, i) = tally_in p l (omega (arith, so.balance p, ap alloc e)) in
    (c, here-Place c w.heap p k (l c) (so.items c) e i)

-- What is allocated does not lie at the null pointer.
pub proper_of :
    (l : Layout) (w : World) (p : Ptr) (cell : Cell) → Sound l w → w.heap p ≡ some cell → p ≢ null
proper_of l w p cell so e q = none≢some cell (sym so.null_free ∙ ap w.heap (sym q) ∙ e)
