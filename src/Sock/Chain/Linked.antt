-- ===== src/Sock/Chain/Linked.antt =====
-- A daisy chain of workers as a list of addresses: the doubly linked segment, and what a write to
-- one worker does to it.
use c_axon.Base.{
  ℕ, ◌≡◌, refl, sym, ◌∙◌, subst, ◌≢◌, true, false, Option, none, some, List, [], ◌∷◌, ◌++◌, arith,
  ◌==◌, has, ne→==, Distinct, All,
}
use mathlib.Core.Bool.{false≢true}
use c_axon.Sock.State.{Ptr, null, Worker, WorkerList, Cell, worker, block, Heap}
use c_axon.Sock.Machine.{write}

-- The first address of `xs`, or `n` if there is none.
abbrev pub head_or : List Ptr → Ptr → Ptr
head_or [] n = n
head_or (x ∷ xs) n = x

-- The last address of `xs`, or `p` if there is none.
abbrev pub last_or : Ptr → List Ptr → Ptr
last_or p [] = p
last_or p (x ∷ xs) = last_or x xs

-- At `x` lies a worker with these neighbours.
pub record Node (h : Heap) (x p n : Ptr) : Type 0 where
  pub at : Worker
  pub holds : h x ≡ some (worker at)
  pub before : at.prev ≡ p
  pub after : at.next ≡ n

-- The workers at `xs` lead to one another both ways, from `p` before them to `n` behind them.
abbrev pub Linked : Heap → Ptr → List Ptr → Ptr → Type 0
Linked h p [] n = Unit {0}
Linked h p (x ∷ xs) n = Node h x p (head_or xs n) × Linked h x xs n

-- The chain `l` holds the workers at `xs`, in this order.
pub record IsChain (h : Heap) (l : WorkerList) (xs : List Ptr) : Type 0 where
  pub first : l.first ≡ head_or xs null
  pub last : l.last ≡ last_or null xs
  pub linked : Linked h null xs null
  pub distinct : Distinct xs
  pub proper : All (λ x. x ≢ null) xs

-- A cell without the links that chain its worker.
abbrev pub content : Option Cell → Option Cell
content none = none
content (some (worker k)) = some (worker (record k { prev = null; next = null }))
content (some (block b)) = some (block b)

abbrev pub SameContent : Heap → Heap → Type 0
SameContent h g = (a : Ptr) → content (g a) ≡ content (h a)

abbrev pub SameOutside : List Ptr → Heap → Heap → Type 0
SameOutside xs h g = (a : Ptr) → has a xs ≡ false → g a ≡ h a

pub frame :
    (h g : Heap) (p : Ptr) (xs : List Ptr) (n : Ptr)
    → ((a : Ptr) → has a xs ≡ true → g a ≡ h a)
    → Linked h p xs n
    → Linked g p xs n
frame h g p [] n same l = tt
frame h g p (x ∷ xs) n same l = (
  record { at = l.0.at; holds = ground (arith, same x); before = l.0.before; after = l.0.after },
  frame h g x xs n (λ a i. same a (ground arith)) l.1,
)

pub frame-write :
    (h : Heap) (a : Ptr) (c : Option Cell) (p : Ptr) (xs : List Ptr) (n : Ptr)
    → has a xs ≡ false
    → Linked h p xs n
    → Linked (write a c h) p xs n
unfolding write
frame-write h a c p xs n out l = frame h (write a c h) p xs n (λ b i. ground arith) l

pub write-other : (h : Heap) (a b : Ptr) (c : Option Cell) → (b == a) ≡ false → write a c h b ≡ h b
unfolding write
write-other h a b c e = rw e

pub write-same : (h : Heap) (a : Ptr) (c : Option Cell) → write a c h a ≡ c
unfolding write
write-same h a c = ground arith

-- A number in a list is not one outside it.
pub has-ne : (a b : ℕ) (xs : List ℕ) → has a xs ≡ false → has b xs ≡ true → (a == b) ≡ false
has-ne a b xs out i =
    ne→== a b (λ (e : a ≡ b). false≢true (sym out ∙ subst (λ c. has c xs ≡ true) (sym e) i))

pub has-last_or : (x : Ptr) (xs : List Ptr) → has (last_or x xs) (x ∷ xs) ≡ true
has-last_or x [] = ground arith
has-last_or x (y ∷ ys) = ground (arith, has-last_or y ys)

pub last_or-append : (p : Ptr) (xs ys : List Ptr) → last_or p (xs ++ ys) ≡ last_or (last_or p xs) ys
last_or-append p [] ys = refl
last_or-append p (x ∷ xs) ys = last_or-append x xs ys

pub head_or-append : (xs ys : List Ptr) (n : Ptr) → head_or (xs ++ ys) n ≡ head_or xs (head_or ys n)
head_or-append [] ys n = refl
head_or-append (x ∷ xs) ys n = refl

pub split :
    (h : Heap) (p : Ptr) (xs ys : List Ptr) (n : Ptr)
    → Linked h p (xs ++ ys) n
    → Linked h p xs (head_or ys n) × Linked h (last_or p xs) ys n
split h p [] ys n l = (tt, l)
split h p (x ∷ xs) ys n l =
    let r = split h x xs ys n l.1 in
    (
      (
        record {
          at = l.0.at;
          holds = l.0.holds;
          before = l.0.before;
          after = ground (arith, head_or-append xs ys n);
        },
        r.0,
      ),
      r.1,
    )

pub join :
    (h : Heap) (p : Ptr) (xs ys : List Ptr) (n : Ptr)
    → Linked h p xs (head_or ys n)
    → Linked h (last_or p xs) ys n
    → Linked h p (xs ++ ys) n
join h p [] ys n l r = r
join h p (x ∷ xs) ys n l r = (
  record {
    at = l.0.at;
    holds = l.0.holds;
    before = l.0.before;
    after = ground (arith, head_or-append xs ys n);
  },
  join h x xs ys n l.1 r,
)

-- The last worker of a segment, and the segment after its `next` is set.
pub relink_last :
    (h : Heap) (p y : Ptr) (ys : List Ptr) (n m : Ptr)
    → Distinct (y ∷ ys)
    → Linked h p (y ∷ ys) n
    → (k : Worker) × (h (last_or y ys) ≡ some (worker k))
      × Linked (write (last_or y ys) (some (worker (record k { next = m }))) h) p (y ∷ ys) m
unfolding write
relink_last h p y [] n m d l = (
  l.0.at,
  l.0.holds,
  (
    record {
      at = record l.0.at { next = m };
      holds = ground arith;
      before = l.0.before;
      after = refl;
    },
    tt,
  ),
)
relink_last h p y (z ∷ zs) n m d l =
    let r = relink_last h y z zs n m d.1 l.1 in
    (
      r.0,
      r.1,
      (
        record {
          at = l.0.at;
          holds =
              write-other h (last_or z zs) y _
                (has-ne y (last_or z zs) (z ∷ zs) d.0 (has-last_or z zs))
              ∙ l.0.holds;
          before = l.0.before;
          after = l.0.after;
        },
        r.2,
      ),
    )

-- The first worker of a segment, and the segment after its `prev` is set.
pub relink_first :
    (h : Heap) (p q y : Ptr) (ys : List Ptr) (n : Ptr)
    → Distinct (y ∷ ys)
    → (l : Linked h p (y ∷ ys) n)
    → Linked (write y (some (worker (record l.0.at { prev = q }))) h) q (y ∷ ys) n
unfolding write
relink_first h p q y ys n d l = (
  record {
    at = record l.0.at { prev = q };
    holds = ground arith;
    before = refl;
    after = l.0.after;
  },
  frame-write h y (some (worker (record l.0.at { prev = q }))) y ys n d.0 l.1,
)

pub frame-IsChain :
    (h : Heap) (a : Ptr) (c : Option Cell) (l : WorkerList) (xs : List Ptr)
    → has a xs ≡ false
    → IsChain h l xs
    → IsChain (write a c h) l xs
frame-IsChain h a c l xs out is = record {
  first = is.first;
  last = is.last;
  linked = frame-write h a c null xs null out is.linked;
  distinct = is.distinct;
  proper = is.proper;
}

pub last_proper : (y : Ptr) (ys : List Ptr) → All (λ x. x ≢ null) (y ∷ ys) → last_or y ys ≢ null
last_proper y [] h = h.0
last_proper y (z ∷ zs) h = last_proper z zs h.1
