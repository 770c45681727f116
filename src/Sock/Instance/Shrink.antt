-- ===== src/Sock/Instance/Shrink.antt =====
-- A worker that ends keeps the instance sound.
use c_axon.Base.{
  ◌+◌, ◌≤◌, ◌≡◌, refl, sym, ◌∙◌, ap, subst, true, false, none, List, [], ◌∷◌, ◌++◌, All, All-append,
  All-split, count, count-append, count-has, count-not-has, has, has-append, arith, ◌==◌, ◌||◌, inl,
  inr, Bool-cases, eq_of_==,
}
use c_axon.Sock.State.{Ptr, null, Chain, chain_of, World}
use c_axon.Sock.Chain.Linked.{IsChain, content}
use c_axon.Sock.Chain.Changed.{chain_eq}
use c_axon.Sock.Chain.Ended.{Ended}
use c_axon.Sock.Release.Freed.{Held, addrs, memory}
use c_axon.Sock.Release.Workers.{addrs_in}
use c_axon.Sock.Instance.{alloc, Item, Layout, put, Sound}
use c_axon.Sock.Instance.Frame.{alloc-content, none_of_alloc, alloc_bound, count_le_tally}
use c_axon.Sock.Instance.Rebuild.{Survive, Items-frame, rebuild}
use c_axon.Sock.Instance.Grow.{count-memory_append}

pub addrs-append : (xs ys : List Held) → addrs (xs ++ ys) ≡ addrs xs ++ addrs ys
addrs-append [] ys = refl
addrs-append (x ∷ xs) ys = ap (◌∷◌ x.addr) (addrs-append xs ys)

has-memory_append :
    (a : Ptr) (xs ys : List Held)
    → has a (memory (xs ++ ys)) ≡ (has a (memory xs) || has a (memory ys))
has-memory_append a [] ys = refl
has-memory_append a (x ∷ xs) ys = ground (
  arith,
  has-memory_append a xs ys,
  has-append a x.owns (x.addr ∷ memory (xs ++ ys)),
  has-append a x.owns (x.addr ∷ memory xs),
)

-- The workers `xs` and `ys`, with one between them at `p` that owns `buffer`.
abbrev pub around : Ptr → Ptr → List Held → List Held → List Held
around p buffer xs ys = xs ++ record { addr = p; owns = buffer ∷ [] } ∷ ys

-- A worker and the memory it owns.
abbrev pub parts : Held → List Ptr
parts x = x.owns ++ x.addr ∷ []

-- From `w` to `w'` the memory `gone` was freed and the chain `c` came to hold `xs`. What else lies in
-- memory is as before, but for the links of workers of the chain; so are the other chains, and the
-- semaphore of the clients.
pub record Left (c : Chain) (gone xs : List Ptr) (w w' : World) : Type 0 where
  pub chain : IsChain w'.heap (chain_of c w'.sock) xs
  pub sem : (chain_of c w'.sock).sem ≡ (chain_of c w.sock).sem
  pub freed : (a : Ptr) → has a gone ≡ true → w'.heap a ≡ none
  pub others : (a : Ptr) → has a gone ≡ false → content (w'.heap a) ≡ content (w.heap a)
  pub outside : (a : Ptr) → has a gone ≡ false → has a xs ≡ false → w'.heap a ≡ w.heap a
  pub rest : (d : Chain) → chain_eq c d ≡ false → chain_of d w'.sock ≡ chain_of d w.sock
  pub clients_sem : w'.sock.clients.sem ≡ w.sock.clients.sem

pub Ended-Left :
    (c : Chain) (p buffer : Ptr) (xs : List Ptr) (w w' : World)
    → Ended c p buffer xs w w'
    → Left c (buffer ∷ p ∷ []) xs w w'
Ended-Left c p buffer xs w w' end = record {
  chain = end.chain;
  sem = end.sem;
  freed = λ a i. elim (Bool-cases (a == p)) [
    | inl at_p ↦ ap (λ x. w'.heap x) (eq_of_== a p at_p) ∙ end.freed
    | inr off ↦ ap (λ x. w'.heap x) (eq_of_== a buffer (ground arith)) ∙ end.buffer_freed
  ];
  others = λ a out. end.others a (ground arith) (ground arith);
  outside = λ a out. end.outside a (ground arith) (ground arith);
  rest = end.rest;
  clients_sem = end.clients_sem;
}

has-append_out :
    (a : Ptr) (xs ys : List Ptr)
    → has a (xs ++ ys) ≡ false
    → (has a xs ≡ false) × (has a ys ≡ false)
has-append_out a xs ys out =
    (ground (arith, has-append a xs ys), ground (arith, has-append a xs ys))

count-around :
    (a : Ptr) (x : Held) (xs ys : List Held)
    → count a (memory (xs ++ x ∷ ys)) ≡ count a (memory (xs ++ ys)) + count a (parts x)
count-around a x xs ys = ground (
  arith,
  count-memory_append a xs (x ∷ ys),
  count-memory_append a xs ys,
  count-append a x.owns (x.addr ∷ memory ys),
  count-append a x.owns (x.addr ∷ []),
)

in_around :
    (a : Ptr) (x : Held) (xs ys : List Held)
    → has a (parts x ++ (addrs xs ++ addrs ys)) ≡ true
    → has a (memory (xs ++ x ∷ ys)) ≡ true
in_around a x xs ys hit = ground (
  arith,
  has-memory_append a xs (x ∷ ys),
  has-append a x.owns (x.addr ∷ memory ys),
  has-append a (parts x) (addrs xs ++ addrs ys),
  has-append a x.owns (x.addr ∷ []),
  has-append a (addrs xs) (addrs ys),
  addrs_in xs a,
  addrs_in ys a,
)

module _ (c : Chain) (x : Held) (xs ys : List Held) (l : Layout) (v w' : World) (so : Sound l v)
    (stands : l c ≡ xs ++ x ∷ ys) (end : Left c (parts x) (addrs xs ++ addrs ys) v w') where
  count_around :
      (a : Ptr) → count a (memory (l c)) ≡ count a (memory (xs ++ ys)) + count a (parts x)
  count_around a = ap (λ zs. count a (memory zs)) stands ∙ count-around a x xs ys

  at_most_once : (a : Ptr) → count a (memory (l c)) ≤ 1
  at_most_once a = omega (arith, count_le_tally a c l, so.balance a, alloc_bound (v.heap a))

  balance_end :
      (a : Ptr)
      → alloc (w'.heap a) + count a (memory (l c)) ≡ alloc (v.heap a) + count a (memory (xs ++ ys))
  balance_end a = elim (Bool-cases (has a (parts x))) [
    | inl i ↦ omega (
      arith,
      ap alloc (end.freed a i),
      count-has a (parts x) i,
      count_around a,
      count_le_tally a c l,
      so.balance a,
      alloc_bound (v.heap a),
    )
    | inr away ↦ omega (
      arith,
      alloc-content (w'.heap a) (v.heap a) (end.others a away),
      count_around a,
      count-not-has a (parts x) away,
    )
  ]

  kept_apart : (a : Ptr) → has a (memory (xs ++ ys)) ≡ true → has a (parts x) ≡ false
  kept_apart a i = elim (Bool-cases (has a (parts x))) [
    | inr out ↦ out
    | inl both ↦ absurd (
        omega (
          arith,
          count_around a,
          at_most_once a,
          count-has a (memory (xs ++ ys)) i,
          count-has a (parts x) both,
        ))
  ]

  survive : Survive (parts x) v.heap w'.heap
  survive a out cell at = end.others a out ∙ ap content at

  shrink_items : All (Item c w'.heap) (xs ++ ys)
  shrink_items =
      let its = subst (All (Item c v.heap)) stands (so.items c) in
      let (front, back) = All-split (Item c v.heap) xs (x ∷ ys) its in
      Items-frame (parts x) c v.heap w'.heap (xs ++ ys) survive kept_apart
        (All-append (Item c v.heap) xs ys front back.1)

  touched : List Ptr
  touched = parts x ++ (addrs xs ++ addrs ys)

  was_mine : (a : Ptr) → has a touched ≡ true → has a (memory (l c)) ≡ true
  unfolding touched
  was_mine a hit = subst (λ zs. has a (memory zs) ≡ true) (sym stands) (in_around a x xs ys hit)

  pub shrink : Sound (put c (xs ++ ys) l) w'
  unfolding touched
  shrink = rebuild c (xs ++ ys) touched l v w' so (record {
    chain = subst (IsChain w'.heap (chain_of c w'.sock)) (sym (addrs-append xs ys)) end.chain;
    sem = end.sem ∙ so.sem c;
    clients_sem = end.clients_sem ∙ so.clients_sem;
    items = shrink_items;
    rest = end.rest;
    mine = λ a hit. inl (was_mine a hit);
    outside = λ a out.
        let (clear, unlinked) = has-append_out a (parts x) (addrs xs ++ addrs ys) out in
        end.outside a clear unlinked;
    balance = balance_end;
    null_free =
        none_of_alloc (w'.heap null)
          (omega (arith, balance_end null, count_around null, ap alloc so.null_free));
  })
