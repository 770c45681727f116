-- ===== src/Sock/Instance/Grow.antt =====
-- A worker that joins a chain keeps the instance sound.
use c_axon.Base.{
  ◌+◌, ◌≤◌, ◌≡◌, refl, sym, ◌∙◌, ap, subst, true, false, none, List, [], ◌∷◌, ◌++◌, All-append,
  count, count-has, count-append, count-not-has, has, has-append, arith, inl, inr, Bool-cases,
}
use c_axon.Sock.State.{Ptr, null, Chain, chain_of, Sock, World}
use c_axon.Sock.Chain.Linked.{IsChain, content}
use c_axon.Sock.Chain.Changed.{Changed, chain_of-set_chain_other, set_chain-clients}
use c_axon.Sock.Release.Freed.{Held, addrs, memory}
use c_axon.Sock.Release.Workers.{addrs_in}
use c_axon.Sock.Instance.{alloc, Item, Layout, put, Sound}
use c_axon.Sock.Instance.Frame.{alloc-content, none_of_alloc}
use c_axon.Sock.Instance.Rebuild.{Survive, Item-frame, Items-frame, rebuild, held_cell, none≢some}

pub addrs_snoc : (xs : List Held) (x : Held) → addrs (xs ++ x ∷ []) ≡ addrs xs ++ x.addr ∷ []
addrs_snoc [] x = refl
addrs_snoc (y ∷ ys) x = ap (◌∷◌ y.addr) (addrs_snoc ys x)

pub count-memory_append :
    (p : Ptr) (xs ys : List Held)
    → count p (memory (xs ++ ys)) ≡ count p (memory xs) + count p (memory ys)
count-memory_append p [] ys = ground arith
count-memory_append p (x ∷ xs) ys = ground (
  arith,
  count-memory_append p xs ys,
  count-append p x.owns (x.addr ∷ memory (xs ++ ys)),
  count-append p x.owns (x.addr ∷ memory xs),
)

-- All memory of one worker.
abbrev pub parts : Held → List Ptr
parts x = x.owns ++ x.addr ∷ []

-- From `w` to `v` the memory of `x` was allocated, where nothing was, and a worker of the chain `c`
-- was written there; the sock instance is as it was.
pub record Made (c : Chain) (x : Held) (w v : World) : Type 0 where
  pub unused : (a : Ptr) → has a (parts x) ≡ true → w.heap a ≡ none
  pub once : (a : Ptr) → count a (parts x) ≤ 1
  pub filled : (a : Ptr) → has a (parts x) ≡ true → alloc (v.heap a) ≡ 1
  pub kept : (a : Ptr) → has a (parts x) ≡ false → v.heap a ≡ w.heap a
  pub proper : has null (parts x) ≡ false
  pub item : Item c v.heap x
  pub sock : v.sock ≡ w.sock

module _ (c : Chain) (x : Held) (l : Layout) (w v w' : World) (so : Sound l w) (made : Made c x w v)
    (ch : Changed c (x.addr ∷ addrs (l c)) (addrs (l c) ++ x.addr ∷ []) v w') where
  balance_made : (p : Ptr) → alloc (v.heap p) ≡ alloc (w.heap p) + count p (parts x)
  balance_made p = elim (Bool-cases (has p (parts x))) [
    | inl new ↦ omega (
      arith,
      made.filled p new,
      ap alloc (made.unused p new),
      count-has p (parts x) new,
      made.once p,
    )
    | inr old ↦ omega (arith, ap alloc (made.kept p old), count-not-has p (parts x) old)
  ]

  old_apart : (a : Ptr) → has a (memory (l c)) ≡ true → has a (parts x) ≡ false
  old_apart a i = elim (Bool-cases (has a (parts x))) [
    | inr old ↦ old
    | inl new ↦
        let (cell, at) = held_cell l w so c a i in
        absurd (none≢some cell (sym (made.unused a new) ∙ at))
  ]

  old-Survive : Survive (parts x) w.heap w'.heap
  old-Survive a out cell at = ch.content a ∙ ap content (made.kept a out ∙ at)

  touched : List Ptr
  touched = parts x ++ addrs (l c)

  pub grow : Sound (put c (l c ++ x ∷ []) l) w'
  unfolding touched
  grow = rebuild c (l c ++ x ∷ []) touched l w w' so (record {
    chain =
        subst (λ ps. IsChain w'.heap (chain_of c w'.sock) ps) (sym (addrs_snoc (l c) x)) ch.chain;
    sem = ch.sem ∙ ap (λ s. (chain_of c s).sem) made.sock ∙ so.sem c;
    clients_sem =
        ap (λ (s : Sock). s.clients.sem) ch.rest
        ∙ ap (λ o. o.sem) (set_chain-clients c (chain_of c w'.sock) v.sock)
        ∙ ap (λ (s : Sock). s.clients.sem) made.sock
        ∙ so.clients_sem;
    items =
        All-append (Item c w'.heap) (l c) (x ∷ [])
          (Items-frame (parts x) c w.heap w'.heap (l c) old-Survive old_apart (so.items c))
          (
            Item-frame [] c v.heap w'.heap x (λ a out cell at. ch.content a ∙ ap content at)
                (λ a i. refl) made.item,
            tt,
          );
    rest = λ d e.
        ap (chain_of d) ch.rest
        ∙ chain_of-set_chain_other c d (chain_of c w'.sock) v.sock e
        ∙ ap (chain_of d) made.sock;
    mine = λ a i. elim (Bool-cases (has a (parts x))) [
      | inl new ↦ inr (made.unused a new)
      | inr old ↦ inl (addrs_in (l c) a (ground (arith, has-append a (parts x) (addrs (l c)))))
    ];
    outside = λ a out.
        ch.outside a
          (ground (arith, has-append a (parts x) (addrs (l c)), has-append a x.owns (x.addr ∷ [])))
        ∙ made.kept a (ground (arith, has-append a (parts x) (addrs (l c))));
    balance = λ p. omega (
      arith,
      alloc-content (w'.heap p) (v.heap p) (ch.content p),
      balance_made p,
      count-memory_append p (l c) (x ∷ []),
      count-append p x.owns (x.addr ∷ []),
    );
    null_free = none_of_alloc (w'.heap null) (
        alloc-content (w'.heap null) (v.heap null) (ch.content null)
        ∙ ap alloc (made.kept null made.proper ∙ so.null_free));
  })
