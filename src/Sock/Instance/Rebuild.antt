-- ===== src/Sock/Instance/Rebuild.antt =====
-- An operation on one chain keeps the instance sound: what has to be shown of it.
use c_axon.Base.{
  ◌+◌, ◌≡◌, sym, ◌∙◌, ap, subst, true, false, Option, none, some, List, [], ◌∷◌, ◌++◌, Bytes, All,
  count, count-has, has, has-append, has-head, has-left, has-right, arith, ◌⊎◌, inl, inr,
  Bool-cases,
}
use mathlib.Core.Bool.{false≢true}
use c_axon.Sock.State.{
  Ptr, null, Role, listenner, reader, messenger, sender, Chain, chain_of, WorkerList, Cell, worker,
  block, Heap, World,
}
use c_axon.Sock.Chain.Linked.{IsChain, content, frame}
use c_axon.Sock.Chain.Changed.{chain_eq, chain_eq-eq}
use c_axon.Sock.Chain.Ended.{content-block, role_kept}
use c_axon.Sock.Release.{fits}
use c_axon.Sock.Release.Freed.{Held, addrs, memory, owned}
use c_axon.Sock.Release.Workers.{addrs_in}
use c_axon.Sock.Instance.{alloc, Stores, Item, Layout, put, Sound}
use c_axon.Sock.Instance.Frame.{tally-put, count_le_tally, two_le_tally, alloc_bound, some_of_alloc}

-- What was allocated in `h` is the same in `g`, up to links, apart from `gone`.
abbrev pub Survive : List Ptr → Heap → Heap → Type 0
Survive gone h g =
    (a : Ptr)
    → has a gone ≡ false
    → (cell : Cell) → h a ≡ some cell
    → content (g a) ≡ content (some cell)

Block-frame :
    (gone : List Ptr) (h g : Heap) (a : Ptr) (b : Bytes)
    → Survive gone h g
    → has a gone ≡ false
    → h a ≡ some (block b)
    → g a ≡ some (block b)
Block-frame gone h g a b s out e = content-block (g a) b (s a out (block b) e)

pub Stores-frame :
    (gone : List Ptr) (h g : Heap) (r : Role)
    → Survive gone h g
    → ((a : Ptr) → has a (owned r) ≡ true → has a gone ≡ false)
    → Stores h r
    → Stores g r
Stores-frame gone h g (listenner l) s out st = tt
Stores-frame gone h g (reader r) s out (b, e) =
    (b, Block-frame gone h g r.hostname b s (out r.hostname (has-head r.hostname [])) e)
Stores-frame gone h g (messenger m) s out (b, e) =
    (b, Block-frame gone h g m.buffer b s (out m.buffer (has-head m.buffer [])) e)
Stores-frame gone h g (sender m) s out (b, e, size, dest) =
    (b, Block-frame gone h g m.buffer b s (out m.buffer (has-head m.buffer [])) e, size, dest)

pub Item-frame :
    (gone : List Ptr) (c : Chain) (h g : Heap) (x : Held)
    → Survive gone h g
    → ((a : Ptr) → has a (x.owns ++ x.addr ∷ []) ≡ true → has a gone ≡ false)
    → Item c h x
    → Item c g x
Item-frame gone c h g x s out it =
    let k = it.is_held.at in
    let (j, at, role) = role_kept (g x.addr) k (
      s x.addr (out x.addr (has-right x.addr x.owns (x.addr ∷ []) (has-head x.addr []))) (worker k)
        it.is_held.holds) in
    record {
      is_held = record {
        at = j;
        holds = at;
        owner = ap owned role ∙ it.is_held.owner;
        fit = ap (fits c) role ∙ it.is_held.fit;
      };
      stores = subst (Stores g) (sym role) (
          Stores-frame gone h g k.role s
            (λ a i.
              out a (
                has-left a x.owns (x.addr ∷ []) (subst (λ ps. has a ps ≡ true) it.is_held.owner i)))
            it.stores);
    }

pub Items-frame :
    (gone : List Ptr) (c : Chain) (h g : Heap) (xs : List Held)
    → Survive gone h g
    → ((a : Ptr) → has a (memory xs) ≡ true → has a gone ≡ false)
    → All (Item c h) xs
    → All (Item c g) xs
Items-frame gone c h g [] s out its = tt
Items-frame gone c h g (x ∷ xs) s out its = (
  Item-frame gone c h g x s
      (λ a i. out a (
        ground
          (arith, has-append a x.owns (x.addr ∷ []), has-append a x.owns (x.addr ∷ memory xs))))
      its.0,
  Items-frame gone c h g xs s
      (λ a i.
        out a (has-right a x.owns (x.addr ∷ memory xs) (has-right a (x.addr ∷ []) (memory xs) i)))
      its.1,
)

pub IsChain-frame :
    (h g : Heap) (l : WorkerList) (xs : List Ptr)
    → ((a : Ptr) → has a xs ≡ true → g a ≡ h a)
    → IsChain h l xs
    → IsChain g l xs
IsChain-frame h g l xs same is = record {
  first = is.first;
  last = is.last;
  linked = frame h g null xs null same is.linked;
  distinct = is.distinct;
  proper = is.proper;
}

module _ (l : Layout) (w : World) (so : Sound l w) where
  -- The memory of the workers is allocated.
  pub held_cell :
      (c : Chain) (a : Ptr) → has a (memory (l c)) ≡ true → (cell : Cell) × (w.heap a ≡ some cell)
  held_cell c a i = some_of_alloc (w.heap a) (
      omega (
        arith,
        count-has a (memory (l c)) i,
        count_le_tally a c l,
        so.balance a,
        alloc_bound (w.heap a),
      ))

  -- No memory belongs to two chains.
  pub chains_apart :
      (c d : Chain) (a : Ptr)
      → chain_eq c d ≡ false
      → has a (memory (l d)) ≡ true
      → has a (memory (l c)) ≡ false
  chains_apart c d a e i = elim (Bool-cases (has a (memory (l c)))) [
    | inr out ↦ out
    | inl both ↦ absurd (
        omega (
          arith,
          count-has a (memory (l c)) both,
          count-has a (memory (l d)) i,
          two_le_tally a c d l e,
          so.balance a,
          alloc_bound (w.heap a),
        ))
  ]

pub none≢some : (cell : Cell) → ◌≡◌ {A = Option Cell} none (some cell) → ⊥
none≢some cell q = cc

-- From `w` to `w'` the chain `c` came to hold `xs`; `touched` are the addresses that were written.
pub record Edit (c : Chain) (xs : List Held) (touched : List Ptr) (l : Layout) (w w' : World)
    : Type 0 where
  pub chain : IsChain w'.heap (chain_of c w'.sock) (addrs xs)
  pub sem : (chain_of c w'.sock).sem ≡ 1
  pub clients_sem : w'.sock.clients.sem ≡ 1
  pub items : All (Item c w'.heap) xs
  pub rest : (d : Chain) → chain_eq c d ≡ false → chain_of d w'.sock ≡ chain_of d w.sock
  pub mine : (a : Ptr) → has a touched ≡ true → (has a (memory (l c)) ≡ true) ⊎ (w.heap a ≡ none)
  pub outside : (a : Ptr) → has a touched ≡ false → w'.heap a ≡ w.heap a
  pub balance :
      (p : Ptr)
      → alloc (w'.heap p) + count p (memory (l c)) ≡ alloc (w.heap p) + count p (memory xs)
  pub null_free : w'.heap null ≡ none

module _ (c : Chain) (xs : List Held) (touched : List Ptr) (l : Layout) (w w' : World)
    (so : Sound l w) (ed : Edit c xs touched l w w') where
  -- The memory of another chain was not written.
  untouched :
      (d : Chain) (a : Ptr)
      → chain_eq c d ≡ false
      → has a (memory (l d)) ≡ true
      → has a touched ≡ false
  untouched d a e i = elim (Bool-cases (has a touched)) [
    | inr out ↦ out
    | inl hit ↦ elim (ed.mine a hit) [
      | inl own ↦ absurd (false≢true (sym (chains_apart l w so c d a e i) ∙ own))
      | inr gone ↦
          let (cell, at) = held_cell l w so d a i in absurd (none≢some cell (sym gone ∙ at))
    ]
  ]

  at_chain :
      (P : Chain → List Held → Type 0)
      → P c xs
      → ((d : Chain) → chain_eq c d ≡ false → P d (l d))
      → (d : Chain) → P d (put c xs l d)
  at_chain P new old d = elim (Bool-cases (chain_eq c d)) [
    | inl same ↦ rw same (subst (λ e. P e xs) (chain_eq-eq c d same) new)
    | inr other ↦ rw other (old d other)
  ]

  pub rebuild : Sound (put c xs l) w'
  rebuild = record {
    chain =
        at_chain (λ d ys. IsChain w'.heap (chain_of d w'.sock) (addrs ys)) ed.chain
          (λ d e.
            subst (λ o. IsChain w'.heap o (addrs (l d))) (sym (ed.rest d e))
              (IsChain-frame w.heap w'.heap (chain_of d w.sock) (addrs (l d))
                (λ a i. ed.outside a (untouched d a e (addrs_in (l d) a i))) (so.chain d)));
    sem =
        at_chain (λ d ys. (chain_of d w'.sock).sem ≡ 1) ed.sem
          (λ d e. ap (λ (o : WorkerList). o.sem) (ed.rest d e) ∙ so.sem d);
    clients_sem = ed.clients_sem;
    items =
        at_chain (λ d ys. All (Item d w'.heap) ys) ed.items
          (λ d e.
            Items-frame touched d w.heap w'.heap (l d)
              (λ a out cell at. ap content (ed.outside a out ∙ at)) (λ a i. untouched d a e i)
              (so.items d));
    balance = λ p. omega (arith, ed.balance p, so.balance p, tally-put p c xs l);
    null_free = ed.null_free;
  }
