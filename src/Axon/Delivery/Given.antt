-- ===== src/Axon/Delivery/Given.antt =====
-- The fields that amp_decode gives out.
use c_axon.Base.{
  ◌+◌, ◌≤◌, ◌≡◌, refl, ◌∙◌, ap, true, false, List, [], ◌∷◌, arith, Returns, has, Distinct, ◌==◌,
  if◌then◌else◌, Bool-cases, inl, inr, length, and_then-Returns,
}
use c_axon.Sock.State.{Ptr}
use c_axon.Axon.State.{Field, Item, items, Msg, AxonWorld}
use c_axon.Axon.Amp.{alloc_all, alloc_msg}
use c_axon.Axon.Message.Fields.{addrs}

-- From `a` to `a'` the fields `fs` were allocated for these items, at addresses not given out before.
pub record Given (is : List Item) (fs : List Field) (a a' : AxonWorld) : Type 0 where
  pub same : items fs ≡ is
  pub distinct : Distinct (addrs fs)
  pub new : (p : Ptr) → has p (addrs fs) ≡ true → a.next ≤ p
  pub live : (p : Ptr) → has p (addrs fs) ≡ true → a'.live p ≡ true
  pub others : (p : Ptr) → has p (addrs fs) ≡ false → a'.live p ≡ a.live p
  pub rest : a' ≡ record a { live = a'.live; next = a'.next }

-- The field that an item becomes, and the world with it.
abbrev placed : Item → AxonWorld → Field
placed i a = record { addr = a.next; type = i.type; value = i.value; size = i.size }

abbrev grown : AxonWorld → AxonWorld
grown a = record a { next = a.next + 1; live = λ p. if p == a.next then true else a.live p }

Given-cons :
    (i : Item) (is : List Item) (fs : List Field) (a a' : AxonWorld)
    → Given is fs (grown a) a'
    → Given (i ∷ is) (placed i a ∷ fs) a a'
Given-cons i is fs a a' g =
    let out : has a.next (addrs fs) ≡ false = elim (Bool-cases (has a.next (addrs fs))) [
      | inr free ↦ free
      | inl hit ↦ absurd (omega (arith, g.new a.next hit))
    ] in
    record {
      same = ap (◌∷◌ i) g.same;
      distinct = (out, g.distinct);
      new = λ p h. ground (arith, g.new p);
      live = λ p h. elim (Bool-cases (has p (addrs fs))) [
        | inl old ↦ g.live p old
        | inr other ↦ g.others p other ∙ ground arith
      ];
      others = λ p h. g.others p (ground arith) ∙ ground arith;
      rest = g.rest;
    }

pub alloc_all-Given :
    (is : List Item) (a : AxonWorld) → Returns (λ fs a'. Given is fs a a') (alloc_all is a)
unfolding alloc_all
alloc_all-Given [] a = record {
  same = refl;
  distinct = tt;
  new = λ p h. absurd (ground arith);
  live = λ p h. absurd (ground arith);
  others = λ p h. refl;
  rest = refl;
}
alloc_all-Given (i ∷ is) a =
    and_then-Returns (λ fs a'. Given is fs (grown a) a') (λ fs a'. Given (i ∷ is) fs a a')
      (alloc_all is (grown a)) _ (alloc_all-Given is (grown a)) λ fs a'. Given-cons i is fs a a'

pub alloc_msg-Given :
    (is : List Item) (a : AxonWorld)
    → Returns (λ m a'. Given is m.fields a a' × (m.count ≡ length is)) (alloc_msg is a)
unfolding alloc_msg
alloc_msg-Given is a =
    and_then-Returns (λ fs a'. Given is fs a a')
      (λ (m : Msg) a'. Given is m.fields a a' × (m.count ≡ length is)) (alloc_all is a) _
      (alloc_all-Given is a) λ fs a' g. (g, refl)
