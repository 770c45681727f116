-- ===== src/Axon/Message/Fields.antt =====
-- Fields that are freed one after the other.
use c_axon.Base.{
  ℕ, ◌≡◌, refl, sym, ◌∙◌, ap, true, false, List, [], ◌∷◌, ◌++◌, arith, fault, Returns, has,
  Distinct, if◌then◌else◌, has-append, ne→==, ne_of_==, has-head, has-right, and_then-Returns,
  Returns-mono,
}
use c_axon.Sock.State.{Ptr}
use c_axon.Sock.Chain.Linked.{has-ne}
use c_axon.Axon.State.{Field, AxonWorld, free_field}
use c_axon.Axon.Amp.{free_all}
use c_axon.Axon.Message.{last_field, before_last, detach_last}

abbrev pub addrs : List Field → List Ptr
addrs [] = []
addrs (f ∷ fs) = f.addr ∷ addrs fs

-- Every field is allocated, each at an address of its own.
abbrev pub AllLive : List Field → AxonWorld → Type 0
AllLive fs a = (p : Ptr) → has p (addrs fs) ≡ true → a.live p ≡ true

-- From `a` to `a'` the fields at `ps` were freed, and nothing else changed.
pub record Freed (ps : List Ptr) (a a' : AxonWorld) : Type 0 where
  pub live : (p : Ptr) → a'.live p ≡ (if has p ps then false else a.live p)
  pub rest : a' ≡ record a { live = a'.live }

pub Freed-trans :
    (ps qs : List Ptr) (a b c : AxonWorld) → Freed ps a b → Freed qs b c → Freed (ps ++ qs) a c
Freed-trans ps qs a b c f g = record {
  live = λ p. ground (arith, f.live p, g.live p, has-append p ps qs);
  rest = g.rest ∙ ap (λ (d : AxonWorld). record d { live = c.live }) f.rest;
}

pub free_field-Freed :
    (f : Field) (a : AxonWorld)
    → a.live f.addr ≡ true
    → Returns (λ _ a'. Freed (f.addr ∷ []) a a') (free_field f a)
unfolding free_field
free_field-Freed f a e = rw e (record { live = λ p. ground arith; rest = refl })

-- A field that is freed already is a fault.
pub free_field-fault : (f : Field) (a : AxonWorld) → a.live f.addr ≡ false → free_field f a ≡ fault
unfolding free_field
free_field-fault f a e = rw e

pub free_all-Freed :
    (fs : List Field) (a : AxonWorld)
    → Distinct (addrs fs)
    → AllLive fs a
    → Returns (λ _ a'. Freed (addrs fs) a a') (free_all fs a)
unfolding free_all
free_all-Freed [] a d l = record { live = λ p. refl; rest = refl }
free_all-Freed (f ∷ fs) a d l =
    and_then-Returns (λ _ b. Freed (f.addr ∷ []) a b) _ (free_field f a) _
      (free_field-Freed f a (l f.addr (has-head f.addr (addrs fs))))
      λ _ b first.
        Returns-mono (λ _ c. Freed (addrs fs) b c) (λ _ c. Freed (addrs (f ∷ fs)) a c) _
          (free_all-Freed fs b d.1 (still_live b first))
          λ _ c. Freed-trans (f.addr ∷ []) (addrs fs) a b c first
  where
    still_live : (b : AxonWorld) → Freed (f.addr ∷ []) a b → AllLive fs b
    still_live b first p i =
        let other = has-ne f.addr p (addrs fs) d.0 i in
        first.live p
        ∙ rw (ne→== p f.addr (λ e. ne_of_== f.addr p other (sym e)))
            (l p (has-right p (f.addr ∷ []) (addrs fs) i))

-- Taking off the last field and putting it back.
pub detach_last-append :
    (f g : Field) (gs : List Field) (count : ℕ)
    → (detach_last f (g ∷ gs) count).fields ++ last_field f (g ∷ gs) ∷ [] ≡ f ∷ g ∷ gs
unfolding detach_last before_last last_field
detach_last-append f g [] count = refl
detach_last-append f g (h ∷ hs) count = ap (◌∷◌ f) (detach_last-append g h hs count)

pub addrs-append : (fs gs : List Field) → addrs (fs ++ gs) ≡ addrs fs ++ addrs gs
addrs-append [] gs = refl
addrs-append (f ∷ fs) gs = ap (◌∷◌ f.addr) (addrs-append fs gs)
