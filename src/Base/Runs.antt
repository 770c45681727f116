-- ===== src/Base/Runs.antt =====
-- What a piece of C code does to a state: it returns a value, or meets undefined behaviour, or
-- waits for a semaphore that nobody releases, or (a loop on fuel) has not finished.
use mathlib.Core.Path.{◌≡◌, refl}

pub data Run {ℓ} (S : Type 0) (A : Type ℓ) : Type ℓ where
  ok : A → S → Run S A
  fault : Run S A
  blocked : Run S A
  out_of_fuel : Run S A

abbrev pub Cmd {ℓ} : Type 0 → Type ℓ → Type ℓ
Cmd S A = S → Run S A

abbrev pub pure {ℓ} : {S : Type 0} {A : Type ℓ} → A → Cmd S A
pure a s = ok a s

abbrev pub and_then {ℓ κ} :
    {S : Type 0} {A : Type ℓ} {B : Type κ} → Run S A → (A → Cmd S B) → Run S B
and_then (ok a s) k = k a s
and_then fault k = fault
and_then blocked k = blocked
and_then out_of_fuel k = out_of_fuel

infixl 5 ◌>>=◌ ◌>>◌
abbrev pub ◌>>=◌ {ℓ κ} : {S : Type 0} {A : Type ℓ} {B : Type κ} → Cmd S A → (A → Cmd S B) → Cmd S B
◌>>=◌ m k s = and_then (m s) k

abbrev pub ◌>>◌ {ℓ κ} : {S : Type 0} {A : Type ℓ} {B : Type κ} → Cmd S A → Cmd S B → Cmd S B
◌>>◌ m k s = and_then (m s) (λ _. k)

-- The run of a part of the state, put back into the whole.
abbrev pub zoom {ℓ} : {S T : Type 0} {A : Type ℓ} → (S → T) → (T → S → S) → Cmd T A → Cmd S A
zoom get put m s = elim (m (get s)) [
  | ok a t ↦ ok a (put t s)
  | fault ↦ fault
  | blocked ↦ blocked
  | out_of_fuel ↦ out_of_fuel
]

-- The run returns, and its value and final state meet `P`.
abbrev pub Returns {ℓ} : {S : Type 0} {A : Type ℓ} → (A → S → Type 0) → Run S A → Type 0
Returns P (ok a s) = P a s
Returns P fault = ⊥
Returns P blocked = ⊥
Returns P out_of_fuel = ⊥

module _ {ℓ κ} {S : Type 0} {A : Type ℓ} {B : Type κ} where
  -- A run that returns goes on with its value.
  pub and_then-Returns :
      (P : A → S → Type 0) (Q : B → S → Type 0) (r : Run S A) (k : A → Cmd S B)
      → Returns P r
      → ((a : A) (s : S) → P a s → Returns Q (k a s))
      → Returns Q (and_then r k)
  and_then-Returns P Q (ok a s) k p next = next a s p
  and_then-Returns P Q fault k p next = absurd p
  and_then-Returns P Q blocked k p next = absurd p
  and_then-Returns P Q out_of_fuel k p next = absurd p

  -- Inversion of a sequence that returns.
  pub and_then-eq-ok :
      (r : Run S A) (k : A → Cmd S B) {b : B} {t : S}
      → and_then r k ≡ ok b t
      → (a : A) × (s : S) × (r ≡ ok a s) × (k a s ≡ ok b t)
  and_then-eq-ok (ok a s) k e = (a, s, refl, e)
  and_then-eq-ok fault k e = cc
  and_then-eq-ok blocked k e = cc
  and_then-eq-ok out_of_fuel k e = cc

-- A postcondition may be weakened.
pub Returns-mono {ℓ} :
    {S : Type 0} {A : Type ℓ} (P Q : A → S → Type 0) (r : Run S A)
    → Returns P r
    → ((a : A) (s : S) → P a s → Q a s)
    → Returns Q r
Returns-mono P Q (ok a s) p weaken = weaken a s p
Returns-mono P Q fault p weaken = absurd p
Returns-mono P Q blocked p weaken = absurd p
Returns-mono P Q out_of_fuel p weaken = absurd p

-- The end of a run that returns.
pub Returns-eq {ℓ} :
    {S : Type 0} {A : Type ℓ} (P : A → S → Type 0) (r : Run S A)
    → Returns P r
    → (a : A) × (s : S) × (r ≡ ok a s) × P a s
Returns-eq P (ok a s) p = (a, s, refl, p)
Returns-eq P fault p = absurd p
Returns-eq P blocked p = absurd p
Returns-eq P out_of_fuel p = absurd p

module _ {ℓ κ μ} {S : Type 0} {A : Type ℓ} {B : Type κ} {C : Type μ} where
  pub and_then_assoc :
      (r : Run S A) (k : A → Cmd S B) (j : B → Cmd S C)
      → and_then (and_then r k) j ≡ and_then r (λ a s. and_then (k a s) j)
  and_then_assoc (ok a s) k j = refl
  and_then_assoc fault k j = refl
  and_then_assoc blocked k j = refl
  and_then_assoc out_of_fuel k j = refl

-- Sequences whose second parts agree.
pub and_then_cong {ℓ κ} :
    {S : Type 0} {A : Type ℓ} {B : Type κ} (r : Run S A) (k j : A → Cmd S B)
    → ((a : A) (s : S) → k a s ≡ j a s)
    → and_then r k ≡ and_then r j
and_then_cong (ok a s) k j e = e a s
and_then_cong fault k j e = refl
and_then_cong blocked k j e = refl
and_then_cong out_of_fuel k j e = refl
