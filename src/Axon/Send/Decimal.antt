-- ===== src/Axon/Send/Decimal.antt =====
-- Decimal numbers as snprintf prints them.
use native.Mathlib.Nat.{pow-suc}
use c_axon.Base.{
  ℕ, zero, suc, ◌+◌, ◌-◌, ◌*◌, ◌/◌, ◌%◌, ◌^◌, ◌<◌, ◌≤◌, ◌≡◌, refl, ◌∙◌, [], ◌∷◌, ◌++◌, arith, ltb,
  if◌then◌else◌, Bytes, length, length-append, Bool-cases, inl, inr,
}

-- The digits of a number below 10 ^ fuel, the first digit first.
unfoldable pub digits : ℕ → ℕ → Bytes
digits zero n = []
digits (suc fuel) n =
    let rest = digits fuel (n / 10) ++ (b'0' + n % 10) ∷ [] in
    if ltb n 10 then (b'0' + n) ∷ [] else rest

-- Ten digits are enough for an int and for an unsigned int.
unfoldable pub decimal : ℕ → Bytes
unfolding digits
decimal n = digits 10 n

-- The number that a row of digits stands for, behind the digits read so far.
abbrev pub value : ℕ → Bytes → ℕ
value acc [] = acc
value acc (d ∷ ds) = value (acc * 10 + (d - b'0')) ds

value-append :
    (acc : ℕ) (ds : Bytes) (d : ℕ) → value acc (ds ++ d ∷ []) ≡ value acc ds * 10 + (d - b'0')
value-append acc [] d = refl
value-append acc (e ∷ ds) d = value-append (acc * 10 + (e - b'0')) ds d

pub digits-value : (fuel n : ℕ) → n < 10 ^ fuel → value 0 (digits fuel n) ≡ n
unfolding digits
digits-value zero n h = omega arith
digits-value (suc fuel) n h = elim (Bool-cases (ltb n 10)) [
  | inl small ↦ rw small (omega arith)
  | inr large ↦ rw large (
      value-append 0 (digits fuel (n / 10)) (b'0' + n % 10)
      ∙ omega (arith, digits-value fuel (n / 10) (omega (arith, pow-suc 10 fuel))))
]

digits-length : (fuel n : ℕ) → length (digits fuel n) ≤ fuel
unfolding digits
digits-length zero n = omega arith
digits-length (suc fuel) n = elim (Bool-cases (ltb n 10)) [
  | inl small ↦ rw small (omega arith)
  | inr large ↦ rw large (
      omega (
        arith,
        length-append (digits fuel (n / 10)) ((b'0' + n % 10) ∷ []),
        digits-length fuel (n / 10),
      ))
]

-- Printing loses nothing below 10 ^ 10.
pub decimal-value : (n : ℕ) → n < 10 ^ 10 → value 0 (decimal n) ≡ n
unfolding decimal
decimal-value n h = digits-value 10 n h

pub decimal-length : (n : ℕ) → length (decimal n) ≤ 10
unfolding decimal
decimal-length n = digits-length 10 n
