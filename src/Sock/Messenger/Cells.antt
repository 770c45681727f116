-- ===== src/Sock/Messenger/Cells.antt =====
-- Memory that is allocated, filled and freed again.
use mathlib.Core.Path.{fun_ext}
use c_axon.Base.{
  ◌≡◌, sym, ◌∙◌, ap, refl, false, Option, none, ◌==◌, Bool-cases, eq_of_==, ne_of_==, ne→==, inl,
  inr, arith,
}
use c_axon.Sock.State.{Ptr, Heap, Cell}
use c_axon.Sock.Machine.{write}

-- The worker and its buffer are allocated and then filled.
pub fill_twice :
    (h : Heap) (p b : Ptr) (k j : Option Cell) (x y : Option Cell)
    → (p == b) ≡ false
    → write p j (write b y (write b x (write p k h))) ≡ write p j (write b y h)
unfolding write
fill_twice h p b k j x y apart = fun_ext λ a. ground arith

-- Another place was written while both were allocated; then both are freed.
pub free_both :
    (h : Heap) (p b q : Ptr) (k y c : Option Cell)
    → h p ≡ none
    → h b ≡ none
    → (q == p) ≡ false
    → (q == b) ≡ false
    → write p none (write b none (write q c (write p k (write b y h)))) ≡ write q c h
unfolding write
free_both h p b q k y c hp hb qp qb = fun_ext λ a. elim (Bool-cases (a == p)) [
  | inl same ↦
      let e = eq_of_== a p same in
      rw (same, ap (λ z. z == q) e, ne→== p q (λ f. ne_of_== q p qp (sym f)))
        (sym hp ∙ ap h (sym e))
  | inr other ↦ elim (Bool-cases (a == b)) [
    | inl same ↦
        let e = eq_of_== a b same in
        rw (other, same, ap (λ z. z == q) e, ne→== b q (λ f. ne_of_== q b qb (sym f)))
          (sym hb ∙ ap h (sym e))
    | inr away ↦ rw (other, away) refl
  ]
]

pub start_back :
    (h : Heap) (p b : Ptr) (k j y : Option Cell)
    → h p ≡ none
    → h b ≡ none
    → write p none (write b none (write p j (write p k (write b y h)))) ≡ h
unfolding write
start_back h p b k j y hp hb = fun_ext λ a. elim (Bool-cases (a == p)) [
  | inl same ↦ rw same (sym hp ∙ ap h (sym (eq_of_== a p same)))
  | inr other ↦ elim (Bool-cases (a == b)) [
    | inl same ↦ rw (other, same) (sym hb ∙ ap h (sym (eq_of_== a b same)))
    | inr away ↦ rw (other, away) refl
  ]
]

-- Nothing is freed where nothing is.
pub write-none : (h : Heap) (p : Ptr) → h p ≡ none → write p none h ≡ h
unfolding write
write-none h p e = fun_ext λ a. elim (Bool-cases (a == p)) [
  | inl same ↦ rw same (sym e ∙ ap h (sym (eq_of_== a p same)))
  | inr other ↦ rw other refl
]
