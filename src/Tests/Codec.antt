-- ===== src/Tests/Codec.antt =====
-- An AMP library: a message with one field is written as the type, the size and the bytes of its
-- value, each byte behind a one, with a zero at the end.
use c_axon.Base.{
  ℕ, zero, suc, ◌≡◌, ◌≢◌, refl, sym, subst, ◌∙◌, ap, arith, Option-cases, inl, inr, Option, none,
  some, List, [], ◌∷◌, ◌++◌, Bytes, pure, ◌>>=◌,
}
use c_axon.Axon.Message.{bytes_of}
use c_axon.Axon.State.{Ax, AmpType, blob, string, bigint, json, Item, Msg, items, AxonWorld}
use c_axon.Axon.Amp.{Amp, IsAmp, push_last, free_all, alloc_msg}

abbrev code_of : AmpType → ℕ
code_of blob = 0
code_of string = 1
code_of bigint = 2
code_of json = 3

abbrev type_of : ℕ → AmpType
type_of zero = blob
type_of (suc zero) = string
type_of (suc (suc zero)) = bigint
type_of (suc (suc (suc n))) = json

type_of-code_of : (t : AmpType) → type_of (code_of t) ≡ t
type_of-code_of blob = refl
type_of-code_of string = refl
type_of-code_of bigint = refl
type_of-code_of json = refl

abbrev pub write_value : Bytes → Bytes
write_value [] = 0 ∷ []
write_value (c ∷ cs) = 1 ∷ c ∷ write_value cs

abbrev read_value : Bytes → Option (Bytes × Bytes)
read_value [] = none
read_value (zero ∷ rest) = some ([], rest)
read_value (suc n ∷ []) = none
read_value (suc n ∷ c ∷ rest) = elim (read_value rest) [
  | none ↦ none
  | some (v, left) ↦ some (c ∷ v, left)
]

read_value-write_value : (v rest : Bytes) → read_value (write_value v ++ rest) ≡ some (v, rest)
read_value-write_value [] rest = refl
read_value-write_value (c ∷ cs) rest = rw (read_value-write_value cs rest) refl

abbrev write_items : List Item → Option Bytes
write_items [] = none
write_items (i ∷ j ∷ is) = none
write_items (i ∷ []) = elim i.value [
  | none ↦ none
  | some v ↦ some (code_of i.type ∷ i.size ∷ write_value v)
]

abbrev build : ℕ → ℕ → Option (Bytes × Bytes) → Ax (Option (Msg × Bytes))
build t n none = pure none
build t n (some (v, left)) = do
  m ← alloc_msg (record { type = type_of t; value = some v; size = n } ∷ [])
  pure (some (m, left))

abbrev read_msg : Bytes → Ax (Option (Msg × Bytes))
read_msg [] = pure none
read_msg (t ∷ []) = pure none
read_msg (t ∷ n ∷ rest) = build t n (read_value rest)

abbrev pub codec : Amp
codec = record {
  push = push_last;
  encode = λ m. write_items (items m.fields);
  decode = read_msg;
  release = λ m. free_all m.fields;
}

-- Reading back what was written for one item.
read_item :
    (i : Item) (v rest : Bytes) (a : AxonWorld)
    → i.value ≡ some v
    → read_msg (code_of i.type ∷ i.size ∷ write_value v ++ rest) a
      ≡ (do m ← alloc_msg (i ∷ []); pure (some (m, rest))) a
read_item i v rest a e =
    ap (λ r. build (code_of i.type) i.size r a) (read_value-write_value v rest)
    ∙ ap (λ (j : Item). (do m ← alloc_msg (j ∷ []); pure (some (m, rest))) a)
        (λ k. record { type = type_of-code_of i.type k; value = sym e k; size = i.size })

write_one :
    (i : Item) (v : Bytes)
    → i.value ≡ some v
    → write_items (i ∷ []) ≡ some (code_of i.type ∷ i.size ∷ write_value v)
write_one i v q = rw q refl

read_msg-write_items :
    (is : List Item) (b rest : Bytes) (a : AxonWorld)
    → write_items is ≡ some b
    → read_msg (b ++ rest) a ≡ (do m ← alloc_msg is; pure (some (m, rest))) a
read_msg-write_items [] b rest a e = cc
read_msg-write_items (i ∷ j ∷ is) b rest a e = cc
read_msg-write_items (i ∷ []) b rest a e = elim (Option-cases i.value) [
  | inl q ↦ ground arith
  | inr (v, q) ↦
      subst (λ c. read_msg (c ++ rest) a ≡ (do m ← alloc_msg (i ∷ []); pure (some (m, rest))) a)
        (ap bytes_of (sym (write_one i v q) ∙ e)) (read_item i v rest a q)
]

write_items-ne_nil : (is : List Item) → write_items is ≢ some []
write_items-ne_nil [] e = cc
write_items-ne_nil (i ∷ j ∷ is) e = cc
write_items-ne_nil (i ∷ []) e = ground arith

pub codec-IsAmp : IsAmp codec
codec-IsAmp = record {
  push_lem = λ m i a. refl;
  release_lem = λ m a. refl;
  encode_items = λ m m' e. ap write_items e;
  encode_ne_nil = λ m. write_items-ne_nil (items m.fields);
  decode-encode = λ m. read_msg-write_items (items m.fields);
}
