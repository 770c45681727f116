-- ===== src/Examples/Printed.antt =====
-- What the callbacks of the examples print.
use c_axon.Base.{
  ℕ, zero, suc, ◌-◌, ◌/◌, ◌%◌, ◌^◌, ◌<◌, ◌≡◌, refl, sym, ◌∙◌, ap, Option, none, some, List, [], ◌∷◌,
  ◌++◌, append_assoc, append_nil, length, All, map, arith, Bytes, codes, ok, lt→ltb, le→ltb,
}
use c_axon.Axon.State.{Field, Item, items, item_of, Msg}
use c_axon.Axon.Send.Decimal.{digits, value, digits-value}
use c_axon.Axon.Send.Built.{Arg, blob_arg, string_arg, bigint_arg, json_arg, arg_item}
use c_axon.Examples.{Cjson, Process, newline}
use native.Mathlib.Nat.{pow-suc}
use c_axon.Examples.Sub
use c_axon.Examples.Pull
use c_axon.Examples.TopicsSub
use c_axon.Examples.Print.{hex, number, show_int64, print_bytes, print_field, print_fields}

-- The process once it has printed a text.
abbrev pub printed : Bytes → Process → Process
printed text p = record p { out = p.out ++ text }

abbrev pub line : Bytes → Bytes
line text = text ++ newline ∷ []

abbrev hexes : Bytes → Bytes
hexes [] = []
hexes (c ∷ cs) = hex c ++ hexes cs

abbrev text_or : Option Bytes → Bytes
text_or none = []
text_or (some text) = text

-- The lines for one field.
abbrev pub shown : Cjson → Arg → Bytes
shown cj (blob_arg bytes size) = codes "<Buffer" ++ hexes bytes ++ line (codes ">")
shown cj (string_arg text) = line text
shown cj (bigint_arg number) = line (show_int64 number)
shown cj (json_arg tree) = line (text_or (cj.print tree))

abbrev pub shown_all : Cjson → List Arg → Bytes
shown_all cj [] = []
shown_all cj (x ∷ xs) = shown cj x ++ shown_all cj xs

-- A blob has its size, and cJSON can print an object.
abbrev pub IsPrintable : Cjson → Arg → Type 0
IsPrintable cj (blob_arg bytes size) = size ≡ length bytes
IsPrintable cj (string_arg text) = Unit {0}
IsPrintable cj (bigint_arg number) = Unit {0}
IsPrintable cj (json_arg tree) = (text : Bytes) × (cj.print tree ≡ some text)

printed-printed : (a b : Bytes) (p : Process) → printed b (printed a p) ≡ printed (a ++ b) p
printed-printed a b p = ap (λ t. record p { out = t }) (append_assoc p.out a b)

print_bytes_lem :
    (bytes : Bytes) (p : Process)
    → print_bytes (length bytes) bytes p ≡ ok tt (printed (hexes bytes) p)
unfolding print_bytes
print_bytes_lem [] p = ap (λ t. ok tt (record p { out = t })) (sym (append_nil p.out))
print_bytes_lem (c ∷ cs) p =
    print_bytes_lem cs (printed (hex c) p) ∙ ap (ok tt) (printed-printed (hex c) (hexes cs) p)

print_field_lem :
    (cj : Cjson) (x : Arg) (p : Process)
    → IsPrintable cj x
    → print_field cj (arg_item x).type (arg_item x).size (arg_item x).value p
      ≡ ok tt (printed (shown cj x) p)
unfolding print_field
print_field_lem cj (blob_arg bytes size) p e =
    rw (e, print_bytes_lem bytes (printed (codes "<Buffer") p))
      (ap (ok tt) (
        ap (printed (line (codes ">"))) (printed-printed (codes "<Buffer") (hexes bytes) p)
        ∙ printed-printed (codes "<Buffer" ++ hexes bytes) (line (codes ">")) p))
print_field_lem cj (string_arg text) p e = refl
print_field_lem cj (bigint_arg number) p e = refl
print_field_lem cj (json_arg tree) p (text, e) = rw e refl

abbrev first_item : Item → List Item → Item
first_item i [] = i
first_item i (j ∷ is) = j

abbrev rest_items : List Item → List Item
rest_items [] = []
rest_items (i ∷ is) = is

nil≢cons : (i : Item) (is : List Item) → ◌≡◌ {A = List Item} [] (i ∷ is) → ⊥
nil≢cons i is q = cc

-- The loop over fields that were sent prints their lines, in their order.
pub print_fields_lem :
    (cj : Cjson) (fs : List Field) (xs : List Arg) (p : Process)
    → items fs ≡ map arg_item xs
    → All (IsPrintable cj) xs
    → print_fields cj fs p ≡ ok tt (printed (shown_all cj xs) p)
unfolding print_fields
print_fields_lem cj [] [] p same is =
    ap (λ t. ok tt (record p { out = t })) (sym (append_nil p.out))
print_fields_lem cj [] (x ∷ xs) p same is = absurd (nil≢cons (arg_item x) (map arg_item xs) same)
print_fields_lem cj (f ∷ fs) [] p same is = absurd (nil≢cons (item_of f) (items fs) (sym same))
print_fields_lem cj (f ∷ fs) (x ∷ xs) p same is =
    let head : item_of f ≡ arg_item x = ap (first_item (item_of f)) same in
    let tail : items fs ≡ map arg_item xs = ap rest_items same in
    let type : f.type ≡ (arg_item x).type = ap (λ (i : Item). i.type) head in
    let size : f.size ≡ (arg_item x).size = ap (λ (i : Item). i.size) head in
    let held : f.value ≡ (arg_item x).value = ap (λ (i : Item). i.value) head in
    rw
      (
        type,
        size,
        held,
        print_field_lem cj x p is.0,
        print_fields_lem cj fs xs (printed (shown cj x) p) tail is.1,
      )
      (ap (ok tt) (printed-printed (shown cj x) (shown_all cj xs) p))

-- What each callback prints of a message.
module _ (cj : Cjson) (m : Msg) (xs : List Arg) (p : Process)
    (same : items m.fields ≡ map arg_item xs) (is : All (IsPrintable cj) xs) where
  after_line :
      (text : Bytes)
      → print_fields cj m.fields (printed (line text) p)
        ≡ ok tt (printed (line text ++ shown_all cj xs) p)
  after_line text =
      print_fields_lem cj m.fields xs (printed (line text) p) same is
      ∙ ap (ok tt) (printed-printed (line text) (shown_all cj xs) p)

  -- A message whose fields are those that the arguments of a send make, blobs with their size and
  -- objects that cJSON can print: the callbacks of sub.c, of pull.c and, for a topic, of the
  -- subscribers to topics print their first line and then one line for each field, in their order:
  -- a blob in hexadecimal, a string as it is, an int64_t in decimal, an object as its text. They
  -- answer NULL.
  pub callback-shown :
      (topic : Bytes)
      → (Sub.callback cj m p
          ≡ ok none (printed (line (codes "sub client message received") ++ shown_all cj xs) p))
        × (Pull.callback cj m p
            ≡ ok none (printed (line (codes "pull client message received") ++ shown_all cj xs) p))
        × (TopicsSub.callback cj (some topic) m p
            ≡ ok none (
                printed
                  (line (codes "sub client message received from topic '" ++ topic ++ codes "'")
                    ++ shown_all cj xs)
                  p))
  unfolding Sub.callback Pull.callback TopicsSub.callback
  callback-shown topic = (
    rw (after_line (codes "sub client message received")) refl,
    rw (after_line (codes "pull client message received")) refl,
    rw (after_line (codes "sub client message received from topic '" ++ topic ++ codes "'")) refl,
  )

-- The eight bytes of a number, the lowest first.
abbrev pub low_bytes : ℕ → ℕ → Bytes
low_bytes zero n = []
low_bytes (suc k) n = n % 256 ∷ low_bytes k (n / 256)

number-low_bytes : (k n : ℕ) → n < 256 ^ k → number (low_bytes k n) ≡ n
number-low_bytes zero n h = omega arith
number-low_bytes (suc k) n h =
    omega (arith, pow-suc 256 k, number-low_bytes k (n / 256) (omega (arith, pow-suc 256 k)))

ten_pow : (n : ℕ) → n < 2 ^ 63 → suc n < 10 ^ 20
ten_pow n h = omega (arith, h)

show_small :
    (bytes : Bytes) (n : ℕ) → number bytes ≡ n → n < 2 ^ 63 → show_int64 bytes ≡ digits 20 n
unfolding show_int64
show_small bytes n e h = rw (e, lt→ltb n (2 ^ 63) h) refl

show_large :
    (bytes : Bytes) (n : ℕ)
    → number bytes ≡ 2 ^ 64 - suc n
    → n < 2 ^ 63
    → show_int64 bytes ≡ b'-' ∷ digits 20 (suc n)
unfolding show_int64
show_large bytes n e h =
    rw (e, le→ltb (2 ^ 64 - suc n) (2 ^ 63) (omega (arith, h)), amount n h) refl
  where
    amount : (n : ℕ) → n < 2 ^ 63 → 2 ^ 64 - (2 ^ 64 - suc n) ≡ suc n
    amount n h = omega (arith, h)

-- For `n` below 2 ^ 63: the int64_t `n` is printed as digits that stand for `n`, and the int64_t
-- -(n + 1) as a minus sign and digits that stand for n + 1.
pub show_int64-low_bytes :
    (n : ℕ)
    → n < 2 ^ 63
    → (value 0 (show_int64 (low_bytes 8 n)) ≡ n)
      × (show_int64 (low_bytes 8 (2 ^ 64 - suc n)) ≡ b'-' ∷ digits 20 (suc n))
      × (value 0 (digits 20 (suc n)) ≡ suc n)
show_int64-low_bytes n h =
    let room = ten_pow n h in
    (
      ap (value 0) (show_small (low_bytes 8 n) n (number-low_bytes 8 n (omega (arith, h))) h)
          ∙ digits-value 20 n (omega (arith, room)),
      show_large (low_bytes 8 (2 ^ 64 - suc n)) n
          (number-low_bytes 8 (2 ^ 64 - suc n) (omega (arith, h))) h,
      digits-value 20 (suc n) room,
    )
