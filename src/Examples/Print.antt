-- ===== src/Examples/Print.antt =====
-- The loop over the fields of a message in the callbacks of the examples, the same lines in each.
-- amp_get_first and amp_get_next go through the fields in their order. The host is little-endian.
use c_axon.Base.{
  ℕ, zero, suc, ◌+◌, ◌-◌, ◌*◌, ◌/◌, ◌%◌, ◌^◌, Option, none, some, List, [], ◌∷◌, ltb, if◌then◌else◌,
  Bytes, codes, fault, pure, ◌>>◌,
}
use c_axon.Axon.State.{AmpType, blob, string, bigint, json, Field}
use c_axon.Axon.Send.Decimal.{digits}
use c_axon.Examples.{Cjson, Prog, print, say}

-- A digit of %x.
abbrev pub hex_digit : ℕ → ℕ
hex_digit n = if ltb n 10 then b'0' + n else b'a' + (n - 10)

-- " %02x" of an unsigned char.
unfoldable pub hex : ℕ → Bytes
hex c = b' ' ∷ hex_digit (c / 16) ∷ hex_digit (c % 16) ∷ []

-- The number that bytes stand for, the lowest first.
abbrev pub number : Bytes → ℕ
number [] = 0
number (b ∷ bs) = b + 256 * number bs

-- PRId64 of an int64_t by its eight bytes: two's complement.
unfoldable pub show_int64 : Bytes → Bytes
show_int64 bytes =
    let n = number bytes in if ltb n (2 ^ 63) then digits 20 n else b'-' ∷ digits 20 (2 ^ 64 - n)

-- The loop over the bytes of a blob, by the rounds left; a read behind its data is undefined.
unfoldable pub print_bytes : ℕ → Bytes → Prog (Unit {0})
unfolding hex
print_bytes zero bytes = pure tt
print_bytes (suc rest) [] = λ p. fault
print_bytes (suc rest) (c ∷ cs) = do print (hex c); print_bytes rest cs

abbrev pub data_of : Option Bytes → Bytes
data_of none = []
data_of (some b) = b

-- printf("%s\n", NULL) is undefined, as is a read of an int64_t at NULL.
abbrev pub say_text : Option Bytes → Prog (Unit {0})
say_text none = λ p. fault
say_text (some text) = say text

abbrev pub say_int64 : Option Bytes → Prog (Unit {0})
unfolding show_int64
say_int64 none = λ p. fault
say_int64 (some bytes) = say (show_int64 bytes)

abbrev pub text_of : Cjson → Option Bytes → Option Bytes
text_of cj none = none
text_of cj (some tree) = cj.print tree

-- The switch on the type of a field.
unfoldable pub print_field : Cjson → AmpType → ℕ → Option Bytes → Prog (Unit {0})
unfolding print_bytes show_int64
print_field cj blob size value = do
  print (codes "<Buffer")
  print_bytes size (data_of value)
  say (codes ">")
print_field cj string size value = say_text value
print_field cj bigint size value = say_int64 value
print_field cj json size value = say_text (text_of cj value)

unfoldable pub print_fields : Cjson → List Field → Prog (Unit {0})
unfolding print_field
print_fields cj [] = pure tt
print_fields cj (f ∷ fs) = do print_field cj f.type f.size f.value; print_fields cj fs
