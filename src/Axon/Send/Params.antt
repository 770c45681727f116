-- ===== src/Axon/Send/Params.antt =====
-- The arguments of axon_vsend and axon_reply in src/axon.c, and the fields that they become.
use c_axon.Base.{ℕ, zero, suc, Option, none, some, List, ◌∷◌, Bytes, length, fault, pure, ◌>>=◌}
use c_axon.Axon.State.{AmpType, blob, string, bigint, json, Item, Msg, Ax}
use c_axon.Axon.Amp.{Amp}

-- One argument of a va_list: an int, the type of a field (none for a value that amp_type_e does not
-- have), a pointer to bytes, an int64_t by its bytes.
pub data Param : Type 0 where
  int : ℕ → Param
  kind : Option AmpType → Param
  ptr : Option Bytes → Param
  int64 : Bytes → Param

-- What va_arg leaves of the list; an argument of another type, or a missing one, is undefined.
abbrev pub take_int : List Param → Ax (ℕ × List Param)
take_int (int n ∷ ps) = pure (n, ps)
take_int ps = λ a. fault

abbrev pub take_kind : List Param → Ax (Option AmpType × List Param)
take_kind (kind t ∷ ps) = pure (t, ps)
take_kind ps = λ a. fault

abbrev pub take_ptr : List Param → Ax (Option Bytes × List Param)
take_ptr (ptr b ∷ ps) = pure (b, ps)
take_ptr ps = λ a. fault

abbrev pub take_int64 : List Param → Ax (Bytes × List Param)
take_int64 (int64 b ∷ ps) = pure (b, ps)
take_int64 ps = λ a. fault

-- The size of a string is its length; that of an integer is 8. The library stores both by itself.
abbrev pub size_of : Option Bytes → ℕ
size_of none = 0
size_of (some b) = length b

abbrev pub item : AmpType → Option Bytes → ℕ → Item
item t v n = record { type = t; value = v; size = n }

module _ (amp : Amp) where
  -- The switch on the type of a field whose value comes from the list.
  unfoldable pub push_param : Option AmpType → List Param → Msg → Ax (Msg × List Param)
  push_param (some blob) ps m = do
    (v, ps1) ← take_ptr ps
    (n, ps2) ← take_int ps1
    m' ← amp.push m (item blob v n)
    pure (m', ps2)
  push_param (some string) ps m = do
    (v, ps1) ← take_ptr ps
    m' ← amp.push m (item string v (size_of v))
    pure (m', ps1)
  push_param (some bigint) ps m = do
    (v, ps1) ← take_int64 ps
    m' ← amp.push m (item bigint (some v) 8)
    pure (m', ps1)
  push_param (some json) ps m = do
    (v, ps1) ← take_ptr ps
    m' ← amp.push m (item json v (size_of v))
    pure (m', ps1)
  push_param none ps m = pure (m, ps)

  -- The loop over the fields, by the rounds left.
  unfoldable pub push_params : ℕ → List Param → Msg → Ax (Msg × List Param)
  unfolding push_param
  push_params zero ps m = pure (m, ps)
  push_params (suc rest) ps m = do
    (t, ps1) ← take_kind ps
    (m', ps2) ← push_param t ps1 m
    push_params rest ps2 m'

  -- The first field, whose value is an argument of its own.
  unfoldable pub push_first :
      Option AmpType → Option Bytes → List Param → Msg → Ax (Msg × List Param)
  push_first (some blob) v ps m = do
    (n, ps1) ← take_int ps
    m' ← amp.push m (item blob v n)
    pure (m', ps1)
  push_first (some string) v ps m = do m' ← amp.push m (item string v (size_of v)); pure (m', ps)
  push_first (some bigint) v ps m = do m' ← amp.push m (item bigint v 8); pure (m', ps)
  push_first (some json) v ps m = do m' ← amp.push m (item json v (size_of v)); pure (m', ps)
  push_first none v ps m = pure (m, ps)
