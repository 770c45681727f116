-- ===== src/Axon/Send/Built.antt =====
-- The message that axon_vsend builds from its arguments, and what becomes of it.
use c_axon.Base.{
  ℕ, ◌+◌, ◌<◌, ◌≤◌, ◌⊎◌, ◌≡◌, refl, sym, ◌∙◌, ap, subst, true, false, some, List, [], ◌∷◌, ◌++◌,
  arith, Bytes, length, Returns, Returns-mono, and_then-Returns, append_assoc, append_nil, has,
  has-append, Distinct, Distinct-snoc, map, ◌==◌, ◌||◌, if◌then◌else◌, Bool-cases, inl, inr,
}
use c_axon.Sock.State.{Ptr}
use c_axon.Axon.State.{
  AmpType, blob, string, bigint, json, Field, Item, item_of, items, Msg, AxonWorld,
}
use c_axon.Axon.Amp.{Amp, IsAmp, push_last}
use c_axon.Axon.Send.Params.{
  Param, int, kind, ptr, int64, item, push_param, push_params, push_first,
}
use c_axon.Axon.Message.Fields.{addrs, AllLive, addrs-append}

-- One field as the caller of axon_send means it.
pub data Arg : Type 0 where
  blob_arg : (bytes : Bytes) (size : ℕ) → Arg
  string_arg : (text : Bytes) → Arg
  bigint_arg : (value : Bytes) → Arg
  json_arg : (tree : Bytes) → Arg

abbrev pub arg_type : Arg → AmpType
arg_type (blob_arg bytes size) = blob
arg_type (string_arg text) = string
arg_type (bigint_arg value) = bigint
arg_type (json_arg tree) = json

abbrev pub arg_value : Arg → Bytes
arg_value (blob_arg bytes size) = bytes
arg_value (string_arg text) = text
arg_value (bigint_arg value) = value
arg_value (json_arg tree) = tree

-- The field that it becomes.
abbrev pub arg_item : Arg → Item
arg_item (blob_arg bytes size) = item blob (some bytes) size
arg_item (string_arg text) = item string (some text) (length text)
arg_item (bigint_arg value) = item bigint (some value) 8
arg_item (json_arg tree) = item json (some tree) (length tree)

-- How it is written as arguments behind its type.
abbrev pub spell : Arg → List Param
spell (blob_arg bytes size) = ptr (some bytes) ∷ int size ∷ []
spell (string_arg text) = ptr (some text) ∷ []
spell (bigint_arg value) = int64 value ∷ []
spell (json_arg tree) = ptr (some tree) ∷ []

-- The first field has its type and value before the list.
abbrev pub spell_first : Arg → List Param
spell_first (blob_arg bytes size) = int size ∷ []
spell_first x = []

abbrev pub spell_all : List Arg → List Param
spell_all [] = []
spell_all (x ∷ xs) = kind (some (arg_type x)) ∷ spell x ++ spell_all xs

pub items-append : (fs gs : List Field) → items (fs ++ gs) ≡ items fs ++ items gs
items-append [] gs = refl
items-append (f ∷ fs) gs = ap (◌∷◌ (item_of f)) (items-append fs gs)

-- The fields of the message are allocated, each at an address of its own, which was given out.
pub record IsBuilt (m : Msg) (a : AxonWorld) : Type 0 where
  pub live : AllLive m.fields a
  pub distinct : Distinct (addrs m.fields)
  pub below : (p : Ptr) → has p (addrs m.fields) ≡ true → p < a.next

-- From `a` to `a'` the message `m` came to hold these fields more.
pub record Built (m : Msg) (more : List Item) (a : AxonWorld) (m' : Msg) (a' : AxonWorld)
    : Type 0 where
  pub fields : items m'.fields ≡ items m.fields ++ more
  pub built : IsBuilt m' a'
  pub kept : (p : Ptr) → has p (addrs m.fields) ≡ true → has p (addrs m'.fields) ≡ true
  pub frame : (p : Ptr) → has p (addrs m'.fields) ≡ false → a'.live p ≡ a.live p
  pub fresh :
      (p : Ptr) → has p (addrs m'.fields) ≡ true → (has p (addrs m.fields) ≡ true) ⊎ (a.next ≤ p)
  pub grows : a.next ≤ a'.next
  pub rest : a' ≡ record a { live = a'.live; next = a'.next }

pub Built-trans :
    (m m' m'' : Msg) (xs ys : List Item) (a b c : AxonWorld)
    → Built m xs a m' b
    → Built m' ys b m'' c
    → Built m (xs ++ ys) a m'' c
Built-trans m m' m'' xs ys a b c f g = record {
  fields = g.fields ∙ ap (λ zs. zs ++ ys) f.fields ∙ append_assoc (items m.fields) xs ys;
  built = g.built;
  kept = λ p h. g.kept p (f.kept p h);
  frame = λ p out. g.frame p out ∙ f.frame p (has_before p out);
  fresh = λ p h. elim (g.fresh p h) [
    | inl old ↦ f.fresh p old
    | inr new ↦ inr (omega (arith, f.grows, new))
  ];
  grows = omega (arith, f.grows, g.grows);
  rest = g.rest ∙ ap (λ (d : AxonWorld). record d { live = c.live; next = c.next }) f.rest;
}
  where
    has_before : (p : Ptr) → has p (addrs m''.fields) ≡ false → has p (addrs m'.fields) ≡ false
    has_before p out = elim (Bool-cases (has p (addrs m'.fields))) [
      | inr off ↦ off
      | inl on ↦ absurd (ground (arith, g.kept p on, out))
    ]

-- The field that an item becomes.
abbrev placed : Item → AxonWorld → Field
placed i a = record { addr = a.next; type = i.type; value = i.value; size = i.size }

next_out : (m : Msg) (a : AxonWorld) → IsBuilt m a → has a.next (addrs m.fields) ≡ false
next_out m a b = elim (Bool-cases (has a.next (addrs m.fields))) [
  | inr out ↦ out
  | inl i ↦ absurd (omega (arith, b.below a.next i))
]

module _ (m : Msg) (i : Item) (a : AxonWorld) (b : IsBuilt m a) (p : Ptr)
    (h : has p (addrs (m.fields ++ placed i a ∷ [])) ≡ true) where
  old_or_new : ((p == a.next) || has p (addrs m.fields)) ≡ true
  old_or_new = ground (
    arith,
    subst (λ ps. has p ps ≡ true) (addrs-append m.fields (placed i a ∷ [])) h,
    has-append p (addrs m.fields) (a.next ∷ []),
  )

  snoc_live : (if p == a.next then true else a.live p) ≡ true
  snoc_live = ground (arith, old_or_new, b.live p)

  snoc_below : p < a.next + 1
  snoc_below = ground (arith, old_or_new, b.below p)

-- The addresses of a message with one field more.
addrs_snoc :
    (m : Msg) (f : Field) (p : Ptr)
    → has p (addrs (m.fields ++ f ∷ [])) ≡ (has p (addrs m.fields) || has p (f.addr ∷ []))
addrs_snoc m f p =
    ap (has p) (addrs-append m.fields (f ∷ [])) ∙ has-append p (addrs m.fields) (f.addr ∷ [])

module _ (amp : Amp) (laws : IsAmp amp) where
  push-Built :
      (m : Msg) (i : Item) (a : AxonWorld)
      → IsBuilt m a
      → Returns (λ m' a'. Built m (i ∷ []) a m' a') (amp.push m i a)
  unfolding push_last
  push-Built m i a b = rw (laws.push_lem m i a) (record {
    fields = items-append m.fields _;
    built = record {
      live = λ p h. snoc_live m i a b p h;
      distinct =
          subst Distinct (sym (addrs-append m.fields (placed i a ∷ [])))
            (Distinct-snoc (addrs m.fields) a.next b.distinct (next_out m a b));
      below = λ p h. snoc_below m i a b p h;
    };
    kept = λ p h. addrs_snoc m (placed i a) p ∙ rw h refl;
    frame = λ p out. snoc_other p (sym (addrs_snoc m (placed i a) p) ∙ out);
    fresh = λ p h. snoc_fresh p (sym (addrs_snoc m (placed i a) p) ∙ h);
    grows = omega arith;
    rest = refl;
  })
    where
      snoc_other :
          (p : Ptr)
          → (has p (addrs m.fields) || has p (a.next ∷ [])) ≡ false
          → (if p == a.next then true else a.live p) ≡ a.live p
      snoc_other p out = ground (arith, out)

      snoc_fresh :
          (p : Ptr)
          → (has p (addrs m.fields) || has p (a.next ∷ [])) ≡ true
          → (has p (addrs m.fields) ≡ true) ⊎ (a.next ≤ p)
      snoc_fresh p h = ground (arith, h)

  -- The switch on the type and the arguments of one field.
  push_param-Built :
      (x : Arg) (ps : List Param) (m : Msg) (a : AxonWorld)
      → IsBuilt m a
      → Returns
          (λ r a'. Built m (arg_item x ∷ []) a r.0 a' × (r.1 ≡ ps))
          (push_param amp (some (arg_type x)) (spell x ++ ps) m a)
  unfolding push_param
  push_param-Built (blob_arg bytes size) ps m a b =
      and_then-Returns (λ m' a'. Built m (item blob (some bytes) size ∷ []) a m' a') _
        (amp.push m (item blob (some bytes) size) a) _
        (push-Built m (item blob (some bytes) size) a b) λ m' a' bt. (bt, refl)
  push_param-Built (string_arg text) ps m a b =
      and_then-Returns (λ m' a'. Built m (item string (some text) (length text) ∷ []) a m' a') _
        (amp.push m (item string (some text) (length text)) a) _
        (push-Built m (item string (some text) (length text)) a b) λ m' a' bt. (bt, refl)
  push_param-Built (bigint_arg value) ps m a b =
      and_then-Returns (λ m' a'. Built m (item bigint (some value) 8 ∷ []) a m' a') _
        (amp.push m (item bigint (some value) 8) a) _
        (push-Built m (item bigint (some value) 8) a b) λ m' a' bt. (bt, refl)
  push_param-Built (json_arg tree) ps m a b =
      and_then-Returns (λ m' a'. Built m (item json (some tree) (length tree) ∷ []) a m' a') _
        (amp.push m (item json (some tree) (length tree)) a) _
        (push-Built m (item json (some tree) (length tree)) a b) λ m' a' bt. (bt, refl)

  -- The first field, whose value is an argument of its own.
  pub push_first-Built :
      (x : Arg) (ps : List Param) (m : Msg) (a : AxonWorld)
      → IsBuilt m a
      → Returns
          (λ r a'. Built m (arg_item x ∷ []) a r.0 a' × (r.1 ≡ ps))
          (push_first amp (some (arg_type x)) (some (arg_value x)) (spell_first x ++ ps) m a)
  unfolding push_first
  push_first-Built (blob_arg bytes size) ps m a b =
      and_then-Returns (λ m' a'. Built m (item blob (some bytes) size ∷ []) a m' a') _
        (amp.push m (item blob (some bytes) size) a) _
        (push-Built m (item blob (some bytes) size) a b) λ m' a' bt. (bt, refl)
  push_first-Built (string_arg text) ps m a b =
      and_then-Returns (λ m' a'. Built m (item string (some text) (length text) ∷ []) a m' a') _
        (amp.push m (item string (some text) (length text)) a) _
        (push-Built m (item string (some text) (length text)) a b) λ m' a' bt. (bt, refl)
  push_first-Built (bigint_arg value) ps m a b =
      and_then-Returns (λ m' a'. Built m (item bigint (some value) 8 ∷ []) a m' a') _
        (amp.push m (item bigint (some value) 8) a) _
        (push-Built m (item bigint (some value) 8) a b) λ m' a' bt. (bt, refl)
  push_first-Built (json_arg tree) ps m a b =
      and_then-Returns (λ m' a'. Built m (item json (some tree) (length tree) ∷ []) a m' a') _
        (amp.push m (item json (some tree) (length tree)) a) _
        (push-Built m (item json (some tree) (length tree)) a b) λ m' a' bt. (bt, refl)

  -- The loop over the fields: each becomes a field of the message, in their order.
  pub push_params-Built :
      (xs : List Arg) (ps : List Param) (m : Msg) (a : AxonWorld)
      → IsBuilt m a
      → Returns
          (λ r a'. Built m (map arg_item xs) a r.0 a' × (r.1 ≡ ps))
          (push_params amp (length xs) (spell_all xs ++ ps) m a)
  unfolding push_params
  push_params-Built [] ps m a b = (
    record {
      fields = sym (append_nil (items m.fields));
      built = b;
      kept = λ p h. h;
      frame = λ p out. refl;
      fresh = λ p h. inl h;
      grows = omega arith;
      rest = refl;
    },
    refl,
  )
  push_params-Built (x ∷ xs) ps m a b = rw (append_assoc (spell x) (spell_all xs) ps) (
      and_then-Returns
        (λ (r : Msg × List Param) a'.
          Built m (arg_item x ∷ []) a r.0 a' × (r.1 ≡ spell_all xs ++ ps))
        (λ (r : Msg × List Param) a'. Built m (map arg_item (x ∷ xs)) a r.0 a' × (r.1 ≡ ps))
        (push_param amp (some (arg_type x)) (spell x ++ (spell_all xs ++ ps)) m a) _
        (push_param-Built x (spell_all xs ++ ps) m a b)
        λ r a' (bt, left). rw left (
          Returns-mono
            (λ (q : Msg × List Param) c. Built r.0 (map arg_item xs) a' q.0 c × (q.1 ≡ ps))
            (λ (q : Msg × List Param) c. Built m (map arg_item (x ∷ xs)) a q.0 c × (q.1 ≡ ps)) _
            (push_params-Built xs ps r.0 a' bt.built)
            λ q c (bt', left').
              (Built-trans m r.0 q.0 (arg_item x ∷ []) (map arg_item xs) a a' c bt bt', left')))
