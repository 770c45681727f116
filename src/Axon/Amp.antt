-- ===== src/Axon/Amp.antt =====
-- The AMP library (lib/amp, a submodule that is not part of the repository): its operations are a
-- parameter of the model, and what axon.c relies on is a record of laws.
use c_axon.Base.{
  ◌+◌, ◌≡◌, ◌≢◌, true, Option, some, List, [], ◌∷◌, ◌++◌, Bytes, ok, pure, ◌>>=◌, ◌>>◌, length,
  ◌==◌, if◌then◌else◌,
}
use c_axon.Axon.State.{Ax, AxonWorld, Field, Item, Msg, items, free_field}

-- amp_push, amp_encode, amp_decode and amp_release. amp_decode leaves the rest of the buffer.
pub record Amp : Type 0 where
  pub push : Msg → Item → Ax Msg
  pub encode : Msg → Option Bytes
  pub decode : Bytes → Ax (Option (Msg × Bytes))
  pub release : Msg → Ax (Unit {0})

-- A field gets an address that was never used.
unfoldable pub alloc : Item → Ax Field
alloc i a =
    ok (record { addr = a.next; type = i.type; value = i.value; size = i.size })
      (record a { next = a.next + 1; live = λ p. if p == a.next then true else a.live p })

unfoldable pub alloc_all : List Item → Ax (List Field)
unfolding alloc
alloc_all [] = pure []
alloc_all (i ∷ is) = do f ← alloc i; fs ← alloc_all is; pure (f ∷ fs)

unfoldable pub free_all : List Field → Ax (Unit {0})
unfolding free_field
free_all [] = pure tt
free_all (f ∷ fs) = do free_field f; free_all fs

unfoldable pub push_last : Msg → Item → Ax Msg
unfolding alloc
push_last m i = do f ← alloc i; pure (record { fields = m.fields ++ f ∷ []; count = m.count + 1 })

unfoldable pub alloc_msg : List Item → Ax Msg
unfolding alloc_all
alloc_msg is = do fs ← alloc_all is; pure (record { fields = fs; count = length is })

-- What axon.c relies on: a push adds one field at the end, a release frees every field that the
-- message holds, and decoding an encoded message gives it back, in fields of its own, with what
-- follows it in the buffer; an encoded message is not empty.
pub record IsAmp (amp : Amp) : Type 0 where
  pub push_lem : (m : Msg) (i : Item) (a : AxonWorld) → amp.push m i a ≡ push_last m i a
  pub release_lem : (m : Msg) (a : AxonWorld) → amp.release m a ≡ free_all m.fields a
  pub encode_items : (m m' : Msg) → items m.fields ≡ items m'.fields → amp.encode m ≡ amp.encode m'
  pub encode_ne_nil : (m : Msg) → amp.encode m ≢ some []
  pub decode-encode :
      (m : Msg) (b rest : Bytes) (a : AxonWorld)
      → amp.encode m ≡ some b
      → amp.decode (b ++ rest) a ≡ (do m' ← alloc_msg (items m.fields); pure (some (m', rest))) a
