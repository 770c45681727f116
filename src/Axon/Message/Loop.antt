-- ===== src/Axon/Message/Loop.antt =====
-- The loop of axon_message_cb over a buffer that holds several messages.
use c_axon.Base.{
  ℕ, zero, suc, ◌+◌, ◌<◌, ◌≡◌, ◌∙◌, refl, true, some, List, [], ◌∷◌, ◌++◌, arith, ℤ, Bytes, length,
  pure, and_then_assoc, and_then_cong, ◌>>=◌, if◌then◌else◌, Bool-cases, inl, inr,
}
use c_axon.Axon.State.{Msg, AxonWorld, Ax, items}
use c_axon.Axon.Amp.{Amp, IsAmp, alloc_msg}
use c_axon.Axon.Message.{MessageInput, Regex, handle_msg, message_cb}

module _ (amp : Amp) where
  -- The buffer is the messages, each encoded, one behind the other.
  abbrev pub Encoded : List Msg → Bytes → Type 0
  Encoded [] buffer = buffer ≡ []
  Encoded (m ∷ ms) buffer =
      (b : Bytes) × (rest : Bytes) × (amp.encode m ≡ some b)
      × (buffer ≡ b ++ rest)
      × Encoded ms rest

  -- The treatment of the messages one by one, each in fields of its own, up to one without field.
  abbrev pub each : Regex → (ℕ → MessageInput) → ℤ → ℕ → List Msg → Ax (Unit {0})
  each regex inputs socket round [] = pure tt
  each regex inputs socket round (m ∷ ms) = do
    m' ← alloc_msg (items m.fields)
    more ← handle_msg amp regex (inputs round) socket m'.fields m'.count
    if more then each regex inputs socket (round + 1) ms else pure tt

module _ (amp : Amp) (laws : IsAmp amp) (regex : Regex) (inputs : ℕ → MessageInput)
    (socket : ℤ) where
  -- A buffer that holds encoded messages, and nothing else, is handled as the messages one by one, in
  -- their order, if amp_create does not fail: no part of it is lost, and fuel for the messages and the
  -- end is enough.
  pub message_cb-each :
      (fuel round : ℕ) (ms : List Msg) (buffer : Bytes) (a : AxonWorld)
      → ((k : ℕ) → (inputs k).created ≡ true)
      → length ms < fuel
      → Encoded amp ms buffer
      → message_cb amp regex inputs socket fuel round buffer a
        ≡ each amp regex inputs socket round ms a
  unfolding message_cb
  message_cb-each zero round ms buffer a made lt e = absurd (omega arith)
  message_cb-each (suc fuel) round [] buffer a made lt e = rw e refl
  message_cb-each (suc fuel) round (m ∷ ms) buffer a made lt ([], rest, enc, whole, e) =
      absurd (laws.encode_ne_nil m enc)
  message_cb-each (suc fuel) round (m ∷ ms) buffer a made lt (c ∷ cs, rest, enc, whole, e) =
      rw whole (
        simp (made round) (
          rw (laws.decode-encode m (c ∷ cs) rest a enc) (
            and_then_assoc (alloc_msg (items m.fields) a) _ _
            ∙ and_then_cong (alloc_msg (items m.fields) a) _ _ λ m' s.
              and_then_cong (handle_msg amp regex (inputs round) socket m'.fields m'.count s) _ _
                λ more t. elim (Bool-cases more) [
                  | inl on ↦ rw on (message_cb-each fuel (round + 1) ms rest t made (omega arith) e)
                  | inr off ↦ rw off refl
                ])))
