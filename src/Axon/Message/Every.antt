-- ===== src/Axon/Message/Every.antt =====
-- A buffer of several messages, each with a field: every one of them is treated.
use c_axon.Base.{
  ℕ, ◌+◌, ◌<◌, ◌≡◌, ◌≢◌, refl, sym, ◌∙◌, ap, true, List, [], ◌∷◌, ℤ, Bytes, length, All, pure,
  fault, and_then_assoc, and_then_cong, if◌then◌else◌, Returns-eq, ◌>>=◌, ◌>>◌,
}
use c_axon.Axon.State.{Field, Msg, AxonWorld, Ax, items}
use c_axon.Axon.Amp.{Amp, IsAmp, alloc_msg}
use c_axon.Axon.Message.{MessageInput, Regex, handle, handle_msg, message_cb}
use c_axon.Axon.Message.Loop.{Encoded, each, message_cb-each}
use c_axon.Axon.Delivery.Given.{Given, alloc_msg-Given}

module _ (amp : Amp) (regex : Regex) (inputs : ℕ → MessageInput) (socket : ℤ) where
  -- The treatment by type of a message with a first field.
  abbrev pub treat : ℕ → Msg → Ax (Unit {0})
  treat round m = elim m.fields [
    | [] ↦ λ a. fault
    | f ∷ fs ↦ handle amp regex (inputs round) socket f fs m.count
  ]

  -- Each message in its order, in fields of its own.
  abbrev pub every : ℕ → List Msg → Ax (Unit {0})
  every round [] = pure tt
  every round (m ∷ ms) = do m' ← alloc_msg (items m.fields); treat round m'; every (round + 1) ms

  each-every :
      (round : ℕ) (ms : List Msg) (a : AxonWorld)
      → All (λ (m : Msg). items m.fields ≢ []) ms
      → each amp regex inputs socket round ms a ≡ every round ms a
  unfolding handle_msg
  each-every round [] a some_field = refl
  each-every round (m ∷ ms) a (ne, some_field) =
      let (m', s, run, g) =
        Returns-eq
          (λ (x : Msg) b. Given (items m.fields) x.fields a b × (x.count ≡ length (items m.fields)))
          _ (alloc_msg-Given (items m.fields) a) in
      rw run (
        goes_on m'.fields m'.count s (λ e. ne (e_items m'.fields e g.0.same))
          λ t. each-every (round + 1) ms t some_field)
    where
      e_items : (fs : List Field) → fs ≡ [] → items fs ≡ items m.fields → items m.fields ≡ []
      e_items fs e same = sym same ∙ ap items e

      goes_on :
          (fs : List Field) (count : ℕ) (s : AxonWorld)
          → fs ≢ []
          → ((t : AxonWorld)
              → each amp regex inputs socket (round + 1) ms t ≡ every (round + 1) ms t)
          → (handle_msg amp regex (inputs round) socket fs count >>= λ more.
                if more then each amp regex inputs socket (round + 1) ms else pure tt)
              s
            ≡ (treat round (record { fields = fs; count = count }) >> every (round + 1) ms) s
      goes_on [] count s nonempty rest = absurd (nonempty refl)
      goes_on (f ∷ fs) count s nonempty rest =
          and_then_assoc (handle amp regex (inputs round) socket f fs count s) _ _
          ∙ and_then_cong (handle amp regex (inputs round) socket f fs count s) _ _ λ _ t. rest t

  pub message_cb-every :
      (fuel round : ℕ) (ms : List Msg) (buffer : Bytes) (a : AxonWorld)
      → IsAmp amp
      → ((k : ℕ) → (inputs k).created ≡ true)
      → length ms < fuel
      → Encoded amp ms buffer
      → All (λ (m : Msg). items m.fields ≢ []) ms
      → message_cb amp regex inputs socket fuel round buffer a ≡ every round ms a
  message_cb-every fuel round ms buffer a laws made lt enc some_field =
      message_cb-each amp laws regex inputs socket fuel round ms buffer a made lt enc
      ∙ each-every round ms a some_field
