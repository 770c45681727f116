-- ===== src/Examples/Ends.antt =====
-- How a program that only waits ends: sub.c from its start to the release.
use c_axon.Base.{
  ℕ, ◌<◌, ◌≡◌, refl, ◌∙◌, ap, Bool, true, false, ◌||◌, none, List, [], ◌∷◌, ◌==◌, All, arith, ℤ,
  pos, Run, ok, fault, blocked, out_of_fuel, pure, ◌>>◌, Returns, Returns-mono, Returns-eq,
  and_then-Returns, Bool-cases, inl, inr,
}
use c_axon.Sock.State.{Ptr, World}
use c_axon.Sock.Release
use c_axon.Sock.Instance.{IsSound}
use c_axon.Sock.Instance.Gone.{release-Gone}
use c_axon.Sock.Instance.Reached.{longest, length_le_longest}
use c_axon.Axon.State.{AxonWorld, on_net}
use c_axon.Axon.Create
use c_axon.Axon.Create.{wait_subs, post_subs}
use c_axon.Axon.Subs.Calls.{wait_subs-ok}
use c_axon.Examples.{Process, Second, on_axon, sigint, sig_handler, signals, loop, wait}

-- Whether SIGINT is one of the signals, and whether it comes in one of the seconds.
abbrev pub interrupts : List ℕ → Bool
interrupts [] = false
interrupts (s ∷ ss) = (s == sigint) || interrupts ss

abbrev pub stops : List Second → Bool
stops [] = false
stops (s ∷ ss) = interrupts s.signals || stops ss

-- The instance is sound, and nobody holds the semaphore of its subscriptions.
pub record IsFit (a : AxonWorld) : Type 0 where
  pub sound : IsSound a.net
  pub sem : a.axon.subs.sem ≡ 1

-- What the threads of the instance do in this second keeps it so.
abbrev pub Behaves : Second → Type 0
Behaves s = (a : AxonWorld) → IsFit a → IsFit (s.meanwhile a)

or_true : (b : Bool) → (b || true) ≡ true
or_true b = ground arith

still_stops :
    (later now over : Bool)
    → over ≡ false
    → (now || later) || over ≡ true
    → later || (now || false) ≡ true
still_stops later now over e stop = ground arith

signals_lem :
    (ss : List ℕ) (p : Process)
    → signals ss p ≡ ok tt (record p { terminate = interrupts ss || p.terminate })
unfolding sig_handler
signals_lem [] p = refl
signals_lem (s ∷ ss) p = elim (Bool-cases (s == sigint)) [
  | inl stop ↦
      rw (stop, signals_lem ss (record p { terminate = true }))
        (ap (λ b. ok tt (record p { terminate = b })) (or_true (interrupts ss)))
  | inr other ↦ rw (other, signals_lem ss p) refl
]

-- The program waits until SIGINT.
pub wait-IsFit :
    (ss : List Second) (p : Process)
    → All Behaves ss
    → IsFit p.ax
    → stops ss || p.terminate ≡ true
    → Returns (λ _ p'. IsFit p'.ax × (p'.out ≡ p.out)) (wait ss p)
unfolding wait loop
wait-IsFit [] p bs fit stop = rw stop (fit, refl)
wait-IsFit (s ∷ ss) p bs fit stop = elim (Bool-cases p.terminate) [
  | inl done ↦ rw done (fit, refl)
  | inr on ↦
      rw (signals_lem s.signals (record p { ax = s.meanwhile p.ax }), on)
        (wait-IsFit ss
          (record p { ax = s.meanwhile p.ax; terminate = interrupts s.signals || false }) bs.1
          (bs.0 p.ax fit) (still_stops (stops ss) (interrupts s.signals) p.terminate on stop))
]

-- The part of a run that works on the instance.
pub zoom-Returns :
    {A : Type 0} (p : Process) (P : A → Process → Type 0) (r : Run AxonWorld A)
    (m : AxonWorld → Run AxonWorld A)
    → m p.ax ≡ r
    → Returns (λ v a. P v (record p { ax = a })) r
    → Returns P (on_axon m p)
zoom-Returns p P (ok t a) m e h = rw (e, Returns) h
zoom-Returns p P fault m e h = absurd h
zoom-Returns p P blocked m e h = absurd h
zoom-Returns p P out_of_fuel m e h = absurd h

-- The run of the socket layer in a run of the instance.
pub net-Returns :
    {A : Type 0} (a : AxonWorld) (P : A → World → Type 0) (r : Run World A)
    (m : World → Run World A)
    → m a.net ≡ r
    → Returns P r
    → Returns (λ v b. (b ≡ record a { net = b.net }) × P v b.net) (on_net m a)
net-Returns a P (ok t n) m e h = rw (e, Returns) (refl, h)
net-Returns a P fault m e h = absurd h
net-Returns a P blocked m e h = absurd h
net-Returns a P out_of_fuel m e h = absurd h

abbrev pub AllFreed : World → Type 0
AllFreed w = (a : Ptr) → w.heap a ≡ none

-- axon_release of a fit instance, with enough fuel, returns, and no memory of its sock is left.
release-AllFreed :
    (a : AxonWorld)
    → IsFit a
    → (enough : ℕ) × ((fuel : ℕ)
        → enough < fuel
        → Returns (λ _ b. AllFreed b.net) (Create.release fuel a))
unfolding Create.release wait_subs
release-AllFreed a fit =
    let (l, so) = fit.sound in
    (
      longest l,
      λ fuel lt.
          and_then-Returns (λ _ b. (b ≡ record a { net = b.net }) × AllFreed b.net)
            (λ _ b. AllFreed b.net) (on_net (Release.release fuel) a) _
            (net-Returns a (λ _ n. AllFreed n) (Release.release fuel a.net) (Release.release fuel)
              refl (release-Gone fuel l a.net so (λ c. omega (arith, lt, length_le_longest l c))))
            λ _ b (same, gone).
              rw (wait_subs-ok 0 b (ap (λ (c : AxonWorld). c.axon.subs.sem) same ∙ fit.sem)) gone,
    )

-- What a program does from its loop on: it waits, releases and returns 0.
abbrev pub Ending : List Second → Process → Type 0
Ending ss p =
    (enough : ℕ) × ((fuel : ℕ)
      → enough < fuel
      → Returns (λ r q. (r ≡ pos 0) × AllFreed q.ax.net × (q.out ≡ p.out))
          ((do wait ss; on_axon (Create.release fuel); pure (pos 0)) p))

stopped-Ending :
    (ss : List Second) (p q : Process)
    → wait ss p ≡ ok tt q
    → IsFit q.ax
    → q.out ≡ p.out
    → Ending ss p
stopped-Ending ss p q run fit same =
    let P : Process → Type 0 = λ z. AllFreed z.ax.net × (z.out ≡ p.out) in
    (
      (release-AllFreed q.ax fit).0,
      λ fuel lt. rw run (
          and_then-Returns (λ _ z. P z)
            (λ (r : ℤ) z. (r ≡ pos 0) × AllFreed z.ax.net × (z.out ≡ p.out))
            (on_axon (Create.release fuel) q) _
            (zoom-Returns q (λ _ z. P z) (Create.release fuel q.ax) (Create.release fuel) refl
              (Returns-mono (λ _ b. AllFreed b.net) (λ _ b. P (record q { ax = b })) _
                ((release-AllFreed q.ax fit).1 fuel lt) λ _ b g. (g, same)))
            λ _ z (g, o). (refl, g, o)),
    )

pub wait-Ending :
    (ss : List Second) (p : Process)
    → All Behaves ss
    → IsFit p.ax
    → stops ss || p.terminate ≡ true
    → Ending ss p
wait-Ending ss p bs fit stop =
    let end =
      Returns-eq (λ _ q. IsFit q.ax × (q.out ≡ p.out)) (wait ss p) (wait-IsFit ss p bs fit stop) in
    stopped-Ending ss p end.1 end.2 end.3.0 end.3.1
