-- ===== src/Sock/Sender/Search.antt =====
-- The search for a client: it ends within 13 rounds, whatever the other threads do.
use c_axon.Base.{
  ℕ, zero, suc, ◌+◌, ◌*◌, ◌/◌, ◌<◌, ◌≡◌, refl, sym, false, ◌&&◌, ◌∙◌, ltb, if◌then◌else◌, ℤ, is_neg,
  Option, none, some, inl, inr, Bool-cases, Returns, Returns-mono, ◌∷◌, List, [], map, ◌++◌,
}
use c_axon.Sock.State.{fd_setsize, Clients, World, Event}
use c_axon.Sock.Machine.Steps.{wait_clients-ok}
use c_axon.Sock.Reader.{backoff, first_retry}
use c_axon.Sock.Sender.{Meanwhile, find_client, search_fuel}
use c_axon.Sock.Sender.Pick.{picked, pick_none}
use c_axon.Sock.Sender.Quiet.{Quiet, Quiet-trans}

-- The other threads give the semaphore back.
abbrev pub IsPolite : Meanwhile → Type 0
IsPolite others = (k : ℕ) (c : Clients) → (others k c).sem ≡ c.sem

-- Whether the fuel lasts until the loop gives up, from these values of its variables.
abbrev Lasts : ℕ → ℕ → ℕ → Type 0
Lasts zero retry loop = ⊥
Lasts (suc fuel) retry loop =
    if ltb 5000 (retry * 3 / 2) && ltb 3 (loop + 1)
    then Unit {0}
    else Lasts fuel (if ltb 5000 (retry * 3 / 2) then 5000 else retry * 3 / 2)
        (if ltb 5000 (retry * 3 / 2) then loop + 1 else loop)

search_fuel-Lasts : Lasts search_fuel first_retry 0
search_fuel-Lasts = tt

-- What the search comes to: the client that pick chooses among the clients of that moment, or none.
abbrev pub Outcome : World → Option ℤ → World → Type 0
Outcome w found w' =
    Quiet w w'
    × (found ≡ (
        if is_neg (picked w'.sock.clients.fds w'.sock.clients.index)
        then none
        else some (picked w'.sock.clients.fds w'.sock.clients.index)))

find_client-Outcome :
    (others : Meanwhile) (fuel sleeps retry loop n : ℕ) (w : World)
    → IsPolite others
    → Lasts fuel retry loop
    → w.sock.clients.sem ≡ suc n
    → Returns (Outcome w) (find_client others fuel sleeps retry loop w)
unfolding find_client
find_client-Outcome others zero sleeps retry loop n w polite lasts e = absurd lasts
find_client-Outcome others (suc fuel) sleeps retry loop n w polite lasts e =
    let p = picked w.sock.clients.fds w.sock.clients.index in
    rw (wait_clients-ok n w e) (elim (Bool-cases (is_neg p)) [
      | inr hit ↦ rw hit (record { heap = refl; sock = refl; sem = sym e; self = refl }, rw hit)
      | inl miss ↦ rw miss (elim (Bool-cases (ltb 5000 (retry * 3 / 2) && ltb 3 (loop + 1))) [
        | inl over ↦
            rw over (record { heap = refl; sock = refl; sem = sym e; self = refl }, rw miss)
        | inr more ↦
            let c = others sleeps (record w.sock.clients { sem = suc n }) in
            let w2 = record w {
              sock = record w.sock { clients = c };
              log = Event.slept (backoff retry * 1000) ∷ w.log;
            } in
            let same : c.sem ≡ suc n = polite sleeps (record w.sock.clients { sem = suc n }) in
            let quiet : Quiet w w2 = record {
              heap = refl;
              sock = refl;
              sem = same ∙ sym e;
              self = refl;
            } in
            rw more (
              Returns-mono (Outcome w2) (Outcome w) _
                (find_client-Outcome others fuel (sleeps + 1) (backoff retry) _ n w2 polite
                  (rw more at lasts) same)
                λ found w' o. (Quiet-trans w w2 w' quiet o.0, o.1))
      ])
    ])

-- Where the semaphore of the clients is free, the search of a sender returns, whatever the other
-- threads do to the clients while it sleeps, if they release the semaphore. It ends with the
-- client that the index selects at that moment, and with none only if there is none; memory and
-- chains are as before, and the semaphore is free.
pub find_client-Returns :
    (others : Meanwhile) (n : ℕ) (w : World)
    → IsPolite others
    → w.sock.clients.sem ≡ suc n
    → Returns (Outcome w) (find_client others search_fuel 0 first_retry 0 w)
find_client-Returns others n w polite e =
    find_client-Outcome others search_fuel 0 first_retry 0 n w polite search_fuel-Lasts e

-- The sleeps of a search that never finds a client, the latest first, before those of `log`.
abbrev pub naps : ℕ → ℕ → ℕ → List Event → List Event
naps zero retry loop log = log
naps (suc fuel) retry loop log =
    let rest =
      naps fuel (backoff retry) (if ltb 5000 (retry * 3 / 2) then loop + 1 else loop)
        (Event.slept (backoff retry * 1000) ∷ log) in
    if ltb 5000 (retry * 3 / 2) && ltb 3 (loop + 1) then log else rest

-- No client, now or later.
abbrev pub IsEmpty : Clients → Type 0
IsEmpty c = (d : ℕ) → d < fd_setsize → c.fds d ≡ false

find_client-naps :
    (others : Meanwhile) (fuel sleeps retry loop n : ℕ) (w : World)
    → IsPolite others
    → ((k : ℕ) (c : Clients) → IsEmpty c → IsEmpty (others k c))
    → Lasts fuel retry loop
    → w.sock.clients.sem ≡ suc n
    → IsEmpty w.sock.clients
    → Returns
        (λ found w'. (found ≡ none) × (w'.log ≡ naps fuel retry loop w.log))
        (find_client others fuel sleeps retry loop w)
unfolding find_client
find_client-naps others zero sleeps retry loop n w polite away lasts e empty = absurd lasts
find_client-naps others (suc fuel) sleeps retry loop n w polite away lasts e empty =
    rw (wait_clients-ok n w e, pick_none w.sock.clients.fds w.sock.clients.index empty)
      (elim (Bool-cases (ltb 5000 (retry * 3 / 2) && ltb 3 (loop + 1))) [
        | inl over ↦ rw over (refl, refl)
        | inr more ↦
            let c = record w.sock.clients { sem = suc n } in
            let w2 = record w {
              sock = record w.sock { clients = others sleeps c };
              log = Event.slept (backoff retry * 1000) ∷ w.log;
            } in
            rw more (
              find_client-naps others fuel (sleeps + 1) (backoff retry) _ n w2 polite away
                (rw more at lasts) (polite sleeps c) (away sleeps c empty))
      ])

-- If there is no client, and the other threads add none, the search gives up after twelve sleeps:
-- 150, 225, 337, 505, 757, 1135, 1702, 2553 and 3829 milliseconds and three times 5 seconds.
pub find_client_gives_up :
    (others : Meanwhile) (n : ℕ) (w : World)
    → IsPolite others
    → ((k : ℕ) (c : Clients) → IsEmpty c → IsEmpty (others k c))
    → w.sock.clients.sem ≡ suc n
    → IsEmpty w.sock.clients
    → Returns
        (λ found w'.
          (found ≡ none)
          × (w'.log
              ≡ map
                  (λ ms. Event.slept (ms * 1000))
                  (5000 ∷ 5000 ∷ 5000 ∷ 3829 ∷ 2553 ∷ 1702 ∷ 1135 ∷ 757 ∷ 505 ∷ 337 ∷ 225 ∷ 150
                    ∷ [])
                ++ w.log))
        (find_client others search_fuel 0 first_retry 0 w)
unfolding backoff
find_client_gives_up others n w polite away e empty =
    find_client-naps others search_fuel 0 first_retry 0 n w polite away search_fuel-Lasts e empty
