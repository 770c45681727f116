-- ===== src/Sock/Sender/Pick.antt =====
-- Which client a round-robin send goes to: the loop at lines 749 to 754 of src/sock.c.
use mathlib.Core.Bool.{false≢true}
use c_axon.Base.{
  ℕ, zero, suc, ◌+◌, ◌-◌, ◌%◌, ◌≤◌, ◌<◌, ◌≡◌, refl, sym, ◌≢◌, true, false, ◌||◌, ◌&&◌, ◌∙◌, ap,
  arith, pos, negsuc, ltb, leb, ◌==◌, if◌then◌else◌, ℤ, ◌⊎◌, inl, inr, Bool-cases,
}
use c_axon.Sock.State.{FdSet, fd_setsize}
use c_axon.Sock.Sender.{pick}

-- The descriptor that the loop looks at in round `k`.
abbrev pub visited : ℕ → ℕ → ℕ
visited start k = (k + start + 1) % fd_setsize

-- The whole loop, from -1.
abbrev pub picked : FdSet → ℕ → ℤ
picked fds start = pick fds start fd_setsize 0 (negsuc 0)

pick_idle :
    (fds : FdSet) (start rest index : ℕ) (socket : ℤ)
    → ((k : ℕ) → index ≤ k → k < index + rest → fds (visited start k) ≡ false)
    → pick fds start rest index socket ≡ socket
unfolding pick
pick_idle fds start zero index socket h = refl
pick_idle fds start (suc rest) index socket h =
    rw (h index (omega arith) (omega arith))
      (pick_idle fds start rest (index + 1) socket (λ k a b. h k (omega arith) (omega arith)))

-- The last set descriptor that the loop meets is the result.
pick_last :
    (fds : FdSet) (start rest index : ℕ) (socket : ℤ) (j : ℕ)
    → index ≤ j
    → j < index + rest
    → fds (visited start j) ≡ true
    → ((k : ℕ) → j < k → k < index + rest → fds (visited start k) ≡ false)
    → pick fds start rest index socket ≡ pos (visited start j)
unfolding pick
pick_last fds start zero index socket j a b e h = absurd (omega arith)
pick_last fds start (suc rest) index socket j a b e h = elim (Bool-cases (index == j)) [
  | inl same ↦
      let same' : index ≡ j = ground arith in
      rw (same', e)
        (pick_idle fds start rest (j + 1) (pos (visited start j))
          (λ k c d. h k (omega arith) (omega arith)))
  | inr other ↦
      pick_last fds start rest (index + 1) _ j (ground arith) (omega arith) e
        (λ k c d. h k c (omega arith))
]

-- How far below the index `start` the descriptor `d` lies, going round.
abbrev pub below : ℕ → ℕ → ℕ
below start d = (start + fd_setsize - d) % fd_setsize

-- The search loop over the 1024 descriptors selects the client that is nearest to the index going
-- down, the index included and with 1023 below 0.
pub pick_nearest :
    (fds : FdSet) (start c : ℕ)
    → start < fd_setsize
    → c < fd_setsize
    → fds c ≡ true
    → ((d : ℕ) → d < fd_setsize → fds d ≡ true → below start c ≤ below start d)
    → picked fds start ≡ pos c
pick_nearest fds start c hs hc e near =
    let j = fd_setsize - 1 - below start c in
    let back : visited start j ≡ c = omega arith in
    pick_last fds start fd_setsize 0 (negsuc 0) j (omega arith) (omega arith) (ap fds back ∙ e)
      (λ k a b. elim (Bool-cases (fds (visited start k))) [
        | inl set ↦ absurd (omega (arith, near (visited start k) (omega arith) set))
        | inr clear ↦ clear
      ])
    ∙ ap pos back

-- With no client set the result is -1.
pub pick_none :
    (fds : FdSet) (start : ℕ)
    → ((d : ℕ) → d < fd_setsize → fds d ≡ false)
    → picked fds start ≡ negsuc 0
pick_none fds start h =
    pick_idle fds start fd_setsize 0 (negsuc 0) (λ k a b. h (visited start k) (omega arith))

-- Unless the index comes to a client when it goes up by one, the loop selects the same client
-- again.
pub pick_repeats :
    (fds : FdSet) (start c : ℕ)
    → start < fd_setsize
    → c < fd_setsize
    → fds c ≡ true
    → ((d : ℕ) → d < fd_setsize → fds d ≡ true → below start c ≤ below start d)
    → fds ((start + 1) % fd_setsize) ≡ false
    → picked fds ((start + 1) % fd_setsize) ≡ picked fds start
pick_repeats fds start c hs hc e near clear =
    pick_nearest fds ((start + 1) % fd_setsize) c (omega arith) hc e nearer
    ∙ sym (pick_nearest fds start c hs hc e near)
  where
    apart : (d : ℕ) → fds d ≡ true → d ≢ (start + 1) % fd_setsize
    apart d set same = false≢true (sym clear ∙ ap fds (sym same) ∙ set)

    nearer :
        (d : ℕ)
        → d < fd_setsize
        → fds d ≡ true
        → below ((start + 1) % fd_setsize) c ≤ below ((start + 1) % fd_setsize) d
    nearer d hd set = omega (arith, near d hd set, apart d set, apart c e)

-- With exactly two clients `a` and `b`, `a` below `b`, the loop selects `a` where the index is
-- from `a` up to `b`, `b` not included, and `b` at all other values of the index.
pub pick_two :
    (fds : FdSet) (start a b : ℕ)
    → start < fd_setsize
    → a < b
    → b < fd_setsize
    → ((d : ℕ) → d < fd_setsize → fds d ≡ ((d == a) || (d == b)))
    → picked fds start ≡ pos (if leb a start && ltb start b then a else b)
pick_two fds start a b hs ab hb two = elim (Bool-cases (leb a start && ltb start b)) [
  | inl between ↦ rw between (
      pick_nearest fds start a hs (omega arith) (two a (omega arith) ∙ ground arith)
        (λ d hd set. ground (arith, two d hd)))
  | inr outside ↦ rw outside (
      pick_nearest fds start b hs hb (two b hb ∙ ground arith)
        (λ d hd set. ground (arith, two d hd)))
]

pick_range :
    (fds : FdSet) (start rest index : ℕ) (socket : ℤ)
    → (pick fds start rest index socket ≡ socket)
      ⊎ ((d : ℕ) × (pick fds start rest index socket ≡ pos d) × (d < fd_setsize) × (fds d ≡ true))
unfolding pick
pick_range fds start zero index socket = inl refl
pick_range fds start (suc rest) index socket = elim (Bool-cases (fds (visited start index))) [
  | inr clear ↦ rw clear (pick_range fds start rest (index + 1) socket)
  | inl set ↦ rw set (elim (pick_range fds start rest (index + 1) (pos (visited start index))) [
    | inl e ↦ inr (visited start index, e, omega arith, set)
    | inr found ↦ inr found
  ])
]

-- What the loop comes to is -1 or a client, and so never a descriptor outside the set.
pub picked_range :
    (fds : FdSet) (start : ℕ)
    → (picked fds start ≡ negsuc 0)
      ⊎ ((d : ℕ) × (picked fds start ≡ pos d) × (d < fd_setsize) × (fds d ≡ true))
picked_range fds start = pick_range fds start fd_setsize 0 (negsuc 0)
