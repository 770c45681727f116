-- ===== src/Sock/Api/Started.antt =====
-- What sock_bind and sock_send leave behind.
use c_axon.Base.{
  ok, ℕ, suc, ◌≡◌, ◌≢◌, sym, ◌∙◌, ap, refl, false, Option, none, some, List, [], ◌∷◌, ◌++◌, ◌⊎◌,
  ◌==◌, ℤ, pos, negsuc, has, pure, ◌>>=◌, ◌>>◌, int_eq, if◌then◌else◌, Bool-cases, eq_of_==,
  ne_of_==, inl, inr, Returns, Returns-eq,
}
use mathlib.Core.Path.{fun_ext}
use c_axon.Sock.State.{
  Ptr, null, Worker, Role, fresh_worker, listenner, sender, Heap, World, Chain, chain_of, worker,
}
use c_axon.Sock.Machine.{Io, write, malloc, free}
use c_axon.Sock.Machine.Steps.{malloc-ok, free-ok, not_null}
use c_axon.Sock.Chain.{start_worker}
use c_axon.Sock.Chain.Linked.{IsChain, write-same, frame-IsChain}
use c_axon.Sock.Chain.Changed.{Changed}
use c_axon.Sock.Chain.Start.{
  started, write_worker, write-write, start_worker-append, start_worker_unlinked,
}
use c_axon.Sock.Api.{bind, send, new_listenner, new_sender}

-- The lines that both functions share.
abbrev start_fresh : Chain → Role → Ptr → Option ℕ → Io ℤ
start_fresh c role fresh thread = do
  p ← malloc fresh (worker (fresh_worker role))
  if p == null then pure (negsuc 0) else do
    started ← start_worker c p thread
    if int_eq started (pos 0) then pure (pos 0) else do free p; pure (negsuc 0)

write_restore :
    (h : Heap) (p : Ptr) (k j : Worker)
    → h p ≡ none
    → write p none (write p (some (worker k)) (write p (some (worker j)) h)) ≡ h
unfolding write
write_restore h p k j e = fun_ext λ a. elim (Bool-cases (a == p)) [
  | inl same ↦ rw same (sym e ∙ ap h (sym (eq_of_== a p same)))
  | inr other ↦ rw other refl
]

-- The two ends of a start: without memory or without thread -1 comes back and nothing has changed;
-- otherwise 0 comes back, and a worker with this role is the last of the chain.
abbrev pub Started : Chain → Role → Ptr → Option ℕ → List Ptr → World → ℤ → World → Type 0
Started c role fresh thread xs w r w' =
    (((fresh ≡ null) ⊎ (thread ≡ none)) × (r ≡ negsuc 0) × (w' ≡ w))
    ⊎ ((t : ℕ) × (thread ≡ some t)
        × (fresh ≢ null)
        × (r ≡ pos 0)
        × Changed c (fresh ∷ xs) (xs ++ fresh ∷ [])
            (write_worker fresh (started (fresh_worker role) w.self t) w) w')

module _ (c : Chain) (role : Role) (fresh : Ptr) (xs : List Ptr) (n : ℕ) (w : World)
    (is : IsChain w.heap (chain_of c w.sock) xs) (free_sem : (chain_of c w.sock).sem ≡ suc n)
    (unused : w.heap fresh ≡ none) (out : has fresh xs ≡ false) where
  abbrev fresh_at : World
  fresh_at = write_worker fresh (fresh_worker role) w

  fresh_IsChain : IsChain fresh_at.heap (chain_of c w.sock) xs
  fresh_IsChain =
      frame-IsChain w.heap fresh (some (worker (fresh_worker role))) (chain_of c w.sock) xs out is

  start_fails :
      fresh ≢ null → Returns (Started c role fresh none xs w) (start_fresh c role fresh none w)
  start_fails ne =
      let k = fresh_worker role in
      let k1 = record k { parent = w.self } in
      let w2 = write_worker fresh k1 fresh_at in
      rw
        (
          malloc-ok fresh (worker k) w ne,
          not_null fresh ne,
          start_worker_unlinked c fresh k xs n fresh_at fresh_IsChain ne out
              (write-same w.heap fresh (some (worker k))) free_sem,
          free-ok fresh (worker k1) w2 ne (write-same fresh_at.heap fresh (some (worker k1))),
        )
        (inl (
          inr refl,
          refl,
          ap (λ h. record w { heap = h }) (write_restore w.heap fresh k1 k unused),
        ))

  start_works :
      (t : ℕ)
      → fresh ≢ null
      → Returns (Started c role fresh (some t) xs w) (start_fresh c role fresh (some t) w)
  start_works t ne =
      let k = fresh_worker role in
      let (r, v, run, both) =
        Returns-eq
          (λ r v.
            (r ≡ pos 0)
            × Changed c (fresh ∷ xs) (xs ++ fresh ∷ [])
                (write_worker fresh (started k w.self t) fresh_at) v)
          _
          (start_worker-append c fresh k xs n fresh_at fresh_IsChain ne out
            (write-same w.heap fresh (some (worker k))) free_sem refl refl t) in
      rw (malloc-ok fresh (worker k) w ne, not_null fresh ne, run, both.0)
        (inr (
          t,
          refl,
          ne,
          refl,
          rw (← write-write fresh (some (worker (started k w.self t))) (some (worker k)) w.heap)
              both.1,
        ))

  start_fresh-Started :
      (thread : Option ℕ)
      → Returns (Started c role fresh thread xs w) (start_fresh c role fresh thread w)
  unfolding malloc
  start_fresh-Started thread = elim (Bool-cases (fresh == null)) [
    | inl nothing ↦ rw nothing (inl (inl (eq_of_== fresh null nothing), refl, refl))
    | inr some_memory ↦ start_by thread (ne_of_== fresh null some_memory)
  ]
    where
      start_by :
          (thread : Option ℕ)
          → fresh ≢ null
          → Returns (Started c role fresh thread xs w) (start_fresh c role fresh thread w)
      start_by none ne = start_fails ne
      start_by (some t) ne = start_works t ne

-- sock_bind, with the chain of listenners intact and its semaphore free, at memory that is not in
-- use: either malloc or pthread_create fails, -1 comes back and nothing has changed; or 0 comes back
-- and a listenner for the port is the last of its chain, with its thread stored.
pub bind-Started :
    (port : ℕ) (fresh : Ptr) (thread : Option ℕ) (xs : List Ptr) (n : ℕ) (w : World)
    → IsChain w.heap w.sock.listenners xs
    → w.sock.listenners.sem ≡ suc n
    → w.heap fresh ≡ none
    → has fresh xs ≡ false
    → Returns
        (Started Chain.listenners (listenner (new_listenner port)) fresh thread xs w)
        (bind port fresh thread w)
unfolding bind malloc
bind-Started port fresh thread xs n w is e unused out =
    start_fresh-Started Chain.listenners (listenner (new_listenner port)) fresh xs n w is e unused
      out thread

-- sock_send, with the chain of senders intact and its semaphore free, at memory that is not in use:
-- either malloc or pthread_create fails, -1 comes back and nothing has changed, so that the buffer is
-- still the caller's; or 0 comes back and a sender with the buffer, its size and its destination is
-- the last of its chain, with its thread stored.
pub send-Started :
    (buffer size : ℕ) (socket : ℤ) (fresh : Ptr) (thread : Option ℕ) (xs : List Ptr) (n : ℕ)
    (w : World)
    → IsChain w.heap w.sock.senders xs
    → w.sock.senders.sem ≡ suc n
    → w.heap fresh ≡ none
    → has fresh xs ≡ false
    → Returns
        (Started Chain.senders (sender (new_sender socket buffer size)) fresh thread xs w)
        (send buffer size socket fresh thread w)
unfolding send malloc
send-Started buffer size socket fresh thread xs n w is e unused out =
    start_fresh-Started Chain.senders (sender (new_sender socket buffer size)) fresh xs n w is e
      unused out thread

-- A sender that cannot be started leaves everything as it was.
pub send_fails :
    (buffer size : ℕ) (socket : ℤ) (fresh : Ptr) (thread : Option ℕ) (xs : List Ptr) (n : ℕ)
    (w : World)
    → IsChain w.heap w.sock.senders xs
    → w.sock.senders.sem ≡ suc n
    → w.heap fresh ≡ none
    → has fresh xs ≡ false
    → (fresh ≡ null) ⊎ (thread ≡ none)
    → send buffer size socket fresh thread w ≡ ok (negsuc 0) w
send_fails buffer size socket fresh thread xs n w is e unused out fails =
    let (r, v, run, end) =
      Returns-eq (Started Chain.senders (sender (new_sender socket buffer size)) fresh thread xs w)
        _ (send-Started buffer size socket fresh thread xs n w is e unused out) in
    run ∙ elim end [
      | inl (why, minus, same) ↦ rw (minus, same) refl
      | inr (t, some_thread, some_memory, zero, rest) ↦
          absurd (elim fails [ inl nothing ↦ some_memory nothing | inr none_thread ↦ cc ])
    ]
