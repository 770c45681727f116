-- ===== src/Sock/Api/Connect.antt =====
-- What sock_connect leaves behind.
use c_axon.Base.{
  ℕ, suc, ◌≡◌, ◌≢◌, sym, ◌∙◌, ap, refl, false, Option, none, some, List, [], ◌∷◌, ◌++◌, ◌==◌, pos,
  negsuc, Bytes, has, ok, Bool-cases, eq_of_==, ne_of_==, ne→==, inl, inr, Returns, Returns-eq,
  arith,
}
use mathlib.Core.Path.{fun_ext}
use c_axon.Sock.State.{
  Ptr, null, Worker, reader, fresh_worker, Heap, World, Chain, Cell, worker, block,
}
use c_axon.Sock.Machine.{write}
use c_axon.Sock.Machine.Steps.{malloc-ok, free-ok, set_role-ok, not_null}
use c_axon.Sock.Chain.Linked.{IsChain, write-same, write-other, frame-IsChain}
use c_axon.Sock.Chain.Changed.{Changed}
use c_axon.Sock.Chain.Start.{
  write-write, started, write_worker, start_worker-append, start_worker_unlinked,
}
use c_axon.Sock.Api.{connect, new_reader}

-- Writes to two places: the later one at each counts.
write_twice :
    (h : Heap) (p q : Ptr) (a b c : Option Cell)
    → (p == q) ≡ false
    → write p c (write q b (write p a h)) ≡ write p c (write q b h)
unfolding write
write_twice h p q a b c apart = fun_ext λ x. ground arith

-- Both places are given back.
write_back :
    (h : Heap) (p q : Ptr) (b c : Option Cell)
    → h p ≡ none
    → h q ≡ none
    → write p none (write q none (write p c (write q b h))) ≡ h
unfolding write
write_back h p q b c hp hq = fun_ext λ x. elim (Bool-cases (x == p)) [
  | inl same ↦ rw same (sym hp ∙ ap h (sym (eq_of_== x p same)))
  | inr other ↦ elim (Bool-cases (x == q)) [
    | inl same ↦ rw (other, same) (sym hq ∙ ap h (sym (eq_of_== x q same)))
    | inr away ↦ rw (other, away) refl
  ]
]

-- The world with the copy of the host name.
abbrev pub named : Ptr → Bytes → World → World
named copy hostname w = record w { heap = write copy (some (block hostname)) w.heap }

module _ (hostname : Bytes) (port : ℕ) (fresh copy : Ptr) (xs : List Ptr) (n : ℕ) (w : World)
    (is : IsChain w.heap w.sock.readers xs) (e : w.sock.readers.sem ≡ suc n)
    (fresh_unused : w.heap fresh ≡ none) (copy_unused : w.heap copy ≡ none)
    (fresh_out : has fresh xs ≡ false) (copy_out : has copy xs ≡ false)
    (apart : (fresh == copy) ≡ false) where
  abbrev k0 : Worker
  k0 = fresh_worker (reader (new_reader null 0))

  abbrev k1 : Worker
  k1 = fresh_worker (reader (new_reader copy port))

  abbrev k2 : Worker
  k2 = record k1 { parent = w.self }

  abbrev filled : World
  filled = write_worker fresh k1 (named copy hostname w)

  filled-IsChain : IsChain filled.heap w.sock.readers xs
  filled-IsChain =
      frame-IsChain (named copy hostname w).heap fresh (some (worker k1)) w.sock.readers xs
        fresh_out (frame-IsChain w.heap copy (some (block hostname)) w.sock.readers xs copy_out is)

  copy_held :
      (c : Option Cell) → write fresh c (named copy hostname w).heap copy ≡ some (block hostname)
  copy_held c =
      write-other (named copy hostname w).heap fresh copy c
        (ne→== copy fresh (λ q. ne_of_== fresh copy apart (sym q)))
      ∙ write-same w.heap copy (some (block hostname))

  -- With memory for the reader and for the copy of the host name, neither in use before, the chain
  -- of readers intact and its semaphore free, but no thread from pthread_create, sock_connect
  -- returns -1 with both freed, and nothing has changed.
  pub connect_fails :
      fresh ≢ null → copy ≢ null → connect hostname port fresh copy none w ≡ ok (negsuc 0) w
  unfolding connect
  connect_fails ne ne' =
      let w1 = write_worker fresh k0 w in
      let w2 = named copy hostname w1 in
      let w3 = write_worker fresh k2 filled in
      let w4 = record w3 { heap = write copy none w3.heap } in
      rw
        (
          malloc-ok fresh (worker k0) w ne,
          not_null fresh ne,
          malloc-ok copy (block hostname) w1 ne',
          not_null copy ne',
          set_role-ok fresh k0 w2 ne
              (write-other w1.heap copy fresh (some (block hostname)) apart
                ∙ write-same w.heap fresh (some (worker k0)))
              (reader (new_reader copy port)),
          write_twice w.heap fresh copy (some (worker k0)) (some (block hostname))
              (some (worker k1)) apart,
          start_worker_unlinked Chain.readers fresh k1 xs n filled filled-IsChain ne fresh_out
              (write-same (named copy hostname w).heap fresh (some (worker k1))) e,
          free-ok copy (block hostname) w3 ne' (
              write-other filled.heap fresh copy (some (worker k2))
                (ne→== copy fresh (λ q. ne_of_== fresh copy apart (sym q)))
              ∙ copy_held (some (worker k1))),
          free-ok fresh (worker k2) w4 ne (
              write-other w3.heap copy fresh none apart
              ∙ write-same filled.heap fresh (some (worker k2))),
        )
        (ap (λ g. ok (negsuc 0) (record w { heap = g }))
          (ap (λ g. write fresh none (write copy none g))
              (write-write fresh (some (worker k2)) (some (worker k1)) (named copy hostname w).heap)
            ∙ write_back w.heap fresh copy (some (block hostname)) (some (worker k2)) fresh_unused
                copy_unused))

  -- With memory for the reader and for the copy of the host name, neither in use before, the chain
  -- of readers intact and its semaphore free, and a thread from pthread_create, sock_connect
  -- returns 0: a reader with the copy and this port is the last of its chain, with its thread
  -- stored.
  pub connect-append :
      (t : ℕ)
      → fresh ≢ null
      → copy ≢ null
      → Returns
          (λ r w'.
            (r ≡ pos 0)
            × Changed Chain.readers
                (fresh ∷ xs)
                (xs ++ fresh ∷ [])
                (write_worker fresh (started k1 w.self t) (named copy hostname w))
                w')
          (connect hostname port fresh copy (some t) w)
  unfolding connect
  connect-append t ne ne' =
      let w1 = write_worker fresh k0 w in
      let w2 = named copy hostname w1 in
      let (r, v, run, both) =
        Returns-eq
          (λ r v.
            (r ≡ pos 0)
            × Changed Chain.readers (fresh ∷ xs) (xs ++ fresh ∷ [])
                (write_worker fresh (started k1 w.self t) filled) v)
          _
          (start_worker-append Chain.readers fresh k1 xs n filled filled-IsChain ne fresh_out
            (write-same (named copy hostname w).heap fresh (some (worker k1))) e refl refl t) in
      rw
        (
          malloc-ok fresh (worker k0) w ne,
          not_null fresh ne,
          malloc-ok copy (block hostname) w1 ne',
          not_null copy ne',
          set_role-ok fresh k0 w2 ne
              (write-other w1.heap copy fresh (some (block hostname)) apart
                ∙ write-same w.heap fresh (some (worker k0)))
              (reader (new_reader copy port)),
          write_twice w.heap fresh copy (some (worker k0)) (some (block hostname))
              (some (worker k1)) apart,
          run,
          both.0,
        )
        (
          refl,
          rw
              (← write-write fresh (some (worker (started k1 w.self t))) (some (worker k1))
                (named copy hostname w).heap)
              both.1,
        )
