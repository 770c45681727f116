-- ===== src/Sock/Messenger/Receive.antt =====
-- The block that starts a messenger when data arrive, on each of its ways.
use c_axon.Base.{
  ℕ, suc, ◌≡◌, ◌≢◌, sym, ◌∙◌, ap, refl, true, false, Option, none, some, List, [], ◌∷◌, ◌++◌, ◌==◌,
  ℤ, pos, int_eq, has, ok, ne_of_==, ne→==, Returns, Returns-eq,
}
use c_axon.Sock.State.{
  Ptr, null, Worker, Messenger, messenger, fresh_worker, Sock, Event, World, Chain, Cell, worker,
  block,
}
use c_axon.Sock.Machine.{Io, write, put_cell}
use c_axon.Sock.Machine.Steps.{malloc-ok, free-ok, not_null}
use c_axon.Sock.Chain.Linked.{IsChain, write-same, write-other, frame-IsChain}
use c_axon.Sock.Chain.Changed.{Changed}
use c_axon.Sock.Chain.Start.{
  write-write, started, write_worker, start_worker-append, start_worker_unlinked,
}
use c_axon.Sock.Api.Connect.{named}
use c_axon.Sock.Messenger.{Input, kept, lost, receive}
use c_axon.Sock.Messenger.Cells.{fill_twice, free_both, start_back, write-none}

-- The messenger that the block starts.
abbrev pub new_messenger : ℤ → Input → Messenger
new_messenger socket i = record { socket = socket; buffer = i.fresh_buffer; size = i.pending }

module _ (socket : ℤ) (close : Io (Unit {0})) (i : Input) (w : World) where
  -- Without memory for the worker nothing changes.
  pub receive_no_worker : i.fresh ≡ null → receive socket close i w ≡ ok kept w
  unfolding receive
  receive_no_worker e = rw e refl

  module _ (ne : i.fresh ≢ null) (unused : w.heap i.fresh ≡ none) where
    abbrev k0 : Worker
    k0 = fresh_worker (messenger (record { socket = socket; buffer = null; size = i.pending }))

    abbrev k1 : Worker
    k1 = fresh_worker (messenger (new_messenger socket i))

    abbrev k2 : Worker
    k2 = record k1 { parent = w.self }

    -- Without memory for the buffer the worker is freed, and nothing changes.
    pub receive_no_buffer : i.fresh_buffer ≡ null → receive socket close i w ≡ ok kept w
    unfolding receive
    receive_no_buffer e =
        rw
          (
            malloc-ok i.fresh (worker k0) w ne,
            not_null i.fresh ne,
            e,
            free-ok i.fresh (worker k0) (write_worker i.fresh k0 w) ne
                (write-same w.heap i.fresh (some (worker k0))),
            write-write i.fresh none (some (worker k0)) w.heap,
          )
          (ap (λ h. ok kept (record w { heap = h })) (write-none w.heap i.fresh unused))

    module _ (ne' : i.fresh_buffer ≢ null) (unused' : w.heap i.fresh_buffer ≡ none)
        (apart : (i.fresh == i.fresh_buffer) ≡ false) where
      abbrev filled : World
      filled = write_worker i.fresh k1 (named i.fresh_buffer i.bytes w)

      buffer_held :
          (c : Option Cell)
          → write i.fresh c (named i.fresh_buffer i.bytes w).heap i.fresh_buffer
            ≡ some (block i.bytes)
      buffer_held c =
          write-other (named i.fresh_buffer i.bytes w).heap i.fresh i.fresh_buffer c
            (ne→== i.fresh_buffer i.fresh (λ q. ne_of_== i.fresh i.fresh_buffer apart (sym q)))
          ∙ write-same w.heap i.fresh_buffer (some (block i.bytes))

      -- A read that does not return all that is pending, with memory for the messenger and its buffer,
      -- neither in use before and apart, where closing the connection writes one other place: the
      -- connection is closed and lost, the messenger and its buffer are freed, and what closing did is
      -- all that has changed.
      pub receive_lost :
          (q : Ptr) (c : Option Cell) (s : Sock) (log : List Event)
          → int_eq (pos i.pending) i.received ≡ false
          → (q == i.fresh) ≡ false
          → (q == i.fresh_buffer) ≡ false
          → close filled
            ≡ ok tt (record filled { heap = write q c filled.heap; sock = s; log = log })
          → receive socket close i w
            ≡ ok lost (record w { heap = write q c w.heap; sock = s; log = log })
      unfolding receive put_cell
      receive_lost q c s log short qp qb closes =
          let w1 = write_worker i.fresh k0 w in
          let v = record filled { heap = write q c filled.heap; sock = s; log = log } in
          rw
            (
              malloc-ok i.fresh (worker k0) w ne,
              not_null i.fresh ne,
              malloc-ok i.fresh_buffer (block []) w1 ne',
              not_null i.fresh_buffer ne',
              fill_twice w.heap i.fresh i.fresh_buffer (some (worker k0)) (some (worker k1))
                  (some (block [])) (some (block i.bytes)) apart,
              short,
              closes,
              free-ok i.fresh_buffer (block i.bytes) v ne' (
                  write-other filled.heap q i.fresh_buffer c
                    (ne→== i.fresh_buffer q (λ e. ne_of_== q i.fresh_buffer qb (sym e)))
                  ∙ buffer_held (some (worker k1))),
              free-ok i.fresh (worker k1) (record v { heap = write i.fresh_buffer none v.heap }) ne
                  (write-other v.heap i.fresh_buffer i.fresh none apart
                    ∙ write-other filled.heap q i.fresh c
                        (ne→== i.fresh q (λ e. ne_of_== q i.fresh qp (sym e)))
                    ∙ write-same (named i.fresh_buffer i.bytes w).heap i.fresh (some (worker k1))),
              free_both w.heap i.fresh i.fresh_buffer q (some (worker k1)) (some (block i.bytes)) c
                  unused unused' qp qb,
            )
            refl

      module _ (xs : List Ptr) (n : ℕ) (is : IsChain w.heap w.sock.messengers xs)
          (e : w.sock.messengers.sem ≡ suc n) (out : has i.fresh xs ≡ false)
          (out' : has i.fresh_buffer xs ≡ false)
          (whole : int_eq (pos i.pending) i.received ≡ true) where
        filled-IsChain : IsChain filled.heap w.sock.messengers xs
        filled-IsChain =
            frame-IsChain (named i.fresh_buffer i.bytes w).heap i.fresh (some (worker k1))
              w.sock.messengers xs out
              (frame-IsChain w.heap i.fresh_buffer (some (block i.bytes)) w.sock.messengers xs out'
                is)

        -- Without a thread both are freed, and nothing has changed.
        pub receive_unstarted : i.thread ≡ none → receive socket close i w ≡ ok kept w
        unfolding receive put_cell
        receive_unstarted no_thread =
            let w1 = write_worker i.fresh k0 w in
            let w3 = write_worker i.fresh k2 filled in
            let w4 = record w3 { heap = write i.fresh_buffer none w3.heap } in
            rw
              (
                malloc-ok i.fresh (worker k0) w ne,
                not_null i.fresh ne,
                malloc-ok i.fresh_buffer (block []) w1 ne',
                not_null i.fresh_buffer ne',
                fill_twice w.heap i.fresh i.fresh_buffer (some (worker k0)) (some (worker k1))
                    (some (block [])) (some (block i.bytes)) apart,
                whole,
                no_thread,
                start_worker_unlinked Chain.messengers i.fresh k1 xs n filled filled-IsChain ne out
                    (write-same (named i.fresh_buffer i.bytes w).heap i.fresh (some (worker k1))) e,
                free-ok i.fresh_buffer (block i.bytes) w3 ne' (
                    write-other filled.heap i.fresh i.fresh_buffer (some (worker k2)) (
                      ne→== i.fresh_buffer i.fresh
                        (λ q. ne_of_== i.fresh i.fresh_buffer apart (sym q)))
                    ∙ buffer_held (some (worker k1))),
                free-ok i.fresh (worker k2) w4 ne (
                    write-other w3.heap i.fresh_buffer i.fresh none apart
                    ∙ write-same filled.heap i.fresh (some (worker k2))),
              )
              (ap (λ h. ok kept (record w { heap = h }))
                (start_back w.heap i.fresh i.fresh_buffer (some (worker k1)) (some (worker k2))
                  (some (block i.bytes)) unused unused'))

        -- Data that are read whole, with memory for the messenger and its buffer, neither in use
        -- before and apart, a thread, and the chain of messengers intact with its semaphore free: the
        -- connection goes on, and a messenger with the bytes, their number and the socket is the last
        -- of its chain, with its thread stored.
        pub receive_starts :
            (t : ℕ)
            → i.thread ≡ some t
            → Returns
                (λ r v.
                  (r ≡ kept)
                  × Changed Chain.messengers
                      (i.fresh ∷ xs)
                      (xs ++ i.fresh ∷ [])
                      (write_worker i.fresh (started k1 w.self t) (named i.fresh_buffer i.bytes w))
                      v)
                (receive socket close i w)
        unfolding receive put_cell
        receive_starts t some_thread =
            let w1 = write_worker i.fresh k0 w in
            let (r, v, run, both) =
              Returns-eq
                (λ r v.
                  (r ≡ pos 0)
                  × Changed Chain.messengers (i.fresh ∷ xs) (xs ++ i.fresh ∷ [])
                      (write_worker i.fresh (started k1 w.self t) filled) v)
                _
                (start_worker-append Chain.messengers i.fresh k1 xs n filled filled-IsChain ne out
                  (write-same (named i.fresh_buffer i.bytes w).heap i.fresh (some (worker k1))) e
                  refl refl t) in
            rw
              (
                malloc-ok i.fresh (worker k0) w ne,
                not_null i.fresh ne,
                malloc-ok i.fresh_buffer (block []) w1 ne',
                not_null i.fresh_buffer ne',
                fill_twice w.heap i.fresh i.fresh_buffer (some (worker k0)) (some (worker k1))
                    (some (block [])) (some (block i.bytes)) apart,
                whole,
                some_thread,
                run,
                both.0,
              )
              (
                refl,
                rw
                    (← write-write i.fresh (some (worker (started k1 w.self t))) (some (worker k1))
                      (named i.fresh_buffer i.bytes w).heap)
                    both.1,
              )
