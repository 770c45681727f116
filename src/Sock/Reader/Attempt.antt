-- ===== src/Sock/Reader/Attempt.antt =====
-- One attempt of a reader to connect.
use c_axon.Base.{
  ℕ, suc, ◌<◌, ◌≡◌, ◌≢◌, refl, true, false, some, ◌∷◌, ◌*◌, ◌||◌, ℤ, pos, is_neg, arith, ok,
  Bool-cases, inl, inr,
}
use c_axon.Sock.State.{
  Ptr, null, fd_setsize, fd_set, fd_clr, fd_zero, Worker, Reader, reader, worker, World, Event,
}
use c_axon.Sock.Machine.Steps.{
  load_worker-ok, set_role-ok, at_fd-ok, clients_with, clients_set-ok, clients_without,
  clients_clr-ok,
}
use c_axon.Sock.Chain.Linked.{write-same}
use c_axon.Sock.Chain.Start.{write-write, write_worker}
use c_axon.Sock.Reader.{backoff, first_retry, load_reader, wait_retry, reader_attempt, drop_server}

-- Where the semaphore of the clients is free, a server below FD_SETSIZE that is dropped leaves the set
-- of the reader and the clients and is closed once, and nothing else changes.
pub drop_server_leaves :
    (p : Ptr) (k : Worker) (r : Reader) (w : World)
    → p ≢ null
    → w.heap p ≡ some (worker k)
    → k.role ≡ reader r
    → (d n : ℕ) → d < fd_setsize
    → w.sock.clients.sem ≡ suc n
    → drop_server p d w
      ≡ ok tt
          (record (clients_without d
            (write_worker p (record k { role = reader (record r { fds = fd_clr d r.fds }) }) w)) {
              log = Event.closed (pos d) ∷ w.log;
            })
unfolding drop_server load_reader
drop_server_leaves p k r w ne at role d n lt e =
    let q = reader (record r { fds = fd_clr d r.fds }) in
    rw
      (
        load_worker-ok p k w ne at,
        role,
        set_role-ok p k w ne at q,
        clients_clr-ok d n (write_worker p (record k { role = q }) w) lt e,
      )
      refl

module _ (p : Ptr) (k : Worker) (r : Reader) (retry : ℕ) (w : World) (ne : p ≢ null)
    (at : w.heap p ≡ some (worker k)) (role : k.role ≡ reader r) where
  -- An attempt where socket or connect fails stores the socket, sleeps, and does nothing else: the
  -- clients are as before, and a socket that did not connect is not closed, though the next
  -- attempt writes over it. The next retry is the time slept.
  pub reader_attempt_fails :
      (socket connect : ℤ)
      → is_neg socket || is_neg connect ≡ true
      → reader_attempt p retry socket connect w
        ≡ ok
            (backoff retry, false)
            (record (write_worker p (record k { role = reader (record r { socket = socket }) }) w) {
              log = Event.slept (backoff retry * 1000) ∷ w.log;
            })
  unfolding reader_attempt wait_retry load_reader
  reader_attempt_fails socket connect fails =
      rw
        (
          load_worker-ok p k w ne at,
          role,
          set_role-ok p k w ne at (reader (record r { socket = socket })),
        )
        (elim (Bool-cases (is_neg socket)) [
          | inl no_socket ↦ rw no_socket refl
          | inr made ↦ rw (made, is_neg_connect made) refl
        ])
    where
      is_neg_connect : is_neg socket ≡ false → is_neg connect ≡ true
      is_neg_connect made = ground arith

  -- An attempt that connects makes the socket, below FD_SETSIZE, the only one of the reader and
  -- one of the clients, and starts the retries anew; the semaphore of the clients, free before, is
  -- free again, and nothing else changes.
  pub reader_attempt_connects :
      (d n : ℕ) (connect : ℤ)
      → is_neg connect ≡ false
      → d < fd_setsize
      → w.sock.clients.sem ≡ suc n
      → reader_attempt p retry (pos d) connect w
        ≡ ok
            (first_retry, true)
            (clients_with d (
              write_worker p
                (record k { role = reader (record r { socket = pos d; fds = fd_set d fd_zero }) })
                w))
  unfolding reader_attempt load_reader
  reader_attempt_connects d n connect works lt e =
      let k1 = record k { role = reader (record r { socket = pos d }) } in
      let r2 = record r { socket = pos d; fds = fd_set d fd_zero } in
      let w1 = write_worker p k1 w in
      rw
        (
          load_worker-ok p k w ne at,
          role,
          set_role-ok p k w ne at (reader (record r { socket = pos d })),
          works,
          at_fd-ok fd_set d fd_zero w1 lt,
          set_role-ok p k1 w1 ne (write-same w.heap p (some (worker k1))) (reader r2),
          write-write p (some (worker (record k { role = reader r2 }))) (some (worker k1)) w.heap,
          clients_set-ok d n (write_worker p (record k { role = reader r2 }) w) lt e,
        )
        refl
