-- ===== src/Sock/Instance/Peers.antt =====
-- Peers that come and go keep the instance sound: clients of a listenner, and the server of a reader.
use c_axon.Base.{
  ℕ, ◌<◌, ◌≡◌, refl, subst, true, false, some, ◌∷◌, ℤ, pos, is_neg, ◌||◌, ◌*◌, arith, Returns,
}
use c_axon.Sock.State.{
  Ptr, fd_setsize, FdSet, fd_set, fd_clr, fd_zero, listenner, reader, Worker, Listenner, Reader,
  Chain, worker, World, Event,
}
use c_axon.Sock.Chain.Start.{write_worker}
use c_axon.Sock.Machine.Steps.{clients_with, clients_without}
use c_axon.Sock.Listenner.{accept_client, drop_client}
use c_axon.Sock.Listenner.Accept.{watching, ignoring, accept_client_joins, drop_client_leaves}
use c_axon.Sock.Reader.{backoff, reader_attempt, drop_server}
use c_axon.Sock.Reader.Attempt.{reader_attempt_fails, reader_attempt_connects, drop_server_leaves}
use c_axon.Sock.Release.{fits}
use c_axon.Sock.Instance.{Stores, Layout, Sound}
use c_axon.Sock.Instance.Find.{proper_of}
use c_axon.Sock.Instance.Kept.{clients-Sound, role-Sound}

module _ (p : Ptr) (k : Worker) (m : Listenner) (l : Layout) (w : World) (so : Sound l w)
    (at : w.heap p ≡ some (worker k)) (role : k.role ≡ listenner m) where
  pub listenner_with :
      (n : Listenner) → Sound l (write_worker p (record k { role = listenner n }) w)
  listenner_with n =
      role-Sound p k (listenner n) l w so at (rw role refl) (λ c. rw role (fits_listenner c n))
        (λ st. tt)
    where
      fits_listenner : (c : Chain) (n : Listenner) → fits c (listenner n) ≡ fits c (listenner m)
      fits_listenner c n = ground arith

  -- An accepted socket below FD_SETSIZE.
  pub accept_client-Sound :
      (d : ℕ) → d < fd_setsize → Returns (λ _ v. Sound l v) (accept_client p (pos d) w)
  accept_client-Sound d lt =
      rw
        (accept_client_joins p k m d w (proper_of l w p (worker k) so at) at role 0 lt
          so.clients_sem)
        (clients-Sound l (write_worker p (watching k m d) w) (clients_with d w).sock.clients w.log
          refl (listenner_with (record m { fds = fd_set d m.fds })))

  -- A client below FD_SETSIZE that is dropped.
  pub drop_client-Sound : (d : ℕ) → d < fd_setsize → Returns (λ _ v. Sound l v) (drop_client p d w)
  drop_client-Sound d lt =
      rw
        (drop_client_leaves p k m d w (proper_of l w p (worker k) so at) at role 0 lt
          so.clients_sem)
        (clients-Sound l (write_worker p (ignoring k m d) w) (clients_without d w).sock.clients
          (Event.closed (pos d) ∷ w.log) refl (listenner_with (record m { fds = fd_clr d m.fds })))

module _ (p : Ptr) (k : Worker) (r : Reader) (l : Layout) (w : World) (so : Sound l w)
    (at : w.heap p ≡ some (worker k)) (role : k.role ≡ reader r) where
  pub reader_with :
      (s : ℤ) (fds : FdSet)
      → Sound l (write_worker p (record k { role = reader (record r { socket = s; fds = fds }) }) w)
  reader_with s fds =
      role-Sound p k (reader (record r { socket = s; fds = fds })) l w so at (rw role refl)
        (λ c. rw role (fits_reader c (record r { socket = s; fds = fds })))
        (λ st. subst (Stores w.heap) role st)
    where
      fits_reader : (c : Chain) (q : Reader) → fits c (reader q) ≡ fits c (reader r)
      fits_reader c q = ground arith

  -- An attempt that fails.
  pub attempt_fails-Sound :
      (retry : ℕ) (socket connect : ℤ)
      → is_neg socket || is_neg connect ≡ true
      → Returns (λ _ v. Sound l v) (reader_attempt p retry socket connect w)
  attempt_fails-Sound retry socket connect fails =
      rw
        (reader_attempt_fails p k r retry w (proper_of l w p (worker k) so at) at role socket
          connect fails)
        (clients-Sound l
          (write_worker p (record k { role = reader (record r { socket = socket }) }) w)
          w.sock.clients (Event.slept (backoff retry * 1000) ∷ w.log) refl
          (reader_with socket r.fds))

  -- One that connects, with a socket below FD_SETSIZE.
  pub attempt_connects-Sound :
      (retry d : ℕ) (connect : ℤ)
      → is_neg connect ≡ false
      → d < fd_setsize
      → Returns (λ _ v. Sound l v) (reader_attempt p retry (pos d) connect w)
  attempt_connects-Sound retry d connect works lt =
      rw
        (reader_attempt_connects p k r retry w (proper_of l w p (worker k) so at) at role d 0
          connect works lt so.clients_sem)
        (clients-Sound l
          (write_worker p
            (record k { role = reader (record r { socket = pos d; fds = fd_set d fd_zero }) }) w)
          (clients_with d w).sock.clients w.log refl (reader_with (pos d) (fd_set d fd_zero)))

  -- The server, on a socket below FD_SETSIZE, that is dropped.
  pub drop_server-Sound : (d : ℕ) → d < fd_setsize → Returns (λ _ v. Sound l v) (drop_server p d w)
  drop_server-Sound d lt =
      let q = record k { role = reader (record r { fds = fd_clr d r.fds }) } in
      rw
        (drop_server_leaves p k r w (proper_of l w p (worker k) so at) at role d 0 lt
          so.clients_sem)
        (clients-Sound l (write_worker p q w) (clients_without d w).sock.clients
          (Event.closed (pos d) ∷ w.log) refl (reader_with r.socket (fd_clr d r.fds)))
