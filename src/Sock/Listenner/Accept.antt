-- ===== src/Sock/Listenner/Accept.antt =====
-- Clients that come and go at a listenner.
use c_axon.Base.{ℕ, suc, ◌<◌, ◌≤◌, ◌≡◌, ◌≢◌, refl, some, ◌∷◌, pos, ok, fault}
use c_axon.Sock.State.{
  Ptr, null, fd_setsize, fd_set, fd_clr, Worker, Listenner, listenner, worker, World, Event,
}
use c_axon.Sock.Machine.Steps.{
  load_worker-ok, set_role-ok, at_fd-ok, at_fd-fault, clients_with, clients_set-ok, clients_clr-ok,
  clients_without,
}
use c_axon.Sock.Chain.Start.{write_worker}
use c_axon.Sock.Listenner.{load_listenner, accept_client, drop_client}

-- The worker with the descriptor in, or out of, the set of the listenner.
abbrev pub watching : Worker → Listenner → ℕ → Worker
watching k l d = record k { role = listenner (record l { fds = fd_set d l.fds }) }

abbrev pub ignoring : Worker → Listenner → ℕ → Worker
ignoring k l d = record k { role = listenner (record l { fds = fd_clr d l.fds }) }

module _ (p : Ptr) (k : Worker) (l : Listenner) (d : ℕ) (w : World) (ne : p ≢ null)
    (at : w.heap p ≡ some (worker k)) (role : k.role ≡ listenner l) where
  -- Where the semaphore of the clients is free, an accepted socket below FD_SETSIZE joins the set
  -- of the listenner and the clients, and nothing else changes.
  pub accept_client_joins :
      (n : ℕ)
      → d < fd_setsize
      → w.sock.clients.sem ≡ suc n
      → accept_client p (pos d) w ≡ ok tt (clients_with d (write_worker p (watching k l d) w))
  unfolding accept_client load_listenner
  accept_client_joins n lt e =
      rw
        (
          load_worker-ok p k w ne at,
          role,
          at_fd-ok fd_set d l.fds w lt,
          set_role-ok p k w ne at (listenner (record l { fds = fd_set d l.fds })),
          clients_set-ok d n (write_worker p (watching k l d) w) lt e,
        )
        refl

  -- An accepted socket from FD_SETSIZE on is an access outside the set of the listenner.
  pub accept_client_overflow : fd_setsize ≤ d → accept_client p (pos d) w ≡ fault
  unfolding accept_client load_listenner
  accept_client_overflow le =
      rw (load_worker-ok p k w ne at, role, at_fd-fault fd_set d l.fds w le) refl

  -- Where the semaphore of the clients is free, a client below FD_SETSIZE that is dropped leaves
  -- the set of the listenner and the clients and is closed once, and nothing else changes.
  pub drop_client_leaves :
      (n : ℕ)
      → d < fd_setsize
      → w.sock.clients.sem ≡ suc n
      → drop_client p d w
        ≡ ok tt (record (clients_without d (write_worker p (ignoring k l d) w)) {
          log = Event.closed (pos d) ∷ w.log;
        })
  unfolding drop_client load_listenner
  drop_client_leaves n lt e =
      rw
        (
          load_worker-ok p k w ne at,
          role,
          set_role-ok p k w ne at (listenner (record l { fds = fd_clr d l.fds })),
          clients_clr-ok d n (write_worker p (ignoring k l d) w) lt e,
        )
        refl
