-- ===== src/Sock/Machine/Steps.antt =====
-- What each statement does where it is defined: one equation for each, for use with the statements
-- shut.
use c_axon.Base.{
  ◌≤◌, ◌<◌, arith, pos, fault, lt→ltb, ℕ, suc, ◌≡◌, refl, sym, ap, ◌∙◌, ◌≢◌, false, none, some,
  ◌==◌, ne→==,
}
use c_axon.Sock.State.{
  FdSet, fd_setsize, fd_set, fd_clr, Role, Ptr, null, Worker, Chain, chain_of, set_chain,
  WorkerList, Sock, Cell, worker, block, World,
}
use c_axon.Sock.Machine.{
  set_role, at_fd, clients_set, clients_clr, malloc, write, load_worker, load_block, free,
  set_parent, set_prev, set_next, set_thread, wait_chain, wait_clients,
}
use c_axon.Base.{ok, Bytes}

pub not_null : (p : Ptr) → p ≢ null → (p == null) ≡ false
not_null p h = ne→== p null h

module _ (p : Ptr) (k : Worker) (w : World) (ne : p ≢ null) (e : w.heap p ≡ some (worker k)) where
  pub load_worker-ok : load_worker p w ≡ ok k w
  unfolding load_worker
  load_worker-ok = rw (not_null p ne, e)

  pub set_parent-ok :
      (q : Ptr)
      → set_parent p q w
        ≡ ok tt (record w { heap = write p (some (worker (record k { parent = q }))) w.heap })
  unfolding set_parent
  set_parent-ok q = rw (not_null p ne, e)

  pub set_prev-ok :
      (q : Ptr)
      → set_prev p q w
        ≡ ok tt (record w { heap = write p (some (worker (record k { prev = q }))) w.heap })
  unfolding set_prev
  set_prev-ok q = rw (not_null p ne, e)

  pub set_next-ok :
      (q : Ptr)
      → set_next p q w
        ≡ ok tt (record w { heap = write p (some (worker (record k { next = q }))) w.heap })
  unfolding set_next
  set_next-ok q = rw (not_null p ne, e)

  pub set_thread-ok :
      (t : ℕ)
      → set_thread p t w
        ≡ ok tt (record w { heap = write p (some (worker (record k { thread = t }))) w.heap })
  unfolding set_thread
  set_thread-ok t = rw (not_null p ne, e)

pub set_role-ok :
    (p : Ptr) (k : Worker) (w : World)
    → p ≢ null
    → w.heap p ≡ some (worker k)
    → (r : Role)
    → set_role p r w
      ≡ ok tt (record w { heap = write p (some (worker (record k { role = r }))) w.heap })
unfolding set_role
set_role-ok p k w ne e r = rw (not_null p ne, e)

pub free-ok :
    (p : Ptr) (c : Cell) (w : World)
    → p ≢ null
    → w.heap p ≡ some c
    → free p w ≡ ok tt (record w { heap = write p none w.heap })
unfolding free
free-ok p c w ne e = rw (not_null p ne, e)

pub malloc-ok :
    (p : Ptr) (c : Cell) (w : World)
    → p ≢ null
    → malloc p c w ≡ ok p (record w { heap = write p (some c) w.heap })
unfolding malloc
malloc-ok p c w ne = rw (not_null p ne) refl

pub load_block-ok :
    (p : Ptr) (b : Bytes) (w : World)
    → p ≢ null
    → w.heap p ≡ some (block b)
    → load_block p w ≡ ok b w
unfolding load_block
load_block-ok p b w ne e = rw (not_null p ne, e)

pub chain_of-set_chain : (c : Chain) (l : WorkerList) (s : Sock) → chain_of c (set_chain c l s) ≡ l
chain_of-set_chain Chain.listenners l s = refl
chain_of-set_chain _ l s = refl

pub set_chain-set_chain :
    (c : Chain) (l m : WorkerList) (s : Sock) → set_chain c m (set_chain c l s) ≡ set_chain c m s
set_chain-set_chain Chain.listenners l m s = refl
set_chain-set_chain _ l m s = refl

pub set_chain_self : (c : Chain) (s : Sock) → set_chain c (chain_of c s) s ≡ s
set_chain_self Chain.listenners s = refl
set_chain_self _ s = refl

pub wait_chain-ok :
    (c : Chain) (n : ℕ) (w : World)
    → (chain_of c w.sock).sem ≡ suc n
    → wait_chain c w
      ≡ ok tt (record w { sock = set_chain c (record (chain_of c w.sock) { sem = n }) w.sock })
unfolding wait_chain
wait_chain-ok c n w e = rw (e, wait_chain)

pub wait_clients-ok :
    (n : ℕ) (w : World)
    → w.sock.clients.sem ≡ suc n
    → wait_clients w
      ≡ ok tt (record w { sock = record w.sock { clients = record w.sock.clients { sem = n } } })
unfolding wait_clients
wait_clients-ok n w e = rw (e, wait_clients)

-- A sock instance that differs from `s` in the chain `c` only still does after a write to `c`.
pub set_chain-rest :
    (c : Chain) (l : WorkerList) (s s' : Sock)
    → s' ≡ set_chain c (chain_of c s') s
    → set_chain c l s' ≡ set_chain c (chain_of c (set_chain c l s')) s
set_chain-rest c l s s' e =
    ap (set_chain c l) e
    ∙ set_chain-set_chain c (chain_of c s') l s
    ∙ sym (ap (λ m. set_chain c m s) (chain_of-set_chain c l s'))

-- FD_SET and FD_CLR below FD_SETSIZE, and the fault outside.
pub at_fd-ok :
    (f : ℕ → FdSet → FdSet) (d : ℕ) (s : FdSet) (w : World)
    → d < fd_setsize
    → at_fd f (pos d) s w ≡ ok (f d s) w
unfolding at_fd
at_fd-ok f d s w lt = rw (lt→ltb d fd_setsize lt)

pub at_fd-fault :
    (f : ℕ → FdSet → FdSet) (d : ℕ) (s : FdSet) (w : World)
    → fd_setsize ≤ d
    → at_fd f (pos d) s w ≡ fault
unfolding at_fd
at_fd-fault f d s w le = ground arith

-- The clients with one descriptor more.
abbrev pub clients_with : ℕ → World → World
clients_with d w = record w {
  sock = record w.sock { clients = record w.sock.clients { fds = fd_set d w.sock.clients.fds } };
}

pub clients_set-ok :
    (d n : ℕ) (w : World)
    → d < fd_setsize
    → w.sock.clients.sem ≡ suc n
    → clients_set (pos d) w ≡ ok tt (clients_with d w)
unfolding clients_set
clients_set-ok d n w lt e =
    rw (wait_clients-ok n w e, at_fd-ok fd_set d w.sock.clients.fds _ lt) (rw (← e) refl)

-- The clients with one descriptor less.
abbrev pub clients_without : ℕ → World → World
clients_without d w = record w {
  sock = record w.sock { clients = record w.sock.clients { fds = fd_clr d w.sock.clients.fds } };
}

pub clients_clr-ok :
    (d n : ℕ) (w : World)
    → d < fd_setsize
    → w.sock.clients.sem ≡ suc n
    → clients_clr (pos d) w ≡ ok tt (clients_without d w)
unfolding clients_clr
clients_clr-ok d n w lt e =
    rw (wait_clients-ok n w e, at_fd-ok fd_clr d w.sock.clients.fds _ lt) (rw (← e) refl)
