-- ===== src/Sock/Machine.antt =====
-- The statements of C that src/sock.c is made of, as commands on the world: memory, semaphores,
-- descriptor sets, events.
pub mod Steps
use c_axon.Base.{
  ℕ, zero, suc, Option, none, some, ◌∷◌, ℤ, pos, negsuc, ltb, ◌==◌, if◌then◌else◌, Bytes, Cmd, ok,
  fault, blocked, pure, ◌>>=◌, ◌>>◌,
}
use c_axon.Sock.State.{
  Ptr, null, FdSet, fd_setsize, fd_set, fd_clr, Worker, Role, WorkerList, Clients, Sock, Chain,
  chain_of, set_chain, Cell, worker, block, Heap, Event, World,
}

unfoldable pub write : Ptr → Option Cell → Heap → Heap
write p c h a = if a == p then c else h a

abbrev pub Io {ℓ} : Type ℓ → Type ℓ
Io A = Cmd World A

unfoldable pub put_cell : Ptr → Option Cell → Io (Unit {0})
put_cell p c w = ok tt (record w { heap = write p c w.heap })

-- `*p` at a worker: a fault at NULL, at freed memory and at memory of another type.
abbrev pub as_worker : Option Cell → Io Worker
as_worker none w = fault
as_worker (some (worker k)) w = ok k w
as_worker (some (block b)) w = fault

unfoldable pub load_worker : Ptr → Io Worker
load_worker p w = if p == null then fault else as_worker (w.heap p) w

abbrev pub as_block : Option Cell → Io Bytes
as_block none w = fault
as_block (some (worker k)) w = fault
as_block (some (block b)) w = ok b w

unfoldable pub load_block : Ptr → Io Bytes
load_block p w = if p == null then fault else as_block (w.heap p) w

-- malloc, with the address that it returns, filled at once; NULL is its failure.
unfoldable pub malloc : Ptr → Cell → Io Ptr
unfolding put_cell
malloc fresh c = if fresh == null then pure null else do put_cell fresh (some c); pure fresh

-- free: nothing at NULL, a fault at memory that is not allocated.
abbrev pub free_cell : Ptr → Option Cell → Io (Unit {0})
free_cell p none w = fault
free_cell p (some c) w = put_cell p none w

unfoldable pub free : Ptr → Io (Unit {0})
unfolding put_cell
free p w = if p == null then ok tt w else free_cell p (w.heap p) w

-- Assignments to the fields of `*p`.
unfoldable pub set_parent : Ptr → Ptr → Io (Unit {0})
unfolding load_worker put_cell
set_parent p q = do k ← load_worker p; put_cell p (some (worker (record k { parent = q })))

unfoldable pub set_prev : Ptr → Ptr → Io (Unit {0})
unfolding load_worker put_cell
set_prev p q = do k ← load_worker p; put_cell p (some (worker (record k { prev = q })))

unfoldable pub set_next : Ptr → Ptr → Io (Unit {0})
unfolding load_worker put_cell
set_next p q = do k ← load_worker p; put_cell p (some (worker (record k { next = q })))

unfoldable pub set_thread : Ptr → ℕ → Io (Unit {0})
unfolding load_worker put_cell
set_thread p t = do k ← load_worker p; put_cell p (some (worker (record k { thread = t })))

unfoldable pub set_role : Ptr → Role → Io (Unit {0})
unfolding load_worker put_cell
set_role p r = do k ← load_worker p; put_cell p (some (worker (record k { role = r })))

-- The sock instance.
abbrev pub get_sock : Io Sock
get_sock w = ok w.sock w

abbrev pub get_chain : Chain → Io WorkerList
get_chain c w = ok (chain_of c w.sock) w

abbrev pub put_chain : Chain → WorkerList → Io (Unit {0})
put_chain c l w = ok tt (record w { sock = set_chain c l w.sock })

abbrev pub get_clients : Io Clients
get_clients w = ok w.sock.clients w

abbrev pub put_clients : Clients → Io (Unit {0})
put_clients c w = ok tt (record w { sock = record w.sock { clients = c } })

abbrev pub get_self : Io Ptr
get_self w = ok w.self w

-- sem_wait and sem_post. A wait at zero blocks: nobody else runs in the meantime.
unfoldable pub wait_chain : Chain → Io (Unit {0})
wait_chain c w = elim (chain_of c w.sock).sem [
  | zero ↦ blocked
  | suc n ↦ put_chain c (record (chain_of c w.sock) { sem = n }) w
]

unfoldable pub post_chain : Chain → Io (Unit {0})
post_chain c w = put_chain c (record (chain_of c w.sock) { sem = suc (chain_of c w.sock).sem }) w

unfoldable pub wait_clients : Io (Unit {0})
wait_clients w = elim w.sock.clients.sem [
  | zero ↦ blocked
  | suc n ↦ put_clients (record w.sock.clients { sem = n }) w
]

unfoldable pub post_clients : Io (Unit {0})
post_clients w = put_clients (record w.sock.clients { sem = suc w.sock.clients.sem }) w

-- FD_SET and FD_CLR at an int: outside 0 .. FD_SETSIZE - 1 the macros are undefined.
unfoldable pub at_fd : (ℕ → FdSet → FdSet) → ℤ → FdSet → Io FdSet
at_fd f (negsuc n) s w = fault
at_fd f (pos n) s w = if ltb n fd_setsize then ok (f n s) w else fault

abbrev pub emit : Event → Io (Unit {0})
emit e w = ok tt (record w { log = e ∷ w.log })

-- sock->cb.error.fct, if it is registered.
unfoldable pub notify_error : Bytes → Io (Unit {0})
notify_error message = do
  s ← get_sock
  if s.cb.error.fct == null then pure tt else emit (Event.error_call s.cb.error message)

-- Between the semaphores of the clients: FD_SET and FD_CLR on the set that all threads share.
unfoldable pub clients_set : ℤ → Io (Unit {0})
unfolding wait_clients post_clients at_fd
clients_set socket = do
  wait_clients
  c ← get_clients
  fds ← at_fd fd_set socket c.fds
  put_clients (record c { fds = fds })
  post_clients

unfoldable pub clients_clr : ℤ → Io (Unit {0})
unfolding wait_clients post_clients at_fd
clients_clr socket = do
  wait_clients
  c ← get_clients
  fds ← at_fd fd_clr socket c.fds
  put_clients (record c { fds = fds })
  post_clients
