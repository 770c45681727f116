-- ===== src/Sock/Api.antt =====
-- sock_create, sock_bind, sock_connect, sock_is_connected, sock_on and sock_send of src/sock.c.
-- What malloc, strdup and pthread_create return is an argument of each function.
pub mod Connected
pub mod Started
pub mod Connect
use c_axon.Base.{
  ℕ, zero, suc, Bool, true, false, Option, none, some, ℤ, pos, negsuc, int_eq, ◌==◌, ◌&&◌,
  if◌then◌else◌, Bytes, codes, str_eq, ok, fault, out_of_fuel, pure, ◌>>=◌, ◌>>◌,
}
use c_axon.Sock.State.{
  Ptr, null, fd_zero, Listenner, Reader, Sender, Role, listenner, reader, sender, fresh_worker,
  WorkerList, Callback, Callbacks, Sock, Chain, worker, block,
}
use c_axon.Sock.Machine.{
  Io, malloc, free, load_worker, load_block, set_role, get_chain, wait_chain, post_chain,
}
use c_axon.Sock.Chain.{start_worker}

-- A list and the clients as memset and sem_init leave them.
abbrev pub empty_list : WorkerList
empty_list = record { first = null; last = null; sem = 1 }

abbrev pub no_callback : Callback
no_callback = record { fct = null; user = null }

abbrev pub new_sock : Sock
new_sock = record {
  listenners = empty_list;
  readers = empty_list;
  messengers = empty_list;
  senders = empty_list;
  clients = record { index = 0; fds = fd_zero; sem = 1 };
  cb = record { bind = no_callback; message = no_callback; error = no_callback };
}

unfoldable pub create : Ptr → Option Sock
create fresh = if fresh == null then none else some new_sock

abbrev pub new_listenner : ℕ → Listenner
new_listenner port = record { socket = pos 0; port = port; fds = fd_zero }

abbrev pub new_reader : Ptr → ℕ → Reader
new_reader hostname port = record {
  socket = pos 0;
  hostname = hostname;
  port = port;
  fds = fd_zero;
}

unfoldable pub bind : ℕ → Ptr → Option ℕ → Io ℤ
unfolding malloc free
bind port fresh thread = do
  p ← malloc fresh (worker (fresh_worker (listenner (new_listenner port))))
  if p == null then pure (negsuc 0) else do
    started ← start_worker Chain.listenners p thread
    if int_eq started (pos 0) then pure (pos 0) else do free p; pure (negsuc 0)

-- The worker is allocated first, then the copy of the host name.
unfoldable pub connect : Bytes → ℕ → Ptr → Ptr → Option ℕ → Io ℤ
unfolding malloc free set_role
connect hostname port fresh copy thread = do
  p ← malloc fresh (worker (fresh_worker (reader (new_reader null 0))))
  if p == null then pure (negsuc 0) else do
    h ← malloc copy (block hostname)
    if h == null then (do free p; pure (negsuc 0)) else do
      set_role p (reader (new_reader h port))
      started ← start_worker Chain.readers p thread
      if int_eq started (pos 0) then pure (pos 0) else do free h; free p; pure (negsuc 0)

-- The member of the union that the code takes the worker of a reader to have.
abbrev pub as_reader : Role → Io Reader
as_reader (listenner l) w = fault
as_reader (reader r) w = ok r w
as_reader (Role.messenger m) w = fault
as_reader (sender s) w = fault

-- The walk along the readers, with fuel for the workers it passes.
unfoldable pub find_reader : Bytes → ℕ → ℕ → Ptr → Io Bool
unfolding load_worker load_block
find_reader hostname port zero p = λ w. out_of_fuel
find_reader hostname port (suc fuel) p = if p == null then pure false else do
  k ← load_worker p
  r ← as_reader k.role
  name ← load_block r.hostname
  if str_eq hostname name && port == r.port
      then pure true
      else find_reader hostname port fuel k.next

unfoldable pub is_connected : ℕ → Bytes → ℕ → Io Bool
unfolding wait_chain post_chain
is_connected fuel hostname port = do
  wait_chain Chain.readers
  l ← get_chain Chain.readers
  ret ← find_reader hostname port fuel l.first
  post_chain Chain.readers
  pure ret

-- The assignment by topic that sock_on and axon_on share in shape: an unknown topic stores nothing.
unfoldable pub set_callback : Bytes → Callback → Callbacks → Callbacks
set_callback topic c cb =
    if str_eq topic (codes "bind")
    then record cb { bind = c }
    else if str_eq topic (codes "message")
    then record cb { message = c }
    else if str_eq topic (codes "error")
    then record cb { error = c }
    else cb

unfoldable pub register : Bytes → Ptr → Ptr → Sock → Sock
unfolding set_callback
register topic fct user s = record s {
  cb = set_callback topic (record { fct = fct; user = user }) s.cb;
}

unfoldable pub on : Bytes → Ptr → Ptr → Io ℤ
unfolding register
on topic fct user w = ok (pos 0) (record w { sock = register topic fct user w.sock })

abbrev pub new_sender : ℤ → Ptr → ℕ → Sender
new_sender socket buffer size = record { socket = socket; buffer = buffer; size = size }

unfoldable pub send : Ptr → ℕ → ℤ → Ptr → Option ℕ → Io ℤ
unfolding malloc free
send buffer size socket fresh thread = do
  p ← malloc fresh (worker (fresh_worker (sender (new_sender socket buffer size))))
  if p == null then pure (negsuc 0) else do
    started ← start_worker Chain.senders p thread
    if int_eq started (pos 0) then pure (pos 0) else do free p; pure (negsuc 0)
