-- ===== src/Sock/State.antt =====
-- The data of include/sock.h: workers, daisy chains, the clients, the callbacks, the sock
-- instance, and the memory in which the workers and their buffers lie.
use c_axon.Base.{ℕ, Bool, true, false, Option, List, ℤ, Bytes, ◌==◌, if◌then◌else◌}

abbrev pub Ptr : Type 0
Ptr = ℕ

abbrev pub null : Ptr
null = 0

-- fd_set, FD_ZERO, FD_SET and FD_CLR on a descriptor below FD_SETSIZE, and FD_SETSIZE.
abbrev pub FdSet : Type 0
FdSet = ℕ → Bool

abbrev pub fd_setsize : ℕ
fd_setsize = 1024

abbrev pub fd_zero : FdSet
fd_zero n = false

abbrev pub fd_set : ℕ → FdSet → FdSet
fd_set n s k = if k == n then true else s k

abbrev pub fd_clr : ℕ → FdSet → FdSet
fd_clr n s k = if k == n then false else s k

-- SOCK_SEND_BROADCAST and SOCK_SEND_ROUND_ROBIN.
abbrev pub sock_send_broadcast : ℤ
sock_send_broadcast = ℤ.negsuc 0

abbrev pub sock_send_round_robin : ℤ
sock_send_round_robin = ℤ.negsuc 1

-- The members of the union in sock_worker_t.
pub record Listenner : Type 0 where
  pub socket : ℤ
  pub port : ℕ
  pub fds : FdSet

pub record Reader : Type 0 where
  pub socket : ℤ
  pub hostname : Ptr
  pub port : ℕ
  pub fds : FdSet

pub record Messenger : Type 0 where
  pub socket : ℤ
  pub buffer : Ptr
  pub size : ℕ

pub record Sender : Type 0 where
  pub socket : ℤ
  pub buffer : Ptr
  pub size : ℕ

pub data Role : Type 0 where
  listenner : Listenner → Role
  reader : Reader → Role
  messenger : Messenger → Role
  sender : Sender → Role

-- sock_worker_t.
pub record Worker : Type 0 where
  pub parent : Ptr
  pub prev : Ptr
  pub next : Ptr
  pub thread : ℕ
  pub role : Role

-- A worker as memset leaves it, with its member of the union filled in.
abbrev pub fresh_worker : Role → Worker
fresh_worker r = record { parent = null; prev = null; next = null; thread = 0; role = r }

-- sock_worker_list_t.
pub record WorkerList : Type 0 where
  pub first : Ptr
  pub last : Ptr
  pub sem : ℕ

-- The clients member of sock_t.
pub record Clients : Type 0 where
  pub index : ℕ
  pub fds : FdSet
  pub sem : ℕ

-- A callback and its user data, by their addresses.
pub record Callback : Type 0 where
  pub fct : Ptr
  pub user : Ptr

pub record Callbacks : Type 0 where
  pub bind : Callback
  pub message : Callback
  pub error : Callback

-- sock_t.
pub record Sock : Type 0 where
  pub listenners : WorkerList
  pub readers : WorkerList
  pub messengers : WorkerList
  pub senders : WorkerList
  pub clients : Clients
  pub cb : Callbacks

-- Which of the four daisy chains a pointer to sock_worker_list_t names.
pub data Chain : Type 0 where
  listenners readers messengers senders : Chain

abbrev pub chain_of : Chain → Sock → WorkerList
chain_of Chain.listenners s = s.listenners
chain_of Chain.readers s = s.readers
chain_of Chain.messengers s = s.messengers
chain_of Chain.senders s = s.senders

abbrev pub set_chain : Chain → WorkerList → Sock → Sock
set_chain Chain.listenners l s = record s { listenners = l }
set_chain Chain.readers l s = record s { readers = l }
set_chain Chain.messengers l s = record s { messengers = l }
set_chain Chain.senders l s = record s { senders = l }

-- What malloc and strdup hand out: a worker, or a block of bytes.
pub data Cell : Type 0 where
  worker : Worker → Cell
  block : Bytes → Cell

abbrev pub Heap : Type 0
Heap = Ptr → Option Cell

-- What the code does to the outside: calls of registered callbacks, and system calls.
pub data Event : Type 0 where
  bind_call : Callback → ℕ → Event
  error_call : Callback → Bytes → Event
  sent : ℤ → Bytes → Event
  closed : ℤ → Event
  slept : ℕ → Event
  cancelled : ℕ → Event
  joined : ℕ → Event
  sock_freed : Event

-- One sock instance at the address `self`, the memory, and the events so far, the latest first.
pub record World : Type 0 where
  pub self : Ptr
  pub sock : Sock
  pub heap : Heap
  pub log : List Event
