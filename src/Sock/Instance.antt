-- ===== src/Sock/Instance.antt =====
-- A sock instance as a whole: its four daisy chains, and the memory that their workers own.
pub mod Frame
pub mod Rebuild
pub mod Grow
pub mod Shrink
pub mod Find
pub mod Kept
pub mod Threads
pub mod Peers
pub mod Opening
pub mod Listening
pub mod Fresh
pub mod Calls
pub mod Sends
pub mod Asked
pub mod Arrivals
pub mod Gone
pub mod Action
pub mod Reached
use c_axon.Base.{
  ℕ, ◌+◌, ◌≡◌, Bool, true, false, Option, none, some, List, [], ◌∷◌, ◌++◌, length, Bytes, All,
  count, if◌then◌else◌,
}
use c_axon.Sock.State.{
  Ptr, null, Role, listenner, reader, messenger, sender, Chain, chain_of, Cell, worker, block, Heap,
  World,
}
use c_axon.Sock.Chain.Linked.{IsChain}
use c_axon.Sock.Chain.Changed.{chain_eq}
use c_axon.Sock.Sender.Deliver.{IsDestination}
use c_axon.Sock.Release.Freed.{Held, addrs, memory, IsHeld}

-- One for memory that is allocated.
abbrev pub alloc : Option Cell → ℕ
alloc none = 0
alloc (some c) = 1

-- What lies behind the pointers of a worker: the host name of a reader, the data of a messenger, and
-- for a sender as many bytes as it says, and a destination that axon asks for.
abbrev pub Stores : Heap → Role → Type 0
Stores h (listenner l) = Unit {0}
Stores h (reader r) = (name : Bytes) × (h r.hostname ≡ some (block name))
Stores h (messenger m) = (bytes : Bytes) × (h m.buffer ≡ some (block bytes))
Stores h (sender s) =
    (bytes : Bytes) × (h s.buffer ≡ some (block bytes))
    × (s.size ≡ length bytes)
    × IsDestination s.socket

pub record Item (c : Chain) (h : Heap) (x : Held) : Type 0 where
  pub is_held : IsHeld c h x
  pub stores : Stores h is_held.at.role

-- The workers of each chain, in their order.
abbrev pub Layout : Type 0
Layout = Chain → List Held

-- The layout with other workers in one chain.
abbrev pub put : Chain → List Held → Layout → Layout
put c xs l d = if chain_eq c d then xs else l d

-- How often an address stands among the workers and their memory.
abbrev pub tally : Ptr → Layout → ℕ
tally p l =
    count p (memory (l Chain.listenners))
    + count p (memory (l Chain.readers))
    + count p (memory (l Chain.messengers))
    + count p (memory (l Chain.senders))

-- Each chain is linked as the layout says and its semaphore is free; its workers are of its kind and
-- hold what they should; and each piece of memory that is allocated belongs to one worker, once:
-- nothing is shared, nothing is lost, nothing is used after it was freed.
pub record Sound (l : Layout) (w : World) : Type 0 where
  pub chain : (c : Chain) → IsChain w.heap (chain_of c w.sock) (addrs (l c))
  pub sem : (c : Chain) → (chain_of c w.sock).sem ≡ 1
  pub clients_sem : w.sock.clients.sem ≡ 1
  pub items : (c : Chain) → All (Item c w.heap) (l c)
  pub balance : (p : Ptr) → alloc (w.heap p) ≡ tally p l
  pub null_free : w.heap null ≡ none

abbrev pub IsSound : World → Type 0
IsSound w = (l : Layout) × Sound l w
