-- ===== src/Axon/Send/Transmit.antt =====
-- The end of a send: what happens to the buffer and to the queue of a request.
use c_axon.Base.{
  ℕ, suc, ◌≡◌, ◌≢◌, sym, ◌∙◌, ap, refl, Bool, false, ◌&&◌, Option, none, some, List, ◌⊎◌, inl, inr,
  ◌==◌, ℤ, negsuc, Bytes, str_eq, length, has, ok, if◌then◌else◌, Bool-cases, eq_of_==, arith,
  Returns, Cmd,
}
use mathlib.Core.Path.{fun_ext}
use c_axon.Sock.State.{Ptr, null, Heap, Cell, block, World}
use c_axon.Sock.Machine.{write, put_cell, free}
use c_axon.Sock.Machine.Steps.{free-ok}
use c_axon.Sock.Api
use c_axon.Sock.Chain.Linked.{IsChain, frame-IsChain, write-same, write-other}
use c_axon.Sock.Api.Started.{send_fails}
use c_axon.Axon.State.{AxonWorld, Msg, on_net}
use c_axon.Axon.Send.{SendInput, Request, open_queue, unlink_queue, transmit}

-- Whether the request waits at this queue.
abbrev pub waits_at : Request → Bytes → Bool
waits_at none n = false
waits_at (some (name, timeout)) n = str_eq n name

write_gone : (h : Heap) (p : Ptr) (c : Option Cell) → h p ≡ none → write p none (write p c h) ≡ h
unfolding write
write_gone h p c e = fun_ext λ a. elim (Bool-cases (a == p)) [
  | inl same ↦ rw same (sym e ∙ ap h (sym (eq_of_== a p same)))
  | inr other ↦ rw other refl
]

-- A call of the socket layer that returns.
pub on_net_ok :
    {A : Type 0} (m : Cmd World A) (a : AxonWorld) (v : A) (n : World)
    → m a.net ≡ ok v n
    → on_net m a ≡ ok v (record a { net = n })
on_net_ok m a v n e = ap (λ r. on_net (λ _. r) a) e

-- The memory that a send uses: the chain of senders is intact, and its buffer and the sender lie
-- apart, where nothing is allocated.
pub record Room (i : SendInput) (xs : List Ptr) (w : World) : Type 0 where
  pub chain : IsChain w.heap w.sock.senders xs
  pub count : ℕ
  pub sem : w.sock.senders.sem ≡ suc count
  pub proper : i.buffer ≢ null
  pub buffer_unused : w.heap i.buffer ≡ none
  pub buffer_out : has i.buffer xs ≡ false
  pub fresh_unused : w.heap i.fresh ≡ none
  pub fresh_out : has i.fresh xs ≡ false
  pub apart : (i.fresh == i.buffer) ≡ false

-- A send without a sender: -1, and of the world only the queue of the request may have changed:
-- the descriptors that are open are as many as before.
pub record Unsent (i : SendInput) (request : Request) (a : AxonWorld) (r : ℤ × Option Msg)
    (a' : AxonWorld) : Type 0 where
  pub result : r ≡ (negsuc 0, none)
  pub rest : a' ≡ record a { queues = a'.queues }
  pub queues :
      (n : Bytes)
      → a'.queues n ≡ (if i.queue_opened && waits_at request n then none else a.queues n)

module _ (i : SendInput) (bytes : Bytes) (destination : ℤ) (xs : List Ptr) (a : AxonWorld)
    (room : Room i xs a.net) where
  abbrev filled : World
  filled = record a.net { heap = write i.buffer (some (block bytes)) a.net.heap }

  unstarted :
      (i.fresh ≡ null) ⊎ (i.thread ≡ none)
      → Api.send i.buffer (length bytes) destination i.fresh i.thread filled ≡ ok (negsuc 0) filled
  unstarted fails =
      send_fails i.buffer (length bytes) destination i.fresh i.thread xs room.count filled
        (frame-IsChain a.net.heap i.buffer (some (block bytes)) a.net.sock.senders xs
          room.buffer_out room.chain)
        room.sem
        (write-other a.net.heap i.buffer i.fresh (some (block bytes)) room.apart
          ∙ room.fresh_unused)
        room.fresh_out fails

  freed : free i.buffer filled ≡ ok tt a.net
  freed =
      free-ok i.buffer (block bytes) filled room.proper
        (write-same a.net.heap i.buffer (some (block bytes)))
      ∙ ap (λ h. ok tt (record a.net { heap = h }))
          (write_gone a.net.heap i.buffer (some (block bytes)) room.buffer_unused)

  sent :
      (q : Bytes → Option (List Msg)) (n : ℕ)
      → (i.fresh ≡ null) ⊎ (i.thread ≡ none)
      → on_net
          (Api.send i.buffer (length bytes) destination i.fresh i.thread)
          (record a { net = filled; queues = q; mqs = n })
        ≡ ok (negsuc 0) (record a { net = filled; queues = q; mqs = n })
  sent q n fails =
      on_net_ok (Api.send i.buffer (length bytes) destination i.fresh i.thread)
        (record a { net = filled; queues = q; mqs = n }) (negsuc 0) filled (unstarted fails)

  emptied :
      (q : Bytes → Option (List Msg)) (n : ℕ)
      → on_net (free i.buffer) (record a { net = filled; queues = q; mqs = n })
        ≡ ok tt (record a { queues = q; mqs = n })
  emptied q n =
      on_net_ok (free i.buffer) (record a { net = filled; queues = q; mqs = n }) tt a.net freed

  -- Where malloc or pthread_create fails for the sender, the chain of senders is intact, and the
  -- buffer is the only memory of the send, the end of axon_vsend frees the buffer, unlinks the queue of
  -- a request if it could be opened, changes nothing else, and returns -1: as many descriptors of
  -- message queues are open as before, so that the one of the request was closed.
  pub transmit-Unsent :
      (request : Request)
      → (i.fresh ≡ null) ⊎ (i.thread ≡ none)
      → Returns (λ r a'. Unsent i request a r a') (transmit i bytes destination request a)
  unfolding transmit open_queue unlink_queue put_cell
  transmit-Unsent none fails =
      rw (sent a.queues a.mqs fails, emptied a.queues a.mqs)
        (record { result = refl; rest = refl; queues = λ n. ground arith })
  transmit-Unsent (some (name, timeout)) fails = elim (Bool-cases i.queue_opened) [
    | inl is_open ↦
        rw (is_open, sent _ _ fails, emptied _ _)
          (record { result = refl; rest = refl; queues = λ n. ground arith })
    | inr shut ↦
        rw (shut, emptied a.queues a.mqs)
          (record { result = refl; rest = refl; queues = λ n. ground arith })
  ]
