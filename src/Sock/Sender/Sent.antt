-- ===== src/Sock/Sender/Sent.antt =====
-- A send from sock_send to the end of the sender that it starts.
use c_axon.Base.{
  append_nil, ℕ, suc, ◌≡◌, ◌≢◌, ◌∙◌, ap, refl, subst, some, none, List, [], ◌∷◌, ◌++◌, ◌==◌, false,
  Bytes, has, arith, Returns, Returns-mono, and_then-Returns, ◌>>◌, inl, inr, ne→==,
}
use c_axon.Sock.State.{Ptr, null, Sender, sender, fresh_worker, Chain, Sock, worker, World}
use c_axon.Sock.Api
use c_axon.Sock.Api.{new_sender}
use c_axon.Sock.Api.Started.{Started, send-Started}
use c_axon.Sock.Chain.Linked.{IsChain, content, write-same, write-other}
use c_axon.Sock.Chain.Changed.{Changed}
use c_axon.Sock.Chain.Start.{started, write_worker}
use c_axon.Sock.Chain.Ended.{Ended, role_kept}
use c_axon.Sock.Sender.{Meanwhile, SendResult, sender_thread}
use c_axon.Sock.Sender.Search.{IsPolite}
use c_axon.Sock.Sender.Quiet.{HasBuffer}
use c_axon.Sock.Sender.Deliver.{IsDestination}
use c_axon.Sock.Sender.Thread.{sender_thread-Ended}

-- Nothing of a send is left: the chain holds the workers from before, and the sender and its buffer
-- are free.
abbrev pub Gone : Ptr → Ptr → List Ptr → World → Type 0
Gone fresh buffer xs w =
    IsChain w.heap w.sock.senders xs × (w.heap fresh ≡ none) × (w.heap buffer ≡ none)

module _ (others : Meanwhile) (result : SendResult) (s : Sender) (fresh : Ptr) (bytes : Bytes)
    (xs : List Ptr) (n m : ℕ) (w : World) (polite : IsPolite others)
    (is : IsChain w.heap w.sock.senders xs) (e : w.sock.senders.sem ≡ suc n)
    (f : w.sock.clients.sem ≡ suc m) (unused : w.heap fresh ≡ none) (out : has fresh xs ≡ false)
    (h : HasBuffer w s bytes) (buffer_out : has s.buffer xs ≡ false)
    (dest : IsDestination s.socket) where
  run_sender :
      (t : ℕ) (v : World)
      → fresh ≢ null
      → Changed Chain.senders
          (fresh ∷ xs)
          (xs ++ fresh ∷ [])
          (write_worker fresh (started (fresh_worker (sender s)) w.self t) w)
          v
      → Returns
          (λ _ w'. Ended Chain.senders fresh s.buffer (xs ++ []) v w')
          (sender_thread others result fresh v)
  run_sender t v ne ch =
      let k = started (fresh_worker (sender s)) w.self t in
      let (j, at, role) =
        role_kept (v.heap fresh) k
          (ch.content fresh ∙ ap content (write-same w.heap fresh (some (worker k)))) in
      let apart : (s.buffer == fresh) ≡ false =
        ne→== s.buffer fresh (λ q. ground (arith, ap w.heap q, h.holds)) in
      let kept : v.heap s.buffer ≡ w.heap s.buffer =
        ch.outside s.buffer (rw (apart, buffer_out) refl)
        ∙ write-other w.heap fresh s.buffer (some (worker k)) apart in
      sender_thread-Ended others result fresh j s bytes xs [] n m v polite ch.chain (ch.sem ∙ e)
        (ap (λ (o : Sock). o.clients.sem) ch.rest ∙ f) ne at role
        (record { proper = h.proper; holds = kept ∙ h.holds; size = h.size }) dest

  -- A buffer that is allocated, holds as many bytes as is said, and is none of the senders, is handed
  -- to sock_send, to be sent round robin, to all clients or to a descriptor below FD_SETSIZE, with memory
  -- that is not in use and a thread for the sender, the chain of senders intact, and both semaphores
  -- free: the sender that sock_send starts returns, whatever the peers answer and whatever the other
  -- threads do to the clients, if they release the semaphore, and then the chain is as before the call,
  -- and the sender and the buffer are freed.
  pub sender_thread-send :
      (t : ℕ)
      → fresh ≢ null
      → Returns
          (λ _ w'. Gone fresh s.buffer xs w')
          ((Api.send s.buffer s.size s.socket fresh (some t) >> sender_thread others result fresh)
            w)
  sender_thread-send t ne =
      and_then-Returns (Started Chain.senders (sender s) fresh (some t) xs w)
        (λ _ w'. Gone fresh s.buffer xs w') (Api.send s.buffer s.size s.socket fresh (some t) w) _
        (send-Started s.buffer s.size s.socket fresh (some t) xs n w is e unused out)
        λ r v end. elim end [
          | inl (inl nothing, minus, same) ↦ absurd (ne nothing)
          | inl (inr no_thread, minus, same) ↦ absurd (ground arith)
          | inr (u, some_thread, some_memory, zero, ch) ↦
              Returns-mono (λ _ w'. Ended Chain.senders fresh s.buffer (xs ++ []) v w')
                (λ _ w'. Gone fresh s.buffer xs w') _ (run_sender u v ne ch)
                λ _ w' d. (
                  subst (λ ys. IsChain w'.heap w'.sock.senders ys) (append_nil xs) d.chain,
                  d.freed,
                  d.buffer_freed,
                )
        ]
