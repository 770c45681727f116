-- ===== src/Sock/Sender/Thread.antt =====
-- sock_thread_sender from end to end.
use c_axon.Base.{
  ℕ, suc, ◌≡◌, ◌≢◌, ◌∙◌, ap, some, List, ◌∷◌, ◌++◌, refl, Bytes, Returns, Returns-mono,
  and_then-Returns,
}
use c_axon.Sock.State.{
  Ptr, null, Worker, Sender, Chain, chain_of, sender, worker, Clients, Sock, World,
}
use c_axon.Sock.Machine.Steps.{load_worker-ok}
use c_axon.Sock.Chain.Linked.{IsChain, content}
use c_axon.Sock.Chain.Ended.{Ended, finish-Ended}
use c_axon.Sock.Sender.{Meanwhile, SendResult, deliver, sender_thread}
use c_axon.Sock.Sender.Search.{IsPolite}
use c_axon.Sock.Sender.Quiet.{Quiet, HasBuffer}
use c_axon.Sock.Sender.Deliver.{IsDestination, deliver-Quiet}

clients_apart :
    (c : Chain) (s : Sock) (m : Clients) → chain_of c (record s { clients = m }) ≡ chain_of c s
clients_apart Chain.listenners s m = refl
clients_apart _ s m = refl

-- Delivery leaves every chain as it is.
pub Quiet-chain_of : (c : Chain) (w v : World) → Quiet w v → chain_of c v.sock ≡ chain_of c w.sock
Quiet-chain_of c w v q = ap (chain_of c) q.sock ∙ clients_apart c w.sock v.sock.clients

pub Quiet-IsChain :
    (c : Chain) (xs : List Ptr) (w v : World)
    → Quiet w v
    → IsChain w.heap (chain_of c w.sock) xs
    → IsChain v.heap (chain_of c v.sock) xs
Quiet-IsChain c xs w v q is = rw (q.heap, Quiet-chain_of c w v q) is

Quiet-Ended :
    (c : Chain) (p buffer : Ptr) (xs : List Ptr) (u v w : World)
    → Quiet u v
    → Ended c p buffer xs v w
    → Ended c p buffer xs u w
Quiet-Ended c p buffer xs u v w q d = record {
  chain = d.chain;
  sem = d.sem ∙ ap (λ l. l.sem) (Quiet-chain_of c u v q);
  freed = d.freed;
  buffer_freed = d.buffer_freed;
  others = λ a x y. d.others a x y ∙ ap (λ h. content (h a)) q.heap;
  outside = λ a x y z. d.outside a x y z ∙ ap (λ h. h a) q.heap;
  rest = λ e other. d.rest e other ∙ Quiet-chain_of e u v q;
  clients_sem = d.clients_sem ∙ q.sem;
}

-- A sender in an intact chain, with a buffer of its own, returns, whatever the answers of the
-- peers and whatever the other threads do to the clients, if they release the semaphore, for each
-- of the two markers and each descriptor below 1024 as its destination: it has left the chain of
-- senders, its buffer and itself are freed once, and nothing else in memory has changed but links
-- of workers.
pub sender_thread-Ended :
    (others : Meanwhile) (result : SendResult) (p : Ptr) (k : Worker) (s : Sender) (bytes : Bytes)
    (ys zs : List Ptr) (n m : ℕ) (w : World)
    → IsPolite others
    → IsChain w.heap w.sock.senders (ys ++ p ∷ zs)
    → w.sock.senders.sem ≡ suc n
    → w.sock.clients.sem ≡ suc m
    → p ≢ null
    → w.heap p ≡ some (worker k)
    → k.role ≡ sender s
    → HasBuffer w s bytes
    → IsDestination s.socket
    → Returns
        (λ _ w'. Ended Chain.senders p s.buffer (ys ++ zs) w w')
        (sender_thread others result p w)
unfolding sender_thread
sender_thread-Ended others result p k s bytes ys zs n m w polite is e f ne at role h dest =
    rw (load_worker-ok p k w ne at, role)
      (and_then-Returns (λ _ v. Quiet w v) _ (deliver others result s w) _
        (deliver-Quiet others result s bytes m w polite h f dest)
        λ _ v q.
          Returns-mono (λ _ u. Ended Chain.senders p s.buffer (ys ++ zs) v u)
            (λ _ u. Ended Chain.senders p s.buffer (ys ++ zs) w u) _
            (finish-Ended Chain.senders p s.buffer k bytes ys zs n v
              (Quiet-IsChain Chain.senders (ys ++ p ∷ zs) w v q is)
              (ap (λ l. l.sem) (Quiet-chain_of Chain.senders w v q) ∙ e) (ap (λ g. g p) q.heap ∙ at)
              h.proper (ap (λ g. g s.buffer) q.heap ∙ h.holds))
            λ _ u. Quiet-Ended Chain.senders p s.buffer (ys ++ zs) w v u q)
