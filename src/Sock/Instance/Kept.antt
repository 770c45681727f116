-- ===== src/Sock/Instance/Kept.antt =====
-- Operations that leave the workers where they are keep the instance sound.
use c_axon.Base.{
  ◌≡◌, refl, sym, ◌∙◌, ap, subst, some, List, [], ◌∷◌, All, arith, ◌==◌, inl, inr, Bool-cases,
  eq_of_==, Bytes,
}
use c_axon.Sock.State.{
  Ptr, null, Role, listenner, reader, messenger, sender, Worker, Chain, chain_of, WorkerList,
  Clients, Callbacks, Sock, worker, block, Heap, World, Event,
}
use c_axon.Sock.Chain.Linked.{Node, Linked, head_or, write-other, write-same}
use c_axon.Sock.Chain.Start.{write_worker}
use c_axon.Sock.Sender.Quiet.{Quiet}
use c_axon.Sock.Sender.Thread.{Quiet-chain_of}
use c_axon.Sock.Release.{fits}
use c_axon.Sock.Release.Freed.{Held, addrs, owned}
use c_axon.Sock.Instance.Frame.{none_of_alloc}
use c_axon.Sock.Instance.{alloc, Stores, Item, Layout, Sound}

-- Memory and chains are as before, and so is the semaphore of the clients.
pub same-Sound :
    (l : Layout) (w v : World)
    → v.heap ≡ w.heap
    → ((c : Chain) → chain_of c v.sock ≡ chain_of c w.sock)
    → v.sock.clients.sem ≡ w.sock.clients.sem
    → Sound l w
    → Sound l v
same-Sound l w v heap chains clients so = record {
  chain = λ c. rw (heap, chains c) (so.chain c);
  sem = λ c. ap (λ (o : WorkerList). o.sem) (chains c) ∙ so.sem c;
  clients_sem = clients ∙ so.clients_sem;
  items = λ c. rw heap (so.items c);
  balance = λ p. ap (λ (h : Heap). alloc (h p)) heap ∙ so.balance p;
  null_free = ap (λ (h : Heap). h null) heap ∙ so.null_free;
}

pub Quiet-Sound : (l : Layout) (w v : World) → Quiet w v → Sound l w → Sound l v
Quiet-Sound l w v q = same-Sound l w v q.heap (λ c. Quiet-chain_of c w v q) q.sem

-- Other clients, with the same count in their semaphore, and another log.
pub clients-Sound :
    (l : Layout) (w : World) (m : Clients) (log : List Event)
    → m.sem ≡ w.sock.clients.sem
    → Sound l w
    → Sound l (record w { sock = record w.sock { clients = m }; log = log })
clients-Sound l w m log e =
    Quiet-Sound l w (record w { sock = record w.sock { clients = m }; log = log })
      (record { heap = refl; sock = refl; sem = e; self = refl })

pub callbacks-Sound :
    (l : Layout) (w : World) (cb : Callbacks)
    → Sound l w
    → Sound l (record w { sock = record w.sock { cb = cb } })
callbacks-Sound l w cb =
    same-Sound l w (record w { sock = record w.sock { cb = cb } }) refl (callbacks_apart cb w.sock)
      refl
  where
    callbacks_apart :
        (cb : Callbacks) (s : Sock) (c : Chain) → chain_of c (record s { cb = cb }) ≡ chain_of c s
    callbacks_apart cb s Chain.listenners = refl
    callbacks_apart cb s _ = refl

module _ (p : Ptr) (k : Worker) (r : Role) (l : Layout) (w : World) (so : Sound l w)
    (at : w.heap p ≡ some (worker k)) (own : owned r ≡ owned k.role)
    (fit : (c : Chain) → fits c r ≡ fits c k.role)
    (store : Stores w.heap k.role → Stores w.heap r) where
  abbrev k' : Worker
  k' = record k { role = r }

  abbrev w' : World
  w' = write_worker p k' w

  worker_at : (j : Worker) → w.heap p ≡ some (worker j) → j ≡ k
  worker_at j e = cc

  kept-Node : (x q n : Ptr) → Node w.heap x q n → Node w'.heap x q n
  kept-Node x q n node = elim (Bool-cases (x == p)) [
    | inr other ↦ record {
      at = node.at;
      holds = write-other w.heap p x _ other ∙ node.holds;
      before = node.before;
      after = node.after;
    }
    | inl same ↦
        let e = eq_of_== x p same in
        let j : node.at ≡ k = worker_at node.at (ap w.heap (sym e) ∙ node.holds) in
        record {
          at = k';
          holds = ap (λ a. w'.heap a) e ∙ write-same w.heap p _;
          before = ap (λ (i : Worker). i.prev) (sym j) ∙ node.before;
          after = ap (λ (i : Worker). i.next) (sym j) ∙ node.after;
        }
  ]

  kept-Linked : (q : Ptr) (xs : List Ptr) (n : Ptr) → Linked w.heap q xs n → Linked w'.heap q xs n
  kept-Linked q [] n is = tt
  kept-Linked q (x ∷ xs) n is = (kept-Node x q (head_or xs n) is.0, kept-Linked x xs n is.1)

  block_kept : (a : Ptr) (b : Bytes) → w.heap a ≡ some (block b) → w'.heap a ≡ some (block b)
  block_kept a b e = elim (Bool-cases (a == p)) [
    | inr other ↦ write-other w.heap p a _ other ∙ e
    | inl same ↦ absurd (ground (arith, ap w.heap (eq_of_== a p same), at, e))
  ]

  kept-Stores : (s : Role) → Stores w.heap s → Stores w'.heap s
  kept-Stores (listenner m) st = tt
  kept-Stores (reader m) (b, e) = (b, block_kept m.hostname b e)
  kept-Stores (messenger m) (b, e) = (b, block_kept m.buffer b e)
  kept-Stores (sender m) (b, e, size, dest) = (b, block_kept m.buffer b e, size, dest)

  kept-Item : (c : Chain) (x : Held) → Item c w.heap x → Item c w'.heap x
  kept-Item c x it = elim (Bool-cases (x.addr == p)) [
    | inr other ↦ record {
      is_held = record {
        at = it.is_held.at;
        holds = write-other w.heap p x.addr _ other ∙ it.is_held.holds;
        owner = it.is_held.owner;
        fit = it.is_held.fit;
      };
      stores = kept-Stores it.is_held.at.role it.stores;
    }
    | inl same ↦
        let e = eq_of_== x.addr p same in
        let j : it.is_held.at ≡ k =
          worker_at it.is_held.at (ap w.heap (sym e) ∙ it.is_held.holds) in
        record {
          is_held = record {
            at = k';
            holds = ap (λ a. w'.heap a) e ∙ write-same w.heap p _;
            owner = own ∙ ap (λ (i : Worker). owned i.role) (sym j) ∙ it.is_held.owner;
            fit = fit c ∙ ap (λ (i : Worker). fits c i.role) (sym j) ∙ it.is_held.fit;
          };
          stores = kept-Stores r (store (subst (λ (i : Worker). Stores w.heap i.role) j it.stores));
        }
  ]

  kept-Items : (c : Chain) (xs : List Held) → All (Item c w.heap) xs → All (Item c w'.heap) xs
  kept-Items c [] its = tt
  kept-Items c (x ∷ xs) its = (kept-Item c x its.0, kept-Items c xs its.1)

  alloc_kept : (a : Ptr) → alloc (w'.heap a) ≡ alloc (w.heap a)
  alloc_kept a = elim (Bool-cases (a == p)) [
    | inr other ↦ ap alloc (write-other w.heap p a _ other)
    | inl same ↦
        let e = eq_of_== a p same in
        ap alloc (ap (λ x. w'.heap x) e ∙ write-same w.heap p _) ∙ sym (ap alloc (ap w.heap e ∙ at))
  ]

  -- The role of a worker is written over by one with the same memory.
  pub role-Sound : Sound l w'
  role-Sound = record {
    chain = λ c.
        let is = so.chain c in
        record {
          first = is.first;
          last = is.last;
          linked = kept-Linked null (addrs (l c)) null is.linked;
          distinct = is.distinct;
          proper = is.proper;
        };
    sem = so.sem;
    clients_sem = so.clients_sem;
    items = λ c. kept-Items c (l c) (so.items c);
    balance = λ a. alloc_kept a ∙ so.balance a;
    null_free = none_of_alloc (w'.heap null) (alloc_kept null ∙ ap alloc so.null_free);
  }
