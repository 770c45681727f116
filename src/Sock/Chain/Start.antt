-- ===== src/Sock/Chain/Start.antt =====
-- sock_start_worker appends to the chain.
use mathlib.Core.Path.{fun_ext}
use c_axon.Base.{
  and_then-Returns, ok, ap, ℕ, suc, ◌≡◌, refl, sym, ◌≢◌, ◌∙◌, false, Option, none, some, List, [],
  ◌∷◌, ◌++◌, arith, has, All-append, Distinct-snoc, pos, negsuc, Returns,
}
use c_axon.Sock.State.{Ptr, null, Worker, Chain, chain_of, worker, Heap, Cell, World}
use c_axon.Sock.Machine.{write}
use c_axon.Sock.Machine.Steps.{
  not_null, set_parent-ok, set_prev-ok, set_next-ok, set_thread-ok, chain_of-set_chain,
  set_chain_self, set_chain-set_chain, wait_chain-ok,
}
use c_axon.Sock.Chain.{link_last, start_worker}
use c_axon.Sock.Chain.Linked.{
  last_or, IsChain, has-ne, has-last_or, last_or-append, last_proper, write-other, write-same,
  frame-write, frame-IsChain, join, relink_last,
}
use c_axon.Sock.Chain.Changed.{
  Changed, content-write, held, held-IsChain, released-Changed, SameContent-trans,
  SameOutside-write, SameOutside-trans,
}

pub link_last-Changed :
    (c : Chain) (p : Ptr) (k : Worker) (xs : List Ptr) (w : World)
    → IsChain w.heap (chain_of c w.sock) xs
    → p ≢ null
    → has p xs ≡ false
    → w.heap p ≡ some (worker k)
    → k.prev ≡ null
    → k.next ≡ null
    → Returns (λ _ w'. Changed c (p ∷ xs) (xs ++ p ∷ []) w w') (link_last c p w)
unfolding link_last
link_last-Changed c p k [] w is ne out e kp kn = rw is.last (record {
  chain = rw chain_of-set_chain (record {
    first = refl;
    last = refl;
    linked = (record { at = k; holds = e; before = kp; after = kn }, tt);
    distinct = (refl, tt);
    proper = (ne, tt);
  });
  sem = rw chain_of-set_chain;
  rest = rw chain_of-set_chain;
  outside = λ a i. refl;
  content = λ a. refl;
  log = refl;
  self = refl;
})
link_last-Changed c p k (y ∷ ys) w is ne out e kp kn =
    let own = p ∷ y ∷ ys in
    let q = last_or y ys in
    let k1 = record k { prev = q } in
    let h1 = write p (some (worker k1)) w.heap in
    let apart = has-ne p q (y ∷ ys) out (has-last_or y ys) in
    let r =
      relink_last h1 null y ys null p is.distinct
        (frame-write w.heap p (some (worker k1)) null (y ∷ ys) null out is.linked) in
    let h2 = write q (some (worker (record r.0 { next = p }))) h1 in
    rw
      (
        is.last,
        not_null q (last_proper y ys is.proper),
        set_prev-ok p k w ne e q,
        set_next-ok q r.0 (record w { heap = h1 }) (last_proper y ys is.proper) r.1 p,
      )
      (record {
        chain = rw chain_of-set_chain (record {
          first = is.first;
          last = sym (last_or-append y ys (p ∷ []));
          linked = join h2 null (y ∷ ys) (p ∷ []) null r.2 (
            record {
              at = k1;
              holds = write-other h1 q p _ apart ∙ write-same w.heap p _;
              before = refl;
              after = kn;
            },
            tt,
          );
          distinct = Distinct-snoc (y ∷ ys) p is.distinct out;
          proper = All-append (λ x. x ≢ null) (y ∷ ys) (p ∷ []) is.proper (ne, tt);
        });
        sem = rw chain_of-set_chain;
        rest = rw chain_of-set_chain;
        outside =
            SameOutside-trans own w.heap h1 h2 (SameOutside-write own w.heap p _ (ground arith))
              (SameOutside-write own h1 q _ (ground (arith, has-last_or y ys)));
        content =
            SameContent-trans w.heap h1 h2 (content-write w.heap p k k1 e refl)
              (content-write h1 q r.0 (record r.0 { next = p }) r.1 refl);
        log = refl;
        self = refl;
      })

-- The worker with what sock_start_worker stores in it before it is linked.
abbrev pub started : Worker → Ptr → ℕ → Worker
started k self t = record k { parent = self; thread = t }

abbrev pub write_worker : Ptr → Worker → World → World
write_worker p k w = record w { heap = write p (some (worker k)) w.heap }

pub write-write : (p : Ptr) (c d : Option Cell) (h : Heap) → write p c (write p d h) ≡ write p c h
unfolding write
write-write p c d h = fun_ext λ a. ground arith

module _ (c : Chain) (p : Ptr) (k : Worker) (xs : List Ptr) (n : ℕ) (w : World)
    (is : IsChain w.heap (chain_of c w.sock) xs) (ne : p ≢ null) (out : has p xs ≡ false)
    (e : w.heap p ≡ some (worker k)) (free_sem : (chain_of c w.sock).sem ≡ suc n) where
  -- Where the chain is intact with its semaphore free, and a fresh worker lies outside it,
  -- sock_start_worker with a thread from pthread_create returns 0: the worker is the last of the
  -- chain, with its parent and its thread stored, of all other workers only links changed, and the
  -- semaphore is free again.
  pub start_worker-append :
      k.prev ≡ null
      → k.next ≡ null
      → (t : ℕ)
      → Returns
          (λ r w'.
            (r ≡ pos 0)
            × Changed c (p ∷ xs) (xs ++ p ∷ []) (write_worker p (started k w.self t) w) w')
          (start_worker c p (some t) w)
  unfolding start_worker
  start_worker-append kp kn t =
      let w1 = held c n w in
      let k1 = record k { parent = w.self } in
      let w2 = write_worker p k1 w1 in
      rw
        (
          wait_chain-ok c n w free_sem,
          set_parent-ok p k w1 ne e w.self,
          set_thread-ok p k1 w2 ne (write-same w.heap p (some (worker k1))) t,
          write-write p (some (worker (started k w.self t))) (some (worker k1)) w.heap,
        )
        (and_then-Returns _ _ (link_last c p (held c n (write_worker p (started k w.self t) w))) _
          (link_last-Changed c p (started k w.self t) xs
            (held c n (write_worker p (started k w.self t) w))
            (held-IsChain c n xs (write_worker p (started k w.self t) w)
              (frame-IsChain w.heap p _ (chain_of c w.sock) xs out is))
            ne out (write-same w.heap p _) kp kn)
          (λ _ w'.
            released-Changed c (p ∷ xs) (xs ++ p ∷ []) n (write_worker p (started k w.self t) w) w'
              free_sem))

  -- Where the chain is intact with its semaphore free, and pthread_create fails for a worker
  -- outside it, sock_start_worker returns -1: the chain and its semaphore are as before, and only
  -- the parent of the worker has been stored.
  pub start_worker_unlinked :
      start_worker c p none w ≡ ok (negsuc 0) (write_worker p (record k { parent = w.self }) w)
  unfolding start_worker
  start_worker_unlinked =
      let w1 = held c n w in
      rw (wait_chain-ok c n w free_sem, set_parent-ok p k w1 ne e w.self)
        (ap
          (λ s.
            ok (negsuc 0) (record (write_worker p (record k { parent = w.self }) w) { sock = s }))
          (rw (chain_of-set_chain, set_chain-set_chain, ← free_sem) (set_chain_self c w.sock)))
