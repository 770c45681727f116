-- ===== src/Sock/Chain/Remove.antt =====
-- sock_remove_worker takes a worker out of the chain.
use c_axon.Base.{
  ℕ, suc, ◌≡◌, refl, sym, ◌≢◌, ◌∙◌, some, List, [], ◌∷◌, ◌++◌, has-head, has-tail, has-left,
  has-right, apart_symm, All-append, All-split, Distinct-split, Distinct-drop, pos, Returns,
  and_then-Returns,
}
use c_axon.Sock.State.{Ptr, null, Chain, chain_of, set_chain, worker, World}
use c_axon.Sock.Machine.{write}
use c_axon.Sock.Machine.Steps.{
  not_null, set_prev-ok, set_next-ok, chain_of-set_chain, load_worker-ok, set_chain_self,
  set_chain-rest, wait_chain-ok,
}
use c_axon.Sock.Chain.{unlink_prev, unlink_next, remove_worker}
use c_axon.Sock.Chain.Linked.{
  head_or, last_or, Node, Linked, IsChain, SameContent, SameOutside, has-ne, has-last_or,
  last_or-append, write-other, frame-write, split, join, relink_last, relink_first, last_proper,
}
use c_axon.Sock.Chain.Changed.{
  Changed, content-write, SameContent-trans, SameOutside-write, SameOutside-trans, held,
  held-IsChain, released-Changed,
}

-- Half way through the removal of `x`: what stands before it leads past it, what stands behind it
-- does not yet.
record Half (c : Chain) (ys : List Ptr) (x : Ptr) (zs : List Ptr) (w w' : World) : Type 0 where
  first : (chain_of c w'.sock).first ≡ head_or (ys ++ zs) null
  last : (chain_of c w'.sock).last ≡ last_or null (ys ++ x ∷ zs)
  front : Linked w'.heap null ys (head_or zs null)
  middle : Node w'.heap x (last_or null ys) (head_or zs null)
  back : Linked w'.heap x zs null
  sem : (chain_of c w'.sock).sem ≡ (chain_of c w.sock).sem
  rest : w'.sock ≡ set_chain c (chain_of c w'.sock) w.sock
  outside : SameOutside (ys ++ x ∷ zs) w.heap w'.heap
  content : SameContent w.heap w'.heap
  log : w'.log ≡ w.log
  self : w'.self ≡ w.self

module _ (c : Chain) (x : Ptr) (w : World) where
  unlink_prev-Half :
      (ys zs : List Ptr)
      → IsChain w.heap (chain_of c w.sock) (ys ++ x ∷ zs)
      → Returns (λ _ w'. Half c ys x zs w w') (unlink_prev c x w)
  unfolding unlink_prev
  unlink_prev-Half [] zs is =
      let k = is.linked.0.at in
      rw (load_worker-ok x k w is.proper.0 is.linked.0.holds, is.linked.0.before)
        (record {
          first = rw chain_of-set_chain is.linked.0.after;
          last = rw chain_of-set_chain is.last;
          front = tt;
          middle = is.linked.0;
          back = is.linked.1;
          sem = rw chain_of-set_chain;
          rest = rw chain_of-set_chain;
          outside = λ a out. refl;
          content = λ a. refl;
          log = refl;
          self = refl;
        })
  unlink_prev-Half (y ∷ ys) zs is =
      let s = split w.heap null (y ∷ ys) (x ∷ zs) null is.linked in
      let d = Distinct-split (y ∷ ys) (x ∷ zs) is.distinct in
      let ps = All-split (λ a. a ≢ null) (y ∷ ys) (x ∷ zs) is.proper in
      let q = last_or y ys in
      let m = head_or zs null in
      let r = relink_last w.heap null y ys x m d.0 s.0 in
      let h1 = write q (some (worker (record r.0 { next = m }))) w.heap in
      let q_in = has-last_or y ys in
      let q_out = d.2 q q_in in
      let x_out = apart_symm (y ∷ ys) (x ∷ zs) d.2 x (has-head x zs) in
      rw
        (
          load_worker-ok x s.1.0.at w ps.1.0 s.1.0.holds,
          s.1.0.before,
          s.1.0.after,
          not_null q (last_proper y ys ps.0),
          set_next-ok q r.0 w (last_proper y ys ps.0) r.1 m,
        )
        (record {
          first = is.first;
          last = is.last;
          front = r.2;
          middle = record {
            at = s.1.0.at;
            holds = write-other w.heap q x _ (has-ne x q (y ∷ ys) x_out q_in) ∙ s.1.0.holds;
            before = s.1.0.before;
            after = s.1.0.after;
          };
          back = frame-write w.heap q _ x zs null (has-tail q x zs q_out) s.1.1;
          sem = refl;
          rest = sym (set_chain_self c w.sock);
          outside =
              SameOutside-write (y ∷ ys ++ x ∷ zs) w.heap q _ (has-left q (y ∷ ys) (x ∷ zs) q_in);
          content = content-write w.heap q r.0 (record r.0 { next = m }) r.1 refl;
          log = refl;
          self = refl;
        })

  unlink_next-Changed :
      (ys zs : List Ptr) (w' : World)
      → IsChain w.heap (chain_of c w.sock) (ys ++ x ∷ zs)
      → Half c ys x zs w w'
      → Returns (λ _ w''. Changed c (ys ++ x ∷ zs) (ys ++ zs) w w'') (unlink_next c x w')
  unfolding unlink_next
  unlink_next-Changed ys [] w' is half =
      let p = (All-split (λ a. a ≢ null) ys (x ∷ []) is.proper).0 in
      let px = (All-split (λ a. a ≢ null) ys (x ∷ []) is.proper).1.0 in
      rw (load_worker-ok x half.middle.at w' px half.middle.holds, half.middle.after)
        (record {
          chain = rw chain_of-set_chain (record {
            first = half.first;
            last = half.middle.before ∙ sym (last_or-append null ys []);
            linked = join w'.heap null ys [] null half.front tt;
            distinct = Distinct-drop ys x [] is.distinct;
            proper = All-append (λ a. a ≢ null) ys [] p tt;
          });
          sem = rw chain_of-set_chain half.sem;
          rest = set_chain-rest c _ w.sock w'.sock half.rest;
          outside = half.outside;
          content = half.content;
          log = half.log;
          self = half.self;
        })
  unlink_next-Changed ys (z ∷ zs) w' is half =
      let ps = All-split (λ a. a ≢ null) ys (x ∷ z ∷ zs) is.proper in
      let d = Distinct-split ys (x ∷ z ∷ zs) is.distinct in
      let q = last_or null ys in
      let k = half.back.0.at in
      let h2 = write z (some (worker (record k { prev = q }))) w'.heap in
      let own = ys ++ x ∷ z ∷ zs in
      let z_in = has-right z (x ∷ []) (z ∷ zs) (has-head z zs) in
      let z_out = apart_symm ys (x ∷ z ∷ zs) d.2 z z_in in
      rw
        (
          load_worker-ok x half.middle.at w' ps.1.0 half.middle.holds,
          half.middle.after,
          half.middle.before,
          not_null z ps.1.1.0,
          set_prev-ok z k w' ps.1.1.0 half.back.0.holds q,
        )
        (record {
          chain = record {
            first = half.first;
            last =
                half.last
                ∙ last_or-append null ys (x ∷ z ∷ zs)
                ∙ sym (last_or-append null ys (z ∷ zs));
            linked =
                join h2 null ys (z ∷ zs) null (frame-write w'.heap z _ null ys z z_out half.front)
                  (relink_first w'.heap x q z zs null d.1.1 half.back);
            distinct = Distinct-drop ys x (z ∷ zs) is.distinct;
            proper = All-append (λ a. a ≢ null) ys (z ∷ zs) ps.0 ps.1.1;
          };
          sem = half.sem;
          rest = half.rest;
          outside =
              SameOutside-trans own w.heap w'.heap h2 half.outside
                (SameOutside-write own w'.heap z _ (has-right z ys (x ∷ z ∷ zs) z_in));
          content =
              SameContent-trans w.heap w'.heap h2 half.content
                (content-write w'.heap z k (record k { prev = q }) half.back.0.holds refl);
          log = half.log;
          self = half.self;
        })

-- Where the chain is intact with its semaphore free, sock_remove_worker returns 0 and takes
-- exactly `x` out of it, wherever it stands: the others keep their order, only links of workers of
-- the chain changed, and the semaphore is free again.
pub remove_worker-drop :
    (c : Chain) (x : Ptr) (w : World) (ys zs : List Ptr) (n : ℕ)
    → IsChain w.heap (chain_of c w.sock) (ys ++ x ∷ zs)
    → (chain_of c w.sock).sem ≡ suc n
    → Returns (λ r w'. (r ≡ pos 0) × Changed c (ys ++ x ∷ zs) (ys ++ zs) w w') (remove_worker c x w)
unfolding remove_worker
remove_worker-drop c x w ys zs n is free_sem =
    let v = held c n w in
    let is' = held-IsChain c n (ys ++ x ∷ zs) w is in
    rw (wait_chain-ok c n w free_sem) (
      and_then-Returns _ _ (unlink_prev c x v) _ (unlink_prev-Half c x v ys zs is') λ _ w1 half.
        and_then-Returns _ _ (unlink_next c x w1) _ (unlink_next-Changed c x v ys zs w1 is' half)
          λ _ w2. released-Changed c (ys ++ x ∷ zs) (ys ++ zs) n w w2 free_sem)
