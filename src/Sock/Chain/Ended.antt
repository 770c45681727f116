-- ===== src/Sock/Chain/Ended.antt =====
-- The end of a worker that owns a buffer, the same in sock_thread_messenger and in
-- sock_thread_sender: it leaves its chain, then its buffer and itself are freed.
use c_axon.Base.{
  ℕ, suc, ◌≡◌, refl, sym, ◌∙◌, ap, ◌≢◌, false, Option, none, some, List, [], ◌∷◌, ◌++◌, arith, ◌==◌,
  has, Distinct-out, All-split, Bytes, Returns, and_then-Returns, ◌>>◌, ne→==, Bool-cases, inl, inr,
  eq_of_==, ne_of_==, pos, has-append,
}
use c_axon.Sock.State.{
  Ptr, null, Worker, Role, Chain, chain_of, Sock, Cell, worker, block, Heap, World,
}
use c_axon.Sock.Machine.{write, free}
use c_axon.Sock.Machine.Steps.{free-ok}
use c_axon.Sock.Chain.{remove_worker}
use c_axon.Sock.Chain.Linked.{Linked, IsChain, content, frame-IsChain, write-other, write-same}
use c_axon.Sock.Chain.Changed.{Changed, chain_eq, chain_of-set_chain_other, set_chain-clients}
use c_axon.Sock.Chain.Remove.{remove_worker-drop}

-- From `w` to `w'` the worker at `p` left the chain `c`, and it and its buffer are free. What else
-- lies in memory is as before, but for the links of workers of the chain; so are the other chains,
-- and the semaphore of the clients.
pub record Ended (c : Chain) (p buffer : Ptr) (xs : List Ptr) (w w' : World) : Type 0 where
  pub chain : IsChain w'.heap (chain_of c w'.sock) xs
  pub sem : (chain_of c w'.sock).sem ≡ (chain_of c w.sock).sem
  pub freed : w'.heap p ≡ none
  pub buffer_freed : w'.heap buffer ≡ none
  pub others :
      (a : Ptr)
      → (a == p) ≡ false
      → (a == buffer) ≡ false
      → content (w'.heap a) ≡ content (w.heap a)
  pub outside :
      (a : Ptr) → (a == p) ≡ false → (a == buffer) ≡ false → has a xs ≡ false → w'.heap a ≡ w.heap a
  pub rest : (d : Chain) → chain_eq c d ≡ false → chain_of d w'.sock ≡ chain_of d w.sock
  pub clients_sem : w'.sock.clients.sem ≡ w.sock.clients.sem

pub content-block : (c : Option Cell) (b : Bytes) → content c ≡ some (block b) → c ≡ some (block b)
content-block none b e = cc
content-block (some (worker k)) b e = absurd (ground arith)
content-block (some (block d)) b e = e

pub content-worker :
    (c : Option Cell) (k : Worker)
    → content c ≡ some (worker k)
    → (k' : Worker) × (c ≡ some (worker k'))
content-worker none k e = cc
content-worker (some (worker k')) k e = (k', refl)
content-worker (some (block d)) k e = absurd (ground arith)

-- A worker with the content of another has its role.
abbrev role_of : Role → Option Cell → Role
role_of r none = r
role_of r (some (block b)) = r
role_of r (some (worker k)) = k.role

pub role_kept :
    (c : Option Cell) (k : Worker)
    → content c ≡ content (some (worker k))
    → (j : Worker) × (c ≡ some (worker j)) × (j.role ≡ k.role)
role_kept none k e = absurd (ground arith)
role_kept (some (block b)) k e = absurd (ground arith)
role_kept (some (worker j)) k e = (j, refl, ap (role_of j.role) e)

-- A block is no worker of the chain.
block_out :
    (h : Heap) (q a : Ptr) (xs : List Ptr) (n : Ptr) (b : Bytes)
    → Linked h q xs n
    → h a ≡ some (block b)
    → has a xs ≡ false
block_out h q a [] n b l e = refl
block_out h q a (x ∷ xs) n b l e =
    let rest = block_out h x a xs n b l.1 e in
    elim (Bool-cases (a == x)) [
      | inr other ↦ rw (other, rest)
      | inl same ↦ absurd (ground (arith, ap h (eq_of_== a x same), l.0.holds))
    ]

-- A worker and a block lie apart.
cells_apart :
    (h : Heap) (p a : Ptr) (k : Worker) (b : Bytes)
    → h p ≡ some (worker k)
    → h a ≡ some (block b)
    → (p == a) ≡ false
cells_apart h p a k b hp ha = ne→== p a (λ e. ground (arith, ap h e))

pub not_member :
    (p a : Ptr) (ys zs : List Ptr)
    → (a == p) ≡ false
    → has a (ys ++ zs) ≡ false
    → has a (ys ++ p ∷ zs) ≡ false
not_member p a ys zs apart out = ground (arith, has-append a ys zs, has-append a ys (p ∷ zs))

pub finish-Ended :
    (c : Chain) (p buffer : Ptr) (k : Worker) (bytes : Bytes) (ys zs : List Ptr) (n : ℕ) (w : World)
    → IsChain w.heap (chain_of c w.sock) (ys ++ p ∷ zs)
    → (chain_of c w.sock).sem ≡ suc n
    → w.heap p ≡ some (worker k)
    → buffer ≢ null
    → w.heap buffer ≡ some (block bytes)
    → Returns
        (λ _ w'. Ended c p buffer (ys ++ zs) w w')
        ((remove_worker c p >> (free buffer >> free p)) w)
finish-Ended c p buffer k bytes ys zs n w is e at ne holds =
    and_then-Returns (λ r v. (r ≡ pos 0) × Changed c (ys ++ p ∷ zs) (ys ++ zs) w v) _
      (remove_worker c p w) _ (remove_worker-drop c p w ys zs n is e)
      λ r v (ret, ch).
        let b1 : v.heap buffer ≡ some (block bytes) =
          content-block (v.heap buffer) bytes (ch.content buffer ∙ ap content holds) in
        let p1 = content-worker (v.heap p) _ (ch.content p ∙ ap content at) in
        let apart : (p == buffer) ≡ false = cells_apart w.heap p buffer k bytes at holds in
        let h1 = write buffer none v.heap in
        let h2 = write p none h1 in
        rw
          (
            free-ok buffer (block bytes) v ne b1,
            free-ok p (worker p1.0) (record v { heap = h1 })
                (All-split (λ a. a ≢ null) ys (p ∷ zs) is.proper).1.0
                (write-other v.heap buffer p none apart ∙ p1.1),
          )
          (record {
            chain =
                frame-IsChain h1 p none (chain_of c v.sock) (ys ++ zs)
                  (Distinct-out ys p zs is.distinct)
                  (frame-IsChain v.heap buffer none (chain_of c v.sock) (ys ++ zs)
                    (block_out v.heap null buffer (ys ++ zs) null bytes ch.chain.linked b1)
                    ch.chain);
            sem = ch.sem;
            freed = write-same h1 p none;
            buffer_freed =
                write-other h1 p buffer none (ne→== buffer p (λ i. ne_of_== p buffer apart (sym i)))
                ∙ write-same v.heap buffer none;
            others = λ a ap' ab.
                ap content (write-other h1 p a none ap' ∙ write-other v.heap buffer a none ab)
                ∙ ch.content a;
            outside = λ a ap' ab out.
                write-other h1 p a none ap'
                ∙ write-other v.heap buffer a none ab
                ∙ ch.outside a (not_member p a ys zs ap' out);
            rest = λ d other.
                ap (chain_of d) ch.rest
                ∙ chain_of-set_chain_other c d (chain_of c v.sock) w.sock other;
            clients_sem =
                ap (λ (s : Sock). s.clients.sem) ch.rest
                ∙ ap (λ m. m.sem) (set_chain-clients c (chain_of c v.sock) w.sock);
          })
