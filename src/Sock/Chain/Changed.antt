-- ===== src/Sock/Chain/Changed.antt =====
-- What an operation on a daisy chain leaves alone.
use c_axon.Base.{
  ℕ, suc, ◌≡◌, refl, sym, ap, ◌∙◌, Bool, true, false, Option, some, List, arith, has, pos, pure,
  Returns, ◌>>◌,
}
use c_axon.Sock.State.{
  Ptr, Worker, WorkerList, Chain, chain_of, set_chain, Sock, Cell, worker, Heap, World,
}
use c_axon.Sock.Machine.{write, post_chain}
use c_axon.Sock.Machine.Steps.{chain_of-set_chain, set_chain-set_chain, set_chain-rest}
use c_axon.Sock.Chain.Linked.{IsChain, content, SameContent, SameOutside, write-other, has-ne}

-- From `w` to `w'` the chain `c` came to hold `xs`. Of the sock instance nothing else changed; in
-- memory only the workers at `own` were written, and of these only the links.
pub record Changed (c : Chain) (own xs : List Ptr) (w w' : World) : Type 0 where
  pub chain : IsChain w'.heap (chain_of c w'.sock) xs
  pub sem : (chain_of c w'.sock).sem ≡ (chain_of c w.sock).sem
  pub rest : w'.sock ≡ set_chain c (chain_of c w'.sock) w.sock
  pub outside : SameOutside own w.heap w'.heap
  pub content : SameContent w.heap w'.heap
  pub log : w'.log ≡ w.log
  pub self : w'.self ≡ w.self

-- Whether two chains are the same.
abbrev pub chain_eq : Chain → Chain → Bool
chain_eq Chain.listenners Chain.listenners = true
chain_eq Chain.readers Chain.readers = true
chain_eq Chain.messengers Chain.messengers = true
chain_eq Chain.senders Chain.senders = true
chain_eq c d = false

pub chain_eq-eq : (c d : Chain) → chain_eq c d ≡ true → c ≡ d
chain_eq-eq c d e = ground arith

pub chain_eq_self : (c : Chain) → chain_eq c c ≡ true
chain_eq_self c = ground arith

-- Another chain of the sock instance is as it was.
pub chain_of-set_chain_other :
    (c d : Chain) (l : WorkerList) (s : Sock)
    → chain_eq c d ≡ false
    → chain_of d (set_chain c l s) ≡ chain_of d s
chain_of-set_chain_other c d l s e = ground arith

pub set_chain-clients :
    (c : Chain) (o : WorkerList) (s : Sock) → (set_chain c o s).clients ≡ s.clients
set_chain-clients Chain.listenners o s = refl
set_chain-clients _ o s = refl

pub content-write :
    (h : Heap) (a : Ptr) (k k' : Worker)
    → h a ≡ some (worker k)
    → content (some (worker k')) ≡ content (some (worker k))
    → SameContent h (write a (some (worker k')) h)
unfolding write
content-write h a k k' e same b = ground arith

pub SameContent-trans : (f g h : Heap) → SameContent f g → SameContent g h → SameContent f h
SameContent-trans f g h p q a = q a ∙ p a

pub SameOutside-write :
    (own : List Ptr) (h : Heap) (a : Ptr) (c : Option Cell)
    → has a own ≡ true
    → SameOutside own h (write a c h)
SameOutside-write own h a c i b out = write-other h a b c (has-ne b a own out i)

pub SameOutside-trans :
    (own : List Ptr) (f g h : Heap)
    → SameOutside own f g
    → SameOutside own g h
    → SameOutside own f h
SameOutside-trans own f g h p q a out = q a out ∙ p a out

-- The semaphore of a chain has no part in what the chain holds.
pub IsChain-sem :
    (h : Heap) (l : WorkerList) (n : ℕ) (xs : List Ptr)
    → IsChain h l xs
    → IsChain h (record l { sem = n }) xs
IsChain-sem h l n xs is = record {
  first = is.first;
  last = is.last;
  linked = is.linked;
  distinct = is.distinct;
  proper = is.proper;
}

-- The world while the semaphore of `c` is held.
abbrev pub held : Chain → ℕ → World → World
held c n w = record w { sock = set_chain c (record (chain_of c w.sock) { sem = n }) w.sock }

pub held-IsChain :
    (c : Chain) (n : ℕ) (xs : List Ptr) (w : World)
    → IsChain w.heap (chain_of c w.sock) xs
    → IsChain w.heap (chain_of c (held c n w).sock) xs
held-IsChain c n xs w is = rw chain_of-set_chain (IsChain-sem w.heap (chain_of c w.sock) n xs is)

-- An operation that holds the semaphore on its way, and releases it.
pub released-Changed :
    (c : Chain) (own xs : List Ptr) (n : ℕ) (w w' : World)
    → (chain_of c w.sock).sem ≡ suc n
    → Changed c own xs (held c n w) w'
    → Returns (λ r w''. (r ≡ pos 0) × Changed c own xs w w'') ((post_chain c >> pure (pos 0)) w')
unfolding post_chain
released-Changed c own xs n w w' e ch =
    let l' = record (chain_of c w'.sock) { sem = suc (chain_of c w'.sock).sem } in
    (
      refl,
      record {
        chain =
            rw chain_of-set_chain
              (IsChain-sem w'.heap (chain_of c w'.sock) (suc (chain_of c w'.sock).sem) xs ch.chain);
        sem =
            rw chain_of-set_chain
              (ap suc (ch.sem ∙ ap (λ l. l.sem) (chain_of-set_chain c _ w.sock)) ∙ sym e);
        rest =
            set_chain-rest c l' w.sock w'.sock
              (ch.rest ∙ set_chain-set_chain c (record (chain_of c w.sock) { sem = n }) _ w.sock);
        outside = ch.outside;
        content = ch.content;
        log = ch.log;
        self = ch.self;
      },
    )
