-- ===== src/Sock/Instance/Fresh.antt =====
-- Memory that is not in use, and a worker that is made there.
use c_axon.Base.{
  ◌≡◌, ◌≢◌, refl, sym, ◌∙◌, ap, true, false, none, some, [], ◌∷◌, ◌==◌, Bytes, has, arith,
  Bool-cases, inl, inr, eq_of_==, ne_of_==, ne→==,
}
use c_axon.Sock.State.{Ptr, null, Worker, Chain, worker, block, World}
use c_axon.Sock.Chain.Linked.{write-other, write-same}
use c_axon.Sock.Chain.Start.{write_worker}
use c_axon.Sock.Release.{fits}
use c_axon.Sock.Release.Freed.{addrs, owned}
use c_axon.Sock.Release.Workers.{addrs_in}
use c_axon.Sock.Api.Connect.{named}
use c_axon.Sock.Instance.{alloc, Stores, Layout, Sound}
use c_axon.Sock.Instance.Rebuild.{none≢some, held_cell}
use c_axon.Sock.Instance.Grow.{Made}

-- Unused memory is not in a chain.
pub unused_out :
    (c : Chain) (l : Layout) (w : World) (a : Ptr)
    → Sound l w
    → w.heap a ≡ none
    → has a (addrs (l c)) ≡ false
unused_out c l w a so e = elim (Bool-cases (has a (addrs (l c)))) [
  | inr out ↦ out
  | inl i ↦
      let (cell, at) = held_cell l w so c a (addrs_in (l c) a i) in
      absurd (none≢some cell (sym e ∙ at))
]

-- A worker at unused memory.
pub alone-Made :
    (c : Chain) (p : Ptr) (k : Worker) (w : World)
    → w.heap p ≡ none
    → p ≢ null
    → owned k.role ≡ []
    → fits c k.role ≡ true
    → Stores (write_worker p k w).heap k.role
    → Made c (record { addr = p; owns = [] }) w (write_worker p k w)
alone-Made c p k w unused ne own fit st = record {
  unused = λ a i. ap w.heap (eq_of_== a p (ground arith)) ∙ unused;
  once = λ a. ground arith;
  filled = λ a i.
      ap (λ x. alloc ((write_worker p k w).heap x)) (eq_of_== a p (ground arith))
      ∙ ap alloc (write-same w.heap p _);
  kept = λ a out. write-other w.heap p a _ (ground arith);
  proper = ground (arith, ne→== null p (λ e. ne (sym e)));
  item = record {
    is_held = record { at = k; holds = write-same w.heap p _; owner = own; fit = fit };
    stores = st;
  };
  sock = refl;
}

-- A worker with a block of its own, both at unused memory.
pub pair-Made :
    (c : Chain) (p b : Ptr) (bytes : Bytes) (k : Worker) (w : World)
    → w.heap p ≡ none
    → w.heap b ≡ none
    → p ≢ null
    → b ≢ null
    → (p == b) ≡ false
    → owned k.role ≡ b ∷ []
    → fits c k.role ≡ true
    → Stores (write_worker p k (named b bytes w)).heap k.role
    → Made c (record { addr = p; owns = b ∷ [] }) w (write_worker p k (named b bytes w))
pair-Made c p b bytes k w unused unused' ne ne' apart own fit st =
    let v = write_worker p k (named b bytes w) in
    let at_p : v.heap p ≡ some (worker k) = write-same (named b bytes w).heap p _ in
    let apart' : (b == p) ≡ false = ne→== b p (λ e. ne_of_== p b apart (sym e)) in
    let at_b : v.heap b ≡ some (block bytes) =
      write-other (named b bytes w).heap p b _ apart' ∙ write-same w.heap b _ in
    record {
      unused = λ a i. elim (Bool-cases (a == b)) [
        | inl same ↦ ap w.heap (eq_of_== a b same) ∙ unused'
        | inr other ↦ ap w.heap (eq_of_== a p (ground arith)) ∙ unused
      ];
      once = λ a. elim (Bool-cases (a == b)) [
        | inl same ↦ ground (arith, ap (λ x. x == p) (eq_of_== a b same))
        | inr other ↦ ground arith
      ];
      filled = λ a i. elim (Bool-cases (a == b)) [
        | inl same ↦ ap (λ x. alloc (v.heap x)) (eq_of_== a b same) ∙ ap alloc at_b
        | inr other ↦ ap (λ x. alloc (v.heap x)) (eq_of_== a p (ground arith)) ∙ ap alloc at_p
      ];
      kept = λ a out.
          write-other (named b bytes w).heap p a _ (ground arith)
          ∙ write-other w.heap b a _ (ground arith);
      proper = ground (arith, ne→== null p (λ e. ne (sym e)), ne→== null b (λ e. ne' (sym e)));
      item = record {
        is_held = record { at = k; holds = at_p; owner = own; fit = fit };
        stores = st;
      };
      sock = refl;
    }
