-- ===== src/Tests/Chain.antt =====
-- The daisy chain operations at a chain of two senders.
use c_axon.Base.{◌≡◌, refl, some, [], ◌∷◌, pos, arith, Returns}
use c_axon.Sock.State.{Chain}
use c_axon.Sock.Chain.{start_worker, remove_worker}
use c_axon.Sock.Chain.Linked.{IsChain}
use c_axon.Sock.Chain.Changed.{Changed}
use c_axon.Sock.Chain.Start.{started, write_worker, start_worker-append}
use c_axon.Sock.Chain.Remove.{remove_worker-drop}
use c_axon.Tests.Worlds.{world, heap, sock, first_worker, second_worker, third_worker}

pub world-IsChain : IsChain heap sock.senders (10 ∷ 20 ∷ [])
world-IsChain = record {
  first = refl;
  last = refl;
  linked = (
    record { at = first_worker; holds = refl; before = refl; after = refl },
    (record { at = second_worker; holds = refl; before = refl; after = refl }, tt),
  );
  distinct = (refl, (refl, tt));
  proper = (omega arith, (omega arith, tt));
}

start_worker-append_example :
    Returns
      (λ r w'.
        (r ≡ pos 0)
        × Changed Chain.senders
            (30 ∷ 10 ∷ 20 ∷ [])
            (10 ∷ 20 ∷ 30 ∷ [])
            (write_worker 30 (started third_worker 1 9) world)
            w')
      (start_worker Chain.senders 30 (some 9) world)
start_worker-append_example =
    start_worker-append Chain.senders 30 third_worker (10 ∷ 20 ∷ []) 0 world world-IsChain
      (omega arith) refl refl refl refl refl 9

remove_worker-drop_example :
    Returns
      (λ r w'. (r ≡ pos 0) × Changed Chain.senders (10 ∷ 20 ∷ []) (20 ∷ []) world w')
      (remove_worker Chain.senders 10 world)
remove_worker-drop_example =
    remove_worker-drop Chain.senders 10 world [] (20 ∷ []) 0 world-IsChain refl
