-- ===== src/Sock/Instance/Listening.antt =====
-- The start of a listenner keeps the instance sound: on every failure of socket, setsockopt, bind or
-- listen the worker leaves its chain and is freed.
use c_axon.Base.{
  ◌≡◌, ◌∙◌, ap, Bool, true, false, none, some, List, [], ◌∷◌, ◌++◌, arith, pos, if◌then◌else◌,
  eq_of_==, Distinct-out, Returns, and_then-Returns,
}
use c_axon.Sock.State.{Ptr, listenner, Worker, Listenner, Sock, Chain, chain_of, worker, World}
use c_axon.Sock.Machine.{write}
use c_axon.Sock.Machine.Steps.{free-ok}
use c_axon.Sock.Chain.{remove_worker}
use c_axon.Sock.Chain.Linked.{IsChain, content, frame-IsChain, write-other, write-same}
use c_axon.Sock.Chain.Changed.{Changed, chain_of-set_chain_other, set_chain-clients}
use c_axon.Sock.Chain.Ended.{content-worker, not_member}
use c_axon.Sock.Chain.Remove.{remove_worker-drop}
use c_axon.Sock.Listenner.{Setup, listenner_open, listenner_end, listenner_rounds, listenner_thread}
use c_axon.Sock.Release.{fits}
use c_axon.Sock.Release.Freed.{addrs, owned}
use c_axon.Sock.Instance.{Layout, put, IsSound}
use c_axon.Sock.Instance.Find.{proper_of}
use c_axon.Sock.Instance.Shrink.{Left, shrink}
use c_axon.Sock.Instance.Threads.{spot}
use c_axon.Sock.Instance.Opening.{Listens, InSet, listenner_open-Listens}

-- A worker without memory of its own that left its chain and was freed.
alone-Left :
    (p : Ptr) (ys zs : List Ptr) (w v : World)
    → IsChain w.heap w.sock.listenners (ys ++ p ∷ zs)
    → Changed Chain.listenners (ys ++ p ∷ zs) (ys ++ zs) w v
    → Left Chain.listenners (p ∷ []) (ys ++ zs) w (record v { heap = write p none v.heap })
alone-Left p ys zs w v is ch = record {
  chain =
      frame-IsChain v.heap p none v.sock.listenners (ys ++ zs) (Distinct-out ys p zs is.distinct)
        ch.chain;
  sem = ch.sem;
  freed = λ a i. ap (write p none v.heap) (eq_of_== a p (ground arith)) ∙ write-same v.heap p none;
  others = λ a out. ap content (write-other v.heap p a none (ground arith)) ∙ ch.content a;
  outside = λ a out off.
      write-other v.heap p a none (ground arith)
      ∙ ch.outside a (not_member p a ys zs (ground arith) off);
  rest = λ d other.
      ap (chain_of d) ch.rest
      ∙ chain_of-set_chain_other Chain.listenners d v.sock.listenners w.sock other;
  clients_sem =
      ap (λ (s : Sock). s.clients.sem) ch.rest
      ∙ ap (λ m. m.sem) (set_chain-clients Chain.listenners v.sock.listenners w.sock);
}

module _ (l : Layout) (p : Ptr) (w : World) (ls : Listens l p w) where
  -- A listenner that ends leaves its chain and is freed.
  listenner_end-IsSound : Returns (λ _ v. IsSound v) (listenner_end p w)
  unfolding listenner_end
  listenner_end-IsSound =
      let k = ls.at in
      let so = ls.sound in
      let at = ls.holds in
      let sp = spot Chain.listenners p k l w so at (ap (fits Chain.listenners) ls.role) in
      let ys = addrs sp.front in
      let zs = addrs sp.back in
      let proper = proper_of l w p (worker k) so at in
      and_then-Returns (λ r v. (r ≡ pos 0) × Changed Chain.listenners (ys ++ p ∷ zs) (ys ++ zs) w v)
        (λ _ v. IsSound v) (remove_worker Chain.listenners p w) _
        (remove_worker-drop Chain.listenners p w ys zs 0 sp.linked (so.sem Chain.listenners))
        λ r v (ret, ch).
          let p1 = content-worker (v.heap p) _ (ch.content p ∙ ap content at) in
          rw (free-ok p (worker p1.0) v proper p1.1) (
            put Chain.listenners (sp.front ++ sp.back) l,
            shrink Chain.listenners (record { addr = p; owns = [] }) sp.front sp.back l w
                (record v { heap = write p none v.heap }) so
                (sp.stands
                  ∙ ap (λ os. sp.front ++ record { addr = p; owns = os } ∷ sp.back)
                      (ap owned ls.role))
                (alone-Left p ys zs w v sp.linked ch),
          )

-- A listenner that starts, until it waits for its first client, or gives up.
pub listenner_starts-IsSound :
    (p : Ptr) (k : Worker) (m : Listenner) (s : Setup) (w : World)
    → InSet s.socket
    → IsSound w
    → w.heap p ≡ some (worker k)
    → k.role ≡ listenner m
    → Returns (λ _ v. IsSound v) (listenner_thread p s [] w)
unfolding listenner_thread listenner_rounds
listenner_starts-IsSound p k m s w lt (l, so) at role =
    and_then-Returns (λ _ u. Listens l p u) (λ _ v. IsSound v) (listenner_open p s w) _
      (listenner_open-Listens l p s.bind s.port s.listen s.socket s.setsockopt w lt
        (record { sound = so; at = k; holds = at; body = m; role = role }))
      λ opened u ls. goes_on opened u ls
  where
    goes_on :
        (opened : Bool) (u : World)
        → Listens l p u
        → Returns (λ _ v. IsSound v) ((if opened then listenner_rounds p [] else listenner_end p) u)
    goes_on true u ls = (l, ls.sound)
    goes_on false u ls = listenner_end-IsSound l p u ls
