-- ===== src/Examples/Starts.antt =====
-- sub.c as a whole.
use c_axon.Base.{
  ℕ, ◌<◌, ◌≡◌, ◌≢◌, refl, sym, ◌∙◌, ap, subst, true, false, ◌||◌, some, List, [], ◌∷◌, ◌++◌, ◌==◌,
  All, ℤ, pos, Bytes, codes, Run, ok, fault, blocked, out_of_fuel, Returns, Returns-mono,
  Returns-eq,
}
use c_axon.Base.Text.{str_eq}
use c_axon.Sock.State.{
  null, Sock, World, Chain, WorkerList, chain_of, fresh_worker, reader, Callbacks,
}
use c_axon.Sock.Chain.Changed.{Changed}
use c_axon.Sock.Chain.Start.{started, write_worker}
use c_axon.Sock.Api
use c_axon.Sock.Api.{new_sock, empty_list, new_reader}
use c_axon.Sock.Api.Connect.{connect-append, named}
use c_axon.Sock.Instance.{Sound, IsSound}
use c_axon.Sock.Instance.Calls.{connect-IsSound}
use c_axon.Axon.State.{AxonWorld, type_sub, on_net}
use c_axon.Axon.Create
use c_axon.Axon.Create.{parse_type, new_axon}
use c_axon.Sock.Api.{set_callback}
use c_axon.Axon.Create.Attached.{create-Attached}
use c_axon.Examples.{Process, Host, Second, newline, on_axon}
use c_axon.Examples.Sub
use c_axon.Examples.Ends.{stops, Behaves, AllFreed, wait-Ending}

Returns-both :
    {S : Type 0} {A : Type 0} (P Q : A → S → Type 0) (r : Run S A)
    → Returns P r
    → Returns Q r
    → Returns (λ a s. P a s × Q a s) r
Returns-both P Q (ok a s) p q = (p, q)
Returns-both P Q fault p q = absurd p
Returns-both P Q blocked p q = absurd p
Returns-both P Q out_of_fuel p q = absurd p

-- An instance that was just created, whatever its callbacks, with no memory in use.
new_chain_with :
    (cb : Callbacks) (c : Chain) → chain_of c (record new_sock { cb = cb }) ≡ empty_list
new_chain_with cb Chain.listenners = refl
new_chain_with cb _ = refl

empty-Sound :
    (w : World) (cb : Callbacks)
    → AllFreed w
    → Sound (λ c. []) (record w { sock = record new_sock { cb = cb } })
empty-Sound w cb none_used = record {
  chain = λ c. record {
    first = ap (λ (o : WorkerList). o.first) (new_chain_with cb c);
    last = ap (λ (o : WorkerList). o.last) (new_chain_with cb c);
    linked = tt;
    distinct = tt;
    proper = tt;
  };
  sem = λ c. ap (λ (o : WorkerList). o.sem) (new_chain_with cb c);
  clients_sem = refl;
  items = λ c. tt;
  balance = λ a. rw (none_used a) refl;
  null_free = none_used null;
}

module _ (h : Host) (t : ℕ) (worker : h.worker ≢ null) (copy : h.copy ≢ null)
    (apart : (h.worker == h.copy) ≡ false) (thread : h.thread ≡ some t) where
  -- sock_connect at an instance that was just created.
  connect_new :
      (hostname : Bytes) (port : ℕ) (w : World)
      → Sound (λ c. []) w
      → AllFreed w
      → Returns
          (λ r v. (r ≡ pos 0) × IsSound v)
          (Api.connect hostname port h.worker h.copy h.thread w)
  connect_new hostname port w so none_used =
      let k = started (fresh_worker (reader (new_reader h.copy port))) w.self t in
      let C : ℤ → World → Type 0 = λ r v.
        (r ≡ pos 0)
        × Changed Chain.readers (h.worker ∷ []) ([] ++ h.worker ∷ [])
            (write_worker h.worker k (named h.copy hostname w)) v in
      Returns-mono (λ r v. C r v × IsSound v) (λ r v. (r ≡ pos 0) × IsSound v) _
        (Returns-both C (λ _ v. IsSound v) (Api.connect hostname port h.worker h.copy h.thread w)
          (rw thread (
            connect-append hostname port h.worker h.copy [] 0 w (so.chain Chain.readers)
              (so.sem Chain.readers) (none_used h.worker) (none_used h.copy) refl refl apart t
              worker copy))
          (connect-IsSound hostname port h.worker h.copy h.thread w (λ c. [], so)
            (none_used h.worker) (none_used h.copy) apart))
        λ r v (both, is). (both.0, is)

-- What main needs of the system: memory for the two instances, for the reader and for its host name,
-- the last two not in use before, and a thread.
pub record Works (h : Host) (p : Process) : Type 0 where
  pub axon : h.fresh ≢ null
  pub sock : h.fresh_sock ≢ null
  pub worker : h.worker ≢ null
  pub copy : h.copy ≢ null
  pub apart : (h.worker == h.copy) ≡ false
  pub number : ℕ
  pub thread : h.thread ≡ some number
  pub empty : AllFreed p.ax.net

module _ (h : Host) (ss : List Second) (p : Process) (works : Works h p) (bs : All Behaves ss)
    (stop : stops ss || p.terminate ≡ true) where
  -- What sub.c prints.
  abbrev pub greeting : Bytes
  greeting = codes "sub client started" ++ newline ∷ []

  abbrev pub Whole : Type 0
  Whole =
      (enough : ℕ) × ((fuel : ℕ)
        → enough < fuel
        → Returns (λ r q. (r ≡ pos 0) × AllFreed q.ax.net × (q.out ≡ p.out ++ greeting))
            (Sub.main h fuel ss p))

  abbrev made : Sock → Process
  made s = record p {
    ax = record p.ax { axon = new_axon type_sub; net = record p.ax.net { sock = s } };
  }

  -- From the message callback on, with the instance `a`.
  abbrev ready : AxonWorld → Process
  ready a = record p { ax = a; out = p.out ++ greeting }

  abbrev listening : AxonWorld → AxonWorld
  listening a = record a {
    axon = record a.axon {
      cb = record a.axon.cb { message = record { fct = h.callback; user = null } };
    };
  }

  connected_at :
      (s : Sock) (v : World)
      → Api.connect (codes "127.0.0.1") 3000 h.worker h.copy h.thread (record p.ax.net { sock = s })
        ≡ ok (pos 0) v
      → on_axon (Create.connect (codes "127.0.0.1") 3000 h.worker h.copy h.thread) (made s)
        ≡ ok (pos 0) (record (made s) { ax = record (made s).ax { net = v } })
  unfolding Create.connect
  connected_at s v e = ap (λ r. on_axon (on_net (λ _. r)) (made s)) e

  listens :
      (a : AxonWorld)
      → on_axon (Create.on (codes "message") h.callback null) (record p { ax = a })
        ≡ ok (pos 0) (record p { ax = listening a })
  unfolding Create.on set_callback str_eq
  listens a = refl

  main_connected :
      (s : Sock) (v : World)
      → Create.create h.symbols (codes "sub") h.fresh h.fresh_sock ≡ some (new_axon type_sub, s)
      → Api.connect (codes "127.0.0.1") 3000 h.worker h.copy h.thread (record p.ax.net { sock = s })
        ≡ ok (pos 0) v
      → IsSound v
      → Whole
  unfolding Sub.main
  main_connected s v created connected sound =
      let a = record (made s).ax { net = v } in
      let end =
        wait-Ending ss (ready (listening a)) bs (record { sound = sound; sem = refl }) stop in
      (end.0, λ fuel lt. rw (created, connected_at s v connected, listens a) (end.1 fuel lt))

  -- sub.c, with memory and a thread, at a world without memory in use, where the threads of the
  -- instance leave it fit in each second and SIGINT comes in one of them: main prints that the client
  -- started, and with enough fuel for the release it returns 0, and no memory of the sock is left.
  pub main-AllFreed : Whole
  main-AllFreed =
      let created = create-Attached h.symbols type_sub h.fresh h.fresh_sock works.axon works.sock in
      let made_it : Create.create h.symbols (codes "sub") h.fresh h.fresh_sock
          ≡ some (new_axon type_sub, created.1) =
        created.2 ∙ ap (λ x. some (x, created.1)) created.3 in
      let w = record p.ax.net { sock = created.1 } in
      let so : Sound (λ c. []) w =
        subst (λ s. Sound (λ c. []) (record p.ax.net { sock = s })) (sym created.4)
          (empty-Sound p.ax.net _ works.empty) in
      let joined =
        Returns-eq (λ (r : ℤ) v. (r ≡ pos 0) × IsSound v) _
          (connect_new h works.number works.worker works.copy works.apart works.thread
            (codes "127.0.0.1") 3000 w so works.empty) in
      main_connected created.1 joined.1 made_it (joined.2 ∙ ap (λ r. ok r joined.1) joined.3.0)
        joined.3.1
