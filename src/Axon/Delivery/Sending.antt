-- ===== src/Axon/Delivery/Sending.antt =====
-- The last part of axon_vsend, from the encoded buffer on: what it does to the sock instance is one
-- step of the instance, or none.
use c_axon.Base.{
  ◌≡◌, ◌≢◌, refl, sym, ◌∙◌, ap, subst, Bool, true, false, Option, none, some, ◌⊎◌, inl, inr, ◌==◌,
  ◌>>=◌, ◌>>◌, ℤ, pos, negsuc, int_eq, Bytes, length, ok, pure, if◌then◌else◌, Bool-cases, Returns,
  Returns-eq, Returns-mono, and_then-Returns, and_then-eq-ok, not,
}
use c_axon.Sock.State.{null, block, World}
use c_axon.Sock.Machine.{put_cell, free}
use c_axon.Sock.Machine.Steps.{free-ok}
use c_axon.Sock.Api.{send}
use c_axon.Sock.Api.Connect.{named}
use c_axon.Sock.Chain.Linked.{write-same}
use c_axon.Sock.Chain.Start.{write-write}
use c_axon.Sock.Messenger.Cells.{write-none}
use c_axon.Sock.Sender.Deliver.{IsDestination}
use c_axon.Sock.Instance.{IsSound}
use c_axon.Sock.Instance.Action.{Allowed, sent, run, run-IsSound}
use c_axon.Sock.Instance.Reached.{Step, step}
use c_axon.Axon.State.{Msg, AxonWorld, Ax, on_net}
use c_axon.Axon.Send.{
  SendInput, Request, deadline, waited, first_of_queue, open_queue, unlink_queue, await_response,
  transmit,
}
use c_axon.Axon.Send.Transmit.{on_net_ok}

-- The instance is where it was, or one step further.
abbrev pub AtMostOneStep : World → World → Type 0
AtMostOneStep w v = (v ≡ w) ⊎ Step w v

-- Only the queues of the process are waited at.
await_response-net :
    (i : SendInput) (request : Request) (a : AxonWorld)
    → Returns (λ _ b. b.net ≡ a.net) (await_response i request a)
unfolding await_response unlink_queue
await_response-net i none a = refl
await_response-net i (some (name, timeout)) a =
    answered
      (first_of_queue
        (waited i (deadline i.now timeout) (first_of_queue (a.queues name)) a.queues name))
      _ refl
  where
    answered :
        (o : Option Msg) (b : AxonWorld)
        → b.net ≡ a.net
        → Returns {A = ℤ × Option Msg}
            (λ _ c. c.net ≡ a.net)
            ((elim o as (λ _. Ax (ℤ × Option Msg)) [
              | none ↦ pure (negsuc 0, none)
              | some m ↦ pure (pos 0, some m)
            ])
              b)
    answered none b e = e
    answered (some m) b e = e

unlink_queue-net :
    (request : Request) (a : AxonWorld) → Returns (λ _ b. b.net ≡ a.net) (unlink_queue request a)
unfolding unlink_queue
unlink_queue-net none a = refl
unlink_queue-net (some (name, timeout)) a = refl

-- The room that a send needs: memory for the buffer and for the sender, apart and not in use.
pub record Spare (i : SendInput) (w : World) : Type 0 where
  pub proper : i.buffer ≢ null
  pub buffer_unused : w.heap i.buffer ≡ none
  pub fresh_unused : w.heap i.fresh ≡ none
  pub apart : (i.fresh == i.buffer) ≡ false

module _ (i : SendInput) (bytes : Bytes) (dest : ℤ) (is_dest : IsDestination dest) where
  -- The buffer is freed at once where no queue is opened.
  buffer_back : (w : World) → Spare i w → free i.buffer (named i.buffer bytes w) ≡ ok tt w
  buffer_back w room =
      free-ok i.buffer (block bytes) (named i.buffer bytes w) room.proper
        (write-same w.heap i.buffer (some (block bytes)))
      ∙ ap (λ h. ok tt (record w { heap = h }))
          (write-write i.buffer none (some (block bytes)) w.heap
            ∙ write-none w.heap i.buffer room.buffer_unused)

  -- sock_send with its caller, as one action of the instance from `w`.
  record Sending (w : World) : Type 0 where
    pub ret : ℤ
    pub after : World
    pub end : World
    pub sends :
        send i.buffer (length bytes) dest i.fresh i.thread (named i.buffer bytes w) ≡ ok ret after
    pub started : int_eq ret (pos 0) ≡ true → end ≡ after
    pub refused : int_eq ret (pos 0) ≡ false → free i.buffer after ≡ ok tt end
    pub step_to : Step w end

  Spare-Sending : (w : World) → IsSound w → Spare i w → Sending w
  unfolding put_cell
  Spare-Sending w is room =
      let act = sent bytes i.buffer dest i.fresh i.thread in
      let may : Allowed act w =
        (room.fresh_unused, room.buffer_unused, room.proper, room.apart, is_dest) in
      let (unit, u, runs, so) =
        Returns-eq (λ _ v. IsSound v) (run act w) (run-IsSound act w is may) in
      let (r, v, e, rest) =
        and_then-eq-ok (send i.buffer (length bytes) dest i.fresh i.thread (named i.buffer bytes w))
          _ runs in
      record {
        ret = r;
        after = v;
        end = u;
        sends = e;
        started = λ zero_. kept r v u zero_ rest;
        refused = λ minus. freed r v u minus rest;
        step_to = step act w u may runs;
      }
    where
      kept :
          (r : ℤ) (v u : World)
          → int_eq r (pos 0) ≡ true
          → (if int_eq r (pos 0) then pure tt else free i.buffer) v ≡ ok tt u
          → u ≡ v
      kept r v u zero_ rest =
          let e : ok tt v ≡ ok tt u =
            ap (λ b. (if b then pure tt else free i.buffer) v) (sym zero_) ∙ rest in
          cc

      freed :
          (r : ℤ) (v u : World)
          → int_eq r (pos 0) ≡ false
          → (if int_eq r (pos 0) then pure tt else free i.buffer) v ≡ ok tt u
          → free i.buffer v ≡ ok tt u
      freed r v u minus rest = ap (λ b. (if b then pure tt else free i.buffer) v) (sym minus) ∙ rest

  -- From the encoded buffer to the end, whatever the queue, sock_send and the peer answer.
  pub transmit-Step :
      (request : Request) (a : AxonWorld)
      → IsSound a.net
      → Spare i a.net
      → Returns (λ _ b. AtMostOneStep a.net b.net) (transmit i bytes dest request a)
  unfolding transmit open_queue put_cell
  transmit-Step request a is room =
      let w = a.net in
      let s = Spare-Sending w is room in
      and_then-Returns (λ ready b. b.net ≡ named i.buffer bytes w)
        (λ _ b. AtMostOneStep a.net b.net)
        (open_queue i request (record a { net = named i.buffer bytes w })) _ (opened_net request)
        λ ready b e. goes_on ready b e s
    where
      opened_net :
          (q : Request)
          → Returns
              (λ _ b. b.net ≡ named i.buffer bytes a.net)
              (open_queue i q (record a { net = named i.buffer bytes a.net }))
      opened_net none = refl
      opened_net (some (name, timeout)) = elim (Bool-cases i.queue_opened) [
        | inl opens ↦ rw opens refl
        | inr shut ↦ rw shut refl
      ]

      finish_sent :
          (r : ℤ) (v : World) (b : AxonWorld) (s : Sending a.net)
          → r ≡ s.ret
          → v ≡ s.after
          → Returns
              (λ _ c. AtMostOneStep a.net c.net)
              ((if int_eq r (pos 0)
                  then await_response i request
                  else do unlink_queue request; on_net (free i.buffer); pure (negsuc 0, none))
                (record b { net = v }))
      finish_sent r v b s er ev = elim (Bool-cases (int_eq r (pos 0))) [
        | inl zero_ ↦ rw zero_ (
            Returns-mono (λ _ c. c.net ≡ v) (λ _ c. AtMostOneStep a.net c.net) _
              (await_response-net i request (record b { net = v }))
              λ _ c same. inr (
                subst (Step a.net)
                  (s.started (ap (λ x. int_eq x (pos 0)) (sym er) ∙ zero_) ∙ sym ev ∙ sym same)
                  s.step_to))
        | inr minus ↦ rw minus (
            and_then-Returns (λ _ c. c.net ≡ v) (λ _ c. AtMostOneStep a.net c.net)
              (unlink_queue request (record b { net = v })) _
              (unlink_queue-net request (record b { net = v }))
              λ _ c same.
                rw
                  (on_net_ok (free i.buffer) c tt s.end (
                    ap (free i.buffer) (same ∙ ev)
                    ∙ s.refused (ap (λ x. int_eq x (pos 0)) (sym er) ∙ minus)))
                  (inr s.step_to))
      ]

      goes_on :
          (ready : Bool) (b : AxonWorld)
          → b.net ≡ named i.buffer bytes a.net
          → Sending a.net
          → Returns
              (λ _ c. AtMostOneStep a.net c.net)
              ((if not ready then (do on_net (free i.buffer); pure (negsuc 0, none)) else do
                started ← on_net (send i.buffer (length bytes) dest i.fresh i.thread)
                if int_eq started (pos 0)
                    then await_response i request
                    else do unlink_queue request; on_net (free i.buffer); pure (negsuc 0, none))
                b)
      goes_on false b e s =
          rw (on_net_ok (free i.buffer) b tt a.net (ap (free i.buffer) e ∙ buffer_back a.net room))
            (inl refl)
      goes_on true b e s =
          rw
            (on_net_ok (send i.buffer (length bytes) dest i.fresh i.thread) b s.ret s.after
              (ap (send i.buffer (length bytes) dest i.fresh i.thread) e ∙ s.sends))
            (finish_sent s.ret s.after b s refl refl)
