-- ===== src/Sock/Messenger/Thread.antt =====
-- sock_thread_messenger from end to end.
use c_axon.Base.{
  ℕ, suc, ◌≡◌, ◌≢◌, ◌∙◌, some, List, ◌∷◌, ◌++◌, refl, Bytes, Returns, Returns-mono, Returns-eq,
  Bool-cases, inl, inr, ◌==◌, true, false, sym, ap, ok, pure, if◌then◌else◌,
}
use c_axon.Sock.State.{
  Ptr, null, Worker, Messenger, Chain, messenger, worker, block, Callback, World,
}
use c_axon.Sock.Machine.Steps.{load_worker-ok}
use c_axon.Sock.Chain.Linked.{IsChain}
use c_axon.Sock.Chain.Ended.{Ended, finish-Ended}
use c_axon.Sock.Messenger.{OnMessage, invoke_message, messenger_thread}

-- From `w` to `v` the messenger at `p`, its buffer, and the chain of messengers `xs` were left alone.
pub record Spared (p buffer : Ptr) (xs : List Ptr) (w v : World) : Type 0 where
  pub chain : IsChain w.heap w.sock.messengers xs → IsChain v.heap v.sock.messengers xs
  pub sem : v.sock.messengers.sem ≡ w.sock.messengers.sem
  pub worker_kept : v.heap p ≡ w.heap p
  pub buffer_kept : v.heap buffer ≡ w.heap buffer

-- `between` is where the message callback leaves the world, once it was called with what the messenger
-- holds; where none is registered, it is `w`. From there on the messenger ended.
pub record Handled (on_message : OnMessage) (p : Ptr) (m : Messenger) (xs : List Ptr) (w w' : World)
    : Type 0 where
  pub between : World
  pub silent : (w.sock.cb.message.fct == null) ≡ true → between ≡ w
  pub called :
      (w.sock.cb.message.fct == null) ≡ false
      → on_message w.sock.cb.message m.buffer m.size m.socket w ≡ ok tt between
  pub ended : Ended Chain.messengers p m.buffer xs between w'

invoke_message-Spared :
    (on_message : OnMessage) (p : Ptr) (m : Messenger) (xs : List Ptr) (w : World)
    → ((c : Callback)
        → Returns (λ _ v. Spared p m.buffer xs w v) (on_message c m.buffer m.size m.socket w))
    → Returns (λ _ v. Spared p m.buffer xs w v) (invoke_message on_message m w)
unfolding invoke_message
invoke_message-Spared on_message p m xs w spares =
    elim (Bool-cases (w.sock.cb.message.fct == null)) [
      | inl silent ↦
          rw silent
            (record { chain = λ is. is; sem = refl; worker_kept = refl; buffer_kept = refl })
      | inr loud ↦ rw loud (spares w.sock.cb.message)
    ]

-- What the messenger calls is the callback that is registered.
invoke_message_called :
    (on_message : OnMessage) (m : Messenger) (w v : World)
    → invoke_message on_message m w ≡ ok tt v
    → ((w.sock.cb.message.fct == null) ≡ true → v ≡ w)
      × ((w.sock.cb.message.fct == null) ≡ false
          → on_message w.sock.cb.message m.buffer m.size m.socket w ≡ ok tt v)
unfolding invoke_message
invoke_message_called on_message m w v run = (
  λ silent.
      let e : ok tt w ≡ ok tt v =
        ap (λ b. (if b then pure tt else on_message w.sock.cb.message m.buffer m.size m.socket) w)
          (sym silent)
        ∙ run in
      cc,
  λ loud.
      ap (λ b. (if b then pure tt else on_message w.sock.cb.message m.buffer m.size m.socket) w)
        (sym loud)
      ∙ run,
)

-- A messenger whose callback returns, and leaves the messenger and the chain of messengers alone,
-- returns: where a message callback is registered, it was called once, with the buffer, its size and
-- the socket, and where none is, nothing was called; then the messenger left its chain, and its buffer
-- and itself were freed once.
pub messenger_thread-Handled :
    (on_message : OnMessage) (p : Ptr) (k : Worker) (m : Messenger) (bytes : Bytes)
    (ys zs : List Ptr) (n : ℕ) (w : World)
    → ((c : Callback)
        → Returns
            (λ _ v. Spared p m.buffer (ys ++ p ∷ zs) w v)
            (on_message c m.buffer m.size m.socket w))
    → IsChain w.heap w.sock.messengers (ys ++ p ∷ zs)
    → w.sock.messengers.sem ≡ suc n
    → p ≢ null
    → w.heap p ≡ some (worker k)
    → k.role ≡ messenger m
    → m.buffer ≢ null
    → w.heap m.buffer ≡ some (block bytes)
    → Returns (λ _ w'. Handled on_message p m (ys ++ zs) w w') (messenger_thread on_message p w)
unfolding messenger_thread
messenger_thread-Handled on_message p k m bytes ys zs n w spares is e ne at role bne holds =
    rw (load_worker-ok p k w ne at, role)
      (let (t, v, run, sp) =
          Returns-eq (λ _ v. Spared p m.buffer (ys ++ p ∷ zs) w v) (invoke_message on_message m w)
            (invoke_message-Spared on_message p m (ys ++ p ∷ zs) w spares) in
        rw run (
          Returns-mono (λ _ w'. Ended Chain.messengers p m.buffer (ys ++ zs) v w')
            (λ _ w'. Handled on_message p m (ys ++ zs) w w') _
            (finish-Ended Chain.messengers p m.buffer k bytes ys zs n v (sp.chain is) (sp.sem ∙ e)
              (sp.worker_kept ∙ at) bne (sp.buffer_kept ∙ holds))
            λ _ w' d.
              let (silent, called) = invoke_message_called on_message m w v run in
              record { between = v; silent = silent; called = called; ended = d }))
