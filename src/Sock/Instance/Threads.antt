-- ===== src/Sock/Instance/Threads.antt =====
-- What the threads do keeps the instance sound: a sender and a messenger from end to end, clients that
-- come and go at a listenner, and the attempt of a reader to connect.
use c_axon.Base.{
  ℕ, ◌≡◌, refl, sym, ◌∙◌, ap, subst, true, some, List, [], ◌∷◌, ◌>>◌, ◌++◌, arith, ℤ, All,
  All-split, has-head, has, Returns, Returns-mono, and_then-Returns, Bool-cases, inl, inr, ◌==◌,
}
use c_axon.Sock.State.{
  Ptr, null, Role, messenger, sender, Worker, Sender, Messenger, Callback, Chain, chain_of, worker,
  block, Heap, World,
}
use c_axon.Sock.Machine.Steps.{load_worker-ok}
use c_axon.Sock.Machine.{free}
use c_axon.Sock.Chain.{remove_worker}
use c_axon.Sock.Chain.Linked.{IsChain}
use c_axon.Sock.Chain.Ended.{Ended, finish-Ended}
use c_axon.Sock.Messenger.{OnMessage, invoke_message, messenger_thread}
use c_axon.Sock.Sender.{Meanwhile, SendResult, sender_thread}
use c_axon.Sock.Sender.Search.{IsPolite}
use c_axon.Sock.Sender.Thread.{sender_thread-Ended}
use c_axon.Sock.Release.{fits}
use c_axon.Sock.Release.Freed.{Held, addrs, owned}
use c_axon.Sock.Instance.{Stores, Item, Layout, put, Sound, IsSound}
use c_axon.Sock.Instance.Find.{Place, Stores-block, place, proper_of}
use c_axon.Sock.Instance.Shrink.{addrs-append, around, Ended-Left, shrink}

-- The chain of a worker that is known, its links and what its worker stores.
pub record Spot (c : Chain) (p : Ptr) (k : Worker) (l : Layout) (w : World) : Type 0 where
  pub front : List Held
  pub back : List Held
  pub stands : l c ≡ front ++ record { addr = p; owns = owned k.role } ∷ back
  pub linked : IsChain w.heap (chain_of c w.sock) (addrs front ++ p ∷ addrs back)
  pub stores : Stores w.heap k.role

chain_fits : (c d : Chain) (r : Role) → fits c r ≡ true → fits d r ≡ true → c ≡ d
chain_fits c d r e f = ground arith

at-Stores :
    (c : Chain) (h : Heap) (p : Ptr) (k : Worker) (front back : List Held)
    → All (Item c h) (front ++ record { addr = p; owns = owned k.role } ∷ back)
    → h p ≡ some (worker k)
    → Stores h k.role
at-Stores c h p k front back its e =
    let it =
      (All-split (Item c h) front (record { addr = p; owns = owned k.role } ∷ back) its).1.0 in
    let same : it.is_held.at ≡ k = cc in subst (λ (j : Worker). Stores h j.role) same it.stores

pub spot :
    (c : Chain) (p : Ptr) (k : Worker) (l : Layout) (w : World)
    → Sound l w
    → w.heap p ≡ some (worker k)
    → fits c k.role ≡ true
    → Spot c p k l w
spot c p k l w so e fit =
    let (d, at) = place l w p k so e in
    let here : Place c p k (l c) =
      subst (λ b. Place b p k (l b)) (chain_fits d c k.role at.fit fit) at in
    record {
      front = here.front;
      back = here.back;
      stands = here.stands;
      linked =
          subst (IsChain w.heap (chain_of c w.sock))
            (ap addrs here.stands
              ∙ addrs-append here.front (record { addr = p; owns = owned k.role } ∷ here.back))
            (so.chain c);
      stores =
          at-Stores c w.heap p k here.front here.back
            (subst (All (Item c w.heap)) here.stands (so.items c)) e;
    }

-- A sender that runs keeps the instance sound, whatever the answers of the peers and whatever other
-- threads do to the clients, if they release the semaphore.
pub sender_thread-IsSound :
    (others : Meanwhile) (result : SendResult) (p : Ptr) (k : Worker) (s : Sender) (w : World)
    → IsPolite others
    → IsSound w
    → w.heap p ≡ some (worker k)
    → k.role ≡ sender s
    → Returns (λ _ w'. IsSound w') (sender_thread others result p w)
sender_thread-IsSound others result p k s w polite (l, so) at role =
    let sp = spot Chain.senders p k l w so at (ap (fits Chain.senders) role) in
    let (bytes, holds, size, dest) = subst (Stores w.heap) role sp.stores in
    Returns-mono (λ _ w'. Ended Chain.senders p s.buffer (addrs sp.front ++ addrs sp.back) w w')
      (λ _ w'. IsSound w') _
      (sender_thread-Ended others result p k s bytes (addrs sp.front) (addrs sp.back) 0 0 w polite
        sp.linked (so.sem Chain.senders) so.clients_sem (proper_of l w p (worker k) so at) at role
        (record {
          proper = proper_of l w s.buffer (block bytes) so holds;
          holds = holds;
          size = size;
        })
        dest)
      λ _ w' end. (
        put Chain.senders (sp.front ++ sp.back) l,
        shrink Chain.senders (record { addr = p; owns = s.buffer ∷ [] }) sp.front sp.back l w w' so
            (sp.stands
              ∙ ap (λ os. sp.front ++ record { addr = p; owns = os } ∷ sp.back) (ap owned role))
            (Ended-Left Chain.senders p s.buffer (addrs sp.front ++ addrs sp.back) w w' end),
      )

-- A message callback that returns, keeps the instance sound and leaves the messengers where they are:
-- it may send, bind and connect.
abbrev pub IsGentle : OnMessage → Type 0
IsGentle on_message =
    (c : Callback) (buffer size : ℕ) (socket : ℤ) (l : Layout) (v : World)
    → Sound l v
    → Returns (λ _ u. (m : Layout) × Sound m u × (m Chain.messengers ≡ l Chain.messengers))
        (on_message c buffer size socket v)

-- From one layout to the next the messengers stay.
abbrev SameMessengers : Layout → World → Type 0
SameMessengers l u = (m : Layout) × Sound m u × (m Chain.messengers ≡ l Chain.messengers)

invoke_message-Sound :
    (on_message : OnMessage) (m : Messenger) (l : Layout) (w : World)
    → IsGentle on_message
    → Sound l w
    → Returns (λ _ u. SameMessengers l u) (invoke_message on_message m w)
unfolding invoke_message
invoke_message-Sound on_message m l w gentle so =
    elim (Bool-cases (w.sock.cb.message.fct == null)) [
      | inl silent ↦ rw silent (l, so, refl)
      | inr loud ↦ rw loud (gentle w.sock.cb.message m.buffer m.size m.socket l w so)
    ]

messenger_end-IsSound :
    (p buffer : Ptr) (front back : List Held) (l : Layout) (v : World)
    → Sound l v
    → l Chain.messengers ≡ around p buffer front back
    → Returns (λ _ w'. IsSound w') ((remove_worker Chain.messengers p >> (free buffer >> free p)) v)
messenger_end-IsSound p buffer front back l v so stands =
    let x : Held = record { addr = p; owns = buffer ∷ [] } in
    let its = subst (All (Item Chain.messengers v.heap)) stands (so.items Chain.messengers) in
    let it : Item Chain.messengers v.heap x =
      (All-split (Item Chain.messengers v.heap) front (x ∷ back) its).1.0 in
    let k = it.is_held.at in
    let (bytes, holds) =
      Stores-block v.heap k.role buffer it.stores
        (subst (λ os. has buffer os ≡ true) (sym it.is_held.owner) (has-head buffer [])) in
    Returns-mono (λ _ w'. Ended Chain.messengers p buffer (addrs front ++ addrs back) v w')
      (λ _ w'. IsSound w') _
      (finish-Ended Chain.messengers p buffer k bytes (addrs front) (addrs back) 0 v
        (subst (IsChain v.heap v.sock.messengers) (ap addrs stands ∙ addrs-append front (x ∷ back))
          (so.chain Chain.messengers))
        (so.sem Chain.messengers) it.is_held.holds (proper_of l v buffer (block bytes) so holds)
        holds)
      λ _ w' end. (
        put Chain.messengers (front ++ back) l,
        shrink Chain.messengers x front back l v w' so stands
            (Ended-Left Chain.messengers p buffer (addrs front ++ addrs back) v w' end),
      )

-- A messenger that runs, with such a callback, keeps the instance sound.
pub messenger_thread-IsSound :
    (on_message : OnMessage) (p : Ptr) (k : Worker) (m : Messenger) (w : World)
    → IsGentle on_message
    → IsSound w
    → w.heap p ≡ some (worker k)
    → k.role ≡ messenger m
    → Returns (λ _ w'. IsSound w') (messenger_thread on_message p w)
unfolding messenger_thread
messenger_thread-IsSound on_message p k m w gentle (l, so) at role =
    let sp = spot Chain.messengers p k l w so at (ap (fits Chain.messengers) role) in
    let stands : l Chain.messengers ≡ around p m.buffer sp.front sp.back =
      sp.stands ∙ ap (λ os. sp.front ++ record { addr = p; owns = os } ∷ sp.back) (ap owned role) in
    rw (load_worker-ok p k w (proper_of l w p (worker k) so at) at, role)
      (and_then-Returns (λ _ u. SameMessengers l u) (λ _ w'. IsSound w')
        (invoke_message on_message m w) _ (invoke_message-Sound on_message m l w gentle so)
        λ _ u (l', so', same).
          messenger_end-IsSound p m.buffer sp.front sp.back l' u so' (same ∙ stands))
