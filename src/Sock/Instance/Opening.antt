-- ===== src/Sock/Instance/Opening.antt =====
-- What a listenner does before its loop: on every answer of socket, setsockopt, bind and listen the
-- instance stays sound with the listenner in place.
use c_axon.Base.{
  ℕ, ◌<◌, ◌≡◌, refl, true, some, ◌∷◌, ◌>>◌, ◌==◌, ℤ, pos, negsuc, is_neg, if◌then◌else◌, pure,
  Bytes, codes, Bool-cases, inl, inr, Returns, and_then-Returns,
}
use c_axon.Sock.State.{
  Ptr, null, fd_setsize, fd_set, listenner, Worker, Listenner, worker, World, Event,
}
use c_axon.Sock.Machine.{notify_error}
use c_axon.Sock.Machine.Steps.{load_worker-ok, set_role-ok, at_fd-ok}
use c_axon.Sock.Chain.Linked.{write-same}
use c_axon.Sock.Chain.Start.{write_worker}
use c_axon.Sock.Listenner.{load_listenner, give_up, notify_bind, listenner_open}
use c_axon.Sock.Instance.{Layout, Sound}
use c_axon.Sock.Instance.Find.{proper_of}
use c_axon.Sock.Instance.Kept.{clients-Sound}
use c_axon.Sock.Instance.Peers.{listenner_with}

-- The instance keeps its layout, and at `p` a listenner lies.
pub record Listens (l : Layout) (p : Ptr) (v : World) : Type 0 where
  pub sound : Sound l v
  pub at : Worker
  pub holds : v.heap p ≡ some (worker at)
  pub body : Listenner
  pub role : at.role ≡ listenner body

-- What only adds to the log.
logged :
    (l : Layout) (p : Ptr) (e : Event) (v : World)
    → Listens l p v
    → Listens l p (record v { log = e ∷ v.log })
logged l p e v ls = record {
  sound = clients-Sound l v v.sock.clients (e ∷ v.log) refl ls.sound;
  at = ls.at;
  holds = ls.holds;
  body = ls.body;
  role = ls.role;
}

notify_error-Listens :
    (l : Layout) (p : Ptr) (message : Bytes) (v : World)
    → Listens l p v
    → Returns (λ _ u. Listens l p u) (notify_error message v)
unfolding notify_error
notify_error-Listens l p message v ls = elim (Bool-cases (v.sock.cb.error.fct == null)) [
  | inl silent ↦ rw silent ls
  | inr loud ↦ rw loud (logged l p (Event.error_call v.sock.cb.error message) v ls)
]

notify_bind-Listens :
    (l : Layout) (p : Ptr) (port : ℕ) (v : World)
    → Listens l p v
    → Returns (λ _ u. Listens l p u) (notify_bind port v)
unfolding notify_bind
notify_bind-Listens l p port v ls = elim (Bool-cases (v.sock.cb.bind.fct == null)) [
  | inl silent ↦ rw silent ls
  | inr loud ↦ rw loud (logged l p (Event.bind_call v.sock.cb.bind port) v ls)
]

give_up-Listens :
    (l : Layout) (p : Ptr) (socket : ℤ) (message : Bytes) (v : World)
    → Listens l p v
    → Returns (λ _ u. Listens l p u) (give_up socket message v)
unfolding give_up
give_up-Listens l p socket message v ls =
    let closed = record v { log = Event.closed socket ∷ v.log } in
    and_then-Returns (λ _ u. Listens l p u) (λ _ u. Listens l p u) (notify_error message closed) _
      (notify_error-Listens l p message closed (logged l p (Event.closed socket) v ls)) λ _ u is. is

-- Descriptors are below FD_SETSIZE.
abbrev pub InSet : ℤ → Type 0
InSet (pos d) = d < fd_setsize
InSet (negsuc n) = Unit

-- The worker with another body of its listenner.
body-Listens :
    (l : Layout) (p : Ptr) (w : World) (ls : Listens l p w) (n : Listenner)
    → Listens l p (write_worker p (record ls.at { role = listenner n }) w)
body-Listens l p w ls n = record {
  sound = listenner_with p ls.at ls.body l w ls.sound ls.holds ls.role n;
  at = record ls.at { role = listenner n };
  holds = write-same w.heap p (some (worker (record ls.at { role = listenner n })));
  body = n;
  role = refl;
}

module _ (l : Layout) (p : Ptr) (b : ℤ) (port : ℕ) (listens : ℤ) where
  -- bind, the report of the port, and listen.
  bound-Listens :
      (d : ℕ) (setsockopt : ℤ) (w : World)
      → Listens l p w
      → Returns
          (λ _ u. Listens l p u)
          ((if is_neg setsockopt
              then give_up (pos d) (codes "sock: unable to set socket option SO_REUSEADDR")
              else if is_neg b
              then give_up (pos d) (codes "sock: unable to bind socket")
              else do
                notify_bind port
                if is_neg listens
                    then give_up (pos d) (codes "sock: unable to listen socket")
                    else pure true)
            w)
  bound-Listens d setsockopt w ls = elim (Bool-cases (is_neg setsockopt)) [
    | inl fails ↦ rw fails (give_up-Listens l p (pos d) _ w ls)
    | inr set_ ↦ rw set_ (elim (Bool-cases (is_neg b)) [
      | inl fails ↦ rw fails (give_up-Listens l p (pos d) _ w ls)
      | inr bound ↦ rw bound (
          and_then-Returns (λ _ u. Listens l p u) (λ _ u. Listens l p u) (notify_bind port w) _
            (notify_bind-Listens l p port w ls)
            λ _ u is. elim (Bool-cases (is_neg listens)) [
              | inl fails ↦ rw fails (give_up-Listens l p (pos d) _ u is)
              | inr waits ↦ rw waits is
            ])
    ])
  ]

  -- Everything before the loop.
  pub listenner_open-Listens :
      (socket setsockopt : ℤ) (w : World)
      → InSet socket
      → Listens l p w
      → Returns
          (λ _ u. Listens l p u)
          (listenner_open p
            (record {
              socket = socket;
              setsockopt = setsockopt;
              bind = b;
              port = port;
              listen = listens;
            })
            w)
  unfolding listenner_open load_listenner body-Listens
  listenner_open-Listens (negsuc n) setsockopt w lt ls =
      let v =
        write_worker p (record ls.at { role = listenner (record ls.body { socket = negsuc n }) })
          w in
      let proper = proper_of l w p (worker ls.at) ls.sound ls.holds in
      rw
        (
          load_worker-ok p ls.at w proper ls.holds,
          ls.role,
          set_role-ok p ls.at w proper ls.holds (listenner (record ls.body { socket = negsuc n })),
        )
        (and_then-Returns (λ _ u. Listens l p u) (λ _ u. Listens l p u) (notify_error _ v) _
          (notify_error-Listens l p _ v
            (body-Listens l p w ls (record ls.body { socket = negsuc n })))
          λ _ u is. is)
  listenner_open-Listens (pos d) setsockopt w lt ls =
      let m1 = record ls.body { socket = pos d } in
      let k1 = record ls.at { role = listenner m1 } in
      let v = write_worker p k1 w in
      let ls1 = body-Listens l p w ls m1 in
      let m2 = record m1 { fds = fd_set d m1.fds } in
      let proper = proper_of l w p (worker ls.at) ls.sound ls.holds in
      rw
        (
          load_worker-ok p ls.at w proper ls.holds,
          ls.role,
          set_role-ok p ls.at w proper ls.holds (listenner m1),
          at_fd-ok fd_set d ls.body.fds v lt,
          set_role-ok p k1 v proper ls1.holds (listenner m2),
        )
        (bound-Listens d setsockopt _ (body-Listens l p v ls1 m2))
