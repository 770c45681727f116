-- ===== src/Tests/Instance.antt =====
-- Witnesses for the life of a sock instance.
use c_axon.Base.{
  ℕ, ℤ, if◌then◌else◌, ◌==◌, ◌<◌, ◌≡◌, refl, none, some, [], ◌∷◌, arith, pos, ok, fault, blocked,
  out_of_fuel, Returns, Run, inl, inr,
}
use c_axon.Sock.State.{
  Ptr, Sender, sender, Chain, sock_send_broadcast, listenner, messenger, fresh_worker, Listenner,
  worker, World, Event, fd_zero, fd_set,
}
use c_axon.Sock.Machine.{write}
use c_axon.Sock.Chain.{start_worker}
use c_axon.Sock.Chain.Changed.{Changed}
use c_axon.Sock.Chain.Start.{started, write_worker}
use c_axon.Sock.Api.{bind, send, new_sender}
use c_axon.Sock.Api.Connect.{named}
use c_axon.Sock.Machine.Steps.{clients_without}
use c_axon.Sock.Listenner.{drop_client}
use c_axon.Sock.Listenner.Accept.{ignoring, drop_client_leaves}
use c_axon.Sock.Messenger.{Input, kept, lost, receive}
use c_axon.Sock.Messenger.Receive.{new_messenger, receive_starts, receive_lost}
use c_axon.Sock.Release.{release}
use c_axon.Sock.Instance.{IsSound}
use c_axon.Sock.Instance.Action.{Runs, Action, bound, sent, sender_ran, run, run-IsSound}
use c_axon.Sock.Instance.Reached.{initial, step, Reach, start, later, Reach-IsSound, release-Reach}
use c_axon.Tests.Worlds.{hello}
use c_axon.Tests.Sender.{alone, answers}

-- A listenner is bound, and a message is sent.
abbrev binding : Action
binding = bound 9000 5 (some 7)

abbrev sending : Action
sending = sent hello 11 sock_send_broadcast 10 (some 8)

-- The world that a run leaves, if it returns.
abbrev end_of : Run World (Unit {0}) → World
end_of (ok a w) = w
end_of fault = initial 1
end_of blocked = initial 1
end_of out_of_fuel = initial 1

after_bind : World
unfolding bind
after_bind = end_of (run binding (initial 1))

binds : run binding (initial 1) ≡ ok tt after_bind
unfolding after_bind bind start_worker write
binds = refl

after_send : World
unfolding send after_bind
after_send = end_of (run sending after_bind)

sends : run sending after_bind ≡ ok tt after_send
unfolding after_send send start_worker write
sends = refl

bound_reached : Reach 1 after_bind
bound_reached = later start (step binding (initial 1) after_bind refl binds)

sent_reached : Reach 1 after_send
unfolding after_bind bind start_worker write
sent_reached =
    later bound_reached
      (step sending after_bind after_send (refl, refl, omega arith, refl, inr (inl refl)) sends)

-- The sender that was started.
abbrev job : Sender
job = new_sender sock_send_broadcast 11 2

sender_at : Runs sender after_send 10
unfolding after_send send after_bind bind start_worker write
sender_at = record {
  at = started (fresh_worker (sender job)) 1 8;
  holds = refl;
  body = job;
  role = refl;
}

run-IsSound_example : Returns (λ _ v. IsSound v) (run (sender_ran alone answers 10) after_send)
run-IsSound_example =
    run-IsSound (sender_ran alone answers 10) after_send (Reach-IsSound sent_reached)
      ((λ k c. refl), sender_at)

release-Reach_example :
    (enough : ℕ) × ((fuel : ℕ)
      → enough < fuel
      → Returns (λ _ v. (p : Ptr) → v.heap p ≡ none) (release fuel after_send))
release-Reach_example = release-Reach 1 after_send sent_reached

-- Two bytes arrive.
abbrev arrival : ℤ → Input
arrival received = record {
  accepted = pos 0;
  pending = 2;
  fresh = 30;
  fresh_buffer = 31;
  bytes = hello;
  received = received;
  thread = some 9;
}

receive_starts_example :
    Returns
      (λ r v.
        (r ≡ kept)
        × Changed Chain.messengers
            (30 ∷ [])
            (30 ∷ [])
            (write_worker 30
              (started (fresh_worker (messenger (new_messenger (pos 4) (arrival (pos 2))))) 1 9)
              (named 31 hello (initial 1)))
            v)
      (receive (pos 4) (drop_client 5 4) (arrival (pos 2)) (initial 1))
receive_starts_example =
    receive_starts (pos 4) (drop_client 5 4) (arrival (pos 2)) (initial 1) (omega arith) refl
      (omega arith) refl refl [] 0
      (record { first = refl; last = refl; linked = tt; distinct = tt; proper = tt }) refl refl refl
      refl 9 refl

-- A listenner that watches the descriptor 4.
abbrev watcher : Listenner
watcher = record { socket = pos 3; port = 9000; fds = fd_set 4 fd_zero }

abbrev watched : World
watched = record (initial 1) {
  heap = λ a. if a == 5 then some (worker (fresh_worker (listenner watcher))) else none;
}

receive_lost_example :
    receive (pos 4) (drop_client 5 4) (arrival (pos 1)) watched
    ≡ ok lost (record watched {
      heap =
          write 5
            (some (worker (ignoring (fresh_worker (listenner watcher)) watcher 4)))
            watched.heap;
      sock = (clients_without 4 watched).sock;
      log = Event.closed (pos 4) ∷ [];
    })
unfolding write
receive_lost_example =
    receive_lost (pos 4) (drop_client 5 4) (arrival (pos 1)) watched (omega arith) refl
      (omega arith) refl refl 5
      (some (worker (ignoring (fresh_worker (listenner watcher)) watcher 4)))
      (clients_without 4 watched).sock (Event.closed (pos 4) ∷ []) refl refl refl
      (drop_client_leaves 5 (fresh_worker (listenner watcher)) watcher 4
        (write_worker 30 (fresh_worker (messenger (new_messenger (pos 4) (arrival (pos 1)))))
          (named 31 hello watched))
        (omega arith) refl refl 0 (omega arith) refl)
