-- ===== src/Tests/Sender.antt =====
-- The sender at two clients, 5 and 9.
use c_axon.Base.{
  ℕ, ◌<◌, ◌≤◌, ◌≡◌, refl, true, ◌||◌, none, [], ◌∷◌, ◌++◌, map, pos, negsuc, arith, Returns, ◌==◌,
  if◌then◌else◌, inl, inr, ◌*◌,
}
use c_axon.Sock.State.{FdSet, fd_setsize, fd_zero, Chain, World, Event}
use c_axon.Sock.Reader.{first_retry}
use c_axon.Sock.Sender.{
  Meanwhile, SendResult, search_fuel, find_client, send_broadcast, send_round_robin, sender_thread,
}
use c_axon.Sock.Sender.Pick.{picked, below, pick_nearest, pick_two}
use c_axon.Sock.Sender.Search.{Outcome, find_client-Returns, find_client_gives_up}
use c_axon.Sock.Sender.Quiet.{HasBuffer}
use c_axon.Sock.Sender.Broadcast.{Broadcasted, send_broadcast_reaches}
use c_axon.Sock.Sender.Deliver.{RoundRobin, send_round_robin-RoundRobin}
use c_axon.Sock.Sender.Sent.{Gone, sender_thread-send}
use c_axon.Sock.Api
use c_axon.Sock.Api.{new_sender}
use c_axon.Sock.State.{Sender, sock_send_broadcast}
use c_axon.Base.{some, ◌>>◌}
use c_axon.Sock.Sender.Thread.{sender_thread-Ended}
use c_axon.Sock.Chain.Ended.{Ended}
use c_axon.Tests.Worlds.{world, clients, hello, first_job, first_worker, second_job}
use c_axon.Tests.Chain.{world-IsChain}

only_nine : FdSet
only_nine d = d == 9

two_clients : (d : ℕ) → d < fd_setsize → clients d ≡ ((d == 5) || (d == 9))
two_clients d h = refl

nearest_nine : (d : ℕ) → d < fd_setsize → clients d ≡ true → below 20 9 ≤ below 20 d
nearest_nine d h set = ground arith

pick_nearest_example : picked clients 20 ≡ pos 9
pick_nearest_example = pick_nearest clients 20 9 (omega arith) (omega arith) refl nearest_nine

pick_two_example : picked clients 700 ≡ pos 9
pick_two_example = pick_two clients 700 5 9 (omega arith) (omega arith) (omega arith) two_clients

-- Nobody else runs.
abbrev pub alone : Meanwhile
alone k c = c

-- The peer at 5 takes two bytes, the one at 9 fails.
abbrev pub answers : SendResult
answers (pos d) = if d == 5 then pos 2 else negsuc 0
answers (negsuc n) = negsuc 0

find_client-Returns_example :
    Returns (Outcome world) (find_client alone search_fuel 0 first_retry 0 world)
find_client-Returns_example = find_client-Returns alone 0 world (λ k c. refl) refl

abbrev no_clients : World
no_clients = record world {
  sock = record world.sock { clients = record { index = 3; fds = fd_zero; sem = 1 } };
}

find_client_gives_up_example :
    Returns
      (λ found w'.
        (found ≡ none)
        × (w'.log
            ≡ map
                (λ ms. Event.slept (ms * 1000))
                (5000 ∷ 5000 ∷ 5000 ∷ 3829 ∷ 2553 ∷ 1702 ∷ 1135 ∷ 757 ∷ 505 ∷ 337 ∷ 225 ∷ 150 ∷ [])
              ++ []))
      (find_client alone search_fuel 0 first_retry 0 no_clients)
find_client_gives_up_example =
    find_client_gives_up alone 0 no_clients (λ k c. refl) (λ k c e. e) refl (λ d h. refl)

has_hello : HasBuffer world first_job hello
has_hello = record { proper = omega arith; holds = refl; size = refl }

send_broadcast_reaches_example :
    Returns
      (λ _ w'. Broadcasted answers first_job hello world w')
      (send_broadcast answers first_job world)
send_broadcast_reaches_example =
    send_broadcast_reaches answers first_job hello 0 world has_hello refl

has_second : HasBuffer world second_job hello
has_second = record { proper = omega arith; holds = refl; size = refl }

send_round_robin-RoundRobin_example :
    Returns
      (λ _ w'. RoundRobin answers second_job hello world w')
      (send_round_robin alone answers second_job world)
send_round_robin-RoundRobin_example =
    send_round_robin-RoundRobin alone answers second_job hello 0 world (λ k c. refl) has_second refl

sender_thread-Ended_example :
    Returns
      (λ _ w'. Ended Chain.senders 10 11 (20 ∷ []) world w')
      (sender_thread alone answers 10 world)
sender_thread-Ended_example =
    sender_thread-Ended alone answers 10 first_worker first_job hello [] (20 ∷ []) 0 0 world
      (λ k c. refl) world-IsChain refl refl (omega arith) refl refl has_hello (inr (inl refl))

-- A third buffer, for all clients.
abbrev third_job : Sender
third_job = new_sender sock_send_broadcast 31 2

has_third : HasBuffer world third_job hello
has_third = record { proper = omega arith; holds = refl; size = refl }

sender_thread-send_example :
    Returns
      (λ _ w'. Gone 40 31 (10 ∷ 20 ∷ []) w')
      ((Api.send 31 2 sock_send_broadcast 40 (some 9) >> sender_thread alone answers 40) world)
sender_thread-send_example =
    sender_thread-send alone answers third_job 40 hello (10 ∷ 20 ∷ []) 0 0 world (λ k c. refl)
      world-IsChain refl refl refl refl has_third refl (inr (inl refl)) 9 (omega arith)
