-- ===== src/Tests/Worlds.antt =====
-- Sample worlds: two senders at 10 and 20 with their buffers at 11 and 21, two clients.
use c_axon.Base.{none, some, [], ◌∷◌, ◌==◌, ◌||◌, if◌then◌else◌, pos, Bytes}
use c_axon.Sock.State.{
  FdSet, Sender, sender, Worker, Sock, worker, block, Heap, World, sock_send_broadcast,
  sock_send_round_robin,
}
use c_axon.Sock.Api.{new_sock, new_sender}

abbrev pub hello : Bytes
hello = 104 ∷ 105 ∷ []

abbrev pub first_job : Sender
first_job = new_sender sock_send_broadcast 11 2

abbrev pub second_job : Sender
second_job = new_sender sock_send_round_robin 21 2

abbrev pub first_worker : Worker
first_worker = record { parent = 1; prev = 0; next = 20; thread = 7; role = sender first_job }

abbrev pub second_worker : Worker
second_worker = record { parent = 1; prev = 10; next = 0; thread = 8; role = sender second_job }

abbrev pub third_worker : Worker
third_worker = record {
  parent = 0;
  prev = 0;
  next = 0;
  thread = 0;
  role = sender (new_sender (pos 5) 31 2);
}

abbrev pub heap : Heap
heap a =
    if a == 10
    then some (worker first_worker)
    else if a == 20
    then some (worker second_worker)
    else if a == 30
    then some (worker third_worker)
    else if a == 11 || a == 21 || a == 31
    then some (block hello)
    else none

abbrev pub clients : FdSet
clients d = (d == 5) || (d == 9)

abbrev pub sock : Sock
sock = record new_sock {
  senders = record { first = 10; last = 20; sem = 1 };
  clients = record { index = 0; fds = clients; sem = 1 };
}

abbrev pub world : World
world = record { self = 1; sock = sock; heap = heap; log = [] }
