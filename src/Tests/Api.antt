-- ===== src/Tests/Api.antt =====
-- Calls of the socket interface, and a messenger, at concrete worlds.
use c_axon.Base.{
  List, ◌≡◌, refl, none, some, [], ◌∷◌, ◌==◌, if◌then◌else◌, pos, arith, ok, pure, codes, Returns,
}
use c_axon.Sock.State.{
  Chain, Worker, Messenger, Reader, messenger, reader, sender, Heap, worker, block, World,
  sock_send_broadcast,
}
use c_axon.Sock.Api.{new_sock, new_reader, new_sender, send, is_connected}
use c_axon.Sock.Api.Connected.{Peer, among, is_connected-among}
use c_axon.Sock.Api.Started.{Started, send-Started}
use c_axon.Sock.Api.Connect.{named, connect-append}
use c_axon.Sock.Api.{connect}
use c_axon.Sock.State.{fresh_worker}
use c_axon.Sock.Chain.Changed.{Changed}
use c_axon.Sock.Chain.Start.{started, write_worker}
use c_axon.Sock.Chain.Linked.{IsChain}
use c_axon.Sock.Release.{release}
use c_axon.Sock.Release.Freed.{Held, Released}
use c_axon.Sock.Release.Workers.{Intact}
use c_axon.Sock.Release.Whole.{AllReady, all_memory, chains, release-Released}
use c_axon.Sock.Messenger.{OnMessage, messenger_thread}
use c_axon.Sock.Messenger.Thread.{Handled, messenger_thread-Handled}
use c_axon.Tests.Worlds.{world, hello}
use c_axon.Tests.Chain.{world-IsChain}

abbrev job : Messenger
job = record { socket = pos 6; buffer = 51; size = 2 }

abbrev courier : Worker
courier = record { parent = 1; prev = 0; next = 0; thread = 4; role = messenger job }

abbrev pub local : Reader
local = new_reader 61 4000

abbrev pub local_worker : Worker
local_worker = record { parent = 1; prev = 0; next = 0; thread = 5; role = reader local }

-- A messenger at 50 and a reader of localhost at 60.
abbrev heap : Heap
heap a =
    if a == 50
    then some (worker courier)
    else if a == 51
    then some (block hello)
    else if a == 60
    then some (worker local_worker)
    else if a == 61
    then some (block (codes "localhost"))
    else none

abbrev pub net : World
net = record {
  self = 1;
  sock = record new_sock {
    messengers = record { first = 50; last = 50; sem = 1 };
    readers = record { first = 60; last = 60; sem = 1 };
    cb = record new_sock.cb { message = record { fct = 90; user = 0 } };
  };
  heap = heap;
  log = [];
}

one_messenger : IsChain heap net.sock.messengers (50 ∷ [])
one_messenger = record {
  first = refl;
  last = refl;
  linked = (record { at = courier; holds = refl; before = refl; after = refl }, tt);
  distinct = (refl, tt);
  proper = (omega arith, tt);
}

one_reader : IsChain heap net.sock.readers (60 ∷ [])
one_reader = record {
  first = refl;
  last = refl;
  linked = (record { at = local_worker; holds = refl; before = refl; after = refl }, tt);
  distinct = (refl, tt);
  proper = (omega arith, tt);
}

-- A callback that does nothing.
abbrev ignore : OnMessage
ignore c buffer size socket = pure tt

messenger_thread-Handled_example :
    Returns (λ _ w'. Handled ignore 50 job [] net w') (messenger_thread ignore 50 net)
messenger_thread-Handled_example =
    messenger_thread-Handled ignore 50 courier job hello [] [] 0 net
      (λ c. record { chain = λ is. is; sem = refl; worker_kept = refl; buffer_kept = refl })
      one_messenger refl (omega arith) refl refl (omega arith) refl

abbrev peer : Peer
peer = record { addr = 60; hostname = codes "localhost"; port = 4000 }

is_connected-among_example :
    is_connected 2 (codes "localhost") 4001 net
    ≡ ok (among (codes "localhost") 4001 (peer ∷ [])) net
is_connected-among_example =
    is_connected-among (codes "localhost") 4001 2 0 (peer ∷ []) net (omega arith) one_reader refl (
      record {
        at = local_worker;
        read = local;
        holds = refl;
        role = refl;
        port = refl;
        proper = omega arith;
        name = refl;
      },
      tt,
    )

no_listenners : IsChain heap net.sock.listenners []
no_listenners = record { first = refl; last = refl; linked = tt; distinct = tt; proper = tt }

send-Started_example :
    Returns
      (Started Chain.senders
        (sender (new_sender sock_send_broadcast 31 2))
        40
        none
        (10 ∷ 20 ∷ [])
        world)
      (send 31 2 sock_send_broadcast 40 none world)
send-Started_example =
    send-Started 31 2 sock_send_broadcast 40 none (10 ∷ 20 ∷ []) 0 world world-IsChain refl refl
      refl

abbrev readers : List Held
readers = record { addr = 60; owns = 61 ∷ [] } ∷ []

abbrev messengers : List Held
messengers = record { addr = 50; owns = 51 ∷ [] } ∷ []

net-AllReady : AllReady 2 net (chains [] readers messengers [])
net-AllReady = (
  record { first = refl; count = 0; sem = refl; intact = none_intact; enough = omega arith },
  (
    record {
      first = refl;
      count = 0;
      sem = refl;
      intact = record {
        linked = one_reader.linked;
        held = (record { at = local_worker; holds = refl; owner = refl; fit = refl }, tt);
        distinct = (refl, (refl, tt));
        live = (
          (omega arith, (block (codes "localhost"), refl)),
          ((omega arith, (worker local_worker, refl)), tt),
        );
      };
      enough = omega arith;
    },
    (
      record {
        first = refl;
        count = 0;
        sem = refl;
        intact = record {
          linked = one_messenger.linked;
          held = (record { at = courier; holds = refl; owner = refl; fit = refl }, tt);
          distinct = (refl, (refl, tt));
          live = ((omega arith, (block hello, refl)), ((omega arith, (worker courier, refl)), tt));
        };
        enough = omega arith;
      },
      (
        record { first = refl; count = 0; sem = refl; intact = none_intact; enough = omega arith },
        tt,
      ),
    ),
  ),
)
  where
    none_intact : {c : Chain} → Intact c 0 [] heap
    none_intact = record { linked = tt; held = tt; distinct = tt; live = tt }

release-Released_example :
    Returns (λ _ v. Released (all_memory (chains [] readers messengers [])) net v) (release 2 net)
release-Released_example =
    release-Released 2 [] readers messengers [] net (refl, (refl, (refl, (refl, tt)))) net-AllReady

connect-append_example :
    Returns
      (λ r w'.
        (r ≡ pos 0)
        × Changed Chain.readers
            (70 ∷ 60 ∷ [])
            (60 ∷ 70 ∷ [])
            (write_worker 70
              (started (fresh_worker (reader (new_reader 71 4000))) 1 6)
              (named 71 (codes "peer") net))
            w')
      (connect (codes "peer") 4000 70 71 (some 6) net)
connect-append_example =
    connect-append (codes "peer") 4000 70 71 (60 ∷ []) 0 net one_reader refl refl refl refl refl
      refl 6 (omega arith) (omega arith)
