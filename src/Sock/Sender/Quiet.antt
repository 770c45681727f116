-- ===== src/Sock/Sender/Quiet.antt =====
-- What a sender leaves alone while it delivers: the memory, the chains, the callbacks.
use c_axon.Base.{
  ℕ, suc, ◌<◌, ◌≡◌, refl, sym, ◌≢◌, ◌∙◌, ap, Bool, some, ◌∷◌, arith, Bytes, length, take-length, ℤ,
  pos, int_eq, le→ltb, lt→ltb, ok,
}
use c_axon.Sock.State.{null, fd_setsize, fd_clr, Sender, Sock, block, World, Event}
use c_axon.Sock.Machine.Steps.{not_null}
use c_axon.Sock.Sender.{SendResult, send_buffer, drop_socket}

-- From `w` to `w'` only the clients and the log may have changed, and no semaphore is kept.
pub record Quiet (w w' : World) : Type 0 where
  pub heap : w'.heap ≡ w.heap
  pub sock : w'.sock ≡ record w.sock { clients = w'.sock.clients }
  pub sem : w'.sock.clients.sem ≡ w.sock.clients.sem
  pub self : w'.self ≡ w.self

pub Quiet-refl : (w : World) → Quiet w w
Quiet-refl w = record { heap = refl; sock = refl; sem = refl; self = refl }

pub Quiet-trans : (u v w : World) → Quiet u v → Quiet v w → Quiet u w
Quiet-trans u v w p q = record {
  heap = q.heap ∙ p.heap;
  sock = q.sock ∙ ap (λ (s : Sock). record s { clients = w.sock.clients }) p.sock;
  sem = q.sem ∙ p.sem;
  self = q.self ∙ p.self;
}

-- The buffer of the sender is allocated, and holds as many bytes as it says.
pub record HasBuffer (w : World) (s : Sender) (bytes : Bytes) : Type 0 where
  pub proper : s.buffer ≢ null
  pub holds : w.heap s.buffer ≡ some (block bytes)
  pub size : s.size ≡ length bytes

pub HasBuffer-Quiet :
    (w w' : World) (s : Sender) (bytes : Bytes)
    → Quiet w w'
    → HasBuffer w s bytes
    → HasBuffer w' s bytes
HasBuffer-Quiet w w' s bytes q h = record {
  proper = h.proper;
  holds = ap (λ m. m s.buffer) q.heap ∙ h.holds;
  size = h.size;
}

-- Whether the peer took the whole buffer.
abbrev pub took : SendResult → Sender → ℤ → Bool
took result s socket = int_eq (pos s.size) (result socket)

abbrev pub logged : Event → World → World
logged e w = record w { log = e ∷ w.log }

-- The buffer is sent whole.
pub send_buffer-ok :
    (result : SendResult) (s : Sender) (bytes : Bytes) (socket : ℤ) (w : World)
    → HasBuffer w s bytes
    → send_buffer result s socket w ≡ ok (took result s socket) (logged (Event.sent socket bytes) w)
unfolding send_buffer
send_buffer-ok result s bytes socket w h = rw (
  not_null s.buffer h.proper,
  h.holds,
  h.size,
  le→ltb (length bytes) (length bytes) (omega arith),
  take-length bytes,
)

-- The world without the client `d`.
abbrev pub without : ℕ → World → World
without d w = record w {
  sock = record w.sock { clients = record w.sock.clients { fds = fd_clr d w.sock.clients.fds } };
}

pub drop_socket-ok :
    (d : ℕ) (w : World)
    → d < fd_setsize
    → drop_socket (pos d) w ≡ ok tt (logged (Event.closed (pos d)) (without d w))
unfolding drop_socket
drop_socket-ok d w h = rw (lt→ltb d fd_setsize h)

-- The world while the semaphore of the clients is held, and after it is released.
abbrev pub clients_held : ℕ → World → World
clients_held n w = record w { sock = record w.sock { clients = record w.sock.clients { sem = n } } }

pub Quiet-release :
    (n : ℕ) (w w' : World)
    → w.sock.clients.sem ≡ suc n
    → Quiet (clients_held n w) w'
    → Quiet w (clients_held (suc w'.sock.clients.sem) w')
Quiet-release n w w' e q = record {
  heap = q.heap;
  sock =
      ap
        (λ (s : Sock). record s {
          clients = record w'.sock.clients { sem = suc w'.sock.clients.sem };
        })
        q.sock;
  sem = ap suc q.sem ∙ sym e;
  self = q.self;
}
