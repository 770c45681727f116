-- ===== src/Sock/Sender/Deliver.antt =====
-- What the sender does before it takes itself out of the chain, on each of its three ways.
use c_axon.Base.{
  ℕ, suc, ◌+◌, ◌%◌, ◌<◌, ◌≡◌, refl, ◌∙◌, true, none, some, arith, ℤ, pos, negsuc, Bytes, ok,
  Returns, Returns-mono, and_then-Returns, Bool-cases, inl, inr, ◌⊎◌, if◌then◌else◌,
}
use c_axon.Sock.State.{fd_setsize, Sender, World, Event, sock_send_broadcast, sock_send_round_robin}
use c_axon.Sock.Machine.Steps.{wait_clients-ok}
use c_axon.Sock.Sender.{
  SendResult, Meanwhile, send_or_drop, advance, send_round_robin, deliver_to, deliver, find_client,
  search_fuel,
}
use c_axon.Sock.Reader.{first_retry}
use c_axon.Sock.Sender.Pick.{picked, picked_range}
use c_axon.Sock.Sender.Search.{IsPolite, Outcome, find_client-Returns}
use c_axon.Sock.Sender.Broadcast.{Broadcasted, send_broadcast_reaches}
use c_axon.Sock.Sender.Quiet.{
  Quiet, Quiet-trans, HasBuffer, HasBuffer-Quiet, took, logged, send_buffer-ok, without,
  drop_socket-ok, clients_held,
}

-- The world after one socket was sent to.
abbrev pub sent_to : SendResult → Sender → Bytes → ℕ → World → World
sent_to result s bytes d w =
    if took result s (pos d)
    then logged (Event.sent (pos d) bytes) w
    else logged (Event.closed (pos d)) (without d (logged (Event.sent (pos d) bytes) w))

-- A send to one socket: the buffer goes out whole, and a socket that does not take it is closed and
-- is no client any more.
pub send_or_drop_lem :
    (result : SendResult) (s : Sender) (bytes : Bytes) (d n : ℕ) (w : World)
    → HasBuffer w s bytes
    → d < fd_setsize
    → w.sock.clients.sem ≡ suc n
    → send_or_drop result s (pos d) w ≡ ok tt (sent_to result s bytes d w)
unfolding send_or_drop
send_or_drop_lem result s bytes d n w h lt e =
    let w1 = logged (Event.sent (pos d) bytes) w in
    rw (send_buffer-ok result s bytes (pos d) w h) (elim (Bool-cases (took result s (pos d))) [
      | inl done ↦ rw done
      | inr failed ↦ rw (failed, wait_clients-ok n w1 e, drop_socket-ok d (clients_held n w1) lt, e)
    ])

sent_to-Quiet :
    (result : SendResult) (s : Sender) (bytes : Bytes) (d : ℕ) (w : World)
    → Quiet w (sent_to result s bytes d w)
sent_to-Quiet result s bytes d w = ground arith

-- The index goes up by one, modulo FD_SETSIZE.
pub advance_lem :
    (n : ℕ) (w : World)
    → w.sock.clients.sem ≡ suc n
    → advance w
      ≡ ok tt (record w {
        sock = record w.sock {
          clients = record w.sock.clients { index = (w.sock.clients.index + 1) % fd_setsize };
        };
      })
unfolding advance
advance_lem n w e = rw (wait_clients-ok n w e, e)

abbrev pub advanced : World → World
advanced w = record w {
  sock = record w.sock {
    clients = record w.sock.clients { index = (w.sock.clients.index + 1) % fd_setsize };
  };
}

-- The two ends of a round-robin send, `v` the world when the search is over: there is no client, or
-- the client that the index selects is sent to and the index goes up by one.
abbrev pub RoundRobin : SendResult → Sender → Bytes → World → World → Type 0
RoundRobin result s bytes w w' =
    (v : World) × Quiet w v
    × (((picked v.sock.clients.fds v.sock.clients.index ≡ negsuc 0) × (w' ≡ v))
        ⊎ ((d : ℕ) × (picked v.sock.clients.fds v.sock.clients.index ≡ pos d)
            × (d < fd_setsize)
            × (v.sock.clients.fds d ≡ true)
            × (w' ≡ advanced (sent_to result s bytes d v))))

-- Where the buffer is allocated and the semaphore of the clients is free, a round-robin send
-- returns, whatever the other threads do to the clients meanwhile, if they release the semaphore:
-- either there is no client when the search ends, and nothing is sent; or the client that the
-- index selects is sent the whole buffer, is closed and forgotten if it does not take it all, and
-- the index goes up by one modulo 1024.
pub send_round_robin-RoundRobin :
    (others : Meanwhile) (result : SendResult) (s : Sender) (bytes : Bytes) (n : ℕ) (w : World)
    → IsPolite others
    → HasBuffer w s bytes
    → w.sock.clients.sem ≡ suc n
    → Returns (λ _ w'. RoundRobin result s bytes w w') (send_round_robin others result s w)
unfolding send_round_robin
send_round_robin-RoundRobin others result s bytes n w polite h e =
    and_then-Returns (Outcome w) _ (find_client others search_fuel 0 first_retry 0 w) _
      (find_client-Returns others n w polite e)
      λ found v o. elim (picked_range v.sock.clients.fds v.sock.clients.index) [
        | inl alone ↦
            let gone : found ≡ none = rw alone at o.1 in rw gone (v, o.0, inl (alone, refl))
        | inr (d, hit, lt, set) ↦
            let chosen : found ≡ some (pos d) = rw hit at o.1 in
            let free : v.sock.clients.sem ≡ suc n = o.0.sem ∙ e in
            let sent = sent_to result s bytes d v in
            let free' : sent.sock.clients.sem ≡ suc n =
              (sent_to-Quiet result s bytes d v).sem ∙ free in
            rw
              (
                chosen,
                send_or_drop_lem result s bytes d n v (HasBuffer-Quiet w v s bytes o.0 h) lt free,
                advance_lem n sent free',
              )
              (v, o.0, inr (d, hit, lt, set, refl))
      ]

-- The destinations that axon asks for: the two markers, and a descriptor that a set can hold.
abbrev pub IsDestination : ℤ → Type 0
IsDestination socket =
    (socket ≡ sock_send_round_robin)
    ⊎ (socket ≡ sock_send_broadcast)
    ⊎ ((d : ℕ) × (socket ≡ pos d) × (d < fd_setsize))

advanced-Quiet : (w : World) → Quiet w (advanced w)
advanced-Quiet w = record { heap = refl; sock = refl; sem = refl; self = refl }

RoundRobin-Quiet :
    (result : SendResult) (s : Sender) (bytes : Bytes) (w w' : World)
    → RoundRobin result s bytes w w'
    → Quiet w w'
RoundRobin-Quiet result s bytes w w' (v, q, inl (alone, e)) = rw e q
RoundRobin-Quiet result s bytes w w' (v, q, inr (d, hit, lt, set, e)) =
    let sent = sent_to result s bytes d v in
    rw e (
      Quiet-trans w sent (advanced sent) (Quiet-trans w v sent q (sent_to-Quiet result s bytes d v))
        (advanced-Quiet sent))

deliver_to-Quiet :
    (others : Meanwhile) (result : SendResult) (s : Sender) (bytes : Bytes) (n : ℕ) (w : World)
    (socket : ℤ)
    → IsPolite others
    → HasBuffer w s bytes
    → w.sock.clients.sem ≡ suc n
    → IsDestination socket
    → Returns (λ _ w'. Quiet w w') (deliver_to others result s socket w)
unfolding deliver_to
deliver_to-Quiet others result s bytes n w socket polite h e (inl rr) = rw rr (
    Returns-mono (λ _ v. RoundRobin result s bytes w v) (λ _ v. Quiet w v) _
      (send_round_robin-RoundRobin others result s bytes n w polite h e)
      λ _ v. RoundRobin-Quiet result s bytes w v)
deliver_to-Quiet others result s bytes n w socket polite h e (inr (inl bc)) = rw bc (
    Returns-mono (λ _ v. Broadcasted result s bytes w v) (λ _ v. Quiet w v) _
      (send_broadcast_reaches result s bytes n w h e) λ _ v r. r.0)
deliver_to-Quiet others result s bytes n w socket polite h e (inr (inr (d, one, lt))) =
    rw (one, send_or_drop_lem result s bytes d n w h lt e) (sent_to-Quiet result s bytes d w)

-- Where the buffer is allocated and the semaphore of the clients is free, the delivery to one of
-- the two markers or to a descriptor below 1024 returns, whatever the peers answer and whatever
-- other threads do to the clients, if they release the semaphore; it leaves memory, chains and
-- callbacks alone.
pub deliver-Quiet :
    (others : Meanwhile) (result : SendResult) (s : Sender) (bytes : Bytes) (n : ℕ) (w : World)
    → IsPolite others
    → HasBuffer w s bytes
    → w.sock.clients.sem ≡ suc n
    → IsDestination s.socket
    → Returns (λ _ w'. Quiet w w') (deliver others result s w)
unfolding deliver
deliver-Quiet others result s bytes n w = deliver_to-Quiet others result s bytes n w s.socket
