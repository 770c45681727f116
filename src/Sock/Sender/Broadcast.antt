-- ===== src/Sock/Sender/Broadcast.antt =====
-- A broadcast reaches every client once: lines 786 to 795 of src/sock.c.
use c_axon.Base.{
  ℕ, zero, suc, ◌+◌, ◌≤◌, ◌<◌, ◌≡◌, refl, ◌∙◌, ap, ◌&&◌, List, [], ◌∷◌, arith, pos, Bytes, ok,
  Returns, Returns-mono, and_then-Returns, Bool-cases, eq_of_==, ne_of_==, ne→==, inl, inr, ◌⊎◌,
  if◌then◌else◌, ◌==◌,
}
use c_axon.Sock.State.{FdSet, fd_setsize, Sender, World, Event}
use c_axon.Sock.Machine.Steps.{wait_clients-ok}
use c_axon.Sock.Sender.{SendResult, broadcast_index, broadcast_scan, send_broadcast}
use c_axon.Sock.Sender.Quiet.{
  Quiet, Quiet-refl, Quiet-trans, HasBuffer, HasBuffer-Quiet, Quiet-release, took, logged,
  send_buffer-ok, without, drop_socket-ok,
}

-- The clients among `rest` descriptors from `index` on, in ascending order.
abbrev pub connected : FdSet → ℕ → ℕ → List ℕ
connected fds zero index = []
connected fds (suc rest) index =
    if fds index then index ∷ connected fds rest (index + 1) else connected fds rest (index + 1)

-- What the outside sees of a broadcast to these clients, the latest first: each gets the buffer, and
-- is closed if it did not take it.
abbrev pub reports : SendResult → Sender → Bytes → List ℕ → List Event → List Event
reports result s bytes [] log = log
reports result s bytes (d ∷ ds) log = reports result s bytes ds (
    if took result s (pos d)
    then Event.sent (pos d) bytes ∷ log
    else Event.closed (pos d) ∷ Event.sent (pos d) bytes ∷ log)

-- The world after one descriptor.
after : SendResult → Sender → Bytes → ℕ → World → World
after result s bytes d w =
    if w.sock.clients.fds d
    then (if took result s (pos d)
        then logged (Event.sent (pos d) bytes) w
        else logged (Event.closed (pos d)) (without d (logged (Event.sent (pos d) bytes) w)))
    else w

module _ (result : SendResult) (s : Sender) (bytes : Bytes) where
  broadcast_index-after :
      (d : ℕ) (w : World)
      → HasBuffer w s bytes
      → d < fd_setsize
      → broadcast_index result s d w ≡ ok tt (after result s bytes d w)
  unfolding broadcast_index after
  broadcast_index-after d w h lt = elim (Bool-cases (w.sock.clients.fds d)) [
    | inr away ↦ rw away
    | inl here ↦
        rw (here, send_buffer-ok result s bytes (pos d) w h)
          (elim (Bool-cases (took result s (pos d))) [
            | inl done ↦ rw done
            | inr failed ↦ rw (failed, drop_socket-ok d (logged (Event.sent (pos d) bytes) w) lt)
          ])
  ]

  after-Quiet : (d : ℕ) (w : World) → Quiet w (after result s bytes d w)
  unfolding after
  after-Quiet d w = ground arith

  after-fds :
      (d k : ℕ) (w : World)
      → (after result s bytes d w).sock.clients.fds k
        ≡ (if k == d then w.sock.clients.fds k && took result s (pos k) else w.sock.clients.fds k)
  unfolding after
  after-fds d k w = ground arith

  after_index :
      (d : ℕ) (w : World) → (after result s bytes d w).sock.clients.index ≡ w.sock.clients.index
  unfolding after
  after_index d w = ground arith

  after-log :
      (d : ℕ) (w : World)
      → (after result s bytes d w).log
        ≡ (if w.sock.clients.fds d then reports result s bytes (d ∷ []) w.log else w.log)
  unfolding after
  after-log d w = ground arith

  -- What a scan from `index` on does, seen from the set `fds` that the broadcast began with.
  record Scanned (fds : FdSet) (rest index : ℕ) (w w' : World) : Type 0 where
    quiet : Quiet w w'
    reached :
        (d : ℕ)
        → index ≤ d
        → d < index + rest
        → w'.sock.clients.fds d ≡ (fds d && took result s (pos d))
    others :
        (d : ℕ) → (d < index) ⊎ (index + rest ≤ d) → w'.sock.clients.fds d ≡ w.sock.clients.fds d
    index_kept : w'.sock.clients.index ≡ w.sock.clients.index
    events : w'.log ≡ reports result s bytes (connected fds rest index) w.log

  broadcast_scan-Scanned :
      (fds : FdSet) (rest index : ℕ) (w : World)
      → HasBuffer w s bytes
      → index + rest ≤ fd_setsize
      → ((d : ℕ) → index ≤ d → w.sock.clients.fds d ≡ fds d)
      → Returns (λ _ w'. Scanned fds rest index w w') (broadcast_scan result s rest index w)
  unfolding broadcast_scan
  broadcast_scan-Scanned fds zero index w h le same = record {
    quiet = Quiet-refl w;
    reached = λ d a b. absurd (omega arith);
    others = λ d o. refl;
    index_kept = refl;
    events = refl;
  }
  broadcast_scan-Scanned fds (suc rest) index w h le same =
      let w1 = after result s bytes index w in
      let quiet = after-Quiet index w in
      rw (broadcast_index-after index w h (omega arith)) (
        Returns-mono (λ _ v. Scanned fds rest (index + 1) w1 v)
          (λ _ v. Scanned fds (suc rest) index w v) _
          (broadcast_scan-Scanned fds rest (index + 1) w1 (HasBuffer-Quiet w w1 s bytes quiet h)
            (omega arith) (λ d lt. ground (arith, after-fds index d w, same d)))
          λ _ w' r. record {
            quiet = Quiet-trans w w1 w' quiet r.quiet;
            reached = λ d a b. elim (Bool-cases (d == index)) [
              | inl here ↦
                  r.others d (inl (omega (arith, eq_of_== d index here)))
                  ∙ after-fds index d w
                  ∙ rw here (ap (λ b. b && took result s (pos d)) (same d a))
              | inr later ↦ r.reached d (omega (arith, ne_of_== d index later)) (omega arith)
            ];
            others = λ d o.
                r.others d (omega arith) ∙ after-fds index d w ∙ rw (ne→== d index (omega arith));
            index_kept = r.index_kept ∙ after_index index w;
            events =
                r.events
                ∙ rw (after-log index w, same index (omega arith))
                    (elim (Bool-cases (fds index)) [ inl e ↦ rw e | inr e ↦ rw e ]);
          })

abbrev pub Broadcasted : SendResult → Sender → Bytes → World → World → Type 0
Broadcasted result s bytes w w' =
    Quiet w w'
    × ((d : ℕ)
        → d < fd_setsize
        → w'.sock.clients.fds d ≡ (w.sock.clients.fds d && took result s (pos d)))
    × (w'.sock.clients.index ≡ w.sock.clients.index)
    × (w'.log ≡ reports result s bytes (connected w.sock.clients.fds fd_setsize 0) w.log)

-- Where the buffer is allocated and the semaphore of the clients is free, a broadcast sends the
-- buffer once to every client, in the order of the descriptors, without regard to failures. A
-- client that does not take it all is closed and forgotten, and all others stay; the index, the
-- memory and the chains are as before, and the semaphore is free.
pub send_broadcast_reaches :
    (result : SendResult) (s : Sender) (bytes : Bytes) (n : ℕ) (w : World)
    → HasBuffer w s bytes
    → w.sock.clients.sem ≡ suc n
    → Returns (λ _ w'. Broadcasted result s bytes w w') (send_broadcast result s w)
unfolding send_broadcast
send_broadcast_reaches result s bytes n w h e =
    let w1 = record w { sock = record w.sock { clients = record w.sock.clients { sem = n } } } in
    let fds = w.sock.clients.fds in
    rw (wait_clients-ok n w e) (
      and_then-Returns (λ _ v. Scanned result s bytes fds fd_setsize 0 w1 v) _
        (broadcast_scan result s fd_setsize 0 w1) _
        (broadcast_scan-Scanned result s bytes fds fd_setsize 0 w1
          (record { proper = h.proper; holds = h.holds; size = h.size }) (omega arith)
          (λ d a. refl))
        λ _ w' r. (
          Quiet-release n w w' e r.quiet,
          λ d lt. r.reached d (omega arith) (omega arith),
          r.index_kept,
          r.events,
        ))
