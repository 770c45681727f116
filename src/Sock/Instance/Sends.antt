-- ===== src/Sock/Instance/Sends.antt =====
-- sock_send keeps the instance sound, with the caller that frees the buffer where it fails, as axon_send
-- of src/axon.c does.
use c_axon.Base.{
  ℕ, ◌≡◌, ◌≢◌, refl, sym, ◌∙◌, subst, false, Option, none, some, [], ◌∷◌, ◌++◌, ◌==◌, length, Bytes,
  ℤ, pos, int_eq, if◌then◌else◌, ◌>>=◌, pure, and_then-Returns, Returns, inl, inr, ne_of_==, ne→==,
}
use c_axon.Sock.State.{Ptr, null, sender, fresh_worker, Chain, block, World}
use c_axon.Sock.Machine.Steps.{free-ok}
use c_axon.Sock.Chain.Linked.{write-other, write-same, frame-IsChain}
use c_axon.Sock.Chain.Changed.{Changed}
use c_axon.Sock.Chain.Start.{started, write_worker, write-write}
use c_axon.Sock.Sender.Deliver.{IsDestination}
use c_axon.Sock.Release.Freed.{Held, addrs}
use c_axon.Sock.Api.{send, new_sender}
use c_axon.Sock.Api.Started.{Started, send-Started}
use c_axon.Sock.Api.Connect.{named}
use c_axon.Sock.Messenger.Cells.{write-none}
use c_axon.Sock.Machine.{Io, free}
use c_axon.Sock.Instance.{Layout, put, Sound, IsSound}
use c_axon.Sock.Instance.Grow.{grow}
use c_axon.Sock.Instance.Fresh.{unused_out, pair-Made}

-- sock_send, and the caller that frees the buffer where it fails.
abbrev pub send_or_free : Ptr → ℕ → ℤ → Ptr → Option ℕ → Io (Unit {0})
send_or_free buffer size socket fresh thread = do
  ret ← send buffer size socket fresh thread
  if int_eq ret (pos 0) then pure tt else free buffer

module _ (bytes : Bytes) (buffer : Ptr) (socket : ℤ) (fresh : Ptr) (thread : Option ℕ) (l : Layout)
    (w : World) (so : Sound l w) (unused : w.heap fresh ≡ none) (unused' : w.heap buffer ≡ none)
    (ne' : buffer ≢ null) (apart : (fresh == buffer) ≡ false) (dest : IsDestination socket) where
  -- The caller of a sock_send that failed frees the buffer.
  refused-IsSound : Returns (λ _ v. IsSound v) (free buffer (named buffer bytes w))
  refused-IsSound =
      rw
        (
          free-ok buffer (block bytes) (named buffer bytes w) ne'
              (write-same w.heap buffer (some (block bytes))),
          write-write buffer none (some (block bytes)) w.heap,
        )
        (
          l,
          subst (λ h. Sound l (record w { heap = h })) (sym (write-none w.heap buffer unused')) so,
        )

  -- A sender that started owns the buffer.
  sending-IsSound :
      (t : ℕ) (v : World)
      → fresh ≢ null
      → Changed Chain.senders
          (fresh ∷ addrs (l Chain.senders))
          (addrs (l Chain.senders) ++ fresh ∷ [])
          (write_worker fresh
            (started (fresh_worker (sender (new_sender socket buffer (length bytes)))) w.self t)
            (named buffer bytes w))
          v
      → IsSound v
  sending-IsSound t v ne ch =
      let x : Held = record { addr = fresh; owns = buffer ∷ [] } in
      let w1 = named buffer bytes w in
      let k = started (fresh_worker (sender (new_sender socket buffer (length bytes)))) w.self t in
      let b_apart : (buffer == fresh) ≡ false =
        ne→== buffer fresh (λ e. ne_of_== fresh buffer apart (sym e)) in
      (
        put Chain.senders (l Chain.senders ++ x ∷ []) l,
        grow Chain.senders x l w (write_worker fresh k w1) v so
            (pair-Made Chain.senders fresh buffer bytes k w unused unused' ne ne' apart refl refl (
              bytes,
              write-other w1.heap fresh buffer _ b_apart ∙ write-same w.heap buffer _,
              refl,
              dest,
            ))
            ch,
      )

-- sock_send at unused memory, of a buffer that the caller allocated, to one of the destinations that
-- axon asks for, keeps the instance sound: the sender owns the buffer when it starts, and the caller
-- frees it otherwise.
pub send-IsSound :
    (bytes : Bytes) (buffer : Ptr) (socket : ℤ) (fresh : Ptr) (thread : Option ℕ) (w : World)
    → IsSound w
    → w.heap fresh ≡ none
    → w.heap buffer ≡ none
    → buffer ≢ null
    → (fresh == buffer) ≡ false
    → IsDestination socket
    → Returns
        (λ _ v. IsSound v)
        (send_or_free buffer (length bytes) socket fresh thread (named buffer bytes w))
send-IsSound bytes buffer socket fresh thread w (l, so) unused unused' ne' apart dest =
    let role = sender (new_sender socket buffer (length bytes)) in
    let w1 = named buffer bytes w in
    let xs = addrs (l Chain.senders) in
    and_then-Returns (Started Chain.senders role fresh thread xs w1) (λ _ v. IsSound v)
      (send buffer (length bytes) socket fresh thread w1) _
      (send-Started buffer (length bytes) socket fresh thread xs 0 w1
        (frame-IsChain w.heap buffer (some (block bytes)) w.sock.senders xs
          (unused_out Chain.senders l w buffer so unused') (so.chain Chain.senders))
        (so.sem Chain.senders) (write-other w.heap buffer fresh (some (block bytes)) apart ∙ unused)
        (unused_out Chain.senders l w fresh so unused))
      λ r v end. elim end [
        | inl (why, minus, same) ↦
            rw (minus, same)
              (refused-IsSound bytes buffer socket fresh thread l w so unused unused' ne' apart
                dest)
        | inr (t, some_thread, ne, zero_, ch) ↦ rw zero_ (
            sending-IsSound bytes buffer socket fresh thread l w so unused unused' ne' apart dest t
              v ne ch)
      ]
