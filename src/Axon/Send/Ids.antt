-- ===== src/Axon/Send/Ids.antt =====
-- The ids of requests, and the queues that they name.
use c_axon.Base.{
  ℕ, ◌+◌, ◌*◌, ◌^◌, ◌<◌, ◌≤◌, ◌≡◌, refl, sym, ◌∙◌, ap, [], ◌∷◌, ◌++◌, arith, Bytes, length,
  length-append, take, take-all, append_cancel,
}
use c_axon.Axon.Send.{request_id, queue_name, deadline}
use c_axon.Axon.Send.Decimal.{decimal, value, decimal-value, decimal-length}

whole_id : ℕ → ℕ → Bytes
whole_id pid msg_id = decimal pid ++ b':' ∷ decimal msg_id

whole_id-length : (pid msg_id : ℕ) → length (whole_id pid msg_id) ≤ 21
unfolding whole_id
whole_id-length pid msg_id = omega (
  arith,
  length-append (decimal pid) (b':' ∷ decimal msg_id),
  decimal-length pid,
  decimal-length msg_id,
)

-- The limits of the two snprintf calls cut nothing off: the name of the queue is a slash, the
-- process id, a colon and the counter, both in decimal of at most ten digits.
pub request_id-whole :
    (pid msg_id : ℕ)
    → queue_name (request_id pid msg_id) ≡ b'/' ∷ decimal pid ++ b':' ∷ decimal msg_id
unfolding request_id queue_name whole_id
request_id-whole pid msg_id =
    ap (λ id. take 63 (b'/' ∷ id))
      (take-all 31 (whole_id pid msg_id) (omega (arith, whole_id-length pid msg_id)))
    ∙ take-all 63 (b'/' ∷ whole_id pid msg_id) (omega (arith, whole_id-length pid msg_id))

-- Two requests of one process whose 32-bit counters differ wait at queues of different names.
pub queue_name-injective :
    (pid i j : ℕ)
    → i < 2 ^ 32
    → j < 2 ^ 32
    → queue_name (request_id pid i) ≡ queue_name (request_id pid j)
    → i ≡ j
queue_name-injective pid i j hi hj e =
    let whole = sym (request_id-whole pid i) ∙ e ∙ request_id-whole pid j in
    let tails = append_cancel (b'/' ∷ decimal pid) (b':' ∷ decimal i) (b':' ∷ decimal j) whole in
    let same : decimal i ≡ decimal j = append_cancel (b':' ∷ []) (decimal i) (decimal j) tails in
    sym (decimal-value i (omega arith)) ∙ ap (value 0) same ∙ decimal-value j (omega arith)

-- The deadline of a response is now plus the timeout rounded down to whole seconds: it is not later
-- than the timeout and less than a second earlier, and its nanoseconds are those of now, so that a
-- timeout below a second is not waited for.
pub deadline_early :
    (sec nsec timeout : ℕ)
    → (sec * 1000 + timeout < (deadline (sec, nsec) timeout).0 * 1000 + 1000)
      × ((deadline (sec, nsec) timeout).0 * 1000 ≤ sec * 1000 + timeout)
      × ((deadline (sec, nsec) timeout).1 ≡ nsec)
unfolding deadline
deadline_early sec nsec timeout = (omega arith, omega arith, refl)
