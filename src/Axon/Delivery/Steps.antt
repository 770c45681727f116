-- ===== src/Axon/Delivery/Steps.antt =====
-- What a send of axon means for its sock instance: one step of the instance, or none.
use c_axon.Base.{
  ◌≡◌, sym, ap, subst, true, false, none, some, List, ◌∷◌, ◌++◌, inl, inr, suc, Bytes, length, map,
  arith, Returns, Returns-mono,
}
use c_axon.Sock.State.{Ptr}
use c_axon.Sock.Sender.Deliver.{IsDestination}
use c_axon.Sock.Instance.Reached.{Reach, later, Reach-IsSound}
use c_axon.Axon.State.{AxonType, type_req, type_eq, AxonWorld}
use c_axon.Axon.Amp.{Amp, IsAmp}
use c_axon.Axon.Send.{SendInput, Request, sends, destination, transmit, vsend}
use c_axon.Axon.Send.Built.{Arg, arg_type, arg_value, arg_item, spell_first, spell_all}
use c_axon.Axon.Delivery.{message, vsend-transmit}
use c_axon.Axon.Delivery.Sending.{AtMostOneStep, Spare, transmit-Step}

sends_to : (t : AxonType) → IsDestination (destination t)
sends_to t = ground arith

-- At a sock instance that is reached from sock_create, with memory for the buffer and the sender: the
-- last part of axon_vsend, for every request and whatever the queue, malloc, pthread_create and the
-- peer answer, returns, and the instance is still one that is reached.
transmit-Reach :
    (i : SendInput) (bytes : Bytes) (t : AxonType) (request : Request) (self : Ptr) (a : AxonWorld)
    → Reach self a.net
    → Spare i a.net
    → Returns (λ _ b. Reach self b.net) (transmit i bytes (destination t) request a)
transmit-Reach i bytes t request self a r room =
    Returns-mono (λ _ b. AtMostOneStep a.net b.net) (λ _ b. Reach self b.net) _
      (transmit-Step i bytes (destination t) (sends_to t) request a (Reach-IsSound r) room)
      λ _ b end. elim end [ inl same ↦ subst (Reach self) (sym same) r | inr st ↦ later r st ]

-- A publisher or a pusher whose sock instance is one that sock_create and the operations of
-- Sock/Instance lead to, with memory for the buffer and the sender, sends fields that the library can
-- encode, and amp_create does not fail: axon_vsend returns, whether malloc and pthread_create work for
-- the sender or not, and its sock instance is again one that these operations lead to. Nothing that it
-- allocated there is lost, then.
pub vsend-Reach :
    (amp : Amp) (i : SendInput) (x : Arg) (xs : List Arg) (bytes : Bytes) (self : Ptr)
    (a : AxonWorld)
    → IsAmp amp
    → i.created ≡ true
    → sends a.axon.type ≡ true
    → type_eq a.axon.type type_req ≡ false
    → amp.encode (message (map arg_item (x ∷ xs))) ≡ some bytes
    → Reach self a.net
    → Spare i a.net
    → Returns
        (λ _ b. Reach self b.net)
        (vsend amp i
          (suc (length xs))
          (some (arg_type x))
          (some (arg_value x))
          (spell_first x ++ spell_all xs)
          a)
vsend-Reach amp i x xs bytes self a laws made sending no_req enc r room =
    let (c, same, e) = vsend-transmit amp laws i x xs bytes a made sending no_req enc in
    let net : c.net ≡ a.net = ap (λ (b : AxonWorld). b.net) same.rest in
    rw e (
      transmit-Reach i bytes a.axon.type none self c (subst (Reach self) (sym net) r)
        (subst (Spare i) (sym net) room))
