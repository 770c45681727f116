-- ===== src/Axon/State.antt =====
-- The data of include/axon.h, and the members of the messages of the AMP library that the code
-- reads and writes.
use c_axon.Base.{
  ℕ, Bool, true, false, Option, List, [], ◌∷◌, Bytes, Cmd, ok, fault, ◌==◌, if◌then◌else◌, zoom,
}
use c_axon.Sock.State.{Ptr, Callback, Callbacks, World}

-- axon_enum_e.
pub data AxonType : Type 0 where
  type_pub type_sub type_push type_pull type_req type_rep : AxonType

abbrev pub type_eq : AxonType → AxonType → Bool
type_eq type_pub type_pub = true
type_eq type_sub type_sub = true
type_eq type_push type_push = true
type_eq type_pull type_pull = true
type_eq type_req type_req = true
type_eq type_rep type_rep = true
type_eq a b = false

-- axon_sub_t, without the link: the subscriptions are a list.
pub record Subscription : Type 0 where
  pub topic : Bytes
  pub fct : Ptr
  pub user : Ptr

pub record Subs : Type 0 where
  pub first : List Subscription
  pub sem : ℕ

-- axon_t.
pub record Axon : Type 0 where
  pub type : AxonType
  pub msg_id : ℕ
  pub subs : Subs
  pub cb : Callbacks

-- The types of a field that the code names.
pub data AmpType : Type 0 where
  blob string bigint json : AmpType

abbrev pub is_string : AmpType → Bool
is_string string = true
is_string t = false

-- A field of a message, at its address. `value` is what `data` points to, none for NULL.
pub record Field : Type 0 where
  pub addr : Ptr
  pub type : AmpType
  pub value : Option Bytes
  pub size : ℕ

-- A message: its fields from `first` to `last`, and its count.
pub record Msg : Type 0 where
  pub fields : List Field
  pub count : ℕ

-- A field before it is allocated.
pub record Item : Type 0 where
  pub type : AmpType
  pub value : Option Bytes
  pub size : ℕ

abbrev pub item_of : Field → Item
item_of f = record { type = f.type; value = f.value; size = f.size }

-- Calls of registered functions, and the system calls on message queues.
pub data AxonEvent : Type 0 where
  bind_called : Callback → ℕ → AxonEvent
  message_called : Callback → Msg → AxonEvent
  topic_called : Subscription → Option Bytes → Msg → AxonEvent
  error_called : Callback → Bytes → AxonEvent
  receive_until : ℕ → ℕ → AxonEvent

-- An axon instance on its sock, the fields that are allocated, the message queues by name, how many
-- descriptors of them the process has open, and the events so far, the latest first.
pub record AxonWorld : Type 0 where
  pub axon : Axon
  pub net : World
  pub live : Ptr → Bool
  pub next : Ptr
  pub queues : Bytes → Option (List Msg)
  pub mqs : ℕ
  pub log : List AxonEvent

abbrev pub Ax {ℓ} : Type ℓ → Type ℓ
Ax A = Cmd AxonWorld A

-- A call of the socket layer.
abbrev pub on_net {ℓ} : {A : Type ℓ} → Cmd World A → Ax A
on_net m = zoom (λ a. a.net) (λ n a. record a { net = n }) m

abbrev pub get_axon : Ax Axon
get_axon a = ok a.axon a

abbrev pub put_axon : Axon → Ax (Unit {0})
put_axon x a = ok tt (record a { axon = x })

abbrev pub note : AxonEvent → Ax (Unit {0})
note e a = ok tt (record a { log = e ∷ a.log })

-- free of a field and of its data: a fault if it is not allocated.
unfoldable pub free_field : Field → Ax (Unit {0})
free_field f a =
    if a.live f.addr
    then ok tt (record a { live = λ p. if p == f.addr then false else a.live p })
    else fault

-- amp_create: a message with no field.
abbrev pub empty_msg : Msg
empty_msg = record { fields = []; count = 0 }

abbrev pub items : List Field → List Item
items [] = []
items (f ∷ fs) = item_of f ∷ items fs
