-- ===== src/Axon/Create/Attached.antt =====
-- What axon_create leaves: an instance of the type, and the callbacks of its sock.
use c_axon.Base.{◌≡◌, ◌≢◌, refl, Bool, true, false, some, [], if◌then◌else◌, Bytes, codes}
use c_axon.Base.Text.{str_eq}
use c_axon.Sock.State.{Ptr, null, Sock}
use c_axon.Sock.Machine.Steps.{not_null}
use c_axon.Sock.Api.{no_callback, register, new_sock, set_callback}
use c_axon.Sock.Api
use c_axon.Axon.State.{AxonType, type_pub, type_sub, type_push, type_pull, type_req, type_rep, Axon}
use c_axon.Axon.Create.{Symbols, parse_type, attach, finish_create, create}

-- The types by name, as README lists them: publishers and pushers only send.
abbrev pub name_of : AxonType → Bytes
name_of type_pub = codes "pub"
name_of type_sub = codes "sub"
name_of type_push = codes "push"
name_of type_pull = codes "pull"
name_of type_req = codes "req"
name_of type_rep = codes "rep"

abbrev pub listens : AxonType → Bool
listens type_pub = false
listens type_sub = true
listens type_push = false
listens type_pull = true
listens type_req = true
listens type_rep = true

-- The sock instance of an axon at this address: new, with these three callbacks.
abbrev pub Attached : Symbols → Ptr → AxonType → Sock → Type 0
Attached f axon t s = s ≡ record new_sock {
  cb = record {
    bind = record { fct = f.bind_cb; user = axon };
    message = if listens t then record { fct = f.message_cb; user = axon } else no_callback;
    error = record { fct = f.error_cb; user = axon };
  };
}

-- An instance of the type, with no request counted, no subscriptions, their semaphore free, and no
-- callbacks.
abbrev pub Blank : AxonType → Axon → Type 0
Blank t x = x ≡ record {
  type = t;
  msg_id = 0;
  subs = record { first = []; sem = 1 };
  cb = record { bind = no_callback; message = no_callback; error = no_callback };
}

-- With memory for both instances, axon_create of "pub", "sub", "push", "pull", "req" or "rep" returns
-- an instance of the type of that name without subscriptions and callbacks, and its sock calls it back
-- when it is bound, on errors, and, unless it is a publisher or a pusher, on messages.
pub create-Attached :
    (f : Symbols) (t : AxonType) (fresh fresh_sock : Ptr)
    → fresh ≢ null
    → fresh_sock ≢ null
    → (x : Axon) × (s : Sock) × (create f (name_of t) fresh fresh_sock ≡ some (x, s))
      × Blank t x
      × Attached f fresh t s
unfolding create finish_create attach register set_callback Api.create str_eq parse_type
create-Attached f type_pub fresh fresh_sock ne ne' =
    (_, _, rw (not_null fresh ne, not_null fresh_sock ne') refl, refl, refl)
create-Attached f type_sub fresh fresh_sock ne ne' =
    (_, _, rw (not_null fresh ne, not_null fresh_sock ne') refl, refl, refl)
create-Attached f type_push fresh fresh_sock ne ne' =
    (_, _, rw (not_null fresh ne, not_null fresh_sock ne') refl, refl, refl)
create-Attached f type_pull fresh fresh_sock ne ne' =
    (_, _, rw (not_null fresh ne, not_null fresh_sock ne') refl, refl, refl)
create-Attached f type_req fresh fresh_sock ne ne' =
    (_, _, rw (not_null fresh ne, not_null fresh_sock ne') refl, refl, refl)
create-Attached f type_rep fresh fresh_sock ne ne' =
    (_, _, rw (not_null fresh ne, not_null fresh_sock ne') refl, refl, refl)
