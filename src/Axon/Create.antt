-- ===== src/Axon/Create.antt =====
-- axon_create, axon_bind, axon_connect, axon_is_connected, axon_on, axon_release, axon_bind_cb and
-- axon_error_cb of src/axon.c.
pub mod Attached
use c_axon.Base.{
  ℕ, zero, suc, Bool, Option, none, some, [], ℤ, pos, ◌==◌, ◌||◌, if◌then◌else◌, Bytes, codes,
  str_eq, blocked, pure, ◌>>=◌, ◌>>◌,
}
use c_axon.Sock.State.{Ptr, null, Sock}
use c_axon.Sock.Api
use c_axon.Sock.Api.{no_callback, register, set_callback}
use c_axon.Sock.Release
use c_axon.Axon.State.{
  AxonType, type_pub, type_sub, type_push, type_pull, type_req, type_rep, type_eq, Axon, AxonEvent,
  Ax, on_net, get_axon, put_axon, note,
}

-- The addresses of axon_bind_cb, axon_message_cb and axon_error_cb.
pub record Symbols : Type 0 where
  pub bind_cb : Ptr
  pub message_cb : Ptr
  pub error_cb : Ptr

unfoldable pub parse_type : Bytes → Option AxonType
parse_type type =
    if str_eq type (codes "pub")
    then some type_pub
    else if str_eq type (codes "sub")
    then some type_sub
    else if str_eq type (codes "push")
    then some type_push
    else if str_eq type (codes "pull")
    then some type_pull
    else if str_eq type (codes "req")
    then some type_req
    else if str_eq type (codes "rep")
    then some type_rep
    else none

-- The types that take messages in.
abbrev pub receives : AxonType → Bool
receives t = type_eq t type_sub || type_eq t type_pull || type_eq t type_req || type_eq t type_rep

abbrev pub new_axon : AxonType → Axon
new_axon t = record {
  type = t;
  msg_id = 0;
  subs = record { first = []; sem = 1 };
  cb = record { bind = no_callback; message = no_callback; error = no_callback };
}

-- The three calls of sock_on, in their order.
unfoldable pub attach : Symbols → Ptr → AxonType → Sock → Sock
attach f axon t s =
    let s1 = register (codes "bind") f.bind_cb axon s in
    let s2 = if receives t then register (codes "message") f.message_cb axon s1 else s1 in
    register (codes "error") f.error_cb axon s2

unfoldable pub finish_create : Symbols → Ptr → Option AxonType → Option Sock → Option (Axon × Sock)
finish_create f axon none sock = none
finish_create f axon (some t) none = none
finish_create f axon (some t) (some s) = some (new_axon t, attach f axon t s)

-- `fresh` and `fresh_sock` are what malloc returns for the axon and for the sock instance.
unfoldable pub create : Symbols → Bytes → Ptr → Ptr → Option (Axon × Sock)
unfolding parse_type finish_create
create f type fresh fresh_sock =
    if fresh == null then none else finish_create f fresh (parse_type type) (Api.create fresh_sock)

unfoldable pub bind : ℕ → Ptr → Option ℕ → Ax ℤ
bind port fresh thread = on_net (Api.bind port fresh thread)

unfoldable pub connect : Bytes → ℕ → Ptr → Ptr → Option ℕ → Ax ℤ
connect hostname port fresh copy thread = on_net (Api.connect hostname port fresh copy thread)

unfoldable pub is_connected : ℕ → Bytes → ℕ → Ax Bool
is_connected fuel hostname port = on_net (Api.is_connected fuel hostname port)

unfoldable pub on : Bytes → Ptr → Ptr → Ax ℤ
unfolding set_callback
on topic fct user = do
  x ← get_axon
  put_axon (record x { cb = set_callback topic (record { fct = fct; user = user }) x.cb })
  pure (pos 0)

-- Wait and post on the semaphore of the subscriptions.
unfoldable pub wait_subs : Ax (Unit {0})
wait_subs a = elim a.axon.subs.sem [
  | zero ↦ blocked
  | suc n ↦ put_axon (record a.axon { subs = record a.axon.subs { sem = n } }) a
]

unfoldable pub post_subs : Ax (Unit {0})
post_subs a = put_axon (record a.axon { subs = record a.axon.subs { sem = suc a.axon.subs.sem } }) a

-- sock_release, then the subscriptions one by one.
unfoldable pub release : ℕ → Ax (Unit {0})
unfolding wait_subs post_subs
release fuel = do
  on_net (Release.release fuel)
  wait_subs
  x ← get_axon
  put_axon (record x { subs = record x.subs { first = [] } })
  post_subs

unfoldable pub bind_cb : ℕ → Ax (Unit {0})
bind_cb port = do
  x ← get_axon
  if x.cb.bind.fct == null then pure tt else note (AxonEvent.bind_called x.cb.bind port)

unfoldable pub error_cb : Bytes → Ax (Unit {0})
error_cb err = do
  x ← get_axon
  if x.cb.error.fct == null then pure tt else note (AxonEvent.error_called x.cb.error err)
