-- ===== src/Sock/Instance/Calls.antt =====
-- The functions of sock.h keep the instance sound.
use c_axon.Base.{
  ℕ, ◌≡◌, ◌≢◌, refl, sym, ◌∙◌, ap, subst, false, Option, none, some, List, [], ◌∷◌, ◌++◌, ◌==◌,
  Bytes, pos, negsuc, ok, Returns, Returns-mono, Bool-cases, inl, inr, eq_of_==, ne_of_==, ne→==,
}
use c_axon.Sock.State.{Ptr, null, listenner, reader, fresh_worker, Chain, worker, World}
use c_axon.Sock.Machine.Steps.{not_null, malloc-ok, free-ok}
use c_axon.Sock.Chain.Linked.{write-other, write-same}
use c_axon.Sock.Chain.Changed.{Changed}
use c_axon.Sock.Chain.Start.{started, write_worker, write-write}
use c_axon.Sock.Release.Freed.{Held, addrs}
use c_axon.Sock.Api.{bind, connect, new_listenner, new_reader}
use c_axon.Sock.Api.Started.{Started, bind-Started}
use c_axon.Sock.Api.Connect.{named, connect_fails, connect-append}
use c_axon.Sock.Messenger.Cells.{write-none}
use c_axon.Sock.Machine.{malloc}
use c_axon.Sock.Instance.{Layout, put, Sound, IsSound}
use c_axon.Sock.Instance.Grow.{grow}
use c_axon.Sock.Instance.Fresh.{unused_out, alone-Made, pair-Made}

-- sock_bind at unused memory keeps the instance sound, whether malloc and pthread_create work or not.
pub bind-IsSound :
    (port : ℕ) (fresh : Ptr) (thread : Option ℕ) (w : World)
    → IsSound w
    → w.heap fresh ≡ none
    → Returns (λ _ v. IsSound v) (bind port fresh thread w)
bind-IsSound port fresh thread w (l, so) unused =
    let role = listenner (new_listenner port) in
    Returns-mono (Started Chain.listenners role fresh thread (addrs (l Chain.listenners)) w)
      (λ _ v. IsSound v) _
      (bind-Started port fresh thread (addrs (l Chain.listenners)) 0 w (so.chain Chain.listenners)
        (so.sem Chain.listenners) unused (unused_out Chain.listenners l w fresh so unused))
      λ r v end. elim end [
        | inl (why, minus, same) ↦ (l, subst (Sound l) (sym same) so)
        | inr (t, some_thread, ne, zero_, ch) ↦
            let x : Held = record { addr = fresh; owns = [] } in
            let k = started (fresh_worker role) w.self t in
            (
              put Chain.listenners (l Chain.listenners ++ x ∷ []) l,
              grow Chain.listenners x l w (write_worker fresh k w) v so
                  (alone-Made Chain.listenners fresh k w unused ne refl refl tt) ch,
            )
      ]

-- The worker is allocated, the copy of the host name is not.
connect_no_copy :
    (hostname : Bytes) (port : ℕ) (fresh : Ptr) (thread : Option ℕ) (w : World)
    → fresh ≢ null
    → w.heap fresh ≡ none
    → connect hostname port fresh null thread w ≡ ok (negsuc 0) w
unfolding connect
connect_no_copy hostname port fresh thread w ne unused =
    let k0 = fresh_worker (reader (new_reader null 0)) in
    rw
      (
        malloc-ok fresh (worker k0) w ne,
        not_null fresh ne,
        free-ok fresh (worker k0) (write_worker fresh k0 w) ne
            (write-same w.heap fresh (some (worker k0))),
        write-write fresh none (some (worker k0)) w.heap,
      )
      (ap (λ h. ok (negsuc 0) (record w { heap = h })) (write-none w.heap fresh unused))

connect_no_worker :
    (hostname : Bytes) (port : ℕ) (fresh copy : Ptr) (thread : Option ℕ) (w : World)
    → fresh ≡ null
    → connect hostname port fresh copy thread w ≡ ok (negsuc 0) w
unfolding connect malloc
connect_no_worker hostname port fresh copy thread w e = rw e refl

module _ (hostname : Bytes) (port : ℕ) (fresh copy : Ptr) (w : World) (l : Layout) (so : Sound l w)
    (unused : w.heap fresh ≡ none) (unused' : w.heap copy ≡ none)
    (apart : (fresh == copy) ≡ false) where
  abbrev readers_of : List Ptr
  readers_of = addrs (l Chain.readers)

  connect_by_thread :
      (thread : Option ℕ)
      → fresh ≢ null
      → copy ≢ null
      → Returns (λ _ v. IsSound v) (connect hostname port fresh copy thread w)
  connect_by_thread none ne ne' =
      rw
        (connect_fails hostname port fresh copy readers_of 0 w (so.chain Chain.readers)
          (so.sem Chain.readers) unused unused' (unused_out Chain.readers l w fresh so unused)
          (unused_out Chain.readers l w copy so unused') apart ne ne')
        (l, so)
  connect_by_thread (some t) ne ne' =
      let x : Held = record { addr = fresh; owns = copy ∷ [] } in
      let k = started (fresh_worker (reader (new_reader copy port))) w.self t in
      let c_apart : (copy == fresh) ≡ false =
        ne→== copy fresh (λ e. ne_of_== fresh copy apart (sym e)) in
      Returns-mono
        (λ r v.
          (r ≡ pos 0)
          × Changed Chain.readers (fresh ∷ readers_of) (readers_of ++ fresh ∷ [])
              (write_worker fresh k (named copy hostname w)) v)
        (λ _ v. IsSound v) _
        (connect-append hostname port fresh copy readers_of 0 w (so.chain Chain.readers)
          (so.sem Chain.readers) unused unused' (unused_out Chain.readers l w fresh so unused)
          (unused_out Chain.readers l w copy so unused') apart t ne ne')
        λ r v (zero_, ch). (
          put Chain.readers (l Chain.readers ++ x ∷ []) l,
          grow Chain.readers x l w (write_worker fresh k (named copy hostname w)) v so
              (pair-Made Chain.readers fresh copy hostname k w unused unused' ne ne' apart refl refl
                (
                  hostname,
                  write-other (named copy hostname w).heap fresh copy _ c_apart
                      ∙ write-same w.heap copy _,
                ))
              ch,
        )

-- sock_connect at unused memory keeps the instance sound, whether malloc, strdup and pthread_create
-- work or not.
pub connect-IsSound :
    (hostname : Bytes) (port : ℕ) (fresh copy : Ptr) (thread : Option ℕ) (w : World)
    → IsSound w
    → w.heap fresh ≡ none
    → w.heap copy ≡ none
    → (fresh == copy) ≡ false
    → Returns (λ _ v. IsSound v) (connect hostname port fresh copy thread w)
connect-IsSound hostname port fresh copy thread w (l, so) unused unused' apart =
    elim (Bool-cases (fresh == null)) [
      | inl nothing ↦
          rw (connect_no_worker hostname port fresh copy thread w (eq_of_== fresh null nothing))
            (l, so)
      | inr made ↦
          let ne = ne_of_== fresh null made in
          elim (Bool-cases (copy == null)) [
            | inl no_copy ↦
                let e = eq_of_== copy null no_copy in
                rw (e, connect_no_copy hostname port fresh thread w ne unused) (l, so)
            | inr copied ↦
                connect_by_thread hostname port fresh copy w l so unused unused' apart thread ne
                  (ne_of_== copy null copied)
          ]
    ]
