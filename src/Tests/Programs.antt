-- ===== src/Tests/Programs.antt =====
-- Witnesses for the programs of examples/.
use c_axon.Base.{
  ℕ, ◌<◌, ◌≡◌, refl, arith, true, false, none, some, [], ◌∷◌, ◌++◌, ◌^◌, ◌-◌, suc, pos, codes, ok,
  Returns, List,
}
use c_axon.Axon.State.{type_rep, items, string, Msg}
use c_axon.Axon.Send.Decimal.{value, digits}
use c_axon.Axon.Send.Built.{blob_arg, string_arg, bigint_arg, json_arg, arg_item}
use c_axon.Axon.Delivery.{SameButFields}
use c_axon.Examples.{Cjson, Host, Second, Process, sigint}
use c_axon.Examples.Print.{show_int64, hex}
use c_axon.Examples.Printed.{
  printed, line, shown_all, callback-shown, low_bytes, show_int64-low_bytes,
}
use c_axon.Examples.Ends.{AllFreed}
use c_axon.Examples.Starts.{Works, main-AllFreed}
use c_axon.Examples.Replies.{callback-reply}
use c_axon.Examples.Pub
use c_axon.Examples.Sub
use c_axon.Examples.Pull
use c_axon.Examples.TopicsSub
use c_axon.Examples.Rep
use c_axon.Sock.Instance.Reached.{initial}
use c_axon.Tests.Codec.{codec, codec-IsAmp}
use c_axon.Tests.Axon.{axon_at}
use c_axon.Tests.Requests.{no_thread, symbols}

-- Objects are their texts.
abbrev texts : Cjson
texts = record { object = λ fields. some (codes "{}"); print = λ tree. some tree }

abbrev quiet : Process
quiet = record { ax = record (axon_at type_rep) { net = initial 1 }; out = []; terminate = false }

abbrev greetings : Msg
greetings = record {
  fields = record { addr = 40; type = string; value = some (codes "hi"); size = 2 } ∷ [];
  count = 1;
}

-- The four messages of pub.c, as they are printed.
pub_shown :
    shown_all texts
      (blob_arg (1 ∷ 2 ∷ 3 ∷ []) 3 ∷ string_arg (codes "hello") ∷ bigint_arg Pub.bint ∷ [])
    ≡ codes "<Buffer 01 02 03>"
      ++ (10 ∷ codes "hello")
      ++ (10 ∷ codes "123451234512345")
      ++ (10 ∷ [])
unfolding show_int64 hex digits
pub_shown = refl

callback-shown_example :
    (Sub.callback texts greetings quiet
      ≡ ok none (printed (line (codes "sub client message received") ++ line (codes "hi")) quiet))
    × (Pull.callback texts greetings quiet
        ≡ ok none
            (printed (line (codes "pull client message received") ++ line (codes "hi")) quiet))
    × (TopicsSub.callback texts (some (codes "news")) greetings quiet
        ≡ ok none (
            printed
              (line (codes "sub client message received from topic 'news'") ++ line (codes "hi"))
              quiet))
callback-shown_example =
    callback-shown texts greetings (string_arg (codes "hi") ∷ []) quiet refl (tt, tt) (codes "news")

show_int64-low_bytes_example :
    (value 0 (show_int64 (low_bytes 8 123451234512345)) ≡ 123451234512345)
    × (show_int64 (low_bytes 8 (2 ^ 64 - suc 123451234512345))
        ≡ b'-' ∷ digits 20 (suc 123451234512345))
    × (value 0 (digits 20 (suc 123451234512345)) ≡ suc 123451234512345)
show_int64-low_bytes_example = show_int64-low_bytes 123451234512345 (omega arith)

callback-reply_example :
    Returns
      (λ r q.
        ((rep : Msg) × (r ≡ some rep) × (items rep.fields ≡ arg_item (json_arg (codes "{}")) ∷ []))
        × SameButFields quiet.ax q.ax
        × (q.out
            ≡ []
              ++ (line (codes "rep server message received")
                  ++ line (codes "hi")
                  ++ line (codes "replying"))))
      (Rep.callback codec texts true greetings quiet)
callback-reply_example =
    callback-reply codec texts greetings (string_arg (codes "hi") ∷ []) (codes "{}") quiet
      codec-IsAmp refl refl (tt, tt) refl

abbrev host : Host
host = record {
  symbols = symbols;
  fresh = 100;
  fresh_sock = 101;
  worker = 102;
  copy = 103;
  thread = some 7;
  callback = 64;
  allocated = true;
}

-- A second without a signal, and one with SIGINT.
abbrev second : List ℕ → Second
second signals = record { sends = λ k. no_thread; meanwhile = λ a. a; signals = signals }

abbrev seconds : List Second
seconds = second [] ∷ second (sigint ∷ []) ∷ []

host-Works : Works host quiet
host-Works = record {
  axon = omega arith;
  sock = omega arith;
  worker = omega arith;
  copy = omega arith;
  apart = refl;
  number = 7;
  thread = refl;
  empty = λ a. refl;
}

main-AllFreed_example :
    (enough : ℕ) × ((fuel : ℕ)
      → enough < fuel
      → Returns
          (λ r q.
            (r ≡ pos 0) × AllFreed q.ax.net × (q.out ≡ [] ++ line (codes "sub client started")))
          (Sub.main host fuel seconds quiet))
main-AllFreed_example =
    main-AllFreed host seconds quiet host-Works ((λ a fit. fit), ((λ a fit. fit), tt)) refl
