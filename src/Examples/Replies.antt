-- ===== src/Examples/Replies.antt =====
-- What rep.c answers.
use c_axon.Base.{
  ◌≡◌, refl, ◌∙◌, ap, true, Option, some, List, [], ◌∷◌, ◌++◌, append_assoc, map, All, Bytes, codes,
  Returns, Returns-mono, and_then-Returns,
}
use c_axon.Axon.State.{AxonWorld, type_rep, type_eq, json, items, Msg, empty_msg}
use c_axon.Axon.Amp.{Amp, IsAmp}
use c_axon.Axon.Send.{reply}
use c_axon.Axon.Send.Params.{Param, kind, ptr, push_params}
use c_axon.Axon.Send.Built.{Arg, json_arg, arg_item, Built, push_params-Built}
use c_axon.Axon.Delivery.{SameButFields, empty-IsBuilt}
use c_axon.Examples.{Cjson, Process}
use c_axon.Examples.Printed.{printed, line, shown_all, IsPrintable, print_fields_lem}
use c_axon.Examples.Ends.{zoom-Returns}
use c_axon.Examples.Rep

-- axon_reply with one object, of a replier: a message with this field.
reply-Built :
    (amp : Amp) (tree : Bytes) (a : AxonWorld)
    → IsAmp amp
    → type_eq a.axon.type type_rep ≡ true
    → Returns
        (λ r b.
          (m : Msg) × (r ≡ some m)
          × (items m.fields ≡ arg_item (json_arg tree) ∷ [])
          × SameButFields a b)
        (reply amp true 1 (kind (some json) ∷ ptr (some tree) ∷ []) a)
unfolding reply
reply-Built amp tree a laws replier = rw replier (
    and_then-Returns
      (λ (r : Msg × List Param) b.
        Built empty_msg (map arg_item (json_arg tree ∷ [])) a r.0 b × (r.1 ≡ []))
      (λ (r : Option Msg) b.
        (m : Msg) × (r ≡ some m)
        × (items m.fields ≡ arg_item (json_arg tree) ∷ [])
        × SameButFields a b)
      (push_params amp 1 (kind (some json) ∷ ptr (some tree) ∷ []) empty_msg a) _
      (push_params-Built amp laws (json_arg tree ∷ []) [] empty_msg a (empty-IsBuilt amp laws a))
      λ r b (bt, left). (r.0, refl, bt.fields, bt.rest))

-- A request whose fields are those that the arguments of a send make, at a replier, with blobs of
-- their size, objects that cJSON can make and print, and memory for the reply: the callback of rep.c
-- prints a first line, one line for each field, and a last line, and its reply is a message with one
-- field, the object with `goodbye` as `world`.
pub callback-reply :
    (amp : Amp) (cj : Cjson) (m : Msg) (xs : List Arg) (tree : Bytes) (p : Process)
    → IsAmp amp
    → type_eq p.ax.axon.type type_rep ≡ true
    → items m.fields ≡ map arg_item xs
    → All (IsPrintable cj) xs
    → cj.object ((codes "goodbye", codes "world") ∷ []) ≡ some tree
    → Returns
        (λ r q.
          ((rep : Msg) × (r ≡ some rep) × (items rep.fields ≡ arg_item (json_arg tree) ∷ []))
          × SameButFields p.ax q.ax
          × (q.out
              ≡ p.out
                ++ (line (codes "rep server message received")
                    ++ shown_all cj xs
                    ++ line (codes "replying"))))
        (Rep.callback amp cj true m p)
unfolding Rep.callback
callback-reply amp cj m xs tree p laws replier same is made =
    let first = line (codes "rep server message received") in
    let last = line (codes "replying") in
    let q = printed last (printed (shown_all cj xs) (printed first p)) in
    rw (print_fields_lem cj m.fields xs (printed first p) same is, made)
      (zoom-Returns q _ (reply amp true 1 (kind (some json) ∷ ptr (some tree) ∷ []) p.ax)
        (reply amp true 1 (kind (some json) ∷ ptr (some tree) ∷ [])) refl
        (Returns-mono
          (λ (r : Option Msg) b.
            (rep : Msg) × (r ≡ some rep)
            × (items rep.fields ≡ arg_item (json_arg tree) ∷ [])
            × SameButFields p.ax b)
          _ _ (reply-Built amp tree p.ax laws replier)
          λ r b (rep, e, fields, rest). (
            (rep, e, fields),
            rest,
            ap (λ t. t ++ last) (append_assoc p.out first (shown_all cj xs))
                ∙ append_assoc p.out (first ++ shown_all cj xs) last,
          )))
