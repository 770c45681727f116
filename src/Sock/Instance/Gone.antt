-- ===== src/Sock/Instance/Gone.antt =====
-- sock_release frees everything that a sound instance has allocated.
use c_axon.Base.{
  ℕ, ◌+◌, ◌<◌, ◌≡◌, ◌≢◌, refl, ◌∙◌, true, none, some, List, [], ◌∷◌, ◌++◌, length, All,
  once-Distinct, count, count-append, count-not-has, has, has-head, has-right, arith, Returns,
  Returns-mono, Bool-cases, inl, inr,
}
use c_axon.Sock.State.{Ptr, null, Chain, Cell, Heap, World}
use c_axon.Sock.Release.{release}
use c_axon.Sock.Release.Freed.{Held, memory, IsHeld, Live, Released}
use c_axon.Sock.Release.Whole.{Ready, all_memory, chains, release-Released}
use c_axon.Sock.Instance.{Item, Layout, tally, Sound}
use c_axon.Sock.Instance.Frame.{alloc_bound, none_of_alloc, count_le_tally}
use c_axon.Sock.Instance.Rebuild.{held_cell}
use c_axon.Sock.Instance.Find.{proper_of}

Items-held : (c : Chain) (h : Heap) (xs : List Held) → All (Item c h) xs → All (IsHeld c h) xs
Items-held c h [] its = tt
Items-held c h (x ∷ xs) its = (its.0.is_held, Items-held c h xs its.1)

all-Live :
    (h : Heap) (ps : List Ptr)
    → ((p : Ptr) → has p ps ≡ true → (p ≢ null) × ((cell : Cell) × (h p ≡ some cell)))
    → Live h ps
all-Live h [] f = tt
all-Live h (p ∷ ps) f =
    (f p (has-head p ps), all-Live h ps (λ a i. f a (has-right a (p ∷ []) ps i)))

module _ (fuel : ℕ) (l : Layout) (w : World) (so : Sound l w)
    (enough : (c : Chain) → length (l c) < fuel) where
  Sound-Ready : (c : Chain) → Ready fuel w c (l c)
  Sound-Ready c = record {
    first = (so.chain c).first;
    count = 0;
    sem = so.sem c;
    intact = record {
      linked = (so.chain c).linked;
      held = Items-held c w.heap (l c) (so.items c);
      distinct =
          once-Distinct (memory (l c))
            (λ a. omega (arith, count_le_tally a c l, so.balance a, alloc_bound (w.heap a)));
      live = all-Live w.heap (memory (l c)) λ p i.
          let (cell, at) = held_cell l w so c p i in (proper_of l w p cell so at, (cell, at));
    };
    enough = enough c;
  }

  abbrev whole : List Ptr
  whole =
      all_memory
        (chains (l Chain.listenners) (l Chain.readers) (l Chain.messengers) (l Chain.senders))

  count_whole : (p : Ptr) → count p whole ≡ tally p l
  count_whole p =
      let ss = memory (l Chain.senders) ++ [] in
      let ms = memory (l Chain.messengers) ++ ss in
      let rs = memory (l Chain.readers) ++ ms in
      let all : count p whole ≡ count p (memory (l Chain.listenners)) + count p rs =
        count-append p (memory (l Chain.listenners)) rs in
      omega (
        arith,
        all,
        count-append p (memory (l Chain.readers)) ms,
        count-append p (memory (l Chain.messengers)) ss,
        count-append p (memory (l Chain.senders)) [],
      )

  gone : (v : World) → Released whole w v → (p : Ptr) → v.heap p ≡ none
  gone v r p = elim (Bool-cases (has p whole)) [
    | inl i ↦ r.heap p ∙ rw i refl
    | inr out ↦
        r.heap p
        ∙ rw out (
            none_of_alloc (w.heap p)
              (omega (arith, so.balance p, count_whole p, count-not-has p whole out)))
  ]

  -- sock_release of a sound instance, with more fuel than workers in each chain, returns, and leaves
  -- no memory allocated.
  pub release-Gone : Returns (λ _ v. (p : Ptr) → v.heap p ≡ none) (release fuel w)
  release-Gone =
      Returns-mono (λ _ v. Released whole w v) (λ _ v. (p : Ptr) → v.heap p ≡ none) _
        (release-Released fuel (l Chain.listenners) (l Chain.readers) (l Chain.messengers)
          (l Chain.senders) w
          (once-Distinct whole
            (λ a. omega (arith, count_whole a, so.balance a, alloc_bound (w.heap a))))
          (
            Sound-Ready Chain.listenners,
            (
              Sound-Ready Chain.readers,
              (Sound-Ready Chain.messengers, (Sound-Ready Chain.senders, tt)),
            ),
          ))
        (λ _ v r. gone v r)
