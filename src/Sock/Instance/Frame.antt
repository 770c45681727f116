-- ===== src/Sock/Instance/Frame.antt =====
-- What stays true of the workers when an operation changes memory elsewhere.
use c_axon.Base.{◌+◌, ◌≤◌, ◌≡◌, refl, sym, ◌∙◌, ap, false, Option, none, some, List, count, arith}
use c_axon.Sock.State.{Ptr, Chain, Cell, worker, block}
use c_axon.Sock.Chain.Linked.{content}
use c_axon.Sock.Chain.Changed.{chain_eq}
use c_axon.Sock.Release.Freed.{Held, memory}
use c_axon.Sock.Instance.{alloc, Layout, put, tally}

pub tally-put :
    (p : Ptr) (c : Chain) (xs : List Held) (l : Layout)
    → tally p (put c xs l) + count p (memory (l c)) ≡ tally p l + count p (memory xs)
tally-put p Chain.listenners xs l = omega arith
tally-put p Chain.readers xs l = omega arith
tally-put p Chain.messengers xs l = omega arith
tally-put p Chain.senders xs l = omega arith

-- The memory of one chain is part of the whole.
pub count_le_tally : (p : Ptr) (c : Chain) (l : Layout) → count p (memory (l c)) ≤ tally p l
count_le_tally p Chain.listenners l = omega arith
count_le_tally p Chain.readers l = omega arith
count_le_tally p Chain.messengers l = omega arith
count_le_tally p Chain.senders l = omega arith

-- That of two is, too.
pub two_le_tally :
    (p : Ptr) (c d : Chain) (l : Layout)
    → chain_eq c d ≡ false
    → count p (memory (l c)) + count p (memory (l d)) ≤ tally p l
two_le_tally p Chain.listenners Chain.listenners l e = absurd (ground arith)
two_le_tally p Chain.listenners Chain.readers l e = omega arith
two_le_tally p Chain.listenners Chain.messengers l e = omega arith
two_le_tally p Chain.listenners Chain.senders l e = omega arith
two_le_tally p Chain.readers Chain.listenners l e = omega arith
two_le_tally p Chain.readers Chain.readers l e = absurd (ground arith)
two_le_tally p Chain.readers Chain.messengers l e = omega arith
two_le_tally p Chain.readers Chain.senders l e = omega arith
two_le_tally p Chain.messengers Chain.listenners l e = omega arith
two_le_tally p Chain.messengers Chain.readers l e = omega arith
two_le_tally p Chain.messengers Chain.messengers l e = absurd (ground arith)
two_le_tally p Chain.messengers Chain.senders l e = omega arith
two_le_tally p Chain.senders Chain.listenners l e = omega arith
two_le_tally p Chain.senders Chain.readers l e = omega arith
two_le_tally p Chain.senders Chain.messengers l e = omega arith
two_le_tally p Chain.senders Chain.senders l e = absurd (ground arith)

pub alloc_bound : (c : Option Cell) → alloc c ≤ 1
alloc_bound none = omega arith
alloc_bound (some c) = omega arith

alloc_content : (c : Option Cell) → alloc (content c) ≡ alloc c
alloc_content none = refl
alloc_content (some (worker k)) = refl
alloc_content (some (block b)) = refl

pub alloc-content : (c d : Option Cell) → content c ≡ content d → alloc c ≡ alloc d
alloc-content c d e = sym (alloc_content c) ∙ ap alloc e ∙ alloc_content d

pub none_of_alloc : (c : Option Cell) → alloc c ≡ 0 → c ≡ none
none_of_alloc none e = refl
none_of_alloc (some c) e = absurd (omega (arith, e))

pub some_of_alloc : (c : Option Cell) → alloc c ≡ 1 → (cell : Cell) × (c ≡ some cell)
some_of_alloc none e = absurd (omega (arith, e))
some_of_alloc (some c) e = (c, refl)
