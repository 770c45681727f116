-- ===== src/Sock/Release/Freed.antt =====
-- What sock_release frees, and how one worker is freed.
use c_axon.Base.{
  ℕ, zero, suc, ◌+◌, ◌≡◌, ◌≢◌, ◌∙◌, refl, true, false, none, some, List, [], ◌∷◌, ◌++◌, arith, has,
  has-append, has-head, has-right, All, Bool-cases, inl, inr, if◌then◌else◌, Returns, Returns-mono,
  and_then-Returns, pos,
}
use c_axon.Sock.State.{
  Ptr, null, Worker, Role, listenner, reader, messenger, sender, Chain, FdSet, fd_setsize, Cell,
  worker, Heap, World, Event,
}
use c_axon.Sock.Machine.{write, free}
use c_axon.Sock.Machine.Steps.{free-ok}
use c_axon.Sock.Release.{close_fds, release_role, fits}

-- A worker by its address and the memory that it owns.
pub record Held : Type 0 where
  pub addr : Ptr
  pub owns : List Ptr

-- The memory that a worker of this role owns.
abbrev pub owned : Role → List Ptr
owned (listenner l) = []
owned (reader r) = r.hostname ∷ []
owned (messenger m) = m.buffer ∷ []
owned (sender s) = s.buffer ∷ []

abbrev pub addrs : List Held → List Ptr
addrs [] = []
addrs (x ∷ xs) = x.addr ∷ addrs xs

-- All memory of the workers, in the order in which it is freed.
abbrev pub memory : List Held → List Ptr
memory [] = []
memory (x ∷ xs) = x.owns ++ x.addr ∷ memory xs

-- The worker of `x` lies in the memory `h`, is of the kind of the chain, and owns what `x` says.
pub record IsHeld (c : Chain) (h : Heap) (x : Held) : Type 0 where
  pub at : Worker
  pub holds : h x.addr ≡ some (worker at)
  pub owner : owned at.role ≡ x.owns
  pub fit : fits c at.role ≡ true

-- Every address is allocated.
abbrev pub Live : Heap → List Ptr → Type 0
Live h ps = All (λ p. (p ≢ null) × ((cell : Cell) × (h p ≡ some cell))) ps

-- From `w` to `w'` the memory at `ps` was freed, and of the rest only the log changed.
pub record Released (ps : List Ptr) (w w' : World) : Type 0 where
  pub heap : (p : Ptr) → w'.heap p ≡ (if has p ps then none else w.heap p)
  pub sock : w'.sock ≡ w.sock
  pub self : w'.self ≡ w.self

pub Released-trans :
    (ps qs : List Ptr) (u v w : World) → Released ps u v → Released qs v w → Released (ps ++ qs) u w
Released-trans ps qs u v w f g = record {
  heap = λ p. ground (arith, f.heap p, g.heap p, has-append p ps qs);
  sock = g.sock ∙ f.sock;
  self = g.self ∙ f.self;
}

pub Released-free :
    (p : Ptr) (cell : Cell) (w : World)
    → p ≢ null
    → w.heap p ≡ some cell
    → Returns (λ _ v. Released (p ∷ []) w v) (free p w)
unfolding write
Released-free p cell w ne e =
    rw (free-ok p cell w ne e) (record { heap = λ a. ground arith; sock = refl; self = refl })

-- Closing descriptors only logs.
close_fds-Released :
    (rest index : ℕ) (fds : FdSet) (w : World)
    → Returns (λ _ v. Released [] w v) (close_fds rest index fds w)
unfolding close_fds
close_fds-Released zero index fds w = record { heap = λ p. refl; sock = refl; self = refl }
close_fds-Released (suc rest) index fds w = elim (Bool-cases (fds index)) [
  | inl is_open ↦ rw is_open (
      Returns-mono (λ _ v. Released [] (record w { log = Event.closed (pos index) ∷ w.log }) v)
        (λ _ v. Released [] w v) _
        (close_fds-Released rest (index + 1) fds
          (record w { log = Event.closed (pos index) ∷ w.log }))
        λ _ v r. record { heap = r.heap; sock = r.sock; self = r.self })
  | inr shut ↦ rw shut (close_fds-Released rest (index + 1) fds w)
]

pub release_role-Released :
    (r : Role) (w : World)
    → Live w.heap (owned r)
    → Returns (λ _ v. Released (owned r) w v) (release_role r w)
unfolding release_role
release_role-Released (listenner l) w live = close_fds-Released fd_setsize 0 l.fds w
release_role-Released (reader r) w live =
    and_then-Returns (λ _ v. Released [] w v) (λ _ v. Released (r.hostname ∷ []) w v)
      (close_fds fd_setsize 0 r.fds w) _ (close_fds-Released fd_setsize 0 r.fds w)
      λ _ v closed.
        Returns-mono (λ _ u. Released (r.hostname ∷ []) v u) (λ _ u. Released (r.hostname ∷ []) w u)
          _ (Released-free r.hostname live.0.1.0 v live.0.0 (closed.heap r.hostname ∙ live.0.1.1))
          λ _ u. Released-trans [] (r.hostname ∷ []) w v u closed
release_role-Released (messenger m) w live = Released-free m.buffer live.0.1.0 w live.0.0 live.0.1.1
release_role-Released (sender s) w live = Released-free s.buffer live.0.1.0 w live.0.0 live.0.1.1

-- Memory apart from what was freed is still allocated.
pub Live-Released :
    (ps qs : List Ptr) (w v : World)
    → ((p : Ptr) → has p qs ≡ true → has p ps ≡ false)
    → Released ps w v
    → Live w.heap qs
    → Live v.heap qs
Live-Released ps [] w v apart r live = tt
Live-Released ps (q ∷ qs) w v apart r live = (
  (live.0.0, (live.0.1.0, r.heap q ∙ rw (apart q (has-head q qs)) live.0.1.1)),
  Live-Released ps qs w v (λ p h. apart p (has-right p (q ∷ []) qs h)) r live.1,
)
