-- ===== src/Service/Changes/Machine/Laws.antt =====
-- What a run of the machine on the store leaves alone.
use sextant.Common.{
  ◌==◌, Bool-cases, All, contains, String, eq_iff, ◌≡◌, inl, inr, true, false, some, List, [], ◌∷◌,
  arith, ℕ_Testable, String_Testable,
}
use sextant.Common.{true, false, some, [], ◌∷◌, inl, inr}
use sextant.Change.{ChangeRequest, Status}
use sextant.Service.Changes.World.{find_change}
use sextant.Service.Changes.Machine.{
  Edges, Step, create, advance, Runs, stay, more, find-save, ids, IsStore,
}

-- A record on which no edge leaves its status stays as it is.
Step-unmoved :
    {e : Edges} {s t : List ChangeRequest} (k : String) (c : ChangeRequest)
    → Step e s t
    → ((to : Status) → e.moves k c.status to ≡ false)
    → find_change k s ≡ some c
    → find_change k t ≡ some c
Step-unmoved {e} {s} k c (create d _ n _ q) h f =
    rw q (ground (arith, find-save d k s, eq_iff d.id k, f, n))
Step-unmoved {e} {s} k c (advance c' d f' _ m q) h f = elim (Bool-cases (d.id == k)) [
  | inl b ↦ absurd (ground (arith, (eq_iff d.id k).0 b, h d.status, f, f', m))
  | inr b ↦ rw q (ground (arith, find-save d k s, f, b))
]

pub Runs-unmoved :
    {e : Edges} {s t : List ChangeRequest} (k : String) (c : ChangeRequest)
    → Runs e s t
    → ((to : Status) → e.moves k c.status to ≡ false)
    → find_change k s ≡ some c
    → find_change k t ≡ some c
Runs-unmoved k c stay h f = f
Runs-unmoved k c (more r st) h f = Step-unmoved k c st h (Runs-unmoved k c r h f)

-- More edges allow more runs.
pub Runs-mono :
    {e g : Edges} {s t : List ChangeRequest}
    → ((k : String) → e.creates k ≡ true → g.creates k ≡ true)
    → ((k : String) (a b : Status) → e.moves k a b ≡ true → g.moves k a b ≡ true)
    → Runs e s t
    → Runs g s t
Runs-mono p q stay = stay
Runs-mono p q (more r (create d m n i z)) = more (Runs-mono p q r) (create d (p d.id m) n i z)
Runs-mono p q (more r (advance c d f o m z)) =
    more (Runs-mono p q r) (advance c d f o (q d.id c.status d.status m) z)

-- The records of a store are found by their ids.
abbrev pub AllFound : List ChangeRequest → List ChangeRequest → Type 0
AllFound s = All (λ c. find_change c.id s ≡ some c)

found-weaken :
    (c : ChangeRequest) (s l : List ChangeRequest)
    → contains (ids l) c.id ≡ false
    → AllFound s l
    → AllFound (c ∷ s) l
unfolding find_change
found-weaken c s [] n h = tt
found-weaken c s (d ∷ l) n h =
    (ground (arith, eq_iff c.id d.id, eq_iff d.id c.id, h.0), found-weaken c s l (ground arith) h.1)

pub IsStore-found : (s : List ChangeRequest) → IsStore s → AllFound s s
unfolding find_change
IsStore-found [] h = tt
IsStore-found (c ∷ s) h =
    (ground (arith, eq_iff c.id c.id), found-weaken c s s h.0 (IsStore-found s h.1))
