-- ===== src/Service/Changes/Machine.antt =====
-- What the change service does to its store, as a machine: a change is created as a draft, or it
-- moves along an edge that the operation has. One record per id.
pub mod Laws
use sextant.Common.{
  if◌then◌else◌, ◌==◌, contains, Distinct, String, eq_iff, ◌≡◌, refl, Bool, true, false, none, some,
  List, [], ◌∷◌, arith, ℕ_Testable, String_Testable,
}
use sextant.Common.{true, false, none, some, [], ◌∷◌}
use sextant.Change.{ChangeRequest, Status, draft}
use sextant.Service.Changes.World.{find_change, save_change}

-- The changes that an operation may create, and the moves that it makes.
pub record Edges : Type 0 where
  pub creates : String → Bool
  pub moves : String → Status → Status → Bool

-- Who opened a change, when, and on which branch.
abbrev pub SameOrigin : ChangeRequest → ChangeRequest → Type 0
SameOrigin c d =
    (d.id ≡ c.id)
    × (d.author_subject ≡ c.author_subject)
    × (d.branch ≡ c.branch)
    × (d.created ≡ c.created)

pub data Step (e : Edges) (s t : List ChangeRequest) : Type 0 where
  create :
      (d : ChangeRequest)
      → e.creates d.id ≡ true
      → find_change d.id s ≡ none
      → d.status ≡ draft
      → t ≡ save_change d s
      → Step e s t
  advance :
      (c d : ChangeRequest)
      → find_change d.id s ≡ some c
      → SameOrigin c d
      → e.moves d.id c.status d.status ≡ true
      → t ≡ save_change d s
      → Step e s t

pub data Runs (e : Edges) (s : List ChangeRequest) : List ChangeRequest → Type 0 where
  stay : Runs e s s
  more : {t u : List ChangeRequest} → Runs e s t → Step e t u → Runs e s u

pub find-save :
    (d : ChangeRequest) (id : String) (s : List ChangeRequest)
    → find_change id (save_change d s) ≡ (if d.id == id then some d else find_change id s)
unfolding find_change save_change
find-save d id [] = refl
find-save d id (c ∷ s) =
    ground (arith, eq_iff c.id d.id, eq_iff c.id id, eq_iff d.id id, find-save d id s)

pub find-id :
    (id : String) (s : List ChangeRequest) (c : ChangeRequest)
    → find_change id s ≡ some c
    → c.id ≡ id
unfolding find_change
find-id id [] c h = absurd (cc)
find-id id (d ∷ s) c h = ground (arith, eq_iff d.id id, find-id id s c)

abbrev pub ids : List ChangeRequest → List String
ids [] = []
ids (c ∷ s) = c.id ∷ ids s

-- The store has one record per id.
abbrev pub IsStore : List ChangeRequest → Type 0
IsStore s = Distinct (ids s)

contains-ids-save :
    (d : ChangeRequest) (id : String) (s : List ChangeRequest)
    → contains (ids s) id ≡ false
    → (d.id == id) ≡ false
    → contains (ids (save_change d s)) id ≡ false
unfolding save_change
contains-ids-save d id [] h n = ground arith
contains-ids-save d id (c ∷ s) h n = ground (arith, eq_iff c.id d.id, contains-ids-save d id s)

pub save-IsStore :
    (d : ChangeRequest) (s : List ChangeRequest) → IsStore s → IsStore (save_change d s)
unfolding save_change
save-IsStore d [] h = ground arith
save-IsStore d (c ∷ s) h =
    ground (arith, eq_iff c.id d.id, eq_iff d.id c.id, save-IsStore d s, contains-ids-save d c.id s)

Step-IsStore : {e : Edges} {s t : List ChangeRequest} → Step e s t → IsStore s → IsStore t
Step-IsStore {e} {s} (create d _ _ _ q) h = rw q (save-IsStore d s h)
Step-IsStore {e} {s} (advance c d _ _ _ q) h = rw q (save-IsStore d s h)

pub Runs-IsStore : {e : Edges} {s t : List ChangeRequest} → Runs e s t → IsStore s → IsStore t
Runs-IsStore stay h = h
Runs-IsStore (more r st) h = Step-IsStore st (Runs-IsStore r h)

pub Runs-append : {e : Edges} {s t u : List ChangeRequest} → Runs e s t → Runs e t u → Runs e s u
Runs-append r stay = r
Runs-append r (more q st) = more (Runs-append r q) st
