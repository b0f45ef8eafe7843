-- ===== src/Service/Changes/Lifecycle/Routes.antt =====
-- The way of a change through its statuses, under any sequence of operations.
use sextant.Common.{
  ◌==◌, Bool-cases, String, eq_iff, ◌≡◌, refl, ◌∙◌, ◌⊎◌, inl, inr, true, ◌&&◌, ◌||◌, some, List, [],
  ◌∷◌, arith, ℕ_Testable, String_Testable,
}
use sextant.Common.{[], ◌∷◌, some, true, inl, inr}
use sextant.Common.{[], ◌∷◌, some, true, inl, inr}
use sextant.Change.{
  ChangeRequest, Status, draft, building, failed, ready, merged, abandoned, same, same_iff,
  can_transition, transitions,
}
use sextant.Service.Changes.World.{World, Ports, find_change}
use sextant.Service.Changes.Machine.{
  Step, create, advance, Runs, stay, more, SameOrigin, find-save, IsStore, Runs-IsStore,
}
use sextant.Service.Changes.Ops.{
  Op, edges, run_op, run_ops, open_op, reconcile_op, edit_op, edit_file_op, begin_op, judge_op,
  finish_op, merge_op, abandon_op,
}
use sextant.Service.Changes.Refines.All.{run_op-Runs}

-- The statuses on a way along legal transitions.
pub data Route (s : Status) : Status → Type 0 where
  here : Route s s
  onward : {t u : Status} → Route s t → can_transition t u ≡ true → Route s u

Route-append : {s t u : Status} → Route s t → Route t u → Route s u
Route-append r here = r
Route-append r (onward q e) = onward (Route-append r q) e

edited :
    (from to : Status)
    → (same to draft && (same from draft || same from failed)) ≡ true
    → (to ≡ from) ⊎ (can_transition from to ≡ true)
unfolding can_transition transitions
edited draft draft h = inl refl
edited failed draft h = inr refl
edited from to h = ground arith

-- Every move of an operation is a legal transition, or keeps the status.
moves_legal :
    {A : Type 0} (k : String) (op : Op A) (from to : Status)
    → (edges op).moves k from to ≡ true
    → (to ≡ from) ⊎ (can_transition from to ≡ true)
unfolding edges can_transition transitions
moves_legal k (finish_op id v) from to h = inr (ground arith)
moves_legal k (open_op id t a) from to h = absurd (cc)
moves_legal k (edit_op id m g hs) from to h = edited from to (ground arith)
moves_legal k (edit_file_op id p t g) from to h = edited from to (ground arith)
moves_legal k (begin_op id) from to h = inr (ground (arith, same_iff to building))
moves_legal k (judge_op id d hs) from to h = absurd (cc)
moves_legal k (merge_op id a) from to h =
    inr (ground (arith, same_iff to merged, same_iff from ready))
moves_legal k (abandon_op id) from to h = inr (ground (arith, same_iff to abandoned))
moves_legal k reconcile_op from to h = inr (ground (arith, same_iff to merged, same_iff from ready))

-- What became of the record `c`: it kept its origin, and its status moved along legal transitions.
abbrev pub IsLater : String → ChangeRequest → List ChangeRequest → Type 0
IsLater k c t =
    (d : ChangeRequest) × (find_change k t ≡ some d) × SameOrigin c d × Route c.status d.status

Step-IsLater :
    {A : Type 0} (op : Op A) {s t : List ChangeRequest} (k : String) (c : ChangeRequest)
    → Step (edges op) s t
    → find_change k s ≡ some c
    → IsLater k c t
Step-IsLater op {s} k c (create d _ n _ q) f =
    (c, rw q (ground (arith, find-save d k s, eq_iff d.id k, f, n)), (refl, refl, refl, refl), here)
Step-IsLater op {s} k c (advance c' d f' o m q) f = elim (Bool-cases (d.id == k)) [
  | inl b ↦
      let e : c' ≡ c = ground (arith, (eq_iff d.id k).0 b, f, f') in
      (
        d,
        rw q (ground (arith, find-save d k s, b)),
        rw e at o,
        legal (moves_legal d.id op c.status d.status (rw e at m)),
      )
  | inr b ↦ (c, rw q (ground (arith, find-save d k s, f, b)), (refl, refl, refl, refl), here)
]
  where
    legal :
        (d.status ≡ c.status) ⊎ (can_transition c.status d.status ≡ true) → Route c.status d.status
    legal (inl e) = rw e here
    legal (inr e) = onward here e

IsLater-trans :
    (k : String) (c : ChangeRequest) (t u : List ChangeRequest)
    → IsLater k c t
    → ((d : ChangeRequest) → find_change k t ≡ some d → IsLater k d u)
    → IsLater k c u
IsLater-trans k c t u (d, f, (o1, o2, o3, o4), r) h =
    let (e, g, (p1, p2, p3, p4), q) = h d f in
    (e, g, (p1 ∙ o1, p2 ∙ o2, p3 ∙ o3, p4 ∙ o4), Route-append r q)

Runs-IsLater :
    {A : Type 0} (op : Op A) {s t : List ChangeRequest} (k : String) (c : ChangeRequest)
    → Runs (edges op) s t
    → find_change k s ≡ some c
    → IsLater k c t
Runs-IsLater op k c stay f = (c, f, (refl, refl, refl, refl), here)
Runs-IsLater op k c (more r st) f =
    IsLater-trans k c _ _ (Runs-IsLater op k c r f) (λ d g. Step-IsLater op k d st g)

module _ {A X : Type 0} (ports : Ports A X) where
  -- No sequence of operations on a store with one record per id loses a change: its record stays, with
  -- its author, its branch and its time of creation, and its status moves along legal transitions only.
  pub run_ops-IsLater :
      (id : String) (c : ChangeRequest) (ops : List (Op A)) (w : World A X)
      → IsStore w.store
      → find_change id w.store ≡ some c
      → IsLater id c (run_ops ports ops w).store
  unfolding run_ops
  run_ops-IsLater id c [] w h f = (c, f, (refl, refl, refl, refl), here)
  run_ops-IsLater id c (op ∷ ops) w h f =
      let r = run_op-Runs ports op w h in
      IsLater-trans id c _ _ (Runs-IsLater op id c r f)
        (λ d g. run_ops-IsLater id d ops (run_op ports op w).1 (Runs-IsStore r h) g)
