-- ===== src/Service/Changes/Lifecycle.antt =====
-- What any sequence of operations makes of a stored change. The operations are interleaved as they
-- take the lock, so that between the two halves of a Submit any others may run.
pub mod Routes
pub mod Proven
use sextant.Common.{
  ◌==◌, any, String, eq_iff, ◌≡◌, refl, ◌⊎◌, Bool, false, some, List, [], ◌∷◌, arith, ℕ_Testable,
  String_Testable,
}
use sextant.Common.{[], ◌∷◌, none, some, true, false, inl, inr}
use sextant.Common.{[], ◌∷◌, none, some, true, false, inl, inr}
use sextant.Common.{true, false, none, some, [], ◌∷◌}
use sextant.Change.{
  ready, failed, draft, abandoned, same, merged, ChangeRequest, Status, building, same_iff,
  can_transition, transitions,
}
use sextant.Service.Changes.World.{World, Ports, find_change}
use sextant.Service.Changes.Machine.{IsStore, Runs-IsStore}
use sextant.Service.Changes.Machine.Laws.{Runs-unmoved}
use sextant.Service.Changes.Ops.{
  Op, edges, run_op, run_ops, open_op, reconcile_op, edit_op, edit_file_op, begin_op, judge_op,
  finish_op, merge_op, abandon_op,
}
use sextant.Service.Changes.Refines.All.{run_op-Runs}

-- `finishSubmit` of a change
abbrev pub finishes : {A : Type 0} → String → Op A → Bool
finishes id (finish_op k v) = k == id
finishes id op = false

building_kept :
    {A : Type 0} (id : String) (op : Op A)
    → finishes id op ≡ false
    → (to : Status) → (edges op).moves id building to ≡ false
unfolding edges can_transition transitions
building_kept id (finish_op k v) h to = ground (arith, eq_iff k id, eq_iff id k)
building_kept id (open_op k t a) h to = refl
building_kept id (edit_op k m g hs) h to = ground arith
building_kept id (edit_file_op k p t g) h to = ground arith
building_kept id (begin_op k) h to = ground (arith, same_iff to building)
building_kept id (judge_op k d hs) h to = refl
building_kept id (merge_op k a) h to = ground arith
building_kept id (abandon_op k) h to = ground arith
building_kept id reconcile_op h to = ground arith

settled_kept :
    {A : Type 0} (k : String) (op : Op A) (from to : Status)
    → (from ≡ merged) ⊎ (from ≡ abandoned)
    → (edges op).moves k from to ≡ false
unfolding edges can_transition transitions
settled_kept k (finish_op id v) from to h = ground arith
settled_kept k (open_op id t a) from to h = refl
settled_kept k (edit_op id m g hs) from to h = ground arith
settled_kept k (edit_file_op id p t g) from to h = ground arith
settled_kept k (begin_op id) from to h = ground arith
settled_kept k (judge_op id d hs) from to h = refl
settled_kept k (merge_op id a) from to h = ground arith
settled_kept k (abandon_op id) from to h = ground arith
settled_kept k reconcile_op from to h = ground arith

module _ {A X : Type 0} (ports : Ports A X) where
  -- While a change of a store with one record per id is building, no operation but the recording of
  -- its own verdict changes its record, in whatever order operations on this and on other changes run.
  pub run_ops-building :
      (id : String) (c : ChangeRequest) (ops : List (Op A)) (w : World A X)
      → IsStore w.store
      → c.status ≡ building
      → any (finishes id) ops ≡ false
      → find_change id w.store ≡ some c
      → find_change id (run_ops ports ops w).store ≡ some c
  unfolding run_ops
  run_ops-building id c [] w h b n f = f
  run_ops-building id c (op ∷ ops) w h b n f =
      let r = run_op-Runs ports op w h in
      run_ops-building id c ops (run_op ports op w).1 (Runs-IsStore r h) b (ground arith)
        (Runs-unmoved id c r (λ to. rw b (building_kept id op (ground arith) to)) f)

  -- A merged or an abandoned change of a store with one record per id keeps its record, whatever
  -- operations follow.
  pub run_ops-settled :
      (id : String) (c : ChangeRequest) (ops : List (Op A)) (w : World A X)
      → IsStore w.store
      → (c.status ≡ merged) ⊎ (c.status ≡ abandoned)
      → find_change id w.store ≡ some c
      → find_change id (run_ops ports ops w).store ≡ some c
  unfolding run_ops
  run_ops-settled id c [] w h m f = f
  run_ops-settled id c (op ∷ ops) w h m f =
      let r = run_op-Runs ports op w h in
      run_ops-settled id c ops (run_op ports op w).1 (Runs-IsStore r h) m
        (Runs-unmoved id c r (λ to. settled_kept id op c.status to m) f)
