-- ===== src/Service/Changes/Lifecycle/Proven.antt =====
-- No change is ready or merged unless its gate run was recorded as accepted.
use sextant.Common.{
  ◌==◌, Bool-cases, any, String, eq_iff, ◌≡◌, sym, ap, inl, inr, Bool, true, false, none, some,
  List, [], ◌∷◌, arith, ℕ_Testable, String_Testable,
}
use sextant.Common.{[], ◌∷◌, none, some, true, false, inl, inr}
use sextant.Change.{
  ChangeRequest, Status, draft, building, failed, ready, merged, abandoned, same_iff,
  can_transition, transitions,
}
use sextant.Service.Changes.World.{World, Ports, find_change}
use sextant.Service.Changes.Machine.{
  Step, create, advance, Runs, stay, more, find-save, IsStore, Runs-IsStore,
}
use sextant.Service.Changes.Ops.{
  Op, edges, run_op, run_ops, open_op, reconcile_op, edit_op, edit_file_op, begin_op, judge_op,
  finish_op, merge_op, abandon_op,
}
use sextant.Service.Changes.Refines.All.{run_op-Runs}

-- `finishSubmit` of a change that the gate and the builder accepted
abbrev pub accepts : {A : Type 0} → String → Op A → Bool
accepts id (finish_op k none) = k == id
accepts id op = false

-- Ready for the approval, or already merged.
abbrev pub is_proven : Status → Bool
is_proven ready = true
is_proven merged = true
is_proven s = false

unproven_kept :
    {A : Type 0} (k : String) (op : Op A) (from to : Status)
    → accepts k op ≡ false
    → is_proven from ≡ false
    → (edges op).moves k from to ≡ true
    → is_proven to ≡ false
unfolding edges can_transition transitions
unproven_kept k (finish_op id none) from to a p h = ground (arith, eq_iff id k, eq_iff k id)
unproven_kept k (finish_op id (some e)) from to a p h = ground (arith, same_iff to failed)
unproven_kept k (open_op id t x) from to a p h = absurd (cc)
unproven_kept k (edit_op id m g hs) from to a p h = ground (arith, same_iff to draft)
unproven_kept k (edit_file_op id m t g) from to a p h = ground (arith, same_iff to draft)
unproven_kept k (begin_op id) from to a p h = ground (arith, same_iff to building)
unproven_kept k (judge_op id d hs) from to a p h = absurd (cc)
unproven_kept k (merge_op id x) from to a p h = ground (arith, same_iff from ready)
unproven_kept k (abandon_op id) from to a p h = ground (arith, same_iff to abandoned)
unproven_kept k reconcile_op from to a p h = ground (arith, same_iff from ready)

-- The record of an id is neither ready nor merged, or there is none.
abbrev IsUnproven : String → List ChangeRequest → Type 0
IsUnproven k s = (d : ChangeRequest) → find_change k s ≡ some d → is_proven d.status ≡ false

Step-IsUnproven :
    {A : Type 0} (k : String) (op : Op A) {s t : List ChangeRequest}
    → Step (edges op) s t
    → accepts k op ≡ false
    → IsUnproven k s
    → IsUnproven k t
Step-IsUnproven k op {s} (create c m n i q) a h d f = elim (Bool-cases (c.id == k)) [
  | inl b ↦ ground (arith, i, rw (q, find-save c k s) at f, b)
  | inr b ↦ h d (ground (arith, rw (q, find-save c k s) at f, b))
]
Step-IsUnproven k op {s} (advance c c' g o m q) a h d f = elim (Bool-cases (c'.id == k)) [
  | inl b ↦
      let e : c' ≡ d = ground (arith, rw (q, find-save c' k s) at f, b) in
      let i : c'.id ≡ k = (eq_iff c'.id k).0 b in
      rw (ap (λ (x : ChangeRequest). x.status) (sym e))
        (unproven_kept k op c.status c'.status a (h c (cc (i, g))) (cc (i, m)))
  | inr b ↦ h d (ground (arith, rw (q, find-save c' k s) at f, b))
]

Runs-IsUnproven :
    {A : Type 0} (k : String) (op : Op A) {s t : List ChangeRequest}
    → Runs (edges op) s t
    → accepts k op ≡ false
    → IsUnproven k s
    → IsUnproven k t
Runs-IsUnproven k op stay a h = h
Runs-IsUnproven k op (more r st) a h = Step-IsUnproven k op st a (Runs-IsUnproven k op r a h)

module _ {A X : Type 0} (ports : Ports A X) where
  -- A change that is not ready and not merged, or not there yet, is neither of them after any sequence
  -- of operations on a store with one record per id in which no verdict without an error was recorded
  -- for it.
  pub run_ops-unproven :
      (id : String) (ops : List (Op A)) (w : World A X)
      → IsStore w.store
      → ((c : ChangeRequest) → find_change id w.store ≡ some c → is_proven c.status ≡ false)
      → any (accepts id) ops ≡ false
      → (d : ChangeRequest) → find_change id (run_ops ports ops w).store ≡ some d
      → is_proven d.status ≡ false
  unfolding run_ops
  run_ops-unproven id [] w h u n d f = u d f
  run_ops-unproven id (op ∷ ops) w h u n d f =
      let r = run_op-Runs ports op w h in
      run_ops-unproven id ops (run_op ports op w).1 (Runs-IsStore r h)
        (Runs-IsUnproven id op r (ground arith) u) (ground arith) d f
