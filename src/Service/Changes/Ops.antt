-- ===== src/Service/Changes/Ops.antt =====
-- The operations of the change service, each between taking the lock and giving it back, and the
-- moves that each makes.
use sextant.Common.{
  ◌==◌, String, Bool, false, ◌&&◌, ◌||◌, Option, List, [], ◌∷◌, ℕ_Testable, String_Testable,
}
use sextant.Common.{Result, false, none, some, [], ◌∷◌}
use sextant.Change.{Status, draft, building, failed, ready, merged, abandoned, same, can_transition}
use sextant.Fleet.Model.{Fleet}
use sextant.Service.Action.{Action, Failure, ◌>>◌, pure}
use sextant.Service.Changes.World.{World, Ports, Author, Dir}
use sextant.Service.Changes.Draft.{open_change, edit, edit_file, abandon}
use sextant.Service.Changes.Submit.{begin_submit, judge, finish_submit}
use sextant.Service.Changes.Merge.{merge, reconcile}
use sextant.Service.Changes.Machine.{Edges}

-- `judge` is the part of Submit that runs without the lock.
pub data Op (A : Type 0) : Type 0 where
  open_op : String → String → Author → Op A
  edit_op : String → (Fleet A → Result Failure (Fleet A)) → String → List String → Op A
  edit_file_op : String → String → String → String → Op A
  begin_op : String → Op A
  judge_op : String → Dir → List String → Op A
  finish_op : String → Option Failure → Op A
  merge_op : String → Author → Op A
  abandon_op : String → Op A
  reconcile_op : Op A

abbrev pub no_one : String → Bool
no_one id = false

abbrev pub verdict_status : Option Failure → Status
verdict_status none = ready
verdict_status (some e) = failed

-- What an operation may do to the store.
unfoldable pub edges : {A : Type 0} → Op A → Edges
edges (open_op id title a) = record { creates = λ k. k == id; moves = λ k s t. false }
edges (edit_op id mut msg hosts) = record {
  creates = no_one;
  moves = λ k s t. k == id && same t draft && (same s draft || same s failed);
}
edges (edit_file_op id path content msg) = record {
  creates = no_one;
  moves = λ k s t. k == id && same t draft && (same s draft || same s failed);
}
edges (begin_op id) = record {
  creates = no_one;
  moves = λ k s t. k == id && same t building && can_transition s building;
}
edges (judge_op id dir hosts) = record { creates = no_one; moves = λ k s t. false }
edges (finish_op id verdict) = record {
  creates = no_one;
  moves = λ k s t. k == id && can_transition s t && same t (verdict_status verdict);
}
edges (merge_op id a) = record {
  creates = no_one;
  moves = λ k s t. k == id && same s ready && same t merged;
}
edges (abandon_op id) = record {
  creates = no_one;
  moves = λ k s t. k == id && same t abandoned && can_transition s abandoned;
}
edges reconcile_op = record { creates = no_one; moves = λ k s t. same s ready && same t merged }

-- The operation, whatever it returns.
unfoldable pub run_op : {A X : Type 0} → Ports A X → Op A → Action (World A X) (Unit {0})
run_op ports (open_op id title a) = do open_change ports id title a; pure tt
run_op ports (edit_op id mut msg hosts) = edit ports id mut msg hosts
run_op ports (edit_file_op id path content msg) = edit_file ports id path content msg
run_op ports (begin_op id) = do begin_submit ports id; pure tt
run_op ports (judge_op id dir hosts) = do judge ports id dir hosts; pure tt
run_op ports (finish_op id verdict) = do finish_submit ports id verdict; pure tt
run_op ports (merge_op id a) = do merge ports id a; pure tt
run_op ports (abandon_op id) = do abandon ports id; pure tt
run_op ports reconcile_op = reconcile ports

-- The operations in the order in which they take the lock.
unfoldable pub run_ops : {A X : Type 0} → Ports A X → List (Op A) → World A X → World A X
unfolding run_op
run_ops ports [] w = w
run_ops ports (op ∷ ops) w = run_ops ports ops (run_op ports op w).1
