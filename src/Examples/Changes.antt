-- ===== src/Examples/Changes.antt =====
-- Changes of a service whose gate accepts everything and whose calls succeed, but for the ones named.
use sextant.Common.{
  String, arith, if◌then◌else◌, is_empty, zero_time, ℕ, suc, ◌≡◌, refl, ◌⊎◌, inl, true, false,
  Option, none, some, List, [], ◌∷◌, ℕ_Testable, String_Testable,
}
use sextant.Common.{[], ◌∷◌, none, some, true, false, inl, refl}
use sextant.Change.{ChangeRequest, Status, draft, building, failed, ready, merged, branch_for}
use sextant.Examples.Fleets.{fleet}
use sextant.Examples.Writes.{repo_ports}
use sextant.Service.Action.{Failure}
use sextant.Common.{ok}
use sextant.Service.Changes.Draft.{opened}
use sextant.Change.{transition, can_transition, transitions, is_known, new}
use sextant.Service.Config.Transaction.{sampled}
use sextant.Service.Changes.Submit.{finish_submit, record_verdict, notify_failed}
use sextant.Service.Changes.Tree.{
  ensure_worktree, open_tree, reopen, add_tree, gate_scope, scope_of,
}
use sextant.Common.{is_slug, trim_space}
use sextant.Change.{gate_hosts}
use sextant.Service.Config.Shapes.{sample_hosts}
use sextant.Service.Changes.Submit.{judge, run_gate, build_after, notify_approvers}
use sextant.Service.Changes.Tree.{validate, gate_ref}
use sextant.Service.Changes.Opening.{CleansUp}
use sextant.Service.Changes.World.{
  repo_diff, must_get, call, step_to, store_put, notify, create_branch, save_change, World, Ports,
  Author, Dir, put_change, problem, find_change,
}
use sextant.Service.Changes.Machine.{Runs, SameOrigin}
use sextant.Service.Changes.Ops.{
  Op, open_op, begin_op, edit_file_op, finish_op, merge_op, abandon_op, reconcile_op, edges, run_op,
  run_ops,
}
use sextant.Service.Changes.Refines.All.{run_op-Runs}
use sextant.Service.Changes.Lifecycle.{run_ops-building, run_ops-settled}
use sextant.Service.Changes.Lifecycle.Routes.{Route, run_ops-IsLater}
use sextant.Service.Changes.Lifecycle.Proven.{is_proven, run_ops-unproven}
use sextant.Service.Changes.Merge.{merge}
use sextant.Service.Changes.Landing.Outcome.{merge-Settled}
use sextant.Service.Changes.Landing.Gate.{IsApproved, IsStuck}
use sextant.Service.Changes.Submit.{begin_submit, submit}
use sextant.Service.Changes.Verdict.{IsProved, submit-IsProved}
use sextant.Service.Changes.Draft.{open_change}
use sextant.Service.Changes.Opening.{open_change-CleansUp}

-- `put` is what the store answers to a write.
abbrev change_ports : Option Failure → Ports ℕ ℕ
change_ports put = record {
  attempt = λ c x. (elim c [ put_change ↦ put | _ ↦ none ], x);
  clock = λ x. (zero_time, suc x);
  repo = repo_ports none;
  validate = λ dir text hosts x. (none, x);
  validate_ref = none;
  build = λ dir hosts x. (none, x);
  merged_with = λ msg main commits. record { message = msg; content = "new" } ∷ main;
  contains_branch = λ main commits. true;
  diff_text = λ main commits. if is_empty commits then "" else "fleet.json";
  has_publisher = false;
  has_remote = false;
  emit = none;
  after_merge = none;
  approvers = [];
  message = λ e. "refused";
  scrub = λ s. s;
  failure_body = λ s. s;
}

abbrev with_status : Status → ChangeRequest
with_status s = record {
  id = "c-1";
  title = "mail";
  author = "ann";
  author_subject = "u-1";
  branch = "cr/c-1";
  status = s;
  error = "";
  created = zero_time;
  updated = zero_time;
  hosts = "pc-1" ∷ [];
  whole_fleet = false;
}

abbrev holding : ChangeRequest → World ℕ ℕ
holding c = record {
  fleet = fleet;
  store = c ∷ [];
  main = record { message = "first"; content = "old" } ∷ [];
  file = "old";
  branches = ("cr/c-1", record { message = "edit"; content = "new" } ∷ []) ∷ [];
  trees = ("c-1", "new") ∷ [];
  verdicts = none;
  outside = 0;
}

abbrev bob : Author
bob = record { name = "bob"; subject = "u-2" }

run_op-Runs_example :
    Runs
      (edges {A = ℕ} (begin_op "c-1"))
      (holding (with_status draft)).store
      (run_op (change_ports none) (begin_op "c-1") (holding (with_status draft))).1.store
run_op-Runs_example =
    run_op-Runs (change_ports none) (begin_op "c-1") (holding (with_status draft)) (refl, tt)

abbrev others : List (Op ℕ)
others =
    edit_file_op "c-1" "flake.lock" "x" "bump"
    ∷ abandon_op "c-1"
    ∷ begin_op "c-1"
    ∷ merge_op "c-1" bob
    ∷ open_op "c-2" "screen" bob
    ∷ reconcile_op
    ∷ []

run_ops-building_example :
    find_change "c-1" (run_ops (change_ports none) others (holding (with_status building))).store
    ≡ some (with_status building)
run_ops-building_example =
    run_ops-building (change_ports none) "c-1" (with_status building) others
      (holding (with_status building)) (refl, tt) refl refl (unfold find_change in refl)

run_ops-settled_example :
    find_change "c-1" (run_ops (change_ports none) others (holding (with_status merged))).store
    ≡ some (with_status merged)
run_ops-settled_example =
    run_ops-settled (change_ports none) "c-1" (with_status merged) others
      (holding (with_status merged)) (refl, tt) (inl refl) (unfold find_change in refl)

run_ops-IsLater_example :
    (d : ChangeRequest) × (find_change "c-1"
        (run_ops (change_ports none) others (holding (with_status draft))).store
      ≡ some d)
    × SameOrigin (with_status draft) d
    × Route draft d.status
run_ops-IsLater_example =
    run_ops-IsLater (change_ports none) "c-1" (with_status draft) others
      (holding (with_status draft)) (refl, tt) (unfold find_change in refl)

draft_unproven :
    (c : ChangeRequest)
    → find_change "c-1" (holding (with_status draft)).store ≡ some c
    → is_proven c.status ≡ false
unfolding find_change
draft_unproven c h = ground arith

abbrev opened_only : List (Op ℕ)
opened_only = open_op "c-1" "mail" bob ∷ begin_op "c-1" ∷ finish_op "c-1" (some (problem "no")) ∷ []

run_ops-unproven_example : is_proven failed ≡ false
run_ops-unproven_example =
    run_ops-unproven (change_ports none) "c-1" opened_only (holding (with_status draft)) (refl, tt)
      draft_unproven refl (record (with_status failed) { error = "refused" })
      (unfold run_ops run_op open_change opened begin_submit finish_submit must_get call
          ensure_worktree open_tree reopen add_tree step_to gate_scope scope_of store_put
          record_verdict notify_failed notify create_branch find_change save_change sampled
          transition can_transition transitions is_known new branch_for is_slug in
        refl)

merge-Settled_example :
    ((merge (change_ports none) "c-1" bob (holding (with_status ready))).1.main
      ≡ (holding (with_status ready)).main)
    ⊎ IsApproved
        (change_ports none)
        "c-1"
        bob
        (holding (with_status ready))
        (merge (change_ports none) "c-1" bob (holding (with_status ready))).1.main
    ⊎ IsStuck (change_ports none) "c-1" (holding (with_status ready))
merge-Settled_example = merge-Settled (change_ports none) "c-1" bob (holding (with_status ready))

submit-IsProved_example :
    (ready ≡ failed)
    ⊎ ((ready ≡ ready)
        × (dir : Dir) × (hosts : List String) × (v : World ℕ ℕ) × (begin_submit
              (change_ports none)
              "c-1"
              (holding (with_status draft))
            ≡ (ok (dir, hosts), v))
        × IsProved (change_ports none) "c-1" dir hosts v)
submit-IsProved_example =
    submit-IsProved (change_ports none) "c-1" (holding (with_status draft))
      (record (holding (with_status ready)) { outside = 2 }) (with_status ready)
      (unfold submit judge run_gate build_after repo_diff validate gate_ref begin_submit
          finish_submit must_get call ensure_worktree open_tree reopen add_tree step_to gate_scope
          scope_of store_put record_verdict notify_approvers notify find_change save_change sampled
          transition can_transition transitions is_known branch_for is_slug trim_space gate_hosts
          sample_hosts in
        refl)

-- The store refuses the record, and the branch is taken away again.
open_change-CleansUp_example :
    CleansUp (change_ports (some (problem "full"))) (holding (with_status draft)) (
      open_change
        (change_ports (some (problem "full")))
        "c-2"
        "screen"
        bob
        (holding (with_status draft)))
open_change-CleansUp_example =
    open_change-CleansUp (change_ports (some (problem "full"))) "c-2" "screen" bob
      (holding (with_status draft))
