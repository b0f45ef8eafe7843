-- ===== src/Service/Changes/Tree.antt =====
-- internal/app/change.go: what the operations share on worktrees, branches and the gate.
use sextant.Common.{
  if◌then◌else◌, ◌==◌, insert, remove, has, String, not, Option, none, some, List, ℕ_Testable,
  String_Testable,
}
use sextant.Common.{Result, ok, err, none, some}
use sextant.Change.{ChangeRequest}
use sextant.Service.Action.{Action, Failure, ◌>>=◌, ◌>>◌, pure, gets, modify, raise_if}
use sextant.Service.Config.Transaction.{sampled}
use sextant.Service.Changes.World.{
  World, Ports, Dir, call, problem, tried, best_effort, commits_of, content_of, file_in,
  delete_branch, open_dir, add_dir, remove_dir, delete_remote_ref, push_ref, read_fleet, ask,
}

module _ {A X : Type 0} (ports : Ports A X) where
  -- `publishBranch`
  unfoldable pub publish_branch : ChangeRequest → Action (World A X) (Unit {0})
  unfolding call
  publish_branch c =
      if ports.has_publisher then best_effort (call ports (push_ref c.branch)) else pure tt

  -- `gateRef` of a branch; the empty text is no ref
  unfoldable pub gate_ref : String → String
  gate_ref branch = elim ports.validate_ref [
    | none ↦ ""
    | some gate ↦ if ports.has_publisher then branch else ""
  ]

  -- `validate`
  unfoldable pub validate : Dir → String → List String → Action (World A X) (Option Failure)
  validate dir ref hosts w = elim ports.validate_ref [
    | none ↦ ask (ports.validate dir (file_in dir w) hosts) w
    | some gate ↦
        if ref == ""
        then ask (ports.validate dir (file_in dir w) hosts) w
        else ask (gate dir (file_in dir w) ref hosts) w
  ]

  -- The hosts that stand for the recorded ones in a fleet.json that was read.
  unfoldable pub scope_of : List String → Result Failure String → List String
  unfolding sampled
  scope_of recorded (err e) = recorded
  scope_of recorded (ok text) = elim (ports.repo.decode text) [
    | err e ↦ recorded
    | ok f ↦ sampled ports.repo f recorded
  ]

  -- `gateScope`
  unfoldable pub gate_scope : Dir → List String → Action (World A X) (List String)
  unfolding call scope_of
  gate_scope dir recorded = do
    text ← tried (do call ports (read_fleet dir); gets (file_in dir))
    pure (scope_of recorded text)

  -- `s.open`: the directory must be there
  unfoldable pub open_tree : String → Action (World A X) (Unit {0})
  unfolding call
  open_tree id = do
    here ← gets (λ w. has id w.trees)
    raise_if (not here) (problem "no repository")
    call ports (open_dir id)

  -- `s.repo.AddWorktree`: the branch's files are checked out
  unfoldable pub add_tree : String → String → Action (World A X) (Unit {0})
  unfolding call content_of
  add_tree id branch = do
    call ports (add_dir id branch)
    commits ← commits_of ports branch
    modify (λ w. record w { trees = insert id (content_of commits) w.trees })

  unfoldable pub reopen : ChangeRequest → Result Failure (Unit {0}) → Action (World A X) (Unit {0})
  unfolding open_tree add_tree
  reopen c (ok u) = pure tt
  reopen c (err e) = do add_tree c.id c.branch; open_tree c.id

  -- `ensureWorktree`
  unfoldable pub ensure_worktree : ChangeRequest → Action (World A X) (Unit {0})
  unfolding open_tree reopen
  ensure_worktree c = do opened ← tried (open_tree c.id); reopen c opened

  -- `s.repo.RemoveWorktree`
  unfoldable pub remove_tree : String → Action (World A X) (Unit {0})
  unfolding call
  remove_tree id = do
    call ports (remove_dir id)
    modify (λ w. record w { trees = remove id w.trees })

  -- `cleanup`
  unfoldable pub cleanup : ChangeRequest → Action (World A X) (Unit {0})
  unfolding remove_tree delete_branch call
  cleanup c = do
    here ← gets (λ w. has c.id w.trees)
    if here then best_effort (remove_tree c.id) else pure tt
    best_effort (delete_branch ports c.branch)
    if ports.has_publisher then best_effort (call ports (delete_remote_ref c.branch)) else pure tt
