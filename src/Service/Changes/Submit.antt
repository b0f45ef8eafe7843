-- ===== src/Service/Changes/Submit.antt =====
-- internal/app/change.go: Submit. The lock is held in `begin_submit` and in `finish_submit`, and not
-- between them.
use sextant.Common.{
  if◌then◌else◌, ◌==◌, is_empty, ◌<>◌, is_blank, String, Bool, false, Option, none, some, List, [],
  ◌∷◌, ℕ_Testable, String_Testable,
}
use sextant.Common.{Result, ok, err, false, none, some, [], ◌∷◌}
use sextant.Change.{ChangeRequest, building, ready, failed, branch_for, gate_hosts}
use sextant.Service.Action.{Action, Failure, ◌>>=◌, ◌>>◌, pure}
use sextant.Service.Changes.World.{
  World, Ports, gate_failed, approval_needed, Dir, tree_dir, tried, problem, store_put, must_get,
  step_to, notify, repo_diff, ask,
}
use sextant.Service.Changes.Tree.{gate_ref, validate, gate_scope, ensure_worktree}

-- `errNothingToValidate`
abbrev pub nothing_to_validate : Failure
nothing_to_validate = problem "this change carries no commits, so there is nothing to validate"

module _ {A X : Type 0} (ports : Ports A X) where
  -- `beginSubmit`
  unfoldable pub begin_submit : String → Action (World A X) (Dir × List String)
  unfolding must_get ensure_worktree step_to store_put gate_scope
  begin_submit id = do
    c ← must_get ports id
    ensure_worktree ports c
    d ← step_to ports c building
    store_put ports d
    hosts ← gate_scope ports (tree_dir c.id) (gate_hosts d)
    pure (tree_dir c.id, hosts)

  unfoldable pub notify_failed : ChangeRequest → Action (World A X) (Unit {0})
  unfolding notify
  notify_failed c =
      if c.author_subject == ""
      then pure tt
      else notify ports (record {
        recipient = c.author_subject;
        audience = "";
        kind = gate_failed;
        title = "Build failed: " <> c.title;
        body = ports.failure_body c.error;
        link = "/pipeline";
      })

  unfoldable pub notify_approvers : ChangeRequest → List String → Action (World A X) (Unit {0})
  unfolding notify
  notify_approvers c [] = pure tt
  notify_approvers c (g ∷ gs) = do
    notify ports (record {
      recipient = "";
      audience = g;
      kind = approval_needed;
      title = "Review needed: " <> c.title;
      body = c.author <> " submitted a change that passed the gate and awaits approval.";
      link = "/pipeline";
    })
    notify_approvers c gs

  -- The verdict on the change.
  unfoldable pub record_verdict : ChangeRequest → Option Failure → Action (World A X) ChangeRequest
  unfolding step_to notify_failed notify_approvers
  record_verdict c (some e) = do
    d ← step_to ports (record c { error = ports.scrub (ports.message e) }) failed
    notify_failed d
    pure d
  record_verdict c none = do
    d ← step_to ports (record c { error = "" }) ready
    notify_approvers d ports.approvers
    pure d

  -- `finishSubmit`
  unfoldable pub finish_submit : String → Option Failure → Action (World A X) ChangeRequest
  unfolding must_get record_verdict store_put
  finish_submit id gate_err = do
    c ← must_get ports id
    d ← record_verdict c gate_err
    store_put ports d
    pure d

  -- The builder runs after the gate accepted, and needs concrete hosts.
  unfoldable pub build_after :
      Dir → List String → Option Failure → Action (World A X) (Option Failure)
  build_after dir hosts (some e) = pure (some e)
  build_after dir hosts none = if is_empty hosts then pure none else ask (ports.build dir hosts)

  abbrev pub is_nothing : Result Failure String → Bool
  is_nothing (ok text) = is_blank text
  is_nothing (err e) = false

  -- The gate and the builder, where the branch has something to validate.
  unfoldable pub run_gate : String → Dir → List String → Action (World A X) (Option Failure)
  unfolding validate gate_ref build_after
  run_gate id dir hosts = do
    verdict ← validate ports dir (gate_ref ports (branch_for id)) hosts
    build_after dir hosts verdict

  -- What the gate and the builder say, without the lock.
  unfoldable pub judge : String → Dir → List String → Action (World A X) (Option Failure)
  unfolding repo_diff run_gate
  judge id dir hosts = do
    text ← tried (repo_diff ports (branch_for id))
    if is_nothing text then pure (some nothing_to_validate) else run_gate id dir hosts

  -- `Submit`
  unfoldable pub submit : String → Action (World A X) ChangeRequest
  unfolding begin_submit judge finish_submit
  submit id = do
    (dir, hosts) ← begin_submit id
    gate_err ← judge id dir hosts
    finish_submit id gate_err
