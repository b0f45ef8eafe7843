-- ===== src/Service/Changes/Merge.antt =====
-- internal/app/change.go: Merge and Reconcile.
use sextant.Common.{
  if◌then◌else◌, ◌==◌, all, ◌<>◌, String, Bool, true, false, not, ◌&&◌, ◌||◌, Option, none, some,
  List, [], ◌∷◌, ℕ_Testable, String_Testable,
}
use sextant.Common.{[], ◌∷◌, none, some, true, false, ok, err}
use sextant.Common.{Result, ok, err, true, false, none, some, [], ◌∷◌}
use sextant.Change.{ChangeRequest, ready, merged, abandoned, same, gate_hosts}
use sextant.Fleet.Model.{Assurance}
use sextant.Common.{ok}
use sextant.Service.Action.{
  Action, Failure, ◌>>=◌, ◌>>◌, pure, gets, modify, raise, raise_if, lifted,
}
use sextant.Service.Config.Transaction.{Commit}
use sextant.Service.Changes.World.{
  World, Ports, Author, change_merged, main_dir, call, read_head, merge_ref, reset_main,
  reload_main, push_main, list_changes, commits_of, content_of, tried, problem, with_outside,
  store_put, must_get, step_to, notify, branch_merged,
}
use sextant.Service.Changes.Tree.{gate_ref, validate, gate_scope, cleanup}

abbrev pub merge_message : ChangeRequest → String
merge_message c = "merge change " <> c.id <> ": " <> c.title

abbrev pub needs_four_eyes : Option Assurance → Bool
needs_four_eyes none = false
needs_four_eyes (some rules) = rules.require_four_eyes

abbrev pub unidentified : Option Assurance → ChangeRequest → Author → Bool
unidentified rules c a = needs_four_eyes rules && (c.author_subject == "" || a.subject == "")

abbrev pub own_change : Option Assurance → ChangeRequest → Author → Bool
own_change rules c a = needs_four_eyes rules && c.author_subject == a.subject

module _ {A X : Type 0} (ports : Ports A X) where
  -- The four-eyes rule.
  unfoldable pub check_approver :
      Option Assurance → ChangeRequest → Author → Action (World A X) (Unit {0})
  check_approver rules c a = do
    raise_if (unidentified rules c a)
        (problem "four-eyes required: an identified author and a distinct approver")
    raise_if (own_change rules c a) (problem "four-eyes required: not by its author")

  -- Main is the merge of the branch, and its files are checked out.
  abbrev pub take_merge : ChangeRequest → List Commit → Action (World A X) (Unit {0})
  take_merge c commits w =
      let main = ports.merged_with (merge_message c) w.main commits in
      (ok tt, record w { main = main; file = content_of main })

  -- `s.repo.MergeNoFF`
  unfoldable pub merge_branch : ChangeRequest → Action (World A X) (Unit {0})
  unfolding call content_of
  merge_branch c = do
    call ports (merge_ref c.branch (merge_message c))
    commits ← commits_of ports c.branch
    take_merge c commits

  -- `s.repo.ResetHard`
  unfoldable pub reset_hard : List Commit → Action (World A X) (Unit {0})
  unfolding call content_of
  reset_hard pre = do
    call ports reset_main
    modify (λ w. record w { main = pre; file = content_of pre })

  -- `s.cfg.reload`
  unfoldable pub reload : Action (World A X) (Unit {0})
  unfolding call
  reload = do
    call ports reload_main
    text ← gets (λ w. w.file)
    f ← lifted (ports.repo.decode text)
    modify (λ w. record w { fleet = f })

  -- What follows the gate's answer on the merged result.
  unfoldable pub settle_merge :
      List Commit → ChangeRequest → Option Failure → Action (World A X) ChangeRequest
  unfolding reset_hard step_to store_put cleanup reload
  settle_merge pre c (some e) = do
    undone ← tried (reset_hard pre)
    raise (elim undone [
      | ok u ↦ problem "merged result failed the gate, merge rolled back"
      | err e' ↦ problem "merged result failed the gate AND rollback failed"
    ])
  settle_merge pre c none = do
    d ← step_to ports c merged
    store_put ports d
    cleanup ports d
    reload
    pure d

  -- What `Merge` does under the write lock.
  unfoldable pub land : ChangeRequest → Action (World A X) ChangeRequest
  unfolding call merge_branch gate_scope validate gate_ref settle_merge
  land c = do
    call ports read_head
    pre ← gets (λ w. w.main)
    merge_branch c
    hosts ← gate_scope ports main_dir (gate_hosts c)
    verdict ← validate ports main_dir (gate_ref ports c.branch) hosts
    settle_merge pre c verdict

  unfoldable pub notify_author : ChangeRequest → Author → Action (World A X) (Unit {0})
  unfolding notify
  notify_author c a =
      if c.author_subject == ""
      then pure tt
      else notify ports (record {
        recipient = c.author_subject;
        audience = "";
        kind = change_merged;
        title = "Merged: " <> c.title;
        body =
            a.name <> " approved and merged your change. It will roll out with the next release.";
        link = "/updates";
      })

  -- `afterMerge`
  unfoldable pub run_after_merge : ChangeRequest → Action (World A X) (Unit {0})
  run_after_merge c = elim ports.after_merge [
    | none ↦ pure tt
    | some f ↦ modify (λ w. with_outside (f c w.outside) w)
  ]

  -- `Merge`
  unfoldable pub merge : String → Author → Action (World A X) ChangeRequest
  unfolding must_get check_approver land call notify_author run_after_merge
  merge id a = do
    c ← must_get ports id
    raise_if (not (same c.status ready)) (problem "only ready changes merge")
    rules ← gets (λ w. w.fleet.assurance)
    check_approver rules c a
    d ← land c
    if ports.has_remote then call ports push_main else pure tt
    notify_author d a
    run_after_merge d
    pure d

  -- A ready change that git has an answer for.
  unfoldable pub repair : ChangeRequest → Result Failure Bool → Action (World A X) (Unit {0})
  unfolding step_to store_put cleanup
  repair c (err e) = pure tt
  repair c (ok false) = pure tt
  repair c (ok true) = do d ← step_to ports c merged; store_put ports d; cleanup ports d

  -- The leftovers of a settled change.
  unfoldable pub sweep : ChangeRequest → Result Failure Bool → Action (World A X) (Unit {0})
  unfolding cleanup
  sweep c (err e) = pure tt
  sweep c (ok found) = cleanup ports c

  -- A round of the loop of `Reconcile`.
  unfoldable pub reconcile_one : ChangeRequest → Action (World A X) (Unit {0})
  unfolding branch_merged repair sweep
  reconcile_one c =
      if same c.status abandoned || same c.status merged
      then (if c.branch == "" then pure tt else (tried (branch_merged ports c.branch) >>= sweep c))
      else (if same c.status ready
          then (tried (branch_merged ports c.branch) >>= repair c)
          else pure tt)

  unfoldable pub reconcile_each : List ChangeRequest → Action (World A X) (Unit {0})
  unfolding reconcile_one
  reconcile_each [] = pure tt
  reconcile_each (c ∷ cs) = do reconcile_one c; reconcile_each cs

  -- `Reconcile`
  unfoldable pub reconcile : Action (World A X) (Unit {0})
  unfolding call reconcile_each
  reconcile = do call ports list_changes; all ← gets (λ w. w.store); reconcile_each all
