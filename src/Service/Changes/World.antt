-- ===== src/Service/Changes/World.antt =====
-- internal/app/change.go: the state of the change service and its calls to the store and to git. The
-- stored changes, the branches with their commits, the linked worktrees with their fleet.json, and the
-- main branch with its working tree are the world; `X` is the rest. A call may fail, as `attempt`
-- says; git, the gate, the builder and the notifier are parameters. A commit hash is the list of the
-- commits behind it.
use sextant.Common.{
  if◌then◌else◌, ◌==◌, is_slug, Time, Map, lookup, insert, remove, has, String, Bool, not, Option,
  none, some, List, [], ◌∷◌, ℕ_Testable, String_Testable,
}
use sextant.Common.{Result, ok, err, none, some, [], ◌∷◌}
use sextant.Change.{
  ChangeRequest, Status, transition, Error, invalid_id, no_title, unknown_status, illegal_step,
}
use sextant.Fleet.Model.{Fleet}
use sextant.Service.Action.{
  failed, Action, Failure, ◌>>=◌, ◌>>◌, pure, gets, modify, or_raise, raise_if, lifted,
}
use sextant.Service.Config.Transaction.{Commit, RepoPorts}
use sextant.Service.Config.Verdicts.{VerdictCache}

-- A text as an error.
abbrev pub problem : String → Failure
problem text = failed text

-- `ports.Author`
pub record Author : Type 0 where
  pub name : String
  pub subject : String

pub data NoticeKind : Type 0 where
  gate_failed approval_needed change_merged : NoticeKind

-- `notify.Notification`, as the change flow fills it
pub record Notice : Type 0 where
  pub recipient : String
  pub audience : String
  pub kind : NoticeKind
  pub title : String
  pub body : String
  pub link : String

-- The console's working tree, or the worktree of a change.
pub data Dir : Type 0 where
  main_dir : Dir
  tree_dir : String → Dir

-- The calls that can fail.
pub data Call : Type 0 where
  get_change put_change list_changes read_head reset_main push_main reload_main : Call
  create_ref delete_ref push_ref delete_remote_ref diff_ref ask_merged : String → Call
  open_dir remove_dir : String → Call
  add_dir write_path commit_path merge_ref : String → String → Call
  read_fleet : Dir → Call

pub record World (A X : Type 0) : Type 0 where
  -- the configuration service's snapshot
  pub fleet : Fleet A
  -- the newest first, as `List` gives them
  pub store : List ChangeRequest
  -- the main branch, the newest commit first, and the fleet.json of its working tree
  pub main : List Commit
  pub file : String
  pub branches : Map (List Commit)
  -- the fleet.json of each worktree, by the change's id
  pub trees : Map String
  pub verdicts : Option VerdictCache
  pub outside : X

pub record Ports (A X : Type 0) : Type 0 where
  pub attempt : Call → X → Option Failure × X
  pub clock : X → Time × X
  -- the worktree of a change as a repository of the configuration service
  pub repo : RepoPorts A X
  -- `Gate` on a directory whose fleet.json is given, and `RefGate` where the gate is one
  pub validate : Dir → String → List String → X → Option Failure × X
  pub validate_ref : Option (Dir → String → String → List String → X → Option Failure × X)
  pub build : Dir → List String → X → Option Failure × X
  -- the branch that a merge makes of main and of a branch, with its message
  pub merged_with : String → List Commit → List Commit → List Commit
  -- whether main contains a branch
  pub contains_branch : List Commit → List Commit → Bool
  pub diff_text : List Commit → List Commit → String
  pub has_publisher : Bool
  pub has_remote : Bool
  pub emit : Option (Notice → X → X)
  pub after_merge : Option (ChangeRequest → X → X)
  pub approvers : List String
  -- `error.Error`, `ScrubCredentials`, `submitFailureBody`
  pub message : Failure → String
  pub scrub : String → String
  pub failure_body : String → String

abbrev pub answered : Option Failure → Result Failure (Unit {0})
answered none = ok tt
answered (some e) = err e

-- The errors of the change itself.
abbrev pub told : {B : Type 0} → Result Error B → Result Failure B
told (ok b) = ok b
told (err (invalid_id id)) = err (problem "invalid change id")
told (err no_title) = err (problem "a change needs a title")
told (err (unknown_status s)) = err (problem "unknown status")
told (err (illegal_step s t)) = err (problem "illegal transition")

-- The store: one record per id.
unfoldable pub find_change : String → List ChangeRequest → Option ChangeRequest
find_change id [] = none
find_change id (c ∷ cs) = if c.id == id then some c else find_change id cs

unfoldable pub save_change : ChangeRequest → List ChangeRequest → List ChangeRequest
save_change d [] = d ∷ []
save_change d (c ∷ cs) = if c.id == d.id then d ∷ cs else c ∷ save_change d cs

-- The fleet.json of a commit history.
unfoldable pub content_of : List Commit → String
content_of [] = ""
content_of (c ∷ cs) = c.content

abbrev pub or_empty : {B : Type 0} → Option (List B) → List B
or_empty none = []
or_empty (some l) = l

abbrev pub or_blank : Option String → String
or_blank none = ""
or_blank (some s) = s

module _ {A X : Type 0} where
  abbrev pub with_outside : X → World A X → World A X
  with_outside x w = record w { outside = x }

  abbrev pub ask : {B : Type 0} → (X → B × X) → Action (World A X) B
  ask port w = (ok (port w.outside).0, with_outside (port w.outside).1 w)

  -- A call whose error is a value.
  abbrev pub tried : {B : Type 0} → Action (World A X) B → Action (World A X) (Result Failure B)
  tried m w = (ok (m w).0, (m w).1)

  -- A call whose error is logged.
  abbrev pub best_effort : {B : Type 0} → Action (World A X) B → Action (World A X) (Unit {0})
  best_effort m w = (ok tt, (m w).1)

  -- The fleet.json of a directory.
  abbrev pub file_in : Dir → World A X → String
  file_in main_dir w = w.file
  file_in (tree_dir id) w = or_blank (lookup id w.trees)

  module _ (ports : Ports A X) where
    unfoldable pub call : Call → Action (World A X) (Unit {0})
    call c w =
        (answered (ports.attempt c w.outside).0, with_outside (ports.attempt c w.outside).1 w)

    -- `s.store.Put`
    unfoldable pub store_put : ChangeRequest → Action (World A X) (Unit {0})
    unfolding call
    store_put c = do call put_change; modify (λ w. record w { store = save_change c w.store })

    -- `mustGet`
    unfoldable pub must_get : String → Action (World A X) ChangeRequest
    unfolding call
    must_get id = do
      raise_if (not (is_slug id)) (problem "invalid change id")
      call get_change
      found ← gets (λ w. find_change id w.store)
      or_raise found (problem "unknown change")

    -- `cr.Transition`, at the clock's time
    unfoldable pub step_to : ChangeRequest → Status → Action (World A X) ChangeRequest
    step_to c to = do now ← ask ports.clock; lifted (told (transition c to now))

    -- `notify`
    unfoldable pub notify : Notice → Action (World A X) (Unit {0})
    notify n = elim ports.emit [
      | none ↦ pure tt
      | some emit ↦ modify (λ w. with_outside (emit n w.outside) w)
    ]

    -- `s.repo.CreateBranch`, off main's tip
    unfoldable pub create_branch : String → Action (World A X) (Unit {0})
    unfolding call
    create_branch b = do
      taken ← gets (λ w. has b w.branches)
      raise_if taken (problem "the branch exists")
      call (create_ref b)
      modify (λ w. record w { branches = insert b w.main w.branches })

    unfoldable pub delete_branch : String → Action (World A X) (Unit {0})
    unfolding call
    delete_branch b = do
      call (delete_ref b)
      modify (λ w. record w { branches = remove b w.branches })

    -- The commits of a branch that must exist.
    abbrev pub commits_of : String → Action (World A X) (List Commit)
    commits_of b = do
      found ← gets (λ w. lookup b w.branches)
      or_raise found (problem "unknown revision")

    -- `s.repo.Diff`
    unfoldable pub repo_diff : String → Action (World A X) String
    unfolding call
    repo_diff b = do
      call (diff_ref b)
      commits ← commits_of b
      gets (λ w. ports.diff_text w.main commits)

    -- `s.repo.BranchMerged`
    unfoldable pub branch_merged : String → Action (World A X) Bool
    unfolding call
    branch_merged b = do
      call (ask_merged b)
      commits ← commits_of b
      gets (λ w. ports.contains_branch w.main commits)
