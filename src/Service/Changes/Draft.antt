-- ===== src/Service/Changes/Draft.antt =====
-- internal/app/change.go: Open, Get, Edit, EditFile, Diff and Abandon.
use sextant.Common.{
  if◌then◌else◌, ◌==◌, is_slug, lookup, insert, String, Bool, true, false, not, ◌||◌, Option, none,
  some, List, [], ◌∷◌, ℕ_Testable, String_Testable,
}
use sextant.Common.{Result, ok, err, true, false, none, some, [], ◌∷◌}
use sextant.Change.{
  ChangeRequest, Status, draft, failed, abandoned, same, is_open, new, record_hosts,
}
use sextant.Fleet.Model.{Fleet}
use sextant.Service.Action.{
  Action, Failure, ◌>>=◌, ◌>>◌, pure, gets, modify, raise, raise_if, lifted,
}
use sextant.Service.Config.Transaction.{Repo, apply_tx}
use sextant.Service.Changes.World.{
  World, Ports, Author, call, problem, told, tried, or_empty, or_blank, content_of, find_change,
  store_put, must_get, step_to, create_branch, delete_branch, repo_diff, get_change, write_path,
  commit_path, ask,
}
use sextant.Service.Changes.Tree.{cleanup, publish_branch, ensure_worktree}

abbrev pub accepts_edits : Status → Bool
accepts_edits s = same s draft || same s failed

module _ {A X : Type 0} (ports : Ports A X) where
  -- What follows the attempt to store a change that was just opened.
  unfoldable pub opened :
      ChangeRequest → Result Failure (Unit {0}) → Action (World A X) ChangeRequest
  unfolding delete_branch
  opened c (ok u) = pure c
  opened c (err e) = do
    rollback ← tried (delete_branch ports c.branch)
    raise (elim rollback [ ok u ↦ e | err e' ↦ problem "and rollback of the branch failed" ])

  -- `Open`
  unfoldable pub open_change : String → String → Author → Action (World A X) ChangeRequest
  unfolding call opened store_put create_branch find_change
  open_change id title a = do
    now ← ask ports.clock
    c ← lifted (told (new id title a.name a.subject now))
    call ports get_change
    taken ← gets (λ w. find_change id w.store)
    raise_if (elim taken [ none ↦ false | some _ ↦ true ]) (problem "the change exists")
    create_branch ports c.branch
    stored ← tried (store_put ports c)
    opened c stored

  -- `Get`
  unfoldable pub get : String → Action (World A X) (Option ChangeRequest)
  unfolding call find_change
  get id = do
    raise_if (not (is_slug id)) (problem "invalid change id")
    call ports get_change
    gets (λ w. find_change id w.store)

  -- A failed change that is edited is a draft again.
  unfoldable pub rework : ChangeRequest → Action (World A X) ChangeRequest
  unfolding step_to
  rework c =
      if same c.status failed
      then (step_to ports c draft >>= λ d. pure (record d { error = "" }))
      else pure c

  -- The end of `Edit` and `EditFile`.
  unfoldable pub record_edit : ChangeRequest → Action (World A X) (Unit {0})
  unfolding rework publish_branch store_put
  record_edit c = do
    d ← rework c
    now ← ask ports.clock
    publish_branch ports (record d { updated = now })
    store_put ports (record d { updated = now })

  -- The worktree of a change as a repository.
  abbrev pub tree_repo : ChangeRequest → World A X → Repo A X
  tree_repo c w = record {
    file = or_blank (lookup c.id w.trees);
    commits = or_empty (lookup c.branch w.branches);
    verdicts = w.verdicts;
    snapshot = w.fleet;
    outside = w.outside;
  }

  abbrev pub with_tree : ChangeRequest → Repo A X → World A X → World A X
  with_tree c r w = record w {
    trees = insert c.id r.file w.trees;
    branches = insert c.branch r.commits w.branches;
    verdicts = r.verdicts;
    outside = r.outside;
  }

  -- `applyTx` in the worktree
  unfoldable pub edit_tree :
      ChangeRequest
      → (Fleet A → Result Failure (Fleet A))
      → String
      → List String
      → Action (World A X) (Fleet A)
  unfolding apply_tx
  edit_tree c mut msg hosts w =
      let (r, t) = apply_tx ports.repo mut msg hosts (tree_repo c w) in (r, with_tree c t w)

  -- `Edit`
  unfoldable pub edit :
      String
      → (Fleet A → Result Failure (Fleet A))
      → String
      → List String
      → Action (World A X) (Unit {0})
  unfolding must_get ensure_worktree edit_tree record_edit
  edit id mut msg hosts = do
    c ← must_get ports id
    raise_if (not (accepts_edits c.status)) (problem "only draft or failed changes accept edits")
    ensure_worktree ports c
    edit_tree c mut msg hosts
    record_edit (record_hosts c hosts)

  -- `wt.WriteFile`, then `wt.Commit` of that path
  unfoldable pub write_tree : ChangeRequest → String → String → Action (World A X) (Unit {0})
  unfolding call
  write_tree c path content = do
    call ports (write_path c.id path)
    modify
        (λ w. if path == "fleet.json" then record w { trees = insert c.id content w.trees } else w)

  unfoldable pub commit_tree :
      ChangeRequest → String → String → String → Action (World A X) (Unit {0})
  unfolding call content_of
  commit_tree c path content msg = do
    call ports (commit_path c.id path)
    old ← gets (λ w. or_empty (lookup c.branch w.branches))
    modify (λ w. record w {
      branches =
          insert c.branch
            (record {
              message = msg;
              content = if path == "fleet.json" then content else content_of old;
            }
              ∷ old)
            w.branches;
    })

  -- `EditFile`
  unfoldable pub edit_file : String → String → String → String → Action (World A X) (Unit {0})
  unfolding must_get ensure_worktree write_tree commit_tree record_edit
  edit_file id path content msg = do
    c ← must_get ports id
    raise_if (not (accepts_edits c.status)) (problem "only draft or failed changes accept edits")
    ensure_worktree ports c
    write_tree c path content
    commit_tree c path content msg
    record_edit (record_hosts c [])

  -- `Diff`
  unfoldable pub diff : String → Action (World A X) String
  unfolding must_get repo_diff
  diff id = do
    c ← must_get ports id
    raise_if (not (is_open c)) (problem "no pending diff")
    repo_diff ports c.branch

  -- `Abandon`
  unfoldable pub abandon : String → Action (World A X) ChangeRequest
  unfolding must_get step_to cleanup store_put
  abandon id = do
    c ← must_get ports id
    d ← step_to ports c abandoned
    cleanup ports d
    store_put ports d
    pure d
