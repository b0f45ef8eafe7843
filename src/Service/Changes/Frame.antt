-- ===== src/Service/Changes/Frame.antt =====
-- The calls of the change service that leave its store alone.
use sextant.Common.{
  if◌then◌else◌, ◌==◌, Bool-cases, Option-cases, lookup, insert, remove, has, String, ◌≡◌, refl,
  ◌∙◌, inl, inr, Bool, true, false, not, Option, none, some, List, ◌∷◌, ℕ_Testable, String_Testable,
}
use sextant.Common.{Result, ok, err, true, false, none, some, ◌∷◌, inl, inr}
use sextant.Change.{ChangeRequest}
use sextant.Fleet.Model.{Fleet}
use sextant.Service.Changes.World.{
  delete_remote_ref, delete_ref, diff_ref, ask_merged, add_dir, remove_dir, write_path, commit_path,
  reset_main, merge_ref, reload_main, or_empty, create_ref, open_dir, problem, read_fleet,
}
use sextant.Service.Action.{
  Action, Failure, ◌>>=◌, ◌>>◌, pure, gets, modify, raise_if, or_raise, lifted, Leads, bind-Leads,
  after,
}
use sextant.Service.Changes.World.{
  World, Ports, Dir, Call, call, best_effort, commits_of, create_branch, delete_branch, repo_diff,
  branch_merged, file_in, content_of,
}
use sextant.Service.Changes.Tree.{
  publish_branch, validate, gate_scope, open_tree, add_tree, reopen, ensure_worktree, remove_tree,
  cleanup,
}
use sextant.Service.Changes.Draft.{opened, write_tree, commit_tree}
use sextant.Service.Changes.Merge.{merge_message, take_merge, merge_branch, reset_hard, reload}

module _ {A X : Type 0} where
  pub record SameStore (w w' : World A X) : Type 0 where
    pub eq : w'.store ≡ w.store

  abbrev pub Keeps : {B : Type 0} → Action (World A X) B → Type 0
  Keeps m = Leads SameStore m

  pub and_then :
      {B C : Type 0} (m : Action (World A X) B) (f : B → Action (World A X) C)
      → Keeps m
      → ((b : B) → Keeps (f b))
      → Keeps (m >>= f)
  and_then m f = bind-Leads SameStore (λ a b c h k. record { eq = k.eq ∙ h.eq }) m f

  pub either_way :
      {B : Type 0} (b : Bool) (m n : Action (World A X) B)
      → Keeps m
      → Keeps n
      → Keeps (if b then m else n)
  either_way true m n p q = p
  either_way false m n p q = q

  pub or_raise-Keeps : {B : Type 0} (o : Option B) (e : Failure) → Keeps (or_raise o e)
  or_raise-Keeps none e w = record { eq = refl }
  or_raise-Keeps (some b) e w = record { eq = refl }

  pub guarded :
      {B : Type 0} (b : Bool) (e : Failure) (k : Action (World A X) B)
      → Keeps k
      → Keeps (raise_if b e >> k)
  guarded true e k h w = record { eq = refl }
  guarded false e k h w = h w

  module _ (ports : Ports A X) where
    pub call-Keeps : (c : Call) → Keeps (call ports c)
    unfolding call
    call-Keeps c w = record { eq = refl }

    commits_of-Keeps : (b : String) → Keeps (commits_of ports b)
    commits_of-Keeps b w = or_raise-Keeps (lookup b w.branches) (problem "unknown revision") w

    pub create_branch-Keeps : (b : String) → Keeps (create_branch ports b)
    unfolding create_branch
    create_branch-Keeps b w =
        guarded (has b w.branches) (problem "the branch exists")
          (call ports (create_ref b)
            >> modify (λ w. record w { branches = insert b w.main w.branches }))
          (and_then (call ports (create_ref b)) _ (call-Keeps _) (λ u w. record { eq = refl })) w

    pub delete_branch-Keeps : (b : String) → Keeps (delete_branch ports b)
    unfolding delete_branch
    delete_branch-Keeps b =
        and_then (call ports (delete_ref b))
          (λ u. modify (λ w. record w { branches = remove b w.branches })) (call-Keeps _)
          (λ u w. record { eq = refl })

    pub repo_diff-Keeps : (b : String) → Keeps (repo_diff ports b)
    unfolding repo_diff
    repo_diff-Keeps b =
        and_then (call ports (diff_ref b))
          (λ u. commits_of ports b >>= λ c. gets (λ w. ports.diff_text w.main c)) (call-Keeps _)
          (λ u.
            and_then (commits_of ports b) (λ c. gets (λ w. ports.diff_text w.main c))
              (commits_of-Keeps b) (λ c w. record { eq = refl }))

    pub branch_merged-Keeps : (b : String) → Keeps (branch_merged ports b)
    unfolding branch_merged
    branch_merged-Keeps b =
        and_then (call ports (ask_merged b))
          (λ u. commits_of ports b >>= λ c. gets (λ w. ports.contains_branch w.main c))
          (call-Keeps _)
          (λ u.
            and_then (commits_of ports b) (λ c. gets (λ w. ports.contains_branch w.main c))
              (commits_of-Keeps b) (λ c w. record { eq = refl }))

    pub publish_branch-Keeps : (c : ChangeRequest) → Keeps (publish_branch ports c)
    unfolding publish_branch
    publish_branch-Keeps c =
        either_way ports.has_publisher _ _ (call-Keeps _) (λ w. record { eq = refl })

    pub validate-Keeps :
        (dir : Dir) (ref : String) (hosts : List String) → Keeps (validate ports dir ref hosts)
    unfolding validate
    validate-Keeps dir ref hosts w = elim (Option-cases ports.validate_ref) [
      | inl e ↦ rw (e, validate) record { eq = refl }
      | inr (gate, e) ↦ elim (Bool-cases (ref == "")) [
        | inl b ↦ rw (e, b, validate) record { eq = refl }
        | inr b ↦ rw (e, b, validate) record { eq = refl }
      ]
    ]

    pub gate_scope-Keeps : (dir : Dir) (hosts : List String) → Keeps (gate_scope ports dir hosts)
    unfolding gate_scope
    gate_scope-Keeps dir hosts w =
        read (call ports (read_fleet dir) w) (call-Keeps (read_fleet dir) w)
      where
        read :
            (r : Result Failure (Unit {0}) × World A X)
            → SameStore w r.1
            → SameStore w (after r (λ u. gets (file_in dir))).1
        read (ok u, t) h = h
        read (err e, t) h = h

    open_tree-Keeps : (id : String) → Keeps (open_tree ports id)
    unfolding open_tree
    open_tree-Keeps id w =
        guarded (not (has id w.trees)) (problem "no repository") (call ports (open_dir id))
          (call-Keeps _) w

    add_tree-Keeps : (id b : String) → Keeps (add_tree ports id b)
    unfolding add_tree
    add_tree-Keeps id b =
        and_then (call ports (add_dir id b))
          (λ u. commits_of ports b >>= λ c.
            modify (λ w. record w { trees = insert id (content_of c) w.trees }))
          (call-Keeps _)
          (λ u.
            and_then (commits_of ports b)
              (λ c. modify (λ w. record w { trees = insert id (content_of c) w.trees }))
              (commits_of-Keeps b) (λ c w. record { eq = refl }))

    reopen-Keeps : (c : ChangeRequest) (r : Result Failure (Unit {0})) → Keeps (reopen ports c r)
    unfolding reopen
    reopen-Keeps c (ok u) = λ w. record { eq = refl }
    reopen-Keeps c (err e) = and_then _ _ (add_tree-Keeps c.id c.branch) (λ u. open_tree-Keeps c.id)

    pub ensure_worktree-Keeps : (c : ChangeRequest) → Keeps (ensure_worktree ports c)
    unfolding ensure_worktree
    ensure_worktree-Keeps c w = record {
      eq =
          (reopen-Keeps c (open_tree ports c.id w).0 (open_tree ports c.id w).1).eq
          ∙ (open_tree-Keeps c.id w).eq;
    }

    remove_tree-Keeps : (id : String) → Keeps (remove_tree ports id)
    unfolding remove_tree
    remove_tree-Keeps id =
        and_then (call ports (remove_dir id))
          (λ u. modify (λ w. record w { trees = remove id w.trees })) (call-Keeps _)
          (λ u w. record { eq = refl })

    pub best_effort-Keeps :
        {B : Type 0} (m : Action (World A X) B) → Keeps m → Keeps (best_effort m)
    best_effort-Keeps m h w = record { eq = (h w).eq }

    pub cleanup-Keeps : (c : ChangeRequest) → Keeps (cleanup ports c)
    unfolding cleanup
    cleanup-Keeps c w =
        and_then (if has c.id w.trees then best_effort (remove_tree ports c.id) else pure tt) _
          (either_way (has c.id w.trees) _ _
            (best_effort-Keeps (remove_tree ports c.id) (remove_tree-Keeps c.id))
            (λ w. record { eq = refl }))
          (λ u w'. record {
            eq =
                (either_way ports.has_publisher _ _
                  (best_effort-Keeps (call ports (delete_remote_ref c.branch)) (call-Keeps _))
                  (λ w. record { eq = refl }) (delete_branch ports c.branch w').1).eq
                ∙ (delete_branch-Keeps c.branch w').eq;
          })
          w

    pub opened-Keeps :
        (c : ChangeRequest) (r : Result Failure (Unit {0})) → Keeps (opened ports c r)
    unfolding opened
    opened-Keeps c (ok u) w = record { eq = refl }
    opened-Keeps c (err e) w = record { eq = (delete_branch-Keeps c.branch w).eq }

    pub write_tree-Keeps : (c : ChangeRequest) (path t : String) → Keeps (write_tree ports c path t)
    unfolding write_tree
    write_tree-Keeps c path t =
        and_then (call ports (write_path c.id path))
          (λ u.
            modify
              (λ w. if path == "fleet.json" then record w { trees = insert c.id t w.trees } else w))
          (call-Keeps _)
          (λ u w. elim (Bool-cases (path == "fleet.json")) [
            | inl e ↦ rw e record { eq = refl }
            | inr e ↦ rw e record { eq = refl }
          ])

    pub commit_tree-Keeps :
        (c : ChangeRequest) (path t msg : String) → Keeps (commit_tree ports c path t msg)
    unfolding commit_tree
    commit_tree-Keeps c path t msg =
        and_then (call ports (commit_path c.id path))
          (λ u. gets (λ w. or_empty (lookup c.branch w.branches)) >>= λ old. modify (λ w. record w {
            branches =
                insert c.branch
                  (record {
                    message = msg;
                    content = if path == "fleet.json" then t else content_of old;
                  }
                    ∷ old)
                  w.branches;
          }))
          (call-Keeps _) (λ u w. record { eq = refl })

    pub merge_branch-Keeps : (c : ChangeRequest) → Keeps (merge_branch ports c)
    unfolding merge_branch
    merge_branch-Keeps c =
        and_then (call ports (merge_ref c.branch (merge_message c)))
          (λ u. commits_of ports c.branch >>= λ cs. take_merge ports c cs) (call-Keeps _)
          (λ u.
            and_then (commits_of ports c.branch) (λ cs. take_merge ports c cs)
              (commits_of-Keeps c.branch) (λ cs w. record { eq = refl }))

    pub reset_hard-Keeps : (pre : List _) → Keeps (reset_hard ports pre)
    unfolding reset_hard
    reset_hard-Keeps pre =
        and_then (call ports reset_main)
          (λ u. modify (λ w. record w { main = pre; file = content_of pre })) (call-Keeps _)
          (λ u w. record { eq = refl })

    pub reload-Keeps : Keeps (reload ports)
    unfolding reload
    reload-Keeps =
        and_then (call ports reload_main)
          (λ u. gets (λ w. w.file) >>= λ text.
            lifted (ports.repo.decode text) >>= λ f. modify (λ w. record w { fleet = f }))
          (call-Keeps _) (λ u w. decoded w (ports.repo.decode w.file))
      where
        decoded :
            (w : World A X) (r : Result Failure (Fleet A))
            → SameStore w ((lifted r >>= λ f. modify (λ w. record w { fleet = f })) w).1
        decoded w (ok f) = record { eq = refl }
        decoded w (err e) = record { eq = refl }
