-- ===== src/Service/Changes/Landing.antt =====
-- What the calls of Merge do to main.
pub mod Gate
pub mod Outcome
use sextant.Common.{
  ◌==◌, Bool-cases, Option-cases, is_slug, lookup, has, String, ◌≡◌, refl, ◌∙◌, inl, inr, false,
  Option, some, List, ℕ_Testable, String_Testable,
}
use sextant.Common.{[], ◌∷◌, none, some, true, false, inl, inr, ok, err}
use sextant.Common.{[], ◌∷◌, none, some, true, false, inl, inr, ok, err}
use sextant.Common.{none, some, false, inl, inr, ok, err}
use sextant.Common.{false, none, some, inl, inr, ok, err, Result}
use sextant.Change.{ChangeRequest, Status, ready}
use sextant.Service.Config.Transaction.{Commit}
use sextant.Service.Action.{Action, Failure, after}
use sextant.Fleet.Model.{Assurance}
use sextant.Service.Changes.World.{
  notify, Notice, Author, delete_branch, delete_ref, remove_dir, World, Ports, Author, Dir,
  main_dir, Call, call, get_change, read_fleet, merge_ref, reload_main, put_change, find_change,
  must_get, step_to, store_put, content_of, with_outside,
}
use sextant.Service.Changes.Tree.{remove_tree, cleanup, gate_scope, gate_ref, validate}
use sextant.Service.Changes.Merge.{
  check_approver, unidentified, own_change, notify_author, run_after_merge, merge_message,
  unidentified, own_change, merge_branch, reset_hard, reload,
}

-- A predicate of the state after a chain of calls.
pub after_world :
    {S B C : Type 0} (Q : S → Type 0) (r : Result Failure B × S) (f : B → Action S C)
    → ((e : Failure) → r.0 ≡ err e → Q r.1)
    → ((b : B) → r.0 ≡ ok b → Q (f b r.1).1)
    → Q (after r f).1
after_world Q (ok b, t) f p q = q b refl
after_world Q (err e, t) f p q = p e refl

module _ {A X : Type 0} where
  -- Main, its files, the branches and the published fleet are as they were.
  pub record SameMain (w v : World A X) : Type 0 where
    pub main : v.main ≡ w.main
    pub branches : v.branches ≡ w.branches
    pub fleet : v.fleet ≡ w.fleet

  abbrev pub same_main : (w : World A X) → SameMain w w
  same_main w = record { main = refl; branches = refl; fleet = refl }

  module _ (ports : Ports A X) where
    pub call-SameMain : (c : Call) (w : World A X) → SameMain w (call ports c w).1
    unfolding call
    call-SameMain c w = record { main = refl; branches = refl; fleet = refl }

    pub must_get-SameMain : (id : String) (w : World A X) → SameMain w (must_get ports id w).1
    unfolding must_get call
    must_get-SameMain id w = elim (Bool-cases (is_slug id)) [
      | inl b ↦ elim (Option-cases (ports.attempt get_change w.outside).0) [
        | inl n ↦ elim (Option-cases (find_change id w.store)) [
          | inl f ↦ rw (b, n, f, must_get) record { main = refl; branches = refl; fleet = refl }
          | inr (c, f) ↦
              rw (b, n, f, must_get) record { main = refl; branches = refl; fleet = refl }
        ]
        | inr (x, n) ↦ rw (b, n, must_get) record { main = refl; branches = refl; fleet = refl }
      ]
      | inr b ↦ rw (b, must_get) record { main = refl; branches = refl; fleet = refl }
    ]

    pub validate-main :
        (dir : Dir) (ref : String) (hosts : List String) (w : World A X)
        → (validate ports dir ref hosts w).1.main ≡ w.main
    unfolding validate
    validate-main dir ref hosts w = elim (Option-cases ports.validate_ref) [
      | inl e ↦ rw (e, validate) refl
      | inr (gate, e) ↦ elim (Bool-cases (ref == "")) [
        | inl b ↦ rw (e, b, validate) refl
        | inr b ↦ rw (e, b, validate) refl
      ]
    ]

    pub gate_scope-main :
        (dir : Dir) (hosts : List String) (w : World A X)
        → ((gate_scope ports dir hosts w).1.main ≡ w.main)
          × ((gate_scope ports dir hosts w).1.file ≡ w.file)
    unfolding gate_scope call
    gate_scope-main dir hosts w = elim (Option-cases (ports.attempt (read_fleet dir) w.outside).0) [
      | inl n ↦ rw (n, gate_scope) (refl, refl)
      | inr (x, n) ↦ rw (n, gate_scope) (refl, refl)
    ]

    pub merge_branch-failed :
        (c : ChangeRequest) (w : World A X) (e : Failure)
        → (merge_branch ports c w).0 ≡ err e
        → (merge_branch ports c w).1.main ≡ w.main
    unfolding merge_branch call
    merge_branch-failed c w e h =
        elim (Option-cases (ports.attempt (merge_ref c.branch (merge_message c)) w.outside).0) [
          | inl n ↦ elim (Option-cases (lookup c.branch w.branches)) [
            | inl b ↦ rw (n, b, merge_branch) refl
            | inr (cs, b) ↦ absurd (cc (rw (n, b, merge_branch) at h))
          ]
          | inr (x, n) ↦ rw (n, merge_branch) refl
        ]

    pub merge_branch-landed :
        (c : ChangeRequest) (w : World A X) (u : Unit {0})
        → (merge_branch ports c w).0 ≡ ok u
        → (commits : List Commit) × (lookup c.branch w.branches ≡ some commits)
          × ((merge_branch ports c w).1.main ≡ ports.merged_with (merge_message c) w.main commits)
          × ((merge_branch ports c w).1.file ≡ content_of ((merge_branch ports c w).1.main))
    unfolding merge_branch call
    merge_branch-landed c w u h =
        elim (Option-cases (ports.attempt (merge_ref c.branch (merge_message c)) w.outside).0) [
          | inl n ↦ elim (Option-cases (lookup c.branch w.branches)) [
            | inl b ↦ absurd (cc (rw (n, b, merge_branch) at h))
            | inr (cs, b) ↦ (cs, b, rw (n, b, merge_branch) refl, rw (n, b, merge_branch) refl)
          ]
          | inr (x, n) ↦ absurd (cc (rw (n, merge_branch) at h))
        ]

    -- The calls after a merge that leave main alone.
    pub step_to-main :
        (c : ChangeRequest) (to : Status) (w : World A X) → (step_to ports c to w).1.main ≡ w.main
    unfolding step_to
    step_to-main c to w = refl

    pub store_put-main : (c : ChangeRequest) (w : World A X) → (store_put ports c w).1.main ≡ w.main
    unfolding store_put call
    store_put-main c w = elim (Option-cases (ports.attempt put_change w.outside).0) [
      | inl n ↦ rw (n, store_put) refl
      | inr (x, n) ↦ rw (n, store_put) refl
    ]

    pub delete_branch-main :
        (b : String) (w : World A X) → (delete_branch ports b w).1.main ≡ w.main
    unfolding delete_branch call
    delete_branch-main b w = elim (Option-cases (ports.attempt (delete_ref b) w.outside).0) [
      | inl n ↦ rw (n, delete_branch) refl
      | inr (x, n) ↦ rw (n, delete_branch) refl
    ]

    pub remove_tree-main : (id : String) (w : World A X) → (remove_tree ports id w).1.main ≡ w.main
    unfolding remove_tree call
    remove_tree-main id w = elim (Option-cases (ports.attempt (remove_dir id) w.outside).0) [
      | inl n ↦ rw (n, remove_tree) refl
      | inr (x, n) ↦ rw (n, remove_tree) refl
    ]

    pub cleanup-main : (c : ChangeRequest) (w : World A X) → (cleanup ports c w).1.main ≡ w.main
    unfolding cleanup call
    cleanup-main c w = elim (Bool-cases (has c.id w.trees)) [
      | inl t ↦ elim (Bool-cases ports.has_publisher) [
        | inl p ↦ rw (t, p, cleanup) (delete_branch-main c.branch _ ∙ remove_tree-main c.id w)
        | inr p ↦ rw (t, p, cleanup) (delete_branch-main c.branch _ ∙ remove_tree-main c.id w)
      ]
      | inr t ↦ elim (Bool-cases ports.has_publisher) [
        | inl p ↦ rw (t, p, cleanup) (delete_branch-main c.branch w)
        | inr p ↦ rw (t, p, cleanup) (delete_branch-main c.branch w)
      ]
    ]

    pub reload-main : (w : World A X) → (reload ports w).1.main ≡ w.main
    unfolding reload call
    reload-main w = elim (Option-cases (ports.attempt reload_main w.outside).0) [
      | inl n ↦ rw (n, reload) (decoded (ports.repo.decode w.file))
      | inr (x, n) ↦ rw (n, reload) refl
    ]
      where
        decoded :
            (r : Result Failure _)
            → (after
                (r, with_outside (ports.attempt reload_main w.outside).1 w)
                (λ f v. (ok tt, record v { fleet = f }))).1.main
              ≡ w.main
        decoded (ok f) = refl
        decoded (err e) = refl

    notify-main : (n : Notice) (w : World A X) → (notify ports n w).1.main ≡ w.main
    unfolding notify
    notify-main n w = elim (Option-cases ports.emit) [
      | inl e ↦ rw (e, notify) refl
      | inr (emit, e) ↦ rw (e, notify) refl
    ]

    pub notify_author-main :
        (c : ChangeRequest) (a : Author) (w : World A X)
        → (notify_author ports c a w).1.main ≡ w.main
    unfolding notify_author
    notify_author-main c a w = elim (Bool-cases (c.author_subject == "")) [
      | inl b ↦ rw (b, notify_author) refl
      | inr b ↦ rw (b, notify_author) (notify-main _ w)
    ]

    pub run_after_merge-main :
        (c : ChangeRequest) (w : World A X) → (run_after_merge ports c w).1.main ≡ w.main
    unfolding run_after_merge
    run_after_merge-main c w = elim (Option-cases ports.after_merge) [
      | inl e ↦ rw (e, run_after_merge) refl
      | inr (f, e) ↦ rw (e, run_after_merge) refl
    ]

    pub check_approver-same :
        (rules : Option Assurance) (c : ChangeRequest) (a : Author) (w : World A X)
        → (check_approver ports rules c a w).1 ≡ w
    unfolding check_approver
    check_approver-same rules c a w = elim (Bool-cases (unidentified rules c a)) [
      | inl b ↦ rw (b, check_approver) refl
      | inr b ↦ rw (b, check_approver) refl
    ]

    pub check_approver-passed :
        (rules : Option Assurance) (c : ChangeRequest) (a : Author) (w : World A X) (u : Unit {0})
        → (check_approver ports rules c a w).0 ≡ ok u
        → (unidentified rules c a ≡ false) × (own_change rules c a ≡ false)
    unfolding check_approver
    check_approver-passed rules c a w u h = elim (Bool-cases (unidentified rules c a)) [
      | inl b ↦ absurd (cc (rw (b, check_approver) at h))
      | inr b ↦ elim (Bool-cases (own_change rules c a)) [
        | inl o ↦ absurd (cc (rw (b, o, check_approver) at h))
        | inr o ↦ (b, o)
      ]
    ]
