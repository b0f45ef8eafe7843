-- ===== src/Service/Changes/Landing/Gate.antt =====
-- What the gate's answer on a merged main decides.
use sextant.Common.{
  ◌==◌, Bool-cases, Option-cases, lookup, String, ◌≡◌, refl, sym, ap, ◌∙◌, ◌≢◌, ◌⊎◌, inl, inr,
  false, Option, none, some, List, ℕ_Testable, String_Testable,
}
use sextant.Common.{none, some, false, inl, inr, ok, err, Result}
use sextant.Change.{gate_hosts, ChangeRequest, ready, merged}
use sextant.Service.Config.Transaction.{Commit}
use sextant.Service.Action.{Failure, ◌>>=◌, after}
use sextant.Service.Changes.World.{
  must_get, Dir, read_head, reset_main, World, Ports, Author, main_dir, call, find_change, step_to,
  store_put, content_of,
}
use sextant.Service.Changes.Tree.{gate_scope, cleanup, gate_ref, validate}
use sextant.Service.Changes.Merge.{
  merge_branch, merge_message, unidentified, own_change, reset_hard, reload, settle_merge,
}
use sextant.Service.Changes.Landing.{
  validate-main, gate_scope-main, after_world, step_to-main, store_put-main, cleanup-main,
  reload-main,
}

-- The state after git has merged the branch of the change `c`.
abbrev pub merged_state :
    {A X : Type 0} → Ports A X → String → ChangeRequest → World A X → World A X
merged_state ports id c w =
    (merge_branch ports c (call ports read_head (must_get ports id w).1).1).1

-- What the gate is asked and says of that state: `hosts` stand for the change, `before` and
-- `after_gate` are the states before and after its run.
pub record IsJudged {A X : Type 0} (ports : Ports A X) (id : String) (w : World A X)
    (c : ChangeRequest) (verdict : Option Failure) : Type 0 where
  pub hosts : List String
  pub before : World A X
  pub after_gate : World A X
  pub scope :
      gate_scope ports main_dir (gate_hosts c) (merged_state ports id c w) ≡ (ok hosts, before)
  pub answer :
      validate ports main_dir (gate_ref ports c.branch) hosts before ≡ (ok verdict, after_gate)
  pub gated : before.main ≡ (merged_state ports id c w).main
  pub tree : before.file ≡ content_of before.main

-- What a merge needs to land: the change is stored and ready, its approver is another identified
-- person where the organisation asks for four eyes, and the gate accepted the merge of main and of
-- the branch, checked out in the working tree.
pub record IsApproved {A X : Type 0} (ports : Ports A X) (id : String) (a : Author) (w : World A X)
    (main : List Commit) : Type 0 where
  pub change : ChangeRequest
  pub stored : find_change id w.store ≡ some change
  pub status : change.status ≡ ready
  pub identified : unidentified w.fleet.assurance change a ≡ false
  pub two_people : own_change w.fleet.assurance change a ≡ false
  pub commits : List Commit
  pub branch : lookup change.branch w.branches ≡ some commits
  pub joined : main ≡ ports.merged_with (merge_message change) w.main commits
  pub accepted : IsJudged ports id w change none

-- The gate refused the merge of the change, and its rollback failed.
pub record IsStuck {A X : Type 0} (ports : Ports A X) (id : String) (w : World A X) : Type 0 where
  pub change : ChangeRequest
  pub reason : Failure
  pub refused : IsJudged ports id w change (some reason)
  pub error : Failure
  pub failure : (reset_hard ports w.main refused.after_gate).0 ≡ err error

module _ {A X : Type 0} (ports : Ports A X) where
  reset_hard-main :
      (pre : List Commit) (w : World A X) (u : Unit {0})
      → (reset_hard ports pre w).0 ≡ ok u
      → (reset_hard ports pre w).1.main ≡ pre
  unfolding reset_hard call
  reset_hard-main pre w u h = elim (Option-cases (ports.attempt reset_main w.outside).0) [
    | inl n ↦ rw (n, reset_hard) refl
    | inr (x, n) ↦ absurd (cc (rw (n, reset_hard) at h))
  ]

  validate-never_fails :
      (dir : Dir) (ref : String) (hosts : List String) (w : World A X) (e : Failure)
      → (validate ports dir ref hosts w).0 ≢ err e
  unfolding validate
  validate-never_fails dir ref hosts w e h = elim (Option-cases ports.validate_ref) [
    | inl n ↦ cc (rw (n, validate) at h)
    | inr (gate, n) ↦ elim (Bool-cases (ref == "")) [
      | inl b ↦ cc (rw (n, b, validate) at h)
      | inr b ↦ cc (rw (n, b, validate) at h)
    ]
  ]

  gate_scope-never_fails :
      (dir : Dir) (hosts : List String) (w : World A X) (e : Failure)
      → (gate_scope ports dir hosts w).0 ≢ err e
  unfolding gate_scope
  gate_scope-never_fails dir hosts w e h = cc

  module _ (id : String) (a : Author) (w : World A X) where
    abbrev pub Settled : World A X → Type 0
    Settled v = (v.main ≡ w.main) ⊎ IsApproved ports id a w v.main ⊎ IsStuck ports id w

    -- What follows an accepted merge.
    settle_merge-main :
        (pre : List Commit) (c : ChangeRequest) (v : World A X)
        → (settle_merge ports pre c none v).1.main ≡ v.main
    unfolding settle_merge
    settle_merge-main pre c v =
        after_world (λ u. u.main ≡ v.main) (step_to ports c merged v) _
          (λ e q. step_to-main ports c merged v)
          (λ d q.
            after_world (λ u. u.main ≡ v.main) (store_put ports d _) _
              (λ e q. store_put-main ports d _ ∙ step_to-main ports c merged v)
              (λ u q.
                after_world (λ u. u.main ≡ v.main) (cleanup ports d _) _
                  (λ e q.
                    cleanup-main ports d _
                    ∙ store_put-main ports d _
                    ∙ step_to-main ports c merged v)
                  (λ u q.
                    after_world (λ u. u.main ≡ v.main) (reload ports _) _
                      (λ e q.
                        reload-main ports _
                        ∙ cleanup-main ports d _
                        ∙ store_put-main ports d _
                        ∙ step_to-main ports c merged v)
                      (λ u q.
                        reload-main ports _
                        ∙ cleanup-main ports d _
                        ∙ store_put-main ports d _
                        ∙ step_to-main ports c merged v))))

    -- What follows a refused one.
    settle_merge-Settled :
        (c : ChangeRequest) (e : Failure) (j : IsJudged ports id w c (some e))
        → Settled (settle_merge ports w.main c (some e) j.after_gate).1
    unfolding settle_merge
    settle_merge-Settled c e j = undone (reset_hard ports w.main j.after_gate) refl
      where
        undone :
            (r : Result Failure (Unit {0}) × World A X)
            → reset_hard ports w.main j.after_gate ≡ r
            → Settled r.1
        undone (ok u, t) q = inl (rw q at (reset_hard-main w.main j.after_gate u (ap (λ r. r.0) q)))
        undone (err x, t) q = inr (
            inr (record {
              change = c;
              reason = e;
              refused = j;
              error = x;
              failure = ap (λ r. r.0) q;
            }))

    -- The gate's answer on the merged result, and what follows it.
    pub gated-Settled :
        (c : ChangeRequest) (pre : List Commit) (v : World A X)
        → pre ≡ w.main
        → find_change id w.store ≡ some c
        → c.status ≡ ready
        → unidentified w.fleet.assurance c a ≡ false
        → own_change w.fleet.assurance c a ≡ false
        → (commits : List Commit) → lookup c.branch w.branches ≡ some commits
        → v.main ≡ ports.merged_with (merge_message c) w.main commits
        → v.file ≡ content_of v.main
        → v ≡ merged_state ports id c w
        → Settled
            ((gate_scope ports main_dir (gate_hosts c) >>= λ hosts.
                validate ports main_dir (gate_ref ports c.branch) hosts
                >>= settle_merge ports pre c)
              v).1
    gated-Settled c pre v e f r i o commits b joined tree reached =
        answered_by (gate_scope ports main_dir (gate_hosts c) v) refl
      where
        refused :
            (g : Failure) (j : IsJudged ports id w c (some g))
            → Settled (settle_merge ports pre c (some g) j.after_gate).1
        refused g j = rw e (settle_merge-Settled c g j)

        heard :
            (hosts : List String) (t : World A X)
            → t.main ≡ v.main
            → t.file ≡ v.file
            → gate_scope ports main_dir (gate_hosts c) v ≡ (ok hosts, t)
            → (verdict : Option Failure) (u : World A X)
            → validate ports main_dir (gate_ref ports c.branch) hosts t ≡ (ok verdict, u)
            → IsJudged ports id w c verdict
        heard hosts t p q sc verdict u k = record {
          hosts = hosts;
          before = t;
          after_gate = u;
          scope = ap (gate_scope ports main_dir (gate_hosts c)) (sym reached) ∙ sc;
          answer = k;
          gated = p ∙ ap (λ (x : World A X). x.main) reached;
          tree = q ∙ tree ∙ ap content_of (sym p);
        }

        judged :
            (hosts : List String) (t : World A X)
            → t.main ≡ v.main
            → t.file ≡ v.file
            → gate_scope ports main_dir (gate_hosts c) v ≡ (ok hosts, t)
            → (x : Result Failure (Option Failure) × World A X)
            → validate ports main_dir (gate_ref ports c.branch) hosts t ≡ x
            → Settled (after x (settle_merge ports pre c)).1
        judged hosts t p q sc (ok none, u) k = inr (
            inl (record {
              change = c;
              stored = f;
              status = r;
              identified = i;
              two_people = o;
              commits = commits;
              branch = b;
              joined = main ∙ joined;
              accepted = heard hosts t p q sc none u k;
            }))
          where
            main : (settle_merge ports pre c none u).1.main ≡ v.main
            main =
                settle_merge-main pre c u
                ∙ ap (λ x. x.1.main) (sym k)
                ∙ validate-main ports main_dir (gate_ref ports c.branch) hosts t
                ∙ p
        judged hosts t p q sc (ok (some g), u) k = refused g (heard hosts t p q sc (some g) u k)
        judged hosts t p q sc (err g, u) k =
            absurd
              (validate-never_fails main_dir (gate_ref ports c.branch) hosts t g (ap (λ x. x.0) k))

        answered_by :
            (x : Result Failure (List String) × World A X)
            → gate_scope ports main_dir (gate_hosts c) v ≡ x
            → Settled
                (after x (λ hosts.
                  validate ports main_dir (gate_ref ports c.branch) hosts
                  >>= settle_merge ports pre c)).1
        answered_by (ok hosts, t) k =
            judged hosts t
              (ap (λ x. x.1.main) (sym k) ∙ (gate_scope-main ports main_dir (gate_hosts c) v).0)
              (ap (λ x. x.1.file) (sym k) ∙ (gate_scope-main ports main_dir (gate_hosts c) v).1) k
              (validate ports main_dir (gate_ref ports c.branch) hosts t) refl
        answered_by (err g, t) k =
            absurd (gate_scope-never_fails main_dir (gate_hosts c) v g (ap (λ x. x.0) k))
