-- ===== src/Service/Changes/Landing/Outcome.antt =====
-- What Merge does to main: which merges land, and what is left of those that do not.
use sextant.Service.Changes.Writes.{must_get-Gives}
use sextant.Common.{
  if◌then◌else◌, lookup, String, ◌≡◌, refl, sym, ap, ◌∙◌, ◌⊎◌, inl, inr, Bool, true, false, not,
  some, List, arith,
}
use sextant.Common.{some, true, false, inl, inr, ok}
use sextant.Change.{same, same_iff, ChangeRequest, ready}
use sextant.Service.Config.Transaction.{Commit}
use sextant.Service.Action.{◌>>=◌, ◌>>◌, pure, raise_if, gets}
use sextant.Service.Changes.World.{
  must_get, push_main, problem, read_head, World, Ports, Author, call, find_change,
}
use sextant.Service.Changes.Merge.{
  run_after_merge, merge, notify_author, check_approver, merge_branch, land, merge_message,
  unidentified, own_change,
}
use sextant.Service.Changes.Landing.{
  must_get-SameMain, check_approver-same, check_approver-passed, notify_author-main,
  run_after_merge-main, merge_branch-landed, merge_branch-failed, call-SameMain, SameMain,
  after_world,
}
use sextant.Service.Changes.Landing.Gate.{IsApproved, IsStuck, Settled, gated-Settled}

module _ {A X : Type 0} (ports : Ports A X) (id : String) (a : Author) (w : World A X) where
  -- The merge of a change that passed the checks before it.
  land-Settled :
      (c : ChangeRequest) (v : World A X)
      → find_change id w.store ≡ some c
      → c.status ≡ ready
      → unidentified w.fleet.assurance c a ≡ false
      → own_change w.fleet.assurance c a ≡ false
      → SameMain w v
      → v ≡ (must_get ports id w).1
      → Settled ports id a w (land ports c v).1
  unfolding land
  land-Settled c v f r i o m start =
      after_world (Settled ports id a w) (call ports read_head v) _
        (λ e q. inl ((call-SameMain ports read_head v).main ∙ m.main))
        (λ u q.
          after_world (Settled ports id a w) (merge_branch ports c (call ports read_head v).1) _
            (λ e q. inl (
              merge_branch-failed ports c (call ports read_head v).1 e q
              ∙ (call-SameMain ports read_head v).main
              ∙ m.main))
            (λ u q.
              let (commits, b, joined, tree) =
                merge_branch-landed ports c (call ports read_head v).1 u q in
              gated-Settled ports id a w c (call ports read_head v).1.main
                (merge_branch ports c (call ports read_head v).1).1
                ((call-SameMain ports read_head v).main ∙ m.main) f r i o commits
                (ap (lookup c.branch)
                    (sym ((call-SameMain ports read_head v).branches ∙ m.branches))
                  ∙ b)
                (joined
                  ∙ ap (λ l. ports.merged_with (merge_message c) l commits)
                      ((call-SameMain ports read_head v).main ∙ m.main))
                tree (ap (λ t. (merge_branch ports c (call ports read_head t).1).1) start)))

  settle_same :
      (l m : List Commit)
      → m ≡ l
      → (l ≡ w.main) ⊎ IsApproved ports id a w l ⊎ IsStuck ports id w
      → (m ≡ w.main) ⊎ IsApproved ports id a w m ⊎ IsStuck ports id w
  settle_same l m e (inl h) = inl (e ∙ h)
  settle_same l m e (inr (inl h)) = inr (inl (rw e h))
  settle_same l m e (inr (inr h)) = inr (inr h)

  push_main-same :
      (b : Bool) (v : World A X) → ((if b then call ports push_main else pure tt) v).1.main ≡ v.main
  push_main-same true v = (call-SameMain ports push_main v).main
  push_main-same false v = refl

  -- What follows a merge that landed.
  ended-Settled :
      (d : ChangeRequest) (v : World A X)
      → Settled ports id a w v
      → Settled ports id a w
          (((if ports.has_remote then call ports push_main else pure tt)
              >> (notify_author ports d a >> (run_after_merge ports d >> pure d)))
            v).1
  ended-Settled d v h =
      after_world (Settled ports id a w)
        ((if ports.has_remote then call ports push_main else pure tt) v) _
        (λ e q. settle_same v.main _ (push_main-same ports.has_remote v) h)
        (λ u q.
          after_world (Settled ports id a w) (notify_author ports d a _) _
            (λ e q. settle_same v.main _ (told v) h)
            (λ u q.
              after_world (Settled ports id a w) (run_after_merge ports d _) _
                (λ e q. settle_same v.main _ (run_after_merge-main ports d _ ∙ told v) h)
                (λ u q. settle_same v.main _ (run_after_merge-main ports d _ ∙ told v) h)))
    where
      told :
          (v : World A X)
          → (notify_author ports d a
              ((if ports.has_remote then call ports push_main else pure tt) v).1).1.main
            ≡ v.main
      told v = notify_author-main ports d a _ ∙ push_main-same ports.has_remote v

  -- Whatever Merge returns, main is as it was, or the change was stored and ready, its approver was
  -- another identified person where four eyes are asked for, and main is the merge of its branch that
  -- the gate accepted, or a merge that the gate refused could not be rolled back.
  pub merge-Settled : Settled ports id a w (merge ports id a w).1
  unfolding merge
  merge-Settled =
      after_world (Settled ports id a w) (must_get ports id w) _
        (λ e q. inl (must_get-SameMain ports id w).main)
        (λ c f.
          checked c (must_get ports id w).1 (must_get-SameMain ports id w) refl
            (must_get-Gives ports id w c f))
    where
      checked :
          (c : ChangeRequest) (v : World A X)
          → SameMain w v
          → v ≡ (must_get ports id w).1
          → find_change id w.store ≡ some c
          → Settled ports id a w
              ((raise_if (not (same c.status ready)) (problem "only ready changes merge")
                  >> (gets (λ v. v.fleet.assurance) >>= λ rules.
                      check_approver ports rules c a
                      >> (land ports c >>= λ d.
                          (if ports.has_remote then call ports push_main else pure tt)
                          >> (notify_author ports d a >> (run_after_merge ports d >> pure d)))))
                v).1
      checked c v m start f =
          after_world (Settled ports id a w)
            (raise_if (not (same c.status ready)) (problem "only ready changes merge") v) _
            (λ e q. inl m.main)
            (λ u r.
              after_world (Settled ports id a w) (check_approver ports v.fleet.assurance c a v) _
                (λ e q. inl (
                  ap (λ (t : World A X). t.main) (check_approver-same ports v.fleet.assurance c a v)
                  ∙ m.main))
                (λ u g.
                  let (i, o) = check_approver-passed ports v.fleet.assurance c a v u g in
                  rw (check_approver-same ports v.fleet.assurance c a v) (
                    after_world (Settled ports id a w) (land ports c v) _ (λ e q. landed r i o)
                      (λ d q. ended-Settled d (land ports c v).1 (landed r i o)))))
        where
          landed :
              {u : Unit {0}}
              → (raise_if (not (same c.status ready)) (problem "only ready changes merge") v).0
                ≡ ok u
              → unidentified v.fleet.assurance c a ≡ false
              → own_change v.fleet.assurance c a ≡ false
              → Settled ports id a w (land ports c v).1
          landed r i o =
              land-Settled c v f (ground (arith, same_iff c.status ready))
                (ap (λ t. unidentified t.assurance c a) (sym m.fleet) ∙ i)
                (ap (λ t. own_change t.assurance c a) (sym m.fleet) ∙ o) m start
