-- ===== src/Service/Changes/Refines/Land.antt =====
-- Submit's verdict, Merge, Reconcile and Open refine the machine on the store.
use sextant.Common.{
  if◌then◌else◌, ◌==◌, Option-cases, String, eq_iff, ◌≡◌, refl, inl, inr, true, not, Option, none,
  some, List, [], ◌∷◌, arith, ℕ_Testable, String_Testable,
}
use sextant.Common.{[], ◌∷◌, none, some, true, inl, inr}
use sextant.Common.{[], ◌∷◌, none, some, true, inl, inr}
use sextant.Common.{[], ◌∷◌, none, some, true, inl, inr}
use sextant.Common.{true, none, some, [], ◌∷◌, inl, inr}
use sextant.Change.{gate_hosts, ChangeRequest, failed, ready, merged, same, same_iff}
use sextant.Fleet.Model.{Assurance}
use sextant.Service.Config.Transaction.{Commit}
use sextant.Service.Action.{Action, Failure, ◌>>◌, pure, raise_if, Gives, bind-Gives}
use sextant.Service.Changes.World.{
  World, Ports, Author, Notice, main_dir, call, read_head, push_main, problem, find_change,
  store_put, step_to, notify,
}
use sextant.Service.Changes.Tree.{cleanup, gate_scope, gate_ref, validate}
use sextant.Service.Changes.Submit.{notify_failed, notify_approvers, record_verdict, finish_submit}
use sextant.Service.Changes.Merge.{
  unidentified, own_change, check_approver, settle_merge, land, merge, reload, merge_branch,
  notify_author, run_after_merge,
}
use sextant.Service.Changes.Machine.{Edges}
use sextant.Service.Changes.Frame.{
  Keeps, and_then, either_way, guarded, call-Keeps, cleanup-Keeps, gate_scope-Keeps, validate-Keeps,
  merge_branch-Keeps, reset_hard-Keeps, reload-Keeps,
}
use sextant.Service.Changes.Writes.{
  Writes, IsStep, kept, keep_given, keep_then, then_keep, guard, store_put-Writes, looked_up,
  step_to-Keeps, step_to-Gives,
}
use sextant.Service.Changes.Ops.{edges, finish_op, merge_op, verdict_status}
use sextant.Service.Changes.Refines.{by_step}

module _ {A X : Type 0} (ports : Ports A X) where
  notify-Keeps : (n : Notice) → Keeps (notify ports n)
  unfolding notify
  notify-Keeps n w = elim (Option-cases ports.emit) [
    | inl e ↦ rw (e, notify) record { eq = refl }
    | inr (emit, e) ↦ rw (e, notify) record { eq = refl }
  ]

  notify_failed-Keeps : (c : ChangeRequest) → Keeps (notify_failed ports c)
  unfolding notify_failed
  notify_failed-Keeps c =
      either_way (c.author_subject == "") (pure tt) _ (λ w. record { eq = refl }) (notify-Keeps _)

  notify_approvers-Keeps :
      (c : ChangeRequest) (gs : List String) → Keeps (notify_approvers ports c gs)
  unfolding notify_approvers
  notify_approvers-Keeps c [] = λ w. record { eq = refl }
  notify_approvers-Keeps c (g ∷ gs) =
      and_then (notify ports _) (λ u. notify_approvers ports c gs) (notify-Keeps _)
        (λ u. notify_approvers-Keeps c gs)

  record_verdict-Keeps : (c : ChangeRequest) (v : Option Failure) → Keeps (record_verdict ports c v)
  unfolding record_verdict
  record_verdict-Keeps c (some e) =
      and_then (step_to ports (record c { error = ports.scrub (ports.message e) }) failed)
        (λ d. notify_failed ports d >> pure d)
        (step_to-Keeps ports (record c { error = ports.scrub (ports.message e) }) failed)
        (λ d.
          and_then (notify_failed ports d) (λ u. pure d) (notify_failed-Keeps d)
            (λ u w. record { eq = refl }))
  record_verdict-Keeps c none =
      and_then (step_to ports (record c { error = "" }) ready)
        (λ d. notify_approvers ports d ports.approvers >> pure d)
        (step_to-Keeps ports (record c { error = "" }) ready)
        (λ d.
          and_then (notify_approvers ports d ports.approvers) (λ u. pure d)
            (notify_approvers-Keeps d ports.approvers) (λ u w. record { eq = refl }))

  -- The value of a chain that ends in `pure`.
  then_pure-Gives :
      {B C : Type 0} (P : C → Type 0) (m : Action (World A X) B) (c : C)
      → P c
      → Gives P (m >> pure c)
  then_pure-Gives P m c h =
      bind-Gives (λ b. Unit {0}) (λ b. pure c) P m (λ w b q. tt) (λ b u w d q. ground (arith, h))

  pub record_verdict-Gives :
      (c : ChangeRequest) (v : Option Failure)
      → Gives (IsStep c (verdict_status v)) (record_verdict ports c v)
  unfolding record_verdict
  record_verdict-Gives c (some e) =
      bind-Gives (IsStep _ failed) (λ d. notify_failed ports d >> pure d) (IsStep c failed)
        (step_to ports (record c { error = ports.scrub (ports.message e) }) failed)
        (step_to-Gives ports _ failed)
        (λ d st.
          then_pure-Gives (IsStep c failed) (notify_failed ports d) d
            (record { origin = st.origin; status = st.status; edge = st.edge }))
  record_verdict-Gives c none =
      bind-Gives (IsStep _ ready) (λ d. notify_approvers ports d ports.approvers >> pure d)
        (IsStep c ready) (step_to ports (record c { error = "" }) ready)
        (step_to-Gives ports _ ready)
        (λ d st.
          then_pure-Gives (IsStep c ready) (notify_approvers ports d ports.approvers) d
            (record { origin = st.origin; status = st.status; edge = st.edge }))

  notify_author-Keeps : (c : ChangeRequest) (a : Author) → Keeps (notify_author ports c a)
  unfolding notify_author
  notify_author-Keeps c a =
      either_way (c.author_subject == "") (pure tt) _ (λ w. record { eq = refl }) (notify-Keeps _)

  run_after_merge-Keeps : (c : ChangeRequest) → Keeps (run_after_merge ports c)
  unfolding run_after_merge
  run_after_merge-Keeps c w = elim (Option-cases ports.after_merge) [
    | inl e ↦ rw (e, run_after_merge) record { eq = refl }
    | inr (f, e) ↦ rw (e, run_after_merge) record { eq = refl }
  ]

  -- What follows a merge that landed.
  ended-Keeps :
      (d : ChangeRequest) (a : Author)
      → Keeps (
          (if ports.has_remote then call ports push_main else pure tt)
          >> (notify_author ports d a >> (run_after_merge ports d >> pure d)))
  ended-Keeps d a =
      and_then (if ports.has_remote then call ports push_main else pure tt)
        (λ u. notify_author ports d a >> (run_after_merge ports d >> pure d))
        (either_way ports.has_remote _ (pure tt) (call-Keeps ports push_main)
          (λ w. record { eq = refl }))
        (λ u.
          and_then (notify_author ports d a) (λ u. run_after_merge ports d >> pure d)
            (notify_author-Keeps d a)
            (λ u.
              and_then (run_after_merge ports d) (λ u. pure d) (run_after_merge-Keeps d)
                (λ u w. record { eq = refl })))

  module _ (s : List ChangeRequest) where
    pub finish_submit-Writes :
        (id : String) (v : Option Failure)
        → Writes (edges {A = A} (finish_op id v)) s (finish_submit ports id v)
    unfolding finish_submit edges
    finish_submit-Writes id v = looked_up _ s ports id _ (λ c f i.
        keep_given _ s (record_verdict ports c v) _ (IsStep c (verdict_status v))
          (record_verdict-Keeps c v) (record_verdict-Gives c v)
          (λ d st.
            then_keep _ s (store_put ports d) _
              (store_put-Writes _ s ports d (
                by_step ports s _ c d f i st (
                  ground (
                    arith,
                    eq_iff id id,
                    st.edge,
                    same_iff (verdict_status v) (verdict_status v),
                  ))))
              (λ u w. record { eq = refl })))

    check_approver-Keeps :
        (rules : Option Assurance) (c : ChangeRequest) (a : Author)
        → Keeps (check_approver ports rules c a)
    unfolding check_approver
    check_approver-Keeps rules c a =
        guarded (unidentified rules c a)
          (problem "four-eyes required: an identified author and a distinct approver")
          (raise_if (own_change rules c a) (problem "four-eyes required: not by its author"))
          (λ w. record { eq = refl })

    settle_merge-Writes :
        (e : Edges) (pre : List Commit) (c : ChangeRequest) (v : Option Failure)
        → find_change c.id s ≡ some c
        → c.status ≡ ready
        → e.moves c.id ready merged ≡ true
        → Writes e s (settle_merge ports pre c v)
    unfolding settle_merge
    settle_merge-Writes e pre c (some x) f r m =
        kept e s (λ w. record { eq = (reset_hard-Keeps ports pre w).eq })
    settle_merge-Writes e pre c none f r m =
        keep_given e s (step_to ports c merged) _ (IsStep c merged) (step_to-Keeps ports c merged)
          (step_to-Gives ports c merged)
          (λ d st.
            then_keep e s (store_put ports d) _
              (store_put-Writes e s ports d (by_step ports s e c d f refl st (rw r m)))
              (λ u.
                and_then (cleanup ports d) (λ u. reload ports >> pure d) (cleanup-Keeps ports d)
                  (λ u.
                    and_then (reload ports) (λ u. pure d) (reload-Keeps ports)
                      (λ u w. record { eq = refl }))))

    land-Writes :
        (e : Edges) (c : ChangeRequest)
        → find_change c.id s ≡ some c
        → c.status ≡ ready
        → e.moves c.id ready merged ≡ true
        → Writes e s (land ports c)
    unfolding land
    land-Writes e c f r m =
        keep_then e s (call ports read_head) _ (call-Keeps ports read_head) (λ u. record {
          run = λ w p.
              (keep_then e s (merge_branch ports c) _ (merge_branch-Keeps ports c) (λ u.
                  keep_then e s (gate_scope ports main_dir (gate_hosts c)) _
                    (gate_scope-Keeps ports main_dir (gate_hosts c))
                    (λ hosts.
                      keep_then e s (validate ports main_dir (gate_ref ports c.branch) hosts)
                        (λ v. settle_merge ports w.main c v)
                        (validate-Keeps ports main_dir (gate_ref ports c.branch) hosts)
                        (λ v. settle_merge-Writes e w.main c v f r m)))).run
                w p;
        })

    pub merge-Writes :
        (id : String) (a : Author) → Writes (edges {A = A} (merge_op id a)) s (merge ports id a)
    unfolding merge edges
    merge-Writes id a = looked_up _ s ports id _ (λ c f i.
        guard _ s (not (same c.status ready)) _ _ (λ g. record {
          run = λ w p.
              (keep_then _ s (check_approver ports w.fleet.assurance c a) _
                  (check_approver-Keeps w.fleet.assurance c a)
                  (λ u.
                    then_keep _ s (land ports c) _
                      (land-Writes _ c (cc (i, f)) (ground (arith, same_iff c.status ready))
                        (ground (arith, eq_iff c.id id)))
                      (λ d. ended-Keeps d a))).run
                w p;
        }))
