-- ===== src/Service/Changes/Refines/All.antt =====
-- Open and Reconcile, and with them every operation.
use sextant.Common.{
  ◌==◌, Bool-cases, is_empty, contains, Distinct, Time, String, eq_iff, ◌≡◌, refl, ◌∙◌, inl, inr,
  Bool, true, false, ◌&&◌, ◌||◌, Option, none, some, List, [], ◌∷◌, arith, ℕ_Testable,
  String_Testable,
}
use sextant.Common.{[], ◌∷◌, none, some, true, false, inl, inr, ok, err}
use sextant.Common.{[], ◌∷◌, none, some, true, false, inl, inr, ok, err}
use sextant.Common.{[], ◌∷◌, none, some, true, false, inl, inr, ok, err}
use sextant.Common.{true, false, none, some, [], ◌∷◌, inl, inr, ok, err, Result}
use sextant.Change.{ChangeRequest, draft, ready, merged, abandoned, same, new}
use sextant.Service.Action.{Action, Failure, ◌>>=◌, ◌>>◌, pure, raise_if, lifted, after}
use sextant.Service.Changes.World.{
  World, Ports, Author, call, get_change, list_changes, told, ask, tried, problem, find_change,
  store_put, create_branch, branch_merged, step_to, with_outside,
}
use sextant.Service.Changes.Draft.{open_change, opened}
use sextant.Service.Changes.Frame.{repo_diff-Keeps, validate-Keeps}
use sextant.Service.Changes.World.{Dir, repo_diff}
use sextant.Change.{branch_for}
use sextant.Service.Changes.Tree.{validate, gate_ref}
use sextant.Service.Changes.Submit.{run_gate, build_after, is_nothing, nothing_to_validate, judge}
use sextant.Service.Changes.Merge.{repair, sweep, reconcile_one, reconcile_each, reconcile}
use sextant.Service.Changes.Machine.{Edges, create, Runs, stay, Runs-append, IsStore, ids}
use sextant.Service.Changes.Machine.Laws.{Runs-unmoved, Runs-mono, AllFound, IsStore-found}
use sextant.Service.Changes.Frame.{
  Keeps, SameStore, and_then, either_way, call-Keeps, create_branch-Keeps, opened-Keeps,
  cleanup-Keeps, branch_merged-Keeps,
}
use sextant.Service.Changes.Writes.{
  Writes, IsStep, kept, keep_given, keep_then, then_keep, guard, store_put-Writes, step_to-Keeps,
  step_to-Gives,
}
use sextant.Service.Changes.Ops.{
  Op, edges, run_op, open_op, reconcile_op, edit_op, edit_file_op, begin_op, judge_op, finish_op,
  merge_op, abandon_op,
}
use sextant.Service.Changes.Refines.{
  by_step, edit-Writes, edit_file-Writes, begin_submit-Writes, abandon-Writes,
}
use sextant.Service.Changes.Refines.Land.{finish_submit-Writes, merge-Writes}

absent : (o : Option ChangeRequest) → (elim o [ none ↦ false | some _ ↦ true ]) ≡ false → o ≡ none
absent none h = refl
absent (some c) h = absurd (cc)

new-IsDraft :
    (id title author subject : String) (now : Time) (c : ChangeRequest)
    → told (new id title author subject now) ≡ ok c
    → (c.id ≡ id) × (c.status ≡ draft)
unfolding new
new-IsDraft id title author subject now c h = ground arith

module _ {A X : Type 0} (ports : Ports A X) (s : List ChangeRequest) where
  open_change-Writes :
      (id title : String) (a : Author)
      → Writes (edges {A = A} (open_op id title a)) s (open_change ports id title a)
  unfolding open_change edges
  open_change-Writes id title a = record {
    run = λ w p.
        (keep_given _ s (lifted (told (new id title a.name a.subject (ports.clock w.outside).0))) _
            (λ c. (c.id ≡ id) × (c.status ≡ draft)) (λ w. record { eq = refl })
            (λ v c q. new-IsDraft id title a.name a.subject _ c q)
            (λ c (i, d).
              keep_then _ s (call ports get_change) _ (call-Keeps ports get_change)
                (λ u. checked c i d))).run
          (with_outside (ports.clock w.outside).1 w) p;
  }
    where
      checked :
          (c : ChangeRequest)
          → c.id ≡ id
          → c.status ≡ draft
          → Writes (edges {A = A} (open_op id title a)) s (λ v.
            (raise_if
                  (elim (find_change id v.store) [ none ↦ false | some _ ↦ true ])
                  (problem "the change exists")
                >> (create_branch ports c.branch >> (tried (store_put ports c) >>= opened ports c)))
              v)
      checked c i d = record {
        run = λ v p.
            (guard _ s _ _ _ (λ free.
                keep_then _ s (create_branch ports c.branch) _ (create_branch-Keeps ports c.branch)
                  (λ u.
                    then_keep _ s (tried (store_put ports c)) (opened ports c)
                      (record {
                        run =
                            (store_put-Writes _ s ports c (
                              create c (ground (arith, eq_iff c.id id, i)) (unseen v p free) d
                                refl)).run;
                      })
                      (opened-Keeps ports c)))).run
              v p;
      }
        where
          unseen :
              (v : World A X)
              → v.store ≡ s
              → (elim (find_change id v.store) [ none ↦ false | some _ ↦ true ]) ≡ false
              → find_change c.id s ≡ none
          unseen v p free = cc (i, p, absent (find_change id v.store) free)

  repair-Writes :
      (e : Edges) (c : ChangeRequest)
      → find_change c.id s ≡ some c
      → e.moves c.id c.status merged ≡ true
      → (r : Result Failure Bool) → Writes e s (repair ports c r)
  unfolding repair
  repair-Writes e c f m (err x) = kept e s (λ w. record { eq = refl })
  repair-Writes e c f m (ok false) = kept e s (λ w. record { eq = refl })
  repair-Writes e c f m (ok true) =
      keep_given e s (step_to ports c merged) _ (IsStep c merged) (step_to-Keeps ports c merged)
        (step_to-Gives ports c merged)
        (λ d st.
          then_keep e s (store_put ports d) _
            (store_put-Writes e s ports d (by_step ports s e c d f refl st m))
            (λ u. cleanup-Keeps ports d))

  sweep-Keeps : (c : ChangeRequest) (r : Result Failure Bool) → Keeps (sweep ports c r)
  unfolding sweep
  sweep-Keeps c (err x) = λ w. record { eq = refl }
  sweep-Keeps c (ok b) = cleanup-Keeps ports c

  -- Only the change of the round moves.
  abbrev round_edges : ChangeRequest → Edges
  round_edges c = record {
    creates = λ k. false;
    moves = λ k a b. k == c.id && same a ready && same b merged;
  }

  reconcile_one-Writes :
      (c : ChangeRequest)
      → find_change c.id s ≡ some c
      → Writes (round_edges c) s (reconcile_one ports c)
  unfolding reconcile_one
  reconcile_one-Writes c f = elim (Bool-cases (same c.status abandoned || same c.status merged)) [
    | inl a ↦ elim (Bool-cases (c.branch == "")) [
      | inl b ↦ rw (a, b, reconcile_one) (kept _ s (λ w. record { eq = refl }))
      | inr b ↦
          rw (a, b, reconcile_one)
            (keep_then _ s (tried (branch_merged ports c.branch)) (sweep ports c)
              (λ w. record { eq = (branch_merged-Keeps ports c.branch w).eq })
              (λ r. kept _ s (sweep-Keeps c r)))
    ]
    | inr a ↦ elim (Bool-cases (same c.status ready)) [
      | inl b ↦
          rw (a, b, reconcile_one)
            (keep_then _ s (tried (branch_merged ports c.branch)) (repair ports c)
              (λ w. record { eq = (branch_merged-Keeps ports c.branch w).eq })
              (repair-Writes _ c f (ground (arith, eq_iff c.id c.id, b))))
      | inr b ↦ rw (a, b, reconcile_one) (kept _ s (λ w. record { eq = refl }))
    ]
  ]

module _ {A X : Type 0} (ports : Ports A X) where
  -- What a round leaves of the changes that come after it.
  found_later :
      (c : ChangeRequest) {s t : List ChangeRequest} (l : List ChangeRequest)
      → Runs (round_edges ports s c) s t
      → contains (ids l) c.id ≡ false
      → AllFound s l
      → AllFound t l
  found_later c [] r n h = tt
  found_later c (d ∷ l) r n h = (
    Runs-unmoved d.id d r (λ to. ground (arith, eq_iff d.id c.id)) h.0,
    found_later c l r (ground arith) h.1,
  )

  reconcile_each-Runs :
      (l : List ChangeRequest) (w : World A X)
      → Distinct (ids l)
      → AllFound w.store l
      → Runs (edges {A = A} reconcile_op) w.store (reconcile_each ports l w).1.store
  unfolding reconcile_each edges
  reconcile_each-Runs [] w n h = stay
  reconcile_each-Runs (c ∷ l) w n h =
      rest (reconcile_one ports c w) ((reconcile_one-Writes ports w.store c h.0).run w refl)
        (λ v q. reconcile_each-Runs l v n.1 (found_later c l q n.0 h.1))
    where
      rest :
          (r : Result Failure (Unit {0}) × World A X)
          → Runs (round_edges ports w.store c) w.store r.1.store
          → ((v : World A X)
              → Runs (round_edges ports w.store c) w.store v.store
              → Runs (edges {A = A} reconcile_op) v.store (reconcile_each ports l v).1.store)
          → Runs
              (edges {A = A} reconcile_op)
              w.store
              (after r (λ u. reconcile_each ports l)).1.store
      rest (ok u, v) q k = Runs-append (Runs-mono (λ k b. b) (λ k a b m. ground arith) q) (k v q)
      rest (err x, v) q k = Runs-mono (λ k b. b) (λ k a b m. ground arith) q

  reconcile-Runs :
      (w : World A X)
      → IsStore w.store
      → Runs (edges {A = A} reconcile_op) w.store (reconcile ports w).1.store
  unfolding reconcile
  reconcile-Runs w h = listed (call ports list_changes w) (call-Keeps ports list_changes w)
    where
      listed :
          (r : Result Failure (Unit {0}) × World A X)
          → SameStore w r.1
          → Runs
              (edges {A = A} reconcile_op)
              w.store
              (after r (λ u v. reconcile_each ports v.store v)).1.store
      listed (ok u, v) q =
          rw (← q.eq)
            (reconcile_each-Runs v.store v (rw q.eq h) (rw q.eq (IsStore-found w.store h)))
      listed (err x, v) q = rw q.eq stay

  -- The value of an operation is left out.
  forget :
      {B : Type 0} {e : Edges} {s : List ChangeRequest} {m : Action (World A X) B}
      → Writes e s m
      → Writes e s (m >> pure tt)
  forget {B} {e} {s} {m} h = then_keep e s m (λ b. pure tt) h (λ b w. record { eq = refl })

  build_after-Keeps :
      (dir : Dir) (hosts : List String) (v : Option Failure) → Keeps (build_after ports dir hosts v)
  unfolding build_after
  build_after-Keeps dir hosts (some x) = λ w. record { eq = refl }
  build_after-Keeps dir hosts none =
      either_way (is_empty hosts) (pure none) (ask (ports.build dir hosts))
        (λ w. record { eq = refl }) (λ w. record { eq = refl })

  run_gate-Keeps :
      (id : String) (dir : Dir) (hosts : List String) → Keeps (run_gate ports id dir hosts)
  unfolding run_gate
  run_gate-Keeps id dir hosts =
      and_then (validate ports dir (gate_ref ports (branch_for id)) hosts)
        (build_after ports dir hosts)
        (validate-Keeps ports dir (gate_ref ports (branch_for id)) hosts)
        (build_after-Keeps dir hosts)

  judge-Keeps : (id : String) (dir : Dir) (hosts : List String) → Keeps (judge ports id dir hosts)
  unfolding judge
  judge-Keeps id dir hosts w = record {
    eq =
        (either_way (is_nothing ports (repo_diff ports (branch_for id) w).0)
          (pure (some nothing_to_validate)) (run_gate ports id dir hosts)
          (λ w. record { eq = refl }) (run_gate-Keeps id dir hosts)
          (repo_diff ports (branch_for id) w).1).eq
        ∙ (repo_diff-Keeps ports (branch_for id) w).eq;
  }

  -- Whatever an operation returns, what it did to a store with one record per id is a run of the
  -- machine along the edges of the operation: at each step a new draft under a free id, or a move of
  -- the stored record that keeps its id, its author, its branch and its time of creation.
  pub run_op-Runs :
      (op : Op A) (w : World A X)
      → IsStore w.store
      → Runs (edges op) w.store (run_op ports op w).1.store
  unfolding run_op
  run_op-Runs (open_op id title a) w h =
      (forget (open_change-Writes ports w.store id title a)).run w refl
  run_op-Runs (edit_op id mut msg hosts) w h =
      (edit-Writes ports w.store id mut msg hosts).run w refl
  run_op-Runs (edit_file_op id path content msg) w h =
      (edit_file-Writes ports w.store id path content msg).run w refl
  run_op-Runs (begin_op id) w h = (forget (begin_submit-Writes ports w.store id)).run w refl
  run_op-Runs (judge_op id dir hosts) w h =
      (forget (kept _ w.store {m = judge ports id dir hosts} (judge-Keeps id dir hosts))).run w refl
  run_op-Runs (finish_op id v) w h = (forget (finish_submit-Writes ports w.store id v)).run w refl
  run_op-Runs (merge_op id a) w h = (forget (merge-Writes ports w.store id a)).run w refl
  run_op-Runs (abandon_op id) w h = (forget (abandon-Writes ports w.store id)).run w refl
  run_op-Runs reconcile_op w h = reconcile-Runs w h
