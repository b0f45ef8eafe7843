-- ===== src/Service/Changes/Refines.antt =====
-- The operations of the change service refine the machine on its store.
pub mod Land
pub mod All
use sextant.Service.Changes.Submit.{begin_submit}
use sextant.Service.Changes.Tree.{gate_scope, cleanup, ensure_worktree, publish_branch}
use sextant.Service.Changes.Ops.{abandon_op, begin_op, edit_file_op, edit_op, edges}
use sextant.Common.{
  Bool-cases, String, eq_iff, ◌≡◌, refl, inl, inr, true, ◌&&◌, ◌||◌, some, List, [], ◌∷◌, arith,
}
use sextant.Common.{[], ◌∷◌, some, true, inl, inr}
use sextant.Common.{[], ◌∷◌, some, true, inl, inr}
use sextant.Common.{[], ◌∷◌, some, true, inl, inr}
use sextant.Common.{Result, true, inl, inr}
use sextant.Change.{
  Status, building, abandoned, gate_hosts, record_hosts, ChangeRequest, draft, failed, same,
  same_iff,
}
use sextant.Fleet.Model.{Fleet}
use sextant.Service.Action.{Failure, ◌>>=◌, pure, Gives, bind-Gives}
use sextant.Service.Changes.World.{
  Dir, save_change, tree_dir, with_outside, store_put, find_change, World, Ports, step_to,
}
use sextant.Service.Changes.Draft.{
  commit_tree, write_tree, abandon, edit_file, edit, record_edit, rework, edit_tree, accepts_edits,
}
use sextant.Service.Changes.Machine.{Step, advance, Edges, SameOrigin}
use sextant.Service.Changes.Frame.{
  gate_scope-Keeps, cleanup-Keeps, commit_tree-Keeps, write_tree-Keeps, publish_branch-Keeps,
  ensure_worktree-Keeps, Keeps, and_then, either_way,
}
use sextant.Service.Changes.Writes.{
  then_keep, store_put-Writes, guard, keep_then, looked_up, keep_given, Writes, IsStep,
  step_to-Keeps, step_to-Gives,
}

-- The moves that an edit may make.
abbrev EditMove : ChangeRequest → ChangeRequest → Type 0
EditMove c d =
    SameOrigin c d × ((same d.status draft && (same c.status draft || same c.status failed)) ≡ true)

module _ {A X : Type 0} (ports : Ports A X) (s : List ChangeRequest) where
  edit_tree-Keeps :
      (c : ChangeRequest) (mut : Fleet A → Result Failure (Fleet A)) (msg : String)
      (hosts : List String)
      → Keeps (edit_tree ports c mut msg hosts)
  unfolding edit_tree
  edit_tree-Keeps c mut msg hosts w = record { eq = refl }

  rework-Keeps : (c : ChangeRequest) → Keeps (rework ports c)
  unfolding rework
  rework-Keeps c =
      either_way (same c.status failed)
        (step_to ports c draft >>= λ d. pure (record d { error = "" })) (pure c)
        (and_then (step_to ports c draft) (λ d. pure (record d { error = "" }))
          (step_to-Keeps ports c draft) (λ d w. record { eq = refl }))
        (λ w. record { eq = refl })

  rework-Gives :
      (c : ChangeRequest) → accepts_edits c.status ≡ true → Gives (EditMove c) (rework ports c)
  unfolding rework
  rework-Gives c h w d k = elim (Bool-cases (same c.status failed)) [
    | inl f ↦
        bind-Gives (IsStep c draft) (λ d. pure (record d { error = "" })) (EditMove c)
          (step_to ports c draft) (step_to-Gives ports c draft)
          (λ d st w d' q.
            let (o1, o2, o3, o4) = st.origin in
            let e = same_iff d.status draft in ground (arith, st.status, e, f))
          w d (rw (f, rework) at k)
    | inr f ↦ ground (arith, rw (f, rework) at k, f, h)
  ]

  record_hosts-origin :
      (c : ChangeRequest) (hosts : List String)
      → SameOrigin c (record_hosts c hosts) × ((record_hosts c hosts).status ≡ c.status)
  unfolding record_hosts
  record_hosts-origin c [] = ((refl, refl, refl, refl), refl)
  record_hosts-origin c (h ∷ hs) = ((refl, refl, refl, refl), refl)

  abbrev stamped : ChangeRequest → World A X → ChangeRequest
  stamped d w = record d { updated = (ports.clock w.outside).0 }

  -- The change `c` is stored as `c0`, and differs from it in what an edit writes.
  record_edit-Writes :
      (e : Edges) (c0 c : ChangeRequest)
      → find_change c0.id s ≡ some c0
      → SameOrigin c0 c × (c.status ≡ c0.status)
      → accepts_edits c0.status ≡ true
      → e.moves c0.id c0.status draft ≡ true
      → Writes e s (record_edit ports c)
  unfolding record_edit
  record_edit-Writes e c0 c f ((o1, o2, o3, o4), q) a m =
      keep_given e s (rework ports c) _ (EditMove c) (rework-Keeps c) (rework-Gives c (rw q a))
        (λ d (o, t). record {
          run = λ w p.
              (keep_then e s (publish_branch ports (stamped d w))
                  (λ u. store_put ports (stamped d w)) (publish_branch-Keeps ports (stamped d w))
                  (λ u. store_put-Writes e s ports (stamped d w) (
                    advance c0 (stamped d w) (ground arith)
                      (ground arith, ground arith, ground arith, ground arith)
                      (ground (arith, same_iff d.status draft)) refl))).run
                (with_outside (ports.clock w.outside).1 w) p;
        })

  pub edit-Writes :
      (id : String) (mut : Fleet A → Result Failure (Fleet A)) (msg : String) (hosts : List String)
      → Writes (edges (edit_op id mut msg hosts)) s (edit ports id mut msg hosts)
  unfolding edit edges
  edit-Writes id mut msg hosts = looked_up _ s ports id _ (λ c f i. guard _ s _ _ _ (λ a.
      keep_then _ s (ensure_worktree ports c) _ (ensure_worktree-Keeps ports c) (λ u.
        keep_then _ s (edit_tree ports c mut msg hosts) _ (edit_tree-Keeps c mut msg hosts) (λ u.
          record_edit-Writes _ c (record_hosts c hosts) (cc (i, f)) (record_hosts-origin c hosts)
            (ground arith) (ground (arith, eq_iff c.id id))))))

  pub edit_file-Writes :
      (id path content msg : String)
      → Writes
          (edges {A = A} (edit_file_op id path content msg))
          s
          (edit_file ports id path content msg)
  unfolding edit_file edges
  edit_file-Writes id path content msg = looked_up _ s ports id _ (λ c f i. guard _ s _ _ _ (λ a.
      keep_then _ s (ensure_worktree ports c) _ (ensure_worktree-Keeps ports c) (λ u.
        keep_then _ s (write_tree ports c path content) _ (write_tree-Keeps ports c path content)
          (λ u.
            keep_then _ s (commit_tree ports c path content msg) _
              (commit_tree-Keeps ports c path content msg)
              (λ u.
                record_edit-Writes _ c (record_hosts c []) (cc (i, f)) (record_hosts-origin c [])
                  (ground arith) (ground (arith, eq_iff c.id id)))))))

  -- A stored change that takes a legal step.
  pub by_step :
      (e : Edges) {id : String} {to : Status} (c d : ChangeRequest)
      → find_change id s ≡ some c
      → c.id ≡ id
      → IsStep c to d
      → e.moves id c.status to ≡ true
      → Step e s (save_change d s)
  by_step e c d f i st m =
      let (o1, o2, o3, o4) = st.origin in
      advance c d (cc (o1, i, f)) st.origin (cc (o1, i, st.status, m)) refl

  pub begin_submit-Writes :
      (id : String) → Writes (edges {A = A} (begin_op id)) s (begin_submit ports id)
  unfolding begin_submit edges
  begin_submit-Writes id = looked_up _ s ports id _ (λ c f i.
      keep_then _ s (ensure_worktree ports c) _ (ensure_worktree-Keeps ports c) (λ u.
        keep_given _ s (step_to ports c building) _ (IsStep c building)
          (step_to-Keeps ports c building) (step_to-Gives ports c building)
          (λ d st.
            then_keep _ s (store_put ports d) _
              (store_put-Writes _ s ports d
                (by_step _ c d f i st (ground (arith, eq_iff id id, st.edge))))
              (λ u.
                and_then {C = Dir × List String} (gate_scope ports (tree_dir c.id) (gate_hosts d))
                  (λ hosts. pure (tree_dir c.id, hosts))
                  (gate_scope-Keeps ports (tree_dir c.id) (gate_hosts d))
                  (λ hosts w. record { eq = refl })))))

  pub abandon-Writes : (id : String) → Writes (edges {A = A} (abandon_op id)) s (abandon ports id)
  unfolding abandon edges
  abandon-Writes id = looked_up _ s ports id _ (λ c f i.
      keep_given _ s (step_to ports c abandoned) _ (IsStep c abandoned)
        (step_to-Keeps ports c abandoned) (step_to-Gives ports c abandoned)
        (λ d st. keep_then _ s (cleanup ports d) _ (cleanup-Keeps ports d) (λ u.
          then_keep _ s (store_put ports d) _
            (store_put-Writes _ s ports d
              (by_step _ c d f i st (ground (arith, eq_iff id id, st.edge))))
            (λ u w. record { eq = refl }))))
