-- ===== src/Service/Changes/Verdict.antt =====
-- What Submit answers, and what Open leaves behind when it fails.
use sextant.Common.{
  Bool-cases, is_empty, String, ◌≡◌, ap, ◌⊎◌, inl, inr, false, Option, none, some, List,
}
use sextant.Common.{none, some, false, inl, inr, ok}
use sextant.Common.{none, some, false, inl, inr, ok}
use sextant.Change.{ChangeRequest, failed, ready, branch_for}
use sextant.Service.Action.{Failure, bind-ok}
use sextant.Service.Changes.World.{World, Ports, Dir, store_put, must_get, repo_diff, ask}
use sextant.Service.Changes.Tree.{validate, gate_ref}
use sextant.Service.Changes.Submit.{
  begin_submit, record_verdict, finish_submit, build_after, is_nothing, run_gate, judge, submit,
}
use sextant.Service.Changes.Ops.{verdict_status}
use sextant.Service.Changes.Refines.Land.{record_verdict-Gives}

module _ {A X : Type 0} (ports : Ports A X) where
  -- What a change is ready by: the branch has something to validate, or no diff that could be read,
  -- the gate accepted it, and so did the builder, where there are hosts to build.
  pub record IsProved (id : String) (dir : Dir) (hosts : List String) (w : World A X) : Type 0 where
    pub diff : is_nothing ports (repo_diff ports (branch_for id) w).0 ≡ false
    pub gate :
        (validate ports dir
          (gate_ref ports (branch_for id))
          hosts
          (repo_diff ports (branch_for id) w).1).0
        ≡ ok none
    pub build :
        is_empty hosts ≡ false
        → (ports.build dir hosts
            (validate ports dir
              (gate_ref ports (branch_for id))
              hosts
              (repo_diff ports (branch_for id) w).1).1.outside).0
          ≡ none

  judge-IsProved :
      (id : String) (dir : Dir) (hosts : List String) (w v : World A X)
      → judge ports id dir hosts w ≡ (ok none, v)
      → IsProved id dir hosts w
  unfolding judge run_gate build_after
  judge-IsProved id dir hosts w v h =
      elim (Bool-cases (is_nothing ports (repo_diff ports (branch_for id) w).0)) [
        | inl n ↦ absurd (cc (rw (n, judge) at h))
        | inr n ↦
            let (verdict, u, g, b) =
              bind-ok (validate ports dir (gate_ref ports (branch_for id)) hosts)
                (build_after ports dir hosts) (repo_diff ports (branch_for id) w).1 none v
                (rw (n, judge) at h) in
            gated n verdict u g b
      ]
    where
      gated :
          is_nothing ports (repo_diff ports (branch_for id) w).0 ≡ false
          → (verdict : Option Failure) (u : World A X)
          → validate ports dir
              (gate_ref ports (branch_for id))
              hosts
              (repo_diff ports (branch_for id) w).1
            ≡ (ok verdict, u)
          → build_after ports dir hosts verdict u ≡ (ok none, v)
          → IsProved id dir hosts w
      gated n (some e) u g b = absurd (cc (b))
      gated n none u g b = record {
        diff = n;
        gate = ap (λ r. r.0) g;
        build = λ m. built m (rw (m, build_after) at b);
      }
        where
          built :
              is_empty hosts ≡ false
              → ask (ports.build dir hosts) u ≡ (ok none, v)
              → (ports.build dir hosts
                  (validate ports dir
                    (gate_ref ports (branch_for id))
                    hosts
                    (repo_diff ports (branch_for id) w).1).1.outside).0
                ≡ none
          built m q = cc (g, q)

  -- The change that `finishSubmit` returns has the status of the verdict.
  finish_submit-status :
      (id : String) (v : Option Failure) (w u : World A X) (d : ChangeRequest)
      → finish_submit ports id v w ≡ (ok d, u)
      → d.status ≡ verdict_status v
  unfolding finish_submit
  finish_submit-status id v w u d h =
      let (c, w1, g, k) = bind-ok (must_get ports id) _ w d u h in
      let (d', w2, r, k2) = bind-ok (record_verdict ports c v) _ w1 d u k in
      let (x, w3, p, k3) = bind-ok (store_put ports d') _ w2 d u k2 in
      let st = record_verdict-Gives ports c v w1 d' (ap (λ r. r.0) r) in cc (st.status, k3)

  -- A Submit that answers gives a failed change, or a ready one whose branch had something to validate,
  -- or no diff that could be read, and which the gate accepted, and the builder where there are hosts
  -- to build.
  pub submit-IsProved :
      (id : String) (w u : World A X) (d : ChangeRequest)
      → submit ports id w ≡ (ok d, u)
      → (d.status ≡ failed)
        ⊎ ((d.status ≡ ready)
            × (dir : Dir) × (hosts : List String) × (v : World A X) × ((begin_submit ports id w)
                ≡ (ok (dir, hosts), v))
            × IsProved id dir hosts v)
  unfolding submit
  submit-IsProved id w u d h =
      let ((dir, hosts), w1, b, k) = bind-ok (begin_submit ports id) _ w d u h in
      let (verdict, w2, j, f) = bind-ok (judge ports id dir hosts) _ w1 d u k in
      ended dir hosts w1 w2 b verdict j (finish_submit-status id verdict w2 u d f)
    where
      ended :
          (dir : Dir) (hosts : List String) (w1 w2 : World A X)
          → begin_submit ports id w ≡ (ok (dir, hosts), w1)
          → (verdict : Option Failure) → judge ports id dir hosts w1 ≡ (ok verdict, w2)
          → d.status ≡ verdict_status verdict
          → (d.status ≡ failed)
            ⊎ ((d.status ≡ ready)
                × (dir : Dir) × (hosts : List String) × (v : World A X) × ((begin_submit ports id w)
                    ≡ (ok (dir, hosts), v))
                × IsProved id dir hosts v)
      ended dir hosts w1 w2 b (some e) j s = inl s
      ended dir hosts w1 w2 b none j s =
          inr (s, dir, hosts, w1, b, judge-IsProved id dir hosts w1 w2 j)
