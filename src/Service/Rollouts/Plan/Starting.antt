-- ===== src/Service/Rollouts/Plan/Starting.antt =====
-- What a start that succeeds stores.
use sextant.Service.Action.{lifted-ok, value_or}
use sextant.Service.Rollouts.Outcomes.{store_get-cases, store_put-cases}
use sextant.Rollout.State.{active, new_state, State}
use sextant.Service.Rollouts.World.{with_outside, World, Ports}
use sextant.Common.{
  ◌∙◌, String_Testable, sym, ap, ◌==◌, inl, Bool-cases, inr, true, false, [], ◌∷◌, some, ok, String,
  ◌∷◌, map, if◌then◌else◌, List, Bool, ◌≤ℤ◌, pos, ◌≡◌, arith,
}
use sextant.Rollout.Ring.{Ring}
use sextant.Service.Rollouts.Plan.{
  shaped_rings, start_with, is_running, StartOpts, start_rings, begin_run, shorten,
}

-- A wave of an expedited run keeps its evidence and its thresholds, and soaks for at most 5 minutes.
pub record IsExpedited (r r' : Ring) : Type 0 where
  pub group : r'.group ≡ r.group
  pub groups : r'.groups ≡ r.groups
  pub health : r'.min_healthy_percent ≡ r.min_healthy_percent
  pub approval : r'.require_approval ≡ r.require_approval
  pub evidence : r'.min_devices ≡ r.min_devices
  pub cohort : r'.max_devices ≡ r.max_devices
  pub soak : r'.soak_minutes ≤ℤ pos 5

shorten-IsExpedited : (r : Ring) → IsExpedited r (shorten r)
unfolding shorten
shorten-IsExpedited r = record {
  group = ground arith;
  groups = ground arith;
  health = ground arith;
  approval = ground arith;
  evidence = ground arith;
  cohort = ground arith;
  soak = ground arith;
}

-- The waves of a run: those that the options ask for, or those in their expedited form.
abbrev pub run_plan : Bool → List Ring → List Ring
run_plan expedited rings = if expedited then map shorten rings else rings

-- Each wave of the run against the wave that it comes from.
abbrev pub AllExpedited : List Ring → List Ring → Type 0
AllExpedited [] [] = Unit {0}
AllExpedited (r ∷ rs) (r' ∷ rs') = IsExpedited r r' × AllExpedited rs rs'
AllExpedited _ _ = ⊥

expedited_all : (rs : List Ring) → AllExpedited rs (map shorten rs)
expedited_all [] = tt
expedited_all (r ∷ rs) = (shorten-IsExpedited r, expedited_all rs)

module _ {A X : Type 0} (ports : Ports A X) where
  begin_run-ok :
      (target : String) (opts : StartOpts) (rings : List Ring) (w w' : World A X) (s : State)
      → begin_run ports target opts rings w ≡ (ok s, w')
      → (w'.run ≡ some s)
        × (s.target ≡ target)
        × (s.status ≡ active)
        × (s.ring ≡ pos 0)
        × (s.rings ≡ run_plan opts.expedited rings)
  unfolding begin_run new_state
  begin_run-ok target opts rings w w' s h =
      let now = (ports.clock w.outside).0 in
      let s1 = record (new_state target now) {
        rings = run_plan opts.expedited rings;
        change_id = opts.change_id;
        change_title = opts.change_title;
      } in
      elim (store_put-cases ports s1 (with_outside (ports.clock w.outside).1 w)) [
        | inr (e, x, p) ↦ absurd (cc (rw (p, begin_run) at h))
        | inl (x, p) ↦
            let made = rw (p, begin_run) at h in
            let e : s1 ≡ s = ap (λ r. value_or s r.0) made in
            (
              ap (λ r. r.1.run) (sym made) ∙ ap some e,
              ap (λ t. t.target) (sym e),
              ap (λ t. t.status) (sym e),
              ap (λ t. t.ring) (sym e),
              ap (λ t. t.rings) (sym e),
            )
      ]

  start_rings-ok :
      (target : String) (opts : StartOpts) (rings : List Ring) (w w' : World A X) (s : State)
      → start_rings ports target opts rings w ≡ (ok s, w')
      → (is_running w.run ≡ false)
        × ((w'.run ≡ some s)
            × (s.target ≡ target)
            × (s.status ≡ active)
            × (s.ring ≡ pos 0)
            × (s.rings ≡ run_plan opts.expedited rings))
  unfolding start_rings
  start_rings-ok target opts rings w w' s h = elim (store_get-cases ports w) [
    | inr (e, x, g) ↦ absurd (cc (rw (g, start_rings) at h))
    | inl (x, g) ↦ elim (Bool-cases (is_running w.run)) [
      | inl r ↦ absurd (cc (rw r at (rw (g, start_rings) at h)))
      | inr r ↦ (
        r,
        begin_run-ok target opts rings (with_outside x w) w' s (rw r at (rw (g, start_rings) at h)),
      )
    ]
  ]

  -- A start that succeeds finds no active run, and stores a new active run to the target, on the first of
  -- the waves that the options ask for; an expedited run keeps the evidence and the thresholds of each of
  -- these waves and soaks for at most 5 minutes.
  pub start_with-ok :
      (target : String) (opts : StartOpts) (w w' : World A X) (s : State)
      → start_with ports target opts w ≡ (ok s, w')
      → (rings : List Ring) × (shaped_rings w.fleet opts ≡ ok rings)
        × (is_running w.run ≡ false)
        × (w'.run ≡ some s)
        × (s.target ≡ target)
        × (s.status ≡ active)
        × (s.ring ≡ pos 0)
        × (s.rings ≡ run_plan opts.expedited rings)
        × AllExpedited rings (run_plan true rings)
  unfolding start_with
  start_with-ok target opts w w' s h = elim (Bool-cases (target == "")) [
    | inl e ↦ absurd (cc (rw (e, start_with) at h))
    | inr e ↦
        let (rings, shaped, h') =
          lifted-ok (shaped_rings w.fleet opts) (start_rings ports target opts) w s w'
            (rw (e, start_with) at h) in
        let (idle, (k, t, a, i, r)) = start_rings-ok target opts rings w w' s h' in
        (rings, shaped, idle, k, t, a, i, r, expedited_all rings)
  ]
