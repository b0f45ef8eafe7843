-- ===== src/Service/Rollouts/Control/Operator.antt =====
-- What an operator's commands make of the stored run.
use sextant.Service.Rollouts.Outcomes.{store_put-cases, store_get-cases}
use sextant.Service.Rollouts.Control.{
  resumed_run, is_paused, paused_run, resume, pause, edit_run, run_where,
}
use sextant.Common.{
  Time, String, ◌≡◌, refl, sym, ap, ◌∙◌, inl, inr, Bool, true, Option, none, some, arith,
}
use sextant.Common.{none, some, ok, Result, sym, ap, ◌∙◌}
use sextant.Rollout.State.{active, is_active, State, RunStatus}
use sextant.Service.Action.{
  value_or, ◌>>=◌, ◌>>◌, pure, pure, bind-ok, or_raise, failed, or_raise-ok, Failure,
}
use sextant.Service.Rollouts.World.{store_put, ask, store_get, Ports, World, with_outside}

abbrev or_run : State → Option State → State
or_run s none = s
or_run s (some t) = t

first :
    {S B : Type 0} (a b : B) (s t : S) (r r' : Result Failure B × S)
    → r ≡ (ok a, s)
    → r' ≡ (ok b, t)
    → r ≡ r'
    → a ≡ b
first a b s t r r' p q e = ap (λ x. value_or a x.0) (sym p ∙ e ∙ q)

module _ {A X : Type 0} (ports : Ports A X) where
  run_where-some :
      (fits : RunStatus → Bool) (o : Option State) (s : State)
      → run_where fits o ≡ some s
      → (o ≡ some s) × (fits s.status ≡ true)
  run_where-some fits none s h = absurd (cc)
  run_where-some fits (some t) s h = (ground arith, ground arith)

  store_put-ok :
      (s : State) (w w' : World A X) → store_put ports s w ≡ (ok tt, w') → w'.run ≡ some s
  store_put-ok s w w' h = elim (store_put-cases ports s w) [
    | inl (x, p) ↦ ap (λ r. r.1.run) (sym h ∙ p)
    | inr (e, x, p) ↦ absurd (cc)
  ]

  store_get-ok : (w w' : World A X) (o : Option State) → store_get ports w ≡ (ok o, w') → o ≡ w.run
  store_get-ok w w' o h = elim (store_get-cases ports w) [
    | inl (x, g) ↦ first o w.run w' (with_outside x w) _ _ h g refl
    | inr (e, x, g) ↦ absurd (cc)
  ]

  -- A command that succeeds found a run in the right status, and stored what it made of it.
  edit_run-ok :
      (fits : RunStatus → Bool) (text : String) (change : State → Time → State) (w w' : World A X)
      (s : State)
      → edit_run ports fits text change w ≡ (ok s, w')
      → (s0 : State) × (now : Time) × (w.run ≡ some s0)
        × (fits s0.status ≡ true)
        × (s ≡ change s0 now)
        × (w'.run ≡ some s)
  unfolding edit_run
  edit_run-ok fits text change w w' s h =
      let finish =
        λ (s0 : State) (now : Time). store_put ports (change s0 now) >> pure (change s0 now) in
      let (st, w1, g, h1) =
        bind-ok (store_get ports)
          (λ st. or_raise (run_where fits st) (failed text) >>= λ s0. ask ports.clock >>= finish s0)
          w s w' h in
      let (s0, w2, r, h2) =
        bind-ok (or_raise (run_where fits st) (failed text)) (λ s0. ask ports.clock >>= finish s0)
          w1 s w' h1 in
      let (now, w3, c, h3) = bind-ok (ask ports.clock) (finish s0) w2 s w' h2 in
      let (u, w4, p, h4) =
        bind-ok (store_put ports (change s0 now)) (λ u. pure (change s0 now)) w3 s w' h3 in
      let (found, same) = or_raise-ok (run_where fits st) (failed text) w1 s0 w2 r in
      let (is, right) = run_where-some fits st s0 found in
      (
        s0,
        now,
        sym (store_get-ok w w1 st g) ∙ is,
        right,
        sym (first (change s0 now) s w4 w' (ok (change s0 now), w4) (ok s, w') refl refl h4),
        ap (λ v. v.run) (sym (ap (λ r. r.1) h4))
            ∙ store_put-ok (change s0 now) w3 w4 p
            ∙ ap some
                (first (change s0 now) s w4 w' (ok (change s0 now), w4) (ok s, w') refl refl h4),
      )

  active-status : (t : RunStatus) → is_active t ≡ true → active ≡ t
  active-status t h = ground arith

  -- A run that is paused and resumed is the run that it was, but for its reason, which is cleared, and
  -- the time of its last change.
  pub resume-pause :
      (w w' w'' : World A X) (s s' : State)
      → pause ports w ≡ (ok s, w')
      → resume ports w' ≡ (ok s', w'')
      → (s0 : State) × (now : Time) × (w.run ≡ some s0)
        × (w''.run ≡ some (record s0 { reason = ""; updated = now }))
  unfolding pause resume
  resume-pause w w' w'' s s' h k =
      let (s0, n, found, right, made, kept) =
        edit_run-ok is_active "no active rollout to pause" paused_run w w' s h in
      let (s1, m, found', right', made', kept') =
        edit_run-ok is_paused "no paused rollout to resume" resumed_run w' w'' s' k in
      let same : s1 ≡ s = ap (or_run s) (sym found' ∙ kept) in
      let fresh : State → State = λ t. resumed_run t m in
      (
        s0,
        m,
        found,
        kept'
            ∙ ap some (
                made'
                ∙ ap fresh (same ∙ made)
                ∙ ap (λ t. record s0 { status = t; reason = ""; updated = m })
                    (active-status s0.status right)),
      )
