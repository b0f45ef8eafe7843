-- ===== src/Service/Rollouts/Control.antt =====
-- internal/app/rollout.go: what an operator does to a run.
pub mod Operator
use sextant.Common.{Time, String, ok, if◌then◌else◌, Bool, true, false, Option, none, some}
use sextant.Rollout.State.{
  is_active, State, RunStatus, active, paused, halted, cancelled, done, note, normalize,
}
use sextant.Rollout.State.{approve as approve_run}
use sextant.Service.Action.{failed, Action, ◌>>=◌, ◌>>◌, pure, or_raise}
use sextant.Service.Rollouts.World.{Ports, World, Call, cancel_builds, ask, store_get, store_put}

-- A run that is not finished.
abbrev pub in_flight : RunStatus → Bool
in_flight active = true
in_flight paused = true
in_flight halted = true
in_flight _ = false

abbrev pub is_paused : RunStatus → Bool
is_paused paused = true
is_paused _ = false

-- `st == nil || ...` with the test of the status
abbrev pub run_where : (RunStatus → Bool) → Option State → Option State
run_where p none = none
run_where p (some s) = if p s.status then some s else none

abbrev pub paused_run : State → Time → State
paused_run s now = record s { status = paused; reason = "paused by operator"; updated = now }

abbrev pub resumed_run : State → Time → State
resumed_run s now = record s { status = active; reason = ""; updated = now }

module _ {A X : Type 0} (ports : Ports A X) where
  -- A call whose error is logged and dropped.
  abbrev pub best_effort : Call → Action (World A X) (Unit {0})
  best_effort c w = (ok tt, record w { outside = (ports.attempt c w.outside).1 })

  -- `Cancel`; the builder is told after the run is marked and before it is stored
  unfoldable pub cancel : Action (World A X) State
  unfolding store_get store_put
  cancel = do
    st ← store_get ports
    s ← or_raise (run_where in_flight st) (failed "no rollout to cancel")
    noted ← ask ports.clock
    now ← ask ports.clock
    let s' =
        record (note (record s { status = cancelled })
          (record { kind = done; reason = "cancelled" }) noted) { updated = now }
    elim ports.builder [ none ↦ pure tt | some _ ↦ best_effort cancel_builds ]
    store_put ports s'
    pure s'

  -- `Approve`
  unfoldable pub approve : Action (World A X) State
  unfolding store_get store_put
  approve = do
    st ← store_get ports
    s ← or_raise (run_where is_active st) (failed "no active rollout")
    approved ← ask ports.clock
    now ← ask ports.clock
    let s' = record (approve_run (normalize s) approved) { updated = now }
    store_put ports s'
    pure s'

  -- The steps that `Pause` and `Resume` share: a run in the right status is changed and stored.
  unfoldable pub edit_run :
      (RunStatus → Bool) → String → (State → Time → State) → Action (World A X) State
  unfolding store_get store_put
  edit_run fits text change = do
    st ← store_get ports
    s ← or_raise (run_where fits st) (failed text)
    now ← ask ports.clock
    store_put ports (change s now)
    pure (change s now)

  -- `Pause`
  unfoldable pub pause : Action (World A X) State
  unfolding edit_run
  pause = edit_run is_active "no active rollout to pause" paused_run

  -- `Resume`
  unfoldable pub resume : Action (World A X) State
  unfolding edit_run
  resume = edit_run is_paused "no paused rollout to resume" resumed_run
