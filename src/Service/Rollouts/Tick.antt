-- ===== src/Service/Rollouts/Tick.antt =====
-- internal/app/rollout.go: one tick of the engine.
pub mod Held
pub mod Stores
pub mod Progress
pub mod Branches
pub mod Moves
use sextant.Service.Rollouts.Plan.{run_rings}
use sextant.Service.Rollouts.Waves.{cohort_fixup, ensure_ring_built, release_cohort}
use sextant.Service.Rollouts.World.{
  ask, with_outside, ask_or_fail, store_get, store_put, move_ring_ref, apply, World, Ports,
}
use sextant.Fleet.Model.{Fleet}
use sextant.Common.{
  err, ok, Result, if◌then◌else◌, ◌<>◌, itoa_ℤ, pos, leb_ℤ, ◌+ℤ◌, Time, String, Option, none, some,
  List, [], ◌∷◌,
}
use sextant.Fleet.Populations.{affected_hosts}
use sextant.Fleet.Edit.{set_group_pin}
use sextant.Rollout.Ring.{Ring, RingStatus, group_list, converged}
use sextant.Rollout.State.{
  ActionKind, is_active, State, Action as Decision, halted, completed, delete_stamp, set_stamp,
  stamp_at, normalize, note, promote, wait, advance, widen_cohort, halt, await_approval, done,
}
use sextant.Rollout.Decide.{decide, wave_at}
use sextant.Service.Action.{
  failed, panicked, Action, Failure, ◌>>=◌, ◌>>◌, pure, gets, lifted, or_raise,
}

-- What a tick returns: the action, where there is one, and the run.
abbrev pub Ticked : Type 0
Ticked = Option Decision × Option State

-- The first convergence that a tick sees is written down; `none` is a write to a nil map, or a
-- negative index.
unfoldable pub seen_converged : List Ring → State → RingStatus → Time → Option State
seen_converged rings s rs now = elim (wave_at rings s.ring) [
  | none ↦ if leb_ℤ (pos 0) s.ring then some s else none
  | some r ↦
      if converged r rs
      then elim (stamp_at s.converged_at s.ring) [
        | some t ↦ some s
        | none ↦ elim (set_stamp s.converged_at s.ring now) [
          | none ↦ none
          | some stamps ↦ some (record s { converged_at = stamps })
        ]
      ]
      else some s
]

-- `st.PromotedAt[st.Ring] = now`
unfoldable pub promoted : State → Time → Option State
promoted s now = elim (set_stamp s.promoted_at s.ring now) [
  | none ↦ none
  | some stamps ↦ some (record s { promoted_at = stamps })
]

module _ {A : Type 0} where
  -- `fleet.SetGroupPin`, its error as a text
  abbrev pub pin_group : String → String → Fleet A → Result Failure (Fleet A)
  pin_group g target f = elim (set_group_pin g target f) [
    | ok f' ↦ ok f'
    | err e ↦ err (failed ("unknown group " <> g))
  ]

  module _ {X : Type 0} (ports : Ports A X) where
    -- `notifyDone`, to the groups of the audience; an error of the notifier is dropped.
    abbrev pub notify : String → Action (World A X) (Unit {0})
    notify title w = (ok tt, with_outside (ports.emit title w.outside) w)

    -- The commit of one pin.
    abbrev pub pin_call : State → String → List String → Action (World A X) (Unit {0})
    pin_call s g hosts =
        apply ports (pin_group g s.target)
          ("rollout: pin ring " <> itoa_ℤ s.ring <> " (" <> g <> ") to " <> s.target) hosts

    -- The loop that commits the pins.
    unfoldable pub pin_groups : State → List String → Action (World A X) (Unit {0})
    unfolding apply
    pin_groups s [] = pure tt
    pin_groups s (g ∷ gs) = do
      hosts ← gets (λ w. affected_hosts w.fleet ("group:" <> g))
      pin_call s g hosts
      pin_groups s gs

    -- The loop that moves the branches.
    unfoldable pub move_refs : String → List String → Action (World A X) (Unit {0})
    unfolding move_ring_ref
    move_refs rev [] = pure tt
    move_refs rev (g ∷ gs) = do move_ring_ref ports g rev; move_refs rev gs

    -- The end of a tick: the explanation is kept and the run is stored.
    unfoldable pub finish : Decision → Time → State → Action (World A X) Ticked
    unfolding store_put
    finish act now s = do
      let s' = record (note s act now) { updated = now }
      store_put ports s'
      pure (some act, some s')

    -- A promotion that the build holds.
    unfoldable pub await_build : Decision → Time → State → Action (World A X) Ticked
    unfolding store_put
    await_build act now s = do
      let s' = record s { updated = now }
      store_put ports s'
      pure (some act, some s')

    -- The branches of the wave, where there are any.
    unfoldable pub offer_wave : String → List String → Action (World A X) (Unit {0})
    unfolding move_refs
    offer_wave rev gs = if ports.has_refs then move_refs rev gs else pure tt

    unfoldable pub mark_promoted : Decision → Time → State → Action (World A X) Ticked
    unfolding promoted finish
    mark_promoted act now s = do s' ← or_raise (promoted s now) panicked; finish act now s'

    -- The release of a wave that is built.
    unfoldable pub release_wave : Decision → Time → Ring → State → Action (World A X) Ticked
    unfolding pin_groups release_cohort offer_wave mark_promoted
    release_wave act now r s = do
      pin_groups s (group_list r)
      release_cohort ports r
      offer_wave s.target (group_list r)
      mark_promoted act now s

    unfoldable pub promote_wave : Decision → Time → Ring → State → Action (World A X) Ticked
    unfolding ensure_ring_built await_build release_wave
    promote_wave act now r s = do
      built ← ensure_ring_built ports s r now
      if built.0 then release_wave act now r built.1 else await_build act now built.1

    unfoldable pub widen_wave : Decision → Time → Ring → State → Action (World A X) Ticked
    unfolding release_cohort finish
    widen_wave act now r s = do
      release_cohort ports r
      finish act now (record s { converged_at = delete_stamp s.converged_at s.ring })

    -- The `switch` of `Tick`, on the kind of the action `act`.
    unfoldable pub carry_out :
        ActionKind → List Ring → RingStatus → Time → Decision → State → Action (World A X) Ticked
    unfolding promote_wave widen_wave seen_converged finish
    carry_out promote rings rs now act s = do
      r ← or_raise (wave_at rings s.ring) panicked
      promote_wave act now r s
    carry_out widen_cohort rings rs now act s = do
      r ← or_raise (wave_at rings s.ring) panicked
      widen_wave act now r s
    carry_out wait rings rs now act s = do
      s' ← or_raise (seen_converged rings s rs now) panicked
      finish act now s'
    carry_out await_approval rings rs now act s = finish act now s
    carry_out advance rings rs now act s = finish act now (record s { ring = s.ring +ℤ pos 1 })
    carry_out halt rings rs now act s =
        finish act now (record s { status = halted; reason = act.reason })
    carry_out done rings rs now act s = do
      notify "Rollout complete"
      finish act now (record s { status = completed; reason = act.reason })

    abbrev pub no_status : RingStatus
    no_status = record {
      total = 0;
      on_target = 0;
      healthy = 0;
      broken = 0;
      absent = 0;
      released = 0;
      group_total = 0;
    }

    abbrev pub observe_wave : Option Time → Option Ring → State → Action (World A X) RingStatus
    observe_wave none r s = pure no_status
    observe_wave (some t) none s =
        or_raise (if leb_ℤ (pos 0) s.ring then some no_status else none) panicked
    observe_wave (some t) (some r) s = do
      rs ← ask_or_fail (ports.ring_status (group_list r) s.target)
      gets (λ w. cohort_fixup w.fleet r rs)

    -- What the tick sees of the current wave.
    unfoldable pub observe : List Ring → State → Action (World A X) RingStatus
    observe rings s = observe_wave (stamp_at s.promoted_at s.ring) (wave_at rings s.ring) s

    -- What the tick does with what it saw.
    unfoldable pub act_on : List Ring → State → Time → RingStatus → Action (World A X) Ticked
    unfolding carry_out
    act_on rings s now rs = or_raise (decide ports.format rings s rs now) panicked >>= λ act.
        carry_out act.kind rings rs now act s

    -- The tick of an active run.
    unfoldable pub tick_run : State → Action (World A X) Ticked
    unfolding observe act_on
    tick_run s = do
      f ← gets (λ w. w.fleet)
      rings ← lifted (run_rings f s)
      now ← ask ports.clock
      rs ← observe rings s
      act_on rings s now rs

    -- What `Tick` does with the stored run.
    unfoldable pub tick_from : Option State → Action (World A X) Ticked
    unfolding tick_run
    tick_from none = pure (none, none)
    tick_from (some s) = if is_active s.status then tick_run (normalize s) else pure (none, some s)

    -- `Tick`
    unfoldable pub tick : Action (World A X) Ticked
    unfolding store_get tick_from
    tick = do st ← store_get ports; tick_from st
