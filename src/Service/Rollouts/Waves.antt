-- ===== src/Service/Rollouts/Waves.antt =====
-- internal/app/rollout.go: what one wave needs before its
-- release, and the release of its cohort.
use sextant.Common.{
  ok, err, Result, leb, if◌then◌else◌, length, is_empty, leb_ℤ, ℤ, pos, negsuc, ◌<>◌, Time, lookup,
  take, drop, ℕ, ◌+◌, String, Bool, true, false, ◌&&◌, Option, none, some, List, [], ◌∷◌, ◌++◌,
}
use sextant.Fleet.Model.{Fleet}
use sextant.Fleet.Device.{put_device}
use sextant.Fleet.Populations.{
  active_group_devices, converging_group_devices, released_group_devices,
}
use sextant.Rollout.Ring.{Ring, RingStatus, group_list, next_release}
use sextant.Rollout.State.{State, halted, delete_stamp, set_stamp, stamp_at}
use sextant.Service.Action.{gets, panicked, failed, Action, Failure, ◌>>=◌, ◌>>◌, pure, or_raise}
use sextant.Service.Rollouts.World.{
  ask, build_done, build_failed, build_building, World, apply, Ports, BuildState,
}

-- `xs[lo:hi]`, which panics out of range
abbrev pub slice : ℕ → ℤ → List String → Option (List String)
slice lo (pos hi) xs = if leb lo hi && leb hi (length xs) then some (drop lo (take hi xs)) else none
slice lo (negsuc _) xs = none

module _ {A : Type 0} where
  -- `SetDevicePin`
  unfoldable pub set_device_pin : String → String → Fleet A → Result Failure (Fleet A)
  set_device_pin tag ring f = elim (lookup tag f.devices) [
    | none ↦ err (failed ("unknown device " <> tag))
    | some d ↦ ok (put_device tag (record d { pin = ring }) f)
  ]

  -- The sum of `cohortFixup`.
  unfoldable pub group_total : Fleet A → List String → ℕ
  group_total f [] = 0
  group_total f (g ∷ gs) = length (converging_group_devices f g) + group_total f gs

  -- `cohortFixup`
  unfoldable pub cohort_fixup : Fleet A → Ring → RingStatus → RingStatus
  unfolding group_total
  cohort_fixup f r rs = record rs {
    released = rs.total;
    group_total = group_total f (group_list r);
  }

  -- The devices that the next batch of a group releases; `none` is a slice out of range.
  unfoldable pub next_batch : Fleet A → Ring → String → Option (List String)
  next_batch f r g =
      let active = converging_group_devices f g in
      let released = length (released_group_devices f g) in
      slice released (next_release r (length active) released) active

  -- The devices of the wave's groups.
  unfoldable pub wave_hosts : Fleet A → List String → List String
  wave_hosts f [] = []
  wave_hosts f (g ∷ gs) = active_group_devices f g ++ wave_hosts f gs

  module _ {X : Type 0} (ports : Ports A X) where
    -- The loop over one batch.
    unfoldable pub release_devices : String → List String → Action (World A X) (Unit {0})
    unfolding apply
    release_devices g [] = pure tt
    release_devices g (tag ∷ tags) = do
      apply ports (set_device_pin tag g)
          ("rollout: release " <> tag <> " into wave " <> g <> " cohort") (tag ∷ [])
      release_devices g tags

    -- The loop over the groups, which all read the document `f` that was there before it.
    unfoldable pub release_groups : Fleet A → Ring → List String → Action (World A X) (Unit {0})
    unfolding release_devices
    release_groups f r [] = pure tt
    release_groups f r (g ∷ gs) = do
      batch ← or_raise (next_batch f r g) panicked
      release_devices g batch
      release_groups f r gs

    -- `releaseCohort`
    unfoldable pub release_cohort : Ring → Action (World A X) (Unit {0})
    unfolding release_groups
    release_cohort r w =
        if leb_ℤ r.max_devices (pos 0)
        then (ok tt, w)
        else release_groups w.fleet r (group_list r) w

    -- What the answer of the builder makes of the run; `none` is a write to a nil map.
    unfoldable pub built_run : State → Time → BuildState → Option (Bool × State)
    built_run s now b = elim b.phase [
      | build_done ↦
          some (true, record s { build_requested_at = delete_stamp s.build_requested_at s.ring })
      | build_failed ↦ some (
        false,
        record s { status = halted; reason = "release build failed: " <> ports.distill b.detail },
      )
      | build_building ↦ elim (stamp_at s.build_requested_at s.ring) [
        | some t ↦ some (false, s)
        | none ↦ elim (set_stamp s.build_requested_at s.ring now) [
          | none ↦ none
          | some stamps ↦ some (false, record s { build_requested_at = stamps })
        ]
      ]
    ]

    -- The run after a call of the builder that may have failed: a failure holds the wave.
    unfoldable pub after_build : State → Time → Result Failure BuildState → Option (Bool × State)
    unfolding built_run
    after_build s now (err e) = some (false, s)
    after_build s now (ok b) = built_run s now b

    abbrev pub ask_builder :
        (String → List String → X → Result Failure BuildState × X)
        → State
        → Time
        → List String
        → Action (World A X) (Bool × State)
    ask_builder build s now hosts = do
      answer ← ask (build s.target hosts)
      or_raise (after_build s now answer) panicked

    -- What `ensureRingBuilt` does with a builder.
    unfoldable pub build_wave :
        (String → List String → X → Result Failure BuildState × X)
        → State
        → Ring
        → Time
        → Action (World A X) (Bool × State)
    unfolding after_build
    build_wave build s r now = do
      hosts ← gets (λ w. wave_hosts w.fleet (group_list r))
      if is_empty hosts then pure (true, s) else ask_builder build s now hosts

    abbrev pub ensure_with :
        Option (String → List String → X → Result Failure BuildState × X)
        → State
        → Ring
        → Time
        → Action (World A X) (Bool × State)
    ensure_with none s r now = pure (true, s)
    ensure_with (some build) s r now = build_wave build s r now

    -- `ensureRingBuilt`: whether the wave may be released, and the run
    unfoldable pub ensure_ring_built : State → Ring → Time → Action (World A X) (Bool × State)
    ensure_ring_built s r now = ensure_with ports.builder s r now
