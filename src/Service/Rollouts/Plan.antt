-- ===== src/Service/Rollouts/Plan.antt =====
-- internal/app/rollout.go: the wave plan of a run, and how a run starts.
pub mod Starting
use sextant.Service.Rollouts.World.{store_put, store_get, ask, World, Ports}
use sextant.Rollout.State.{new_state, is_active, State}
use sextant.Common.{
  err, ok, Result, if◌then◌else◌, ◌==◌, is_empty, ℤ, ltb_ℤ, leb_ℤ, pos, ◌<>◌, Map, has, String,
  Bool, false, ◌&&◌, ◌||◌, Option, none, some, List, [], ◌∷◌, map, ℕ_Testable, String_Testable,
}
use sextant.Fleet.Model.{Fleet, Group, RolloutRing, group_list as fleet_groups}
use sextant.Rollout.Ring.{Ring, group_list}
use sextant.Service.Action.{failed, Action, Failure, ◌>>=◌, ◌>>◌, pure, gets, raise_if, lifted}

-- `ringFromFleet`
unfoldable pub ring_from_fleet : RolloutRing → Ring
ring_from_fleet r = record {
  group = r.group;
  groups = r.groups;
  name = r.name;
  soak_minutes = r.soak_minutes;
  min_healthy_percent = r.min_healthy_percent;
  require_approval = r.require_approval;
  min_devices = r.min_devices;
  max_devices = r.max_devices;
}

-- `StartOpts`
pub record StartOpts : Type 0 where
  pub groups : List String
  pub expedited : Bool
  pub change_id : String
  pub change_title : String

-- `StartOpts{}`
abbrev pub no_opts : StartOpts
no_opts = record { groups = []; expedited = false; change_id = ""; change_title = "" }

abbrev pub expedited_soak : ℤ
expedited_soak = pos 5

-- `short[i].SoakMinutes == 0 || short[i].SoakMinutes > expeditedSoak`
abbrev pub soaks_long : Ring → Bool
soaks_long r =
    (leb_ℤ r.soak_minutes (pos 0) && leb_ℤ (pos 0) r.soak_minutes)
    || ltb_ℤ expedited_soak r.soak_minutes

-- The body of the loop over an expedited run's waves.
unfoldable pub shorten : Ring → Ring
shorten r = if soaks_long r then record r { soak_minutes = expedited_soak } else r

-- `rollout.Ring{Groups: opts.Groups, SoakMinutes: 30}`
abbrev pub scoped_ring : List String → Ring
scoped_ring groups = record {
  group = "";
  groups = groups;
  name = "";
  soak_minutes = pos 30;
  min_healthy_percent = pos 0;
  require_approval = false;
  min_devices = pos 0;
  max_devices = pos 0;
}

-- `len(a) == 1 && len(b) == 1 && a[0] == b[0]`
abbrev pub same_single : List String → List String → Bool
same_single (g ∷ []) (h ∷ []) = h == g
same_single _ _ = false

-- The waves of a run that is limited to groups.
unfoldable pub scope_rings : List String → List Ring → List Ring
scope_rings groups [] = []
scope_rings groups (test ∷ rest) =
    if same_single groups (group_list test) then test ∷ [] else test ∷ scoped_ring groups ∷ []

abbrev pub no_plan : Failure
no_plan = failed "no rollout rings configured (fleet.rollout.rings)"

abbrev pub is_running : Option State → Bool
is_running none = false
is_running (some s) = is_active s.status

-- `cur.Target`
abbrev pub target_of : Option State → String
target_of none = ""
target_of (some s) = s.target

module _ {A : Type 0} where
  -- A loop that fails at the first group that does not exist.
  abbrev pub known_groups : Map (Group A) → String → List String → Result Failure (Unit {0})
  known_groups groups text [] = ok tt
  known_groups groups text (g ∷ gs) =
      if has g groups then known_groups groups text gs else err (failed (text <> g))

  -- The loop of `planRings`.
  unfoldable pub convert_rings : Map (Group A) → List RolloutRing → Result Failure (List Ring)
  convert_rings groups [] = ok []
  convert_rings groups (r ∷ rs) =
      elim (known_groups groups "rollout ring names unknown group " (fleet_groups r)) [
        | err e ↦ err e
        | ok _ ↦ elim (convert_rings groups rs) [
          | err e ↦ err e
          | ok out ↦ ok (ring_from_fleet r ∷ out)
        ]
      ]

  -- `planRings`
  unfoldable pub plan_rings : Fleet A → Result Failure (List Ring)
  unfolding convert_rings
  plan_rings f = elim f.rollout [
    | none ↦ err no_plan
    | some p ↦ if is_empty p.rings then err no_plan else convert_rings f.groups p.rings
  ]

  -- `runRings`, for a run that is there
  unfoldable pub run_rings : Fleet A → State → Result Failure (List Ring)
  unfolding plan_rings
  run_rings f s = if is_empty s.rings then plan_rings f else ok s.rings

  -- The waves that the options ask for.
  unfoldable pub shaped_rings : Fleet A → StartOpts → Result Failure (List Ring)
  unfolding plan_rings scope_rings
  shaped_rings f opts = elim (plan_rings f) [
    | err e ↦ err e
    | ok planned ↦
        if is_empty opts.groups
        then ok planned
        else elim (known_groups f.groups "unknown scope group " opts.groups) [
          | err e ↦ err e
          | ok _ ↦ ok (scope_rings opts.groups planned)
        ]
  ]

  module _ {X : Type 0} (ports : Ports A X) where
    -- The end of `StartWith`: the run is made and stored.
    unfoldable pub begin_run : String → StartOpts → List Ring → Action (World A X) State
    unfolding shorten
    begin_run target opts rings = do
      now ← ask ports.clock
      let s = record (new_state target now) {
        rings = if opts.expedited then map shorten rings else rings;
        change_id = opts.change_id;
        change_title = opts.change_title;
      }
      store_put ports s
      pure s

    -- `StartWith`, once the waves are known
    unfoldable pub start_rings : String → StartOpts → List Ring → Action (World A X) State
    start_rings target opts rings = do
      cur ← store_get ports
      raise_if (is_running cur) (failed ("a rollout to " <> target_of cur <> " is already active"))
      begin_run target opts rings

    -- `StartWith`
    unfoldable pub start_with : String → StartOpts → Action (World A X) State
    unfolding shaped_rings
    start_with target opts = do
      raise_if (target == "") (failed "rollout needs a target revision")
      f ← gets (λ w. w.fleet)
      rings ← lifted (shaped_rings f opts)
      start_rings target opts rings

    -- `Start`
    unfoldable pub start : String → Action (World A X) State
    unfolding start_with
    start target = start_with target no_opts

    -- `StartScoped`
    unfoldable pub start_scoped : String → String → Action (World A X) State
    unfolding start_with
    start_scoped target scope = start_with target (record no_opts { groups = scope ∷ [] })
