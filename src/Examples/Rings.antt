-- ===== src/Examples/Rings.antt =====
-- A fleet with one wave, and the rollout service over ports that never fail.
use sextant.Fleet.Groups.{climb, group_ancestry}
use sextant.Fleet.Edit.{set_group_pin}
use sextant.Common.{
  lookup, Bool, ap, pos, itoa, ℕ, String, ◌≡◌, true, false, none, some, List, [], ◌∷◌, ℕ_Testable,
  String_Testable,
}
use sextant.Common.{true, false, some, none, [], ◌∷◌, ok, err, refl}
use sextant.Fleet.Model.{auto_flow_enabled, Fleet, RolloutRing, no_group}
use sextant.Fleet.Populations.{
  ring_named, rollout_ring, tags_in, is_under, hosts_under, affected_hosts,
  converging_group_devices, active_group_devices, group_devices, released_group_devices,
}
use sextant.Examples.Fleets.{fleet, machine}
use sextant.Fleet.Model.{group_list as fleet_group_list}
use sextant.Rollout.Ring.{group_list, Ring, next_release}
use sextant.Rollout.State.{State, new_state, active, normalize, note}
use sextant.Rollout.Decide.{decide, decide_wave}
use sextant.Service.Action.{Failure}
use sextant.Service.Rollouts.World.{
  ring_branch, apply, is_machine_author, call, World, Ports, AuditEntry, store_get, store_put,
  move_ring_ref,
}
use sextant.Service.Rollouts.Plan.{
  start, scope_rings, shorten, run_rings, convert_rings, plan_rings, begin_run, start_rings,
  no_opts, start_with, ring_from_fleet, shaped_rings, is_running,
}
use sextant.Service.Rollouts.Plan.Starting.{start_with-ok, run_plan, AllExpedited}
use sextant.Service.Rollouts.Waves.{
  set_device_pin, release_devices, release_groups, release_cohort, ensure_ring_built, next_batch,
}
use sextant.Service.Rollouts.Waves.{next_batch}
use sextant.Service.Rollouts.Tick.{
  finish, promoted, mark_promoted, move_refs, offer_wave, pin_groups, release_wave, promote_wave,
  observe, carry_out, act_on, tick_run, tick_from, tick,
}
use sextant.Service.Rollouts.Tick.Progress.{tick-Follows, Progressed}
use sextant.Service.Rollouts.Tick.Moves.{tick-moves, IsRelease}
use sextant.Service.Rollouts.Control.{paused_run}
use sextant.Service.Rollouts.Flow.{
  start_or_hold, scan_entries, non_machine_commits_since, read_head_of, auto_start_from, pins_of,
  plan_pins, maybe_auto_start,
}
use sextant.Service.Rollouts.Flow.Damping.{maybe_auto_start-IsStart, IsStart}

abbrev lab_wave : RolloutRing
lab_wave = record {
  group = "lab";
  groups = [];
  name = "Lab";
  soak_minutes = pos 30;
  min_healthy_percent = pos 90;
  require_approval = false;
  min_devices = pos 0;
  max_devices = pos 1;
}

abbrev staged : Fleet ℕ
staged = record fleet {
  groups = ("all", no_group) ∷ ("lab", record no_group { parent = "all"; pin = "old" }) ∷ [];
  rollout = some (record { rings = lab_wave ∷ []; approve_role = ""; auto_flow = none });
}

abbrev entry : String → String → AuditEntry
entry hash author = record { hash = hash; author = author; subject = "change" }

abbrev ring_ports : Ports ℕ ℕ
ring_ports = record {
  attempt = λ c x. (none, x);
  clock = λ x. (x, x);
  ring_status = λ gs target x. (err Failure.conflict, x);
  has_refs = true;
  builder = none;
  head = λ x. "new";
  log = λ n x. entry "new" "ada" ∷ entry "old" "ada" ∷ [];
  emit = λ title x. x;
  apply = λ mut msg hosts f x. elim (mut f) [ ok f' ↦ (ok tt, (f', x)) | err e ↦ (err e, (f, x)) ];
  format = itoa;
  distill = λ s. s;
}

abbrev idle_world : World ℕ ℕ
idle_world = record {
  fleet = staged;
  run = none;
  branches = [];
  remote = [];
  risk_hold_notified = "";
  outside = 7;
}

abbrev wave : Ring
wave = record {
  group = "lab";
  groups = [];
  name = "Lab";
  soak_minutes = pos 30;
  min_healthy_percent = pos 90;
  require_approval = false;
  min_devices = pos 0;
  max_devices = pos 1;
}

abbrev begun : State
begun = record (new_state "new" 7) { rings = wave ∷ [] }

abbrev running_world : World ℕ ℕ
running_world = record idle_world { run = some begun }

start_with-ok_example :
    (rings : List Ring) × (shaped_rings staged no_opts ≡ ok rings)
    × (is_running idle_world.run ≡ false)
    × (running_world.run ≡ some begun)
    × (begun.target ≡ "new")
    × (begun.status ≡ active)
    × (begun.ring ≡ pos 0)
    × (begun.rings ≡ run_plan false rings)
    × AllExpedited rings (run_plan true rings)
start_with-ok_example =
    start_with-ok ring_ports "new" no_opts idle_world running_world begun started
  where
    started : start_with ring_ports "new" no_opts idle_world ≡ (ok begun, running_world)
    started =
        unfold start_with start_rings begin_run shaped_rings plan_rings convert_rings
          ring_from_fleet store_get store_put call new_state shorten scope_rings fleet_group_list in
        refl

tick-Follows_example : Progressed ring_ports running_world.run (tick ring_ports running_world).1.run
tick-Follows_example = tick-Follows ring_ports running_world

-- The run is stored as new, so its first tick releases its wave.
moved : lookup "rings/lab" (tick ring_ports running_world).1.remote ≡ some "new"
unfolding tick store_get store_put call tick_from tick_run run_rings act_on carry_out observe decide
    decide_wave promote_wave ensure_ring_built release_wave pin_groups apply release_cohort
    release_groups next_batch release_devices set_device_pin set_group_pin affected_hosts
    hosts_under is_under group_ancestry climb converging_group_devices active_group_devices
    group_devices tags_in released_group_devices rollout_ring ring_named next_release offer_wave
    move_refs move_ring_ref ring_branch mark_promoted promoted finish note normalize new_state
    group_list
moved = refl

tick-moves_example : IsRelease running_world (tick ring_ports running_world).1 "rings/lab"
tick-moves_example = tick-moves ring_ports "rings/lab" running_world (λ e. cc (moved, e))

abbrev held_run : State
held_run = paused_run begun 7

abbrev no_marker : String → String → Bool
no_marker text part = false

runs : is_running (maybe_auto_start ring_ports no_marker idle_world).1.run ≡ true
unfolding maybe_auto_start store_get store_put call plan_pins pins_of auto_flow_enabled
    auto_start_from read_head_of non_machine_commits_since scan_entries is_machine_author
    start_or_hold start start_with start_rings begin_run shaped_rings plan_rings convert_rings
    ring_from_fleet new_state fleet_group_list
runs = refl

maybe_auto_start-IsStart_example : IsStart ring_ports no_marker idle_world
maybe_auto_start-IsStart_example =
    maybe_auto_start-IsStart ring_ports no_marker idle_world (λ e. cc (runs, ap is_running e))

-- A device that joined the group after another one was released, and sorts before it.
abbrev joined : Fleet ℕ
joined = record staged {
  devices = ("pc-0", record machine { pin = "" }) ∷ ("pc-1", record machine { pin = "lab" }) ∷ [];
}

-- The next batch is the device that was released before.
next_batch_again : next_batch joined wave "lab" ≡ some ("pc-1" ∷ [])
unfolding next_batch released_group_devices converging_group_devices active_group_devices
    group_devices tags_in rollout_ring ring_named next_release
next_batch_again = refl
