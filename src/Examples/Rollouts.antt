-- ===== src/Examples/Rollouts.antt =====
-- A plan of two waves, and a run that is in its first.
use sextant.Common.{
  pos, itoa, Time, zero_time, minute, ◌+◌, ◌*◌, ◌≡◌, refl, false, none, some, List, [], ◌∷◌, arith,
}
use sextant.Rollout.Ring.{
  Ring, RingStatus, converged, too_broken, min_present, present, percent, min_healthy,
  enough_evidence, wanted,
}
use sextant.Rollout.Ring.Gates.{converged-not_too_broken}
use sextant.Rollout.State.{State, put, active, paused, advance, done, wait, Action}
use sextant.Rollout.Decide.{
  kind_of, decide, decide_wave, decide_promoted, decide_converged, decide_soaked, still_soaking,
  soak, has_more,
}
use sextant.Rollout.Decide.Safety.{IsProved, decide-IsProved, decide-inactive}

abbrev pilot : Ring
pilot = record {
  group = "pilot";
  groups = [];
  name = "Pilot";
  soak_minutes = pos 30;
  min_healthy_percent = pos 90;
  require_approval = false;
  min_devices = pos 2;
  max_devices = pos 0;
}

abbrev everyone : Ring
everyone = record pilot { group = "everyone"; name = "All"; max_devices = pos 3 }

abbrev waves : List Ring
waves = pilot ∷ everyone ∷ []

-- Ten devices of which one is absent, and nine are healthy.
abbrev good : RingStatus
good = record {
  total = 10;
  on_target = 9;
  healthy = 9;
  broken = 0;
  absent = 1;
  released = 10;
  group_total = 10;
}

-- Ten devices of which one is absent, and three are broken.
abbrev bad : RingStatus
bad = record good { healthy = 6; broken = 3 }

abbrev started : Time
started = 1000

abbrev converged_time : Time
converged_time = 2000

abbrev soaked_time : Time
soaked_time = converged_time + 30 * minute

abbrev running : State
running = record {
  target = "abc";
  rings = waves;
  change_id = "c1";
  change_title = "Update";
  ring = pos 0;
  promoted_at = some (put (λ _. none) (pos 0) started);
  converged_at = some (put (λ _. none) (pos 0) converged_time);
  approved_at = some (λ _. none);
  build_requested_at = some (λ _. none);
  status = active;
  reason = "";
  waiting = "";
  waiting_since = zero_time;
  started = started;
  updated = started;
}

advances : kind_of (decide itoa waves running good soaked_time) ≡ some advance
unfolding decide decide_wave decide_promoted decide_converged decide_soaked still_soaking soak
    has_more too_broken converged enough_evidence min_present min_healthy wanted present percent
advances = refl

decide-IsProved_example : IsProved pilot running good soaked_time
decide-IsProved_example =
    decide-IsProved itoa waves running good soaked_time pilot started refl refl refl (omega arith)
      (rw advances refl)

decide-inactive_example :
    kind_of (decide itoa waves (record running { status = paused }) good soaked_time) ≡ some done
decide-inactive_example =
    decide-inactive itoa waves (record running { status = paused }) good soaked_time (λ e. cc)

converged-not_too_broken_example : too_broken pilot good ≡ false
converged-not_too_broken_example =
    converged-not_too_broken pilot good (unfold present in omega arith)
      (unfold present in omega arith) (unfold min_healthy in omega arith)
      (unfold converged present percent min_healthy min_present wanted in refl)

-- Ten devices, three at a time, from none.
abbrev waits : Action
waits = record { kind = wait; reason = "2 of 10 device(s) reachable" }

abbrev silent : State
silent = record running { converged_at = some (λ _. none) }
