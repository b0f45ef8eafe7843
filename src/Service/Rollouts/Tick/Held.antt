-- ===== src/Service/Rollouts/Tick/Held.antt =====
-- What the build gate and the soak clock leave of a run.
use sextant.Service.Rollouts.Tick.{ask, seen_converged}
use sextant.Common.{
  err, ok, Result, if◌then◌else◌, is_empty, Time, String, ◌≡◌, refl, Bool, true, false, Option,
  none, some, List, arith,
}
use sextant.Rollout.Ring.{group_list, Ring, RingStatus}
use sextant.Rollout.State.{State, Action as Decision, note}
use sextant.Service.Action.{
  panicked, Anything, Action, Failure, pure, gets, or_raise, Gives, bind-Gives, or_raise-Gives,
  anything,
}
use sextant.Service.Rollouts.World.{BuildState, Ports, World}
use sextant.Service.Rollouts.Waves.{
  wave_hosts, ensure_with, ask_builder, after_build, built_run, build_wave, ensure_ring_built,
}

-- The run is on the same wave of the same plan, to the same target, with the same pins.
pub record IsHeld (s s' : State) : Type 0 where
  pub target : s'.target ≡ s.target
  pub rings : s'.rings ≡ s.rings
  pub ring : s'.ring ≡ s.ring
  pub pins : s'.promoted_at ≡ s.promoted_at

pub held : (s : State) → IsHeld s s
held s = record { target = refl; rings = refl; ring = refl; pins = refl }

module _ {A X : Type 0} (ports : Ports A X) where
  abbrev HeldBy : State → Action (World A X) (Bool × State) → Type 0
  HeldBy s m = Gives {A = Bool × State} (λ p. IsHeld s p.1) m

  built_run-IsHeld :
      (s : State) (now : Time) (b : BuildState) (p : Bool × State)
      → built_run ports s now b ≡ some p
      → IsHeld s p.1
  unfolding built_run
  built_run-IsHeld s now b p h = record {
    target = ground arith;
    rings = ground arith;
    ring = ground arith;
    pins = ground arith;
  }

  after_build-IsHeld :
      (s : State) (now : Time) (r : Result Failure BuildState) (p : Bool × State)
      → after_build ports s now r ≡ some p
      → IsHeld s p.1
  unfolding after_build
  after_build-IsHeld s now (ok b) p h = built_run-IsHeld s now b p h
  after_build-IsHeld s now (err e) p h = record {
    target = ground arith;
    rings = ground arith;
    ring = ground arith;
    pins = ground arith;
  }

  ask_builder-Gives :
      (build : String → List String → X → Result Failure BuildState × X) (s : State) (now : Time)
      (hosts : List String)
      → HeldBy s (ask_builder ports build s now hosts)
  ask_builder-Gives build s now hosts =
      bind-Gives Anything (λ answer. or_raise (after_build ports s now answer) panicked)
        (λ p. IsHeld s p.1) (ask (build s.target hosts)) (anything (ask (build s.target hosts)))
        (λ answer t.
          or_raise-Gives (λ p. IsHeld s p.1) (after_build ports s now answer) panicked
            (after_build-IsHeld s now answer))

  pure-Gives : (s : State) → HeldBy s (pure (true, s))
  pure-Gives s w a h = record {
    target = ground arith;
    rings = ground arith;
    ring = ground arith;
    pins = ground arith;
  }

  if-Gives :
      {B : Type 0} (P : B → Type 0) (b : Bool) (m n : Action (World A X) B)
      → Gives P m
      → Gives P n
      → Gives P (if b then m else n)
  if-Gives P true m n p q = p
  if-Gives P false m n p q = q

  build_wave-Gives :
      (build : String → List String → X → Result Failure BuildState × X) (s : State) (r : Ring)
      (now : Time)
      → HeldBy s (build_wave ports build s r now)
  unfolding build_wave
  build_wave-Gives build s r now =
      bind-Gives Anything
        (λ hosts. if is_empty hosts then pure (true, s) else ask_builder ports build s now hosts)
        (λ p. IsHeld s p.1) (gets (λ w. wave_hosts w.fleet (group_list r)))
        (anything (gets (λ w. wave_hosts w.fleet (group_list r))))
        (λ hosts t.
          if-Gives (λ p. IsHeld s p.1) (is_empty hosts) (pure (true, s))
            (ask_builder ports build s now hosts) (pure-Gives s)
            (ask_builder-Gives build s now hosts))

  ensure_with-Gives :
      (o : Option (String → List String → X → Result Failure BuildState × X)) (s : State) (r : Ring)
      (now : Time)
      → HeldBy s (ensure_with ports o s r now)
  ensure_with-Gives none s r now = pure-Gives s
  ensure_with-Gives (some build) s r now = build_wave-Gives build s r now

  pub ensure_ring_built-Gives :
      (s : State) (r : Ring) (now : Time) → HeldBy s (ensure_ring_built ports s r now)
  unfolding ensure_ring_built
  ensure_ring_built-Gives s r now = ensure_with-Gives ports.builder s r now

pub seen_converged-IsHeld :
    (rings : List Ring) (s : State) (rs : RingStatus) (now : Time) (s' : State)
    → seen_converged rings s rs now ≡ some s'
    → IsHeld s s'
unfolding seen_converged
seen_converged-IsHeld rings s rs now s' h = record {
  target = ground arith;
  rings = ground arith;
  ring = ground arith;
  pins = ground arith;
}

pub note-IsHeld : (s : State) (a : Decision) (now : Time) → IsHeld s (note s a now)
unfolding note
note-IsHeld s a now = record {
  target = ground arith;
  rings = ground arith;
  ring = ground arith;
  pins = ground arith;
}
