-- ===== src/Service/Rollouts/Frame.antt =====
-- What the methods of the rollout service leave alone.
use sextant.Fleet.Populations.{affected_hosts}
use sextant.Common.{
  true, false, is_empty, ◌<>◌, true, if◌then◌else◌, Bool, Result, Bool-cases, leb_ℤ, pos, Time,
  String, inl, inr, Option, none, some, List, [], ◌∷◌,
}
use sextant.Fleet.Model.{Fleet}
use sextant.Rollout.Ring.{Ring, group_list}
use sextant.Rollout.State.{State}
use sextant.Service.Action.{
  panicked, Action, Failure, ◌>>=◌, ◌>>◌, pure, gets, or_raise, Leads, bind-Leads,
}
use sextant.Service.Rollouts.World.{
  BuildState, Ports, World, Call, call, store_get, apply, ask, ask_or_fail, with_outside,
  with_fleet,
}
use sextant.Service.Rollouts.Waves.{
  ensure_with, after_build, ask_builder, cohort_fixup, wave_hosts, next_batch, build_wave,
  release_devices, release_groups, release_cohort, ensure_ring_built,
}
use sextant.Service.Rollouts.Tick.{pin_call, observe_wave, pin_groups, observe}

-- A relation of worlds that holds where only the fleet document and the outside differ, and from
-- step to step.
pub record IsFrame {A X : Type 0} (R : World A X → World A X → Type 0) : Type 0 where
  pub same : (w : World A X) → R w w
  pub steps : (a b c : World A X) → R a b → R b c → R a c
  pub outside : (w : World A X) (x : X) → R w (with_outside x w)
  pub fleet : (w : World A X) (f : Fleet A) (x : X) → R w (with_fleet f x w)

module _ {A X : Type 0} (ports : Ports A X) (R : World A X → World A X → Type 0)
    (frame : IsFrame R) where
  pub and_then :
      {B C : Type 0} (m : Action (World A X) B) (f : B → Action (World A X) C)
      → Leads R m
      → ((b : B) → Leads R (f b))
      → Leads R (m >>= f)
  and_then m f = bind-Leads R frame.steps m f

  pub call-Leads : (c : Call) → Leads R (call ports c)
  unfolding call
  call-Leads c w = frame.outside w _

  pub store_get-Leads : Leads R (store_get ports)
  unfolding store_get
  store_get-Leads = and_then _ _ (call-Leads _) (λ b w. frame.same w)

  pub apply-Leads :
      (mut : Fleet A → Result Failure (Fleet A)) (msg : String) (hosts : List String)
      → Leads R (apply ports mut msg hosts)
  unfolding apply
  apply-Leads mut msg hosts w = frame.fleet w _ _

  pub or_raise-Leads : {B : Type 0} (o : Option B) (e : Failure) → Leads R (or_raise o e)
  or_raise-Leads none e w = frame.same w
  or_raise-Leads (some b) e w = frame.same w

  release_devices-Leads : (g : String) (tags : List String) → Leads R (release_devices ports g tags)
  unfolding release_devices
  release_devices-Leads g [] = frame.same
  release_devices-Leads g (tag ∷ tags) =
      and_then _ _ (apply-Leads _ _ _) (λ b. release_devices-Leads g tags)

  release_groups-Leads :
      (f : Fleet A) (r : Ring) (gs : List String) → Leads R (release_groups ports f r gs)
  unfolding release_groups
  release_groups-Leads f r [] = frame.same
  release_groups-Leads f r (g ∷ gs) =
      and_then (or_raise (next_batch f r g) panicked)
        (λ batch. release_devices ports g batch >> release_groups ports f r gs) (or_raise-Leads _ _)
        (λ batch.
          and_then (release_devices ports g batch) (λ b. release_groups ports f r gs)
            (release_devices-Leads g batch) (λ b. release_groups-Leads f r gs))

  pub release_cohort-Leads : (r : Ring) → Leads R (release_cohort ports r)
  unfolding release_cohort
  release_cohort-Leads r w = elim (Bool-cases (leb_ℤ r.max_devices (pos 0))) [
    | inl e ↦ rw (e, release_cohort) (frame.same w)
    | inr e ↦ rw (e, release_cohort) (release_groups-Leads w.fleet r (group_list r) w)
  ]

  pub pin_groups-Leads : (s : State) (gs : List String) → Leads R (pin_groups ports s gs)
  unfolding pin_groups
  pin_groups-Leads s [] = frame.same
  pin_groups-Leads s (g ∷ gs) =
      and_then (gets (λ w. affected_hosts w.fleet ("group:" <> g)))
        (λ hosts. pin_call ports s g hosts >> pin_groups ports s gs) frame.same
        (λ hosts.
          and_then (pin_call ports s g hosts) (λ b. pin_groups ports s gs) (apply-Leads _ _ _)
            (λ b. pin_groups-Leads s gs))

  pub if-Leads :
      {B : Type 0} (b : Bool) (m n : Action (World A X) B)
      → Leads R m
      → Leads R n
      → Leads R (if b then m else n)
  if-Leads true m n p q = p
  if-Leads false m n p q = q

  build_wave-Leads :
      (build : String → List String → X → Result Failure BuildState × X) (s : State) (r : Ring)
      (now : Time)
      → Leads R (build_wave ports build s r now)
  unfolding build_wave
  build_wave-Leads build s r now =
      and_then (gets (λ w. wave_hosts w.fleet (group_list r)))
        (λ hosts. if is_empty hosts then pure (true, s) else ask_builder ports build s now hosts)
        frame.same
        (λ hosts.
          if-Leads (is_empty hosts) (pure (true, s)) (ask_builder ports build s now hosts)
            frame.same
            (and_then (ask (build s.target hosts))
              (λ answer. or_raise (after_build ports s now answer) panicked)
              (λ w. frame.outside w _) (λ answer. or_raise-Leads _ _)))

  builder-Leads :
      (o : Option (String → List String → X → Result Failure BuildState × X)) (s : State) (r : Ring)
      (now : Time)
      → Leads R (ensure_with ports o s r now)
  builder-Leads none s r now = frame.same
  builder-Leads (some build) s r now = build_wave-Leads build s r now

  pub ensure_ring_built-Leads :
      (s : State) (r : Ring) (now : Time) → Leads R (ensure_ring_built ports s r now)
  unfolding ensure_ring_built
  ensure_ring_built-Leads s r now = builder-Leads ports.builder s r now

  observe_wave-Leads :
      (o : Option Time) (r : Option Ring) (s : State) → Leads R (observe_wave ports o r s)
  observe_wave-Leads none r s = frame.same
  observe_wave-Leads (some t) none s = or_raise-Leads _ _
  observe_wave-Leads (some t) (some r) s =
      and_then (ask_or_fail (ports.ring_status (group_list r) s.target))
        (λ rs. gets (λ w. cohort_fixup w.fleet r rs)) (λ w. frame.outside w _) (λ rs. frame.same)

  pub observe-Leads : (rings : List Ring) (s : State) → Leads R (observe ports rings s)
  unfolding observe
  observe-Leads rings s = observe_wave-Leads _ _ s
