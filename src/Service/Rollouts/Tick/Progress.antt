-- ===== src/Service/Rollouts/Tick/Progress.antt =====
-- What a tick makes of the stored run.
use sextant.Service.Rollouts.Outcomes.{store_get-cases}
use sextant.Service.Rollouts.Tick.Stores.{tick_run-Stores, Follows}
use sextant.Service.Rollouts.Tick.{tick, tick_from}
use sextant.Rollout.State.{is_active, active, normalize, State}
use sextant.Service.Rollouts.World.{with_outside, World, Ports}
use sextant.Common.{Bool-cases, ◌≡◌, refl, ◌∙◌, ◌⊎◌, inl, inr, Option, none, some, arith}
use sextant.Common.{none, some, inl, inr, ◌∙◌}

module _ {A X : Type 0} where
  module _ (ports : Ports A X) where
    -- The store after a tick that found `o` in it.
    abbrev pub Progressed : Option State → Option State → Type 0
    Progressed o o' =
        (o' ≡ o)
        ⊎ ((s : State) × (s' : State) × (o ≡ some s)
            × (s.status ≡ active)
            × (o' ≡ some s')
            × Follows s s')

    normal-Follows : (s s' : State) → Follows (normalize s) s' → Follows s s'
    unfolding normalize
    normal-Follows s s' f = record { target = f.target; rings = f.rings; ring = f.ring }

    tick_from-Progressed :
        (o : Option State) (w : World A X) → w.run ≡ o → Progressed o (tick_from ports o w).1.run
    unfolding tick_from
    tick_from-Progressed none w e = inl e
    tick_from-Progressed (some s) w e = elim (Bool-cases (is_active s.status)) [
      | inr n ↦ rw (n, tick_from) (inl e)
      | inl a ↦
          rw (a, tick_from)
            (elim (tick_run-Stores ports (normalize s) w) [
              | inl k ↦ inl (k ∙ e)
              | inr (s', k, f) ↦ inr (s, s', refl, ground arith, k, normal-Follows s s' f)
            ])
    ]

    -- Whatever a tick does, an error included, the stored run is as it was, or it was active and the
    -- run that is stored has its target and its waves and is on the same wave or on the next one.
    pub tick-Follows : (w : World A X) → Progressed w.run (tick ports w).1.run
    unfolding tick
    tick-Follows w = elim (store_get-cases ports w) [
      | inl (x, g) ↦ rw (tick, g) (tick_from-Progressed w.run (with_outside x w) refl)
      | inr (e, x, g) ↦ rw (tick, g) (inl refl)
    ]
