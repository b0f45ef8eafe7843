-- ===== src/Service/Rollouts/Tick/Stores.antt =====
-- What each step of a tick makes of the stored run.
use sextant.Service.Rollouts.Plan.{run_rings}
use sextant.Service.Rollouts.Waves.{ensure_ring_built, release_cohort}
use sextant.Service.Rollouts.Tick.{
  notify, seen_converged, observe, tick_run, act_on, carry_out, widen_wave, pin_groups,
  mark_promoted, offer_wave, promote_wave, await_build, release_wave, promoted, move_refs, finish,
  Ticked,
}
use sextant.Common.{
  Option, if◌then◌else◌, Time, pos, ◌+ℤ◌, String, ◌≡◌, refl, ◌⊎◌, inl, inr, some, List, [], ◌∷◌,
  arith,
}
use sextant.Common.{[], ◌∷◌}
use sextant.Rollout.Decide.{decide, wave_at}
use sextant.Rollout.Ring.{Ring, RingStatus, group_list}
use sextant.Rollout.State.{
  completed, halted, ActionKind, delete_stamp, State, Action as Decision, note, promote, wait,
  advance, widen_cohort, halt, await_approval, done,
}
use sextant.Service.Action.{
  panicked, modify, Action, ◌>>=◌, ◌>>◌, pure, or_raise, lifted, or_raise-Gives, Leads,
  bind-Leads_given,
}
use sextant.Service.Rollouts.World.{
  push_branch, with_branch, ring_branch, set_branch, move_ring_ref, with_pushed, with_run, put_run,
  call, store_put, Ports, World, ask,
}
use sextant.Service.Rollouts.Frame.{
  observe-Leads, release_cohort-Leads, pin_groups-Leads, or_raise-Leads, if-Leads,
  ensure_ring_built-Leads, call-Leads, IsFrame, and_then,
}
use sextant.Service.Rollouts.Tick.Held.{
  held, seen_converged-IsHeld, ensure_ring_built-Gives, note-IsHeld, IsHeld,
}

-- The run goes on to the same target by the same waves, on the same wave or on the next one.
pub record Follows (s s' : State) : Type 0 where
  pub target : s'.target ≡ s.target
  pub rings : s'.rings ≡ s.rings
  pub ring : (s'.ring ≡ s.ring) ⊎ (s'.ring ≡ s.ring +ℤ pos 1)

held-Follows : (s s' : State) → IsHeld s s' → Follows s s'
held-Follows s s' h = record { target = h.target; rings = h.rings; ring = inl h.ring }

module _ {A X : Type 0} where
  -- The store is as it was, or has a run that follows.
  abbrev pub Stores : State → World A X → World A X → Type 0
  Stores s w w' = (w'.run ≡ w.run) ⊎ ((s' : State) × (w'.run ≡ some s') × Follows s s')

  Stores-steps : (s : State) (a b c : World A X) → Stores s a b → Stores s b c → Stores s a c
  Stores-steps s a b c (inl p) (inl q) = inl (cc)
  Stores-steps s a b c (inr (t, p, f)) (inl q) = inr (t, cc, f)
  Stores-steps s a b c p (inr q) = inr q

  Stores-frame : (s : State) → IsFrame {A = A} {X = X} (Stores s)
  Stores-frame s = record {
    same = λ w. inl refl;
    steps = Stores-steps s;
    outside = λ w x. inl refl;
    fleet = λ w f x. inl refl;
  }

  module _ (ports : Ports A X) (s : State) where
    put-Stores : (s' : State) → Follows s s' → Leads (Stores s) (store_put ports s')
    unfolding store_put
    put-Stores s' f =
        and_then ports (Stores s) (Stores-frame s) (call ports put_run)
          (λ b. modify (with_run (some s'))) (call-Leads ports (Stores s) (Stores-frame s) put_run)
          (λ b w. inr (s', refl, f))

    put_and-Stores :
        (s' : State) (t : Ticked) → Follows s s' → Leads (Stores s) (store_put ports s' >> pure t)
    put_and-Stores s' t f =
        and_then ports (Stores s) (Stores-frame s) (store_put ports s') (λ b. pure t)
          (put-Stores s' f) (λ b w. inl refl)

    finish-Stores :
        (act : Decision) (now : Time) (s' : State)
        → Follows s s'
        → Leads (Stores s) (finish ports act now s')
    unfolding finish
    finish-Stores act now s' f =
        let n = note-IsHeld s' act now in
        put_and-Stores (record (note s' act now) { updated = now }) _
          (record {
            target = cc (n.target, f.target);
            rings = cc (n.rings, f.rings);
            ring = rw (n.ring) (f.ring);
          })

    run_steps :
        {B C : Type 0} (m : Action (World A X) B) (f : B → Action (World A X) C)
        → Leads (Stores s) m
        → ((b : B) → Leads (Stores s) (f b))
        → Leads (Stores s) (m >>= f)
    run_steps m f = and_then ports (Stores s) (Stores-frame s) m f

    pushed-run : (b : String) (w : World A X) → (with_pushed b w).run ≡ w.run
    pushed-run b w = ground arith

    moves_ref-Stores : (g rev : String) → Leads (Stores s) (move_ring_ref ports g rev)
    unfolding move_ring_ref
    moves_ref-Stores g rev =
        run_steps (call ports (set_branch (ring_branch g)))
          (λ b.
            modify (with_branch (ring_branch g) rev)
            >> (call ports (push_branch (ring_branch g)) >> modify (with_pushed (ring_branch g))))
          (call-Leads ports (Stores s) (Stores-frame s) (set_branch (ring_branch g)))
          (λ b.
            run_steps (modify (with_branch (ring_branch g) rev))
              (λ b.
                call ports (push_branch (ring_branch g)) >> modify (with_pushed (ring_branch g)))
              (λ w. inl refl)
              (λ b.
                run_steps (call ports (push_branch (ring_branch g)))
                  (λ b. modify (with_pushed (ring_branch g)))
                  (call-Leads ports (Stores s) (Stores-frame s) (push_branch (ring_branch g)))
                  (λ b w. inl (pushed-run (ring_branch g) w))))

    move_refs-Stores : (rev : String) (gs : List String) → Leads (Stores s) (move_refs ports rev gs)
    unfolding move_refs
    move_refs-Stores rev [] w = inl refl
    move_refs-Stores rev (g ∷ gs) w =
        run_steps (move_ring_ref ports g rev) (λ b. move_refs ports rev gs) (moves_ref-Stores g rev)
          (λ b. move_refs-Stores rev gs) w

    promoted-Follows :
        (s' s'' : State) (now : Time) → IsHeld s s' → promoted s' now ≡ some s'' → Follows s s''
    unfolding promoted
    promoted-Follows s' s'' now h e = record {
      target = ground (arith, h.target);
      rings = ground (arith, h.rings);
      ring = inl (ground (arith, h.ring));
    }

    offer_wave-Stores :
        (rev : String) (gs : List String) → Leads (Stores s) (offer_wave ports rev gs)
    unfolding offer_wave
    offer_wave-Stores rev gs =
        if-Leads ports (Stores s) (Stores-frame s) ports.has_refs (move_refs ports rev gs) (pure tt)
          (move_refs-Stores rev gs) (λ w. inl refl)

    mark_promoted-Stores :
        (act : Decision) (now : Time) (s' : State)
        → IsHeld s s'
        → Leads (Stores s) (mark_promoted ports act now s')
    unfolding mark_promoted
    mark_promoted-Stores act now s' h =
        bind-Leads_given (Stores s) (Stores-steps s) (Follows s)
          (or_raise (promoted s' now) panicked) (finish ports act now)
          (or_raise-Leads ports (Stores s) (Stores-frame s) _ _)
          (or_raise-Gives (Follows s) (promoted s' now) panicked
            (λ s'' e. promoted-Follows s' s'' now h e))
          (λ s'' f. finish-Stores act now s'' f)

    release_wave-Stores :
        (act : Decision) (now : Time) (r : Ring) (s' : State)
        → IsHeld s s'
        → Leads (Stores s) (release_wave ports act now r s')
    unfolding release_wave
    release_wave-Stores act now r s' h =
        run_steps (pin_groups ports s' (group_list r))
          (λ b.
            release_cohort ports r
            >> (offer_wave ports s'.target (group_list r) >> mark_promoted ports act now s'))
          (pin_groups-Leads ports (Stores s) (Stores-frame s) s' (group_list r))
          (λ b.
            run_steps (release_cohort ports r)
              (λ b. offer_wave ports s'.target (group_list r) >> mark_promoted ports act now s')
              (release_cohort-Leads ports (Stores s) (Stores-frame s) r)
              (λ b.
                run_steps (offer_wave ports s'.target (group_list r))
                  (λ b. mark_promoted ports act now s') (offer_wave-Stores s'.target (group_list r))
                  (λ b. mark_promoted-Stores act now s' h)))

    await_build-Stores :
        (act : Decision) (now : Time) (s' : State)
        → IsHeld s s'
        → Leads (Stores s) (await_build ports act now s')
    unfolding await_build
    await_build-Stores act now s' h =
        put_and-Stores (record s' { updated = now }) _
          (held-Follows s (record s' { updated = now })
            (record { target = h.target; rings = h.rings; ring = h.ring; pins = h.pins }))

    promote_wave-Stores :
        (act : Decision) (now : Time) (r : Ring) → Leads (Stores s) (promote_wave ports act now r s)
    unfolding promote_wave
    promote_wave-Stores act now r =
        bind-Leads_given (Stores s) (Stores-steps s) (λ p. IsHeld s p.1)
          (ensure_ring_built ports s r now)
          (λ built.
            if built.0
            then release_wave ports act now r built.1
            else await_build ports act now built.1)
          (ensure_ring_built-Leads ports (Stores s) (Stores-frame s) s r now)
          (ensure_ring_built-Gives ports s r now)
          (λ built h.
            if-Leads ports (Stores s) (Stores-frame s) built.0
              (release_wave ports act now r built.1) (await_build ports act now built.1)
              (release_wave-Stores act now r built.1 h) (await_build-Stores act now built.1 h))

    widen_wave-Stores :
        (act : Decision) (now : Time) (r : Ring) → Leads (Stores s) (widen_wave ports act now r s)
    unfolding widen_wave
    widen_wave-Stores act now r =
        let s' = record s { converged_at = delete_stamp s.converged_at s.ring } in
        run_steps (release_cohort ports r) (λ b. finish ports act now s')
          (release_cohort-Leads ports (Stores s) (Stores-frame s) r)
          (λ b. finish-Stores act now s' (record { target = refl; rings = refl; ring = inl refl }))

    raised-then :
        {B C : Type 0} (o : Option B) (f : B → Action (World A X) C)
        → ((b : B) → Leads (Stores s) (f b))
        → Leads (Stores s) (or_raise o panicked >>= f)
    raised-then o f h =
        run_steps (or_raise o panicked) f
          (or_raise-Leads ports (Stores s) (Stores-frame s) o panicked) h

    carry_out-Stores :
        (k : ActionKind) (rings : List Ring) (rs : RingStatus) (now : Time) (act : Decision)
        → Leads (Stores s) (carry_out ports k rings rs now act s)
    unfolding carry_out
    carry_out-Stores promote rings rs now act =
        raised-then (wave_at rings s.ring) (λ r. promote_wave ports act now r s)
          (promote_wave-Stores act now)
    carry_out-Stores widen_cohort rings rs now act =
        raised-then (wave_at rings s.ring) (λ r. widen_wave ports act now r s)
          (widen_wave-Stores act now)
    carry_out-Stores wait rings rs now act =
        bind-Leads_given (Stores s) (Stores-steps s) (Follows s)
          (or_raise (seen_converged rings s rs now) panicked) (finish ports act now)
          (or_raise-Leads ports (Stores s) (Stores-frame s) _ _)
          (or_raise-Gives (Follows s) (seen_converged rings s rs now) panicked
            (λ s' e. held-Follows s s' (seen_converged-IsHeld rings s rs now s' e)))
          (λ s' f. finish-Stores act now s' f)
    carry_out-Stores await_approval rings rs now act =
        finish-Stores act now s (held-Follows s s (held s))
    carry_out-Stores advance rings rs now act =
        finish-Stores act now (record s { ring = s.ring +ℤ pos 1 })
          (record { target = refl; rings = refl; ring = inr refl })
    carry_out-Stores halt rings rs now act =
        finish-Stores act now (record s { status = halted; reason = act.reason })
          (record { target = refl; rings = refl; ring = inl refl })
    carry_out-Stores done rings rs now act =
        let s' = record s { status = completed; reason = act.reason } in
        run_steps (notify ports "Rollout complete") (λ b. finish ports act now s') (λ w. inl refl)
          (λ b. finish-Stores act now s' (record { target = refl; rings = refl; ring = inl refl }))

    pub act_on-Stores :
        (rings : List Ring) (now : Time) (rs : RingStatus)
        → Leads (Stores s) (act_on ports rings s now rs)
    unfolding act_on
    act_on-Stores rings now rs =
        raised-then (decide ports.format rings s rs now)
          (λ act. carry_out ports act.kind rings rs now act s)
          (λ act. carry_out-Stores act.kind rings rs now act)

    pub tick_run-Stores : Leads (Stores s) (tick_run ports s)
    unfolding tick_run
    tick_run-Stores w =
        run_steps (lifted (run_rings w.fleet s))
          (λ rings. ask ports.clock >>= λ now. observe ports rings s >>= act_on ports rings s now)
          (λ w. inl refl)
          (λ rings.
            run_steps (ask ports.clock) (λ now. observe ports rings s >>= act_on ports rings s now)
              (λ w. inl refl)
              (λ now.
                run_steps (observe ports rings s) (act_on ports rings s now)
                  (observe-Leads ports (Stores s) (Stores-frame s) rings s)
                  (act_on-Stores rings now)))
          w
