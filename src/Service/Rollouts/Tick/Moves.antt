-- ===== src/Service/Rollouts/Tick/Moves.antt =====
-- When a tick moves a branch of the remote.
use sextant.Service.Rollouts.Outcomes.{store_get-cases}
use sextant.Fleet.Model.{Fleet}
use sextant.Service.Rollouts.Plan.{run_rings}
use sextant.Service.Rollouts.Tick.{
  finish, seen_converged, tick, tick_from, tick_run, widen_wave, observe, act_on, carry_out,
  promote_wave,
}
use sextant.Common.{
  pos, ap, ◌+ℤ◌, err, Result, ◌≢◌, Bool-cases, ok, arith, contains, Time, lookup, String, ◌≡◌, refl,
  ◌∙◌, ◌⊎◌, inl, inr, true, Option, none, some, List, ℕ_Testable, String_Testable,
}
use sextant.Common.{true, none, some, inl, inr, ◌∙◌}
use sextant.Rollout.Ring.{Ring, RingStatus, group_list}
use sextant.Rollout.State.{
  is_active, State, active, Action as Decision, ActionKind, normalize, stamp_at, promote, wait,
  advance, widen_cohort, halt, await_approval, done, halted, completed,
}
use sextant.Rollout.Decide.{decide, wave_at, kind_of}
use sextant.Rollout.Decide.Safety.{decide-promote_iff}
use sextant.Service.Action.{after, Action, Failure, ◌>>=◌, or_raise, Leads, panicked}
use sextant.Service.Rollouts.World.{ring_branch, Ports, World, with_outside, ask}
use sextant.Service.Rollouts.Frame.{or_raise-Leads, observe-Leads, IsFrame, and_then}
use sextant.Service.Rollouts.Tick.Branches.{finish-Kept, widen_wave-Kept, promote_wave-Offers, Kept}

-- A branch that a run on the wave `r` may move: the wave's pin is not committed, and the branch is that
-- of one of the wave's groups.
pub record IsDue (rings : List Ring) (s : State) (b : String) : Type 0 where
  pub wave : Ring
  pub group : String
  pub found : wave_at rings s.ring ≡ some wave
  pub unpinned : stamp_at s.promoted_at s.ring ≡ none
  pub listed : contains (group_list wave) group ≡ true
  pub branch : b ≡ ring_branch group

normal-IsDue :
    (rings : List Ring) (s : State) (b : String) → IsDue rings (normalize s) b → IsDue rings s b
unfolding normalize
normal-IsDue rings s b d = record {
  wave = d.wave;
  group = d.group;
  found = d.found;
  unpinned = ground (arith, d.unpinned);
  listed = d.listed;
  branch = d.branch;
}

normal-plan :
    {A : Type 0} (f : Fleet A) (s : State) (rings : List Ring)
    → run_rings f (normalize s) ≡ ok rings
    → run_rings f s ≡ ok rings
unfolding normalize run_rings
normal-plan f s rings h = h

normal-target : (s : State) → some (normalize s).target ≡ some s.target
unfolding normalize
normal-target s = refl

module _ {A X : Type 0} where
  abbrev pub MovesDue : List Ring → State → String → World A X → World A X → Type 0
  MovesDue rings s b w w' = Kept b w w' ⊎ ((lookup b w'.remote ≡ some s.target) × IsDue rings s b)

  MovesDue-steps :
      (rings : List Ring) (s : State) (b : String) (u v w : World A X)
      → MovesDue rings s b u v
      → MovesDue rings s b v w
      → MovesDue rings s b u w
  MovesDue-steps rings s b u v w (inl p) (inl q) = inl (q ∙ p)
  MovesDue-steps rings s b u v w (inr (p, d)) (inl q) = inr (q ∙ p, d)
  MovesDue-steps rings s b u v w p (inr q) = inr q

  MovesDue-frame :
      (rings : List Ring) (s : State) (b : String) → IsFrame {A = A} {X = X} (MovesDue rings s b)
  MovesDue-frame rings s b = record {
    same = λ w. inl refl;
    steps = MovesDue-steps rings s b;
    outside = λ w x. inl refl;
    fleet = λ w f x. inl refl;
  }

  module _ (ports : Ports A X) (rings : List Ring) (s : State) (b : String) where
    due_steps :
        {B C : Type 0} (m : Action (World A X) B) (f : B → Action (World A X) C)
        → Leads (MovesDue rings s b) m
        → ((a : B) → Leads (MovesDue rings s b) (f a))
        → Leads (MovesDue rings s b) (m >>= f)
    due_steps m f = and_then ports (MovesDue rings s b) (MovesDue-frame rings s b) m f

    unmoved_due :
        {B : Type 0} (m : Action (World A X) B) → Leads (Kept b) m → Leads (MovesDue rings s b) m
    unmoved_due m h w = inl (h w)

    promote-due :
        (act : Decision) (now : Time) (o : Option Ring)
        → wave_at rings s.ring ≡ o
        → stamp_at s.promoted_at s.ring ≡ none
        → Leads (MovesDue rings s b) (or_raise o panicked >>= λ r. promote_wave ports act now r s)
    promote-due act now none e u w = inl refl
    promote-due act now (some r) e u w = elim (promote_wave-Offers ports b act now r s w) [
      | inl k ↦ inl k
      | inr (k, (g, i, n)) ↦
          inr (k, record { wave = r; group = g; found = e; unpinned = u; listed = i; branch = n })
    ]

    carry_out-due :
        (k : ActionKind) (rs : RingStatus) (now : Time) (act : Decision)
        → (k ≡ promote → stamp_at s.promoted_at s.ring ≡ none)
        → Leads (MovesDue rings s b) (carry_out ports k rings rs now act s)
    unfolding carry_out
    carry_out-due promote rs now act u w =
        promote-due act now (wave_at rings s.ring) refl (u refl) w
    carry_out-due widen_cohort rs now act u w =
        due_steps (or_raise (wave_at rings s.ring) panicked) (λ r. widen_wave ports act now r s)
          (or_raise-Leads ports (MovesDue rings s b) (MovesDue-frame rings s b) _ _)
          (λ r. unmoved_due (widen_wave ports act now r s) (widen_wave-Kept ports b act now r s)) w
    carry_out-due wait rs now act u w =
        due_steps (or_raise (seen_converged rings s rs now) panicked) (finish ports act now)
          (or_raise-Leads ports (MovesDue rings s b) (MovesDue-frame rings s b) _ _)
          (λ s'. unmoved_due (finish ports act now s') (finish-Kept ports b act now s')) w
    carry_out-due await_approval rs now act u w = inl (finish-Kept ports b act now s w)
    carry_out-due advance rs now act u w =
        inl (finish-Kept ports b act now (record s { ring = s.ring +ℤ pos 1 }) w)
    carry_out-due halt rs now act u w =
        inl (finish-Kept ports b act now (record s { status = halted; reason = act.reason }) w)
    carry_out-due done rs now act u w = inl (
        finish-Kept ports b act now (record s { status = completed; reason = act.reason })
          (record w { outside = ports.emit "Rollout complete" w.outside }))

    act_on-due :
        (now : Time) (rs : RingStatus) → Leads (MovesDue rings s b) (act_on ports rings s now rs)
    unfolding act_on
    act_on-due now rs = decided (decide ports.format rings s rs now) refl
      where
        decided :
            (o : Option Decision)
            → decide ports.format rings s rs now ≡ o
            → Leads
                (MovesDue rings s b)
                (or_raise o panicked >>= λ act. carry_out ports act.kind rings rs now act s)
        decided none e w = inl refl
        decided (some act) e w =
            carry_out-due act.kind rs now act
              (λ k.
                ((decide-promote_iff ports.format rings s rs now).0 (ap kind_of e ∙ ap some k)).2)
              w

    observed-due :
        Leads
          (MovesDue rings s b)
          (ask ports.clock >>= λ now. observe ports rings s >>= act_on ports rings s now)
    observed-due =
        due_steps (ask ports.clock) (λ now. observe ports rings s >>= act_on ports rings s now)
          (λ w. inl refl)
          (λ now.
            due_steps (observe ports rings s) (act_on ports rings s now)
              (observe-Leads ports (MovesDue rings s b) (MovesDue-frame rings s b) rings s)
              (act_on-due now))

  -- The release of a wave: the run and its plan, and where the branch ends.
  pub record IsRelease (w w' : World A X) (b : String) : Type 0 where
    pub run : State
    pub plan : List Ring
    pub stored : w.run ≡ some run
    pub running : run.status ≡ active
    pub planned : run_rings w.fleet run ≡ ok plan
    pub due : IsDue plan run b
    pub target : lookup b w'.remote ≡ some run.target

  module _ (ports : Ports A X) (b : String) where
    tick_run-moves :
        (s : State) (w : World A X)
        → Kept b w (tick_run ports s w).1
          ⊎ ((rings : List Ring) × (run_rings w.fleet s ≡ ok rings)
              × (lookup b (tick_run ports s w).1.remote ≡ some s.target)
              × IsDue rings s b)
    unfolding tick_run
    tick_run-moves s w = planned (run_rings w.fleet s) refl
      where
        planned :
            (r : Result Failure (List Ring))
            → run_rings w.fleet s ≡ r
            → Kept b w
                (after
                  (r, w)
                  (λ rings. ask ports.clock >>= λ now.
                    observe ports rings s >>= act_on ports rings s now)).1
              ⊎ ((rings : List Ring) × (run_rings w.fleet s ≡ ok rings)
                  × (lookup b
                        (after
                          (r, w)
                          (λ rings. ask ports.clock >>= λ now.
                            observe ports rings s >>= act_on ports rings s now)).1.remote
                      ≡ some s.target)
                  × IsDue rings s b)
        planned (err e) h = inl refl
        planned (ok rings) h = elim (observed-due ports rings s b w) [
          | inl k ↦ inl k
          | inr (k, d) ↦ inr (rings, h, k, d)
        ]

    tick_from-moves :
        (o : Option State) (w : World A X)
        → w.run ≡ o
        → Kept b w (tick_from ports o w).1 ⊎ IsRelease w (tick_from ports o w).1 b
    unfolding tick_from
    tick_from-moves none w e = inl refl
    tick_from-moves (some s) w e = elim (Bool-cases (is_active s.status)) [
      | inr n ↦ rw (n, tick_from) (inl refl)
      | inl a ↦
          rw (a, tick_from)
            (elim (tick_run-moves (normalize s) w) [
              | inl k ↦ inl k
              | inr (rings, p, k, d) ↦ inr (record {
                run = s;
                plan = rings;
                stored = e;
                running = ground arith;
                planned = normal-plan w.fleet s rings p;
                due = normal-IsDue rings s b d;
                target = k ∙ normal-target s;
              })
            ])
    ]

    tick_cases : (w : World A X) → Kept b w (tick ports w).1 ⊎ IsRelease w (tick ports w).1 b
    unfolding tick
    tick_cases w = elim (store_get-cases ports w) [
      | inr (e, x, g) ↦ rw (tick, g) (inl refl)
      | inl (x, g) ↦
          rw (tick, g)
            (elim (tick_from-moves w.run (with_outside x w) refl) [
              | inl k ↦ inl k
              | inr r ↦ inr (record {
                run = r.run;
                plan = r.plan;
                stored = r.stored;
                running = r.running;
                planned = r.planned;
                due = r.due;
                target = r.target;
              })
            ])
    ]

    -- A tick that changes a branch of the remote finds an active run whose wave has no committed pin,
    -- the branch is that of one of the wave's groups, and it is left at the run's target.
    pub tick-moves :
        (w : World A X)
        → lookup b (tick ports w).1.remote ≢ lookup b w.remote
        → IsRelease w (tick ports w).1 b
    tick-moves w ne = elim (tick_cases w) [ inl k ↦ absurd (ne k) | inr r ↦ r ]
