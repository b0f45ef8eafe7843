-- ===== src/Service/Rollouts/Tick/Branches.antt =====
-- Which branches of the remote a tick moves.
use sextant.Service.Rollouts.Outcomes.{move_ring_ref-cases}
use sextant.Service.Rollouts.Waves.{ensure_ring_built, release_cohort}
use sextant.Service.Rollouts.Tick.{
  pin_groups, promote_wave, release_wave, offer_wave, move_refs, promoted, widen_wave,
  mark_promoted, await_build, finish, Ticked,
}
use sextant.Common.{
  if◌then◌else◌, eq_iff, lookup-insert, arith, ap, insert, Map, contains, Time, lookup, String, ◌≡◌,
  refl, ◌∙◌, ◌⊎◌, inl, inr, true, some, List, ℕ_Testable, String_Testable,
}
use sextant.Common.{[], ◌∷◌, true, some, inl, inr, ◌∙◌}
use sextant.Rollout.Ring.{Ring, group_list}
use sextant.Rollout.State.{delete_stamp, State, Action as Decision}
use sextant.Service.Action.{
  Action, ◌>>=◌, ◌>>◌, pure, modify, or_raise, Leads, bind-Leads_given, panicked,
}
use sextant.Service.Rollouts.World.{
  with_run, put_run, call, move_ring_ref, store_put, ring_branch, Ports, World,
}
use sextant.Service.Rollouts.Frame.{
  ensure_ring_built-Leads, pin_groups-Leads, if-Leads, call-Leads, release_cohort-Leads,
  or_raise-Leads, IsFrame, and_then,
}
use sextant.Service.Rollouts.Tick.Held.{ensure_ring_built-Gives, IsHeld}

module _ {A X : Type 0} where
  -- The remote's branch `b` is as it was.
  abbrev pub Kept : String → World A X → World A X → Type 0
  Kept b w w' = lookup b w'.remote ≡ lookup b w.remote

  pub Kept-frame : (b : String) → IsFrame {A = A} {X = X} (Kept b)
  Kept-frame b = record {
    same = λ w. refl;
    steps = λ u v w p q. q ∙ p;
    outside = λ w x. refl;
    fleet = λ w f x. refl;
  }

  -- The remote's branch `b` is as it was, or stands at `rev` and is the branch of one of the groups.
  abbrev pub Offers : String → List String → String → World A X → World A X → Type 0
  Offers rev gs b w w' =
      Kept b w w'
      ⊎ ((lookup b w'.remote ≡ some rev)
          × ((g : String) × (contains gs g ≡ true) × (b ≡ ring_branch g)))

  Offers-steps :
      (rev : String) (gs : List String) (b : String) (u v w : World A X)
      → Offers rev gs b u v
      → Offers rev gs b v w
      → Offers rev gs b u w
  Offers-steps rev gs b u v w (inl p) (inl q) = inl (q ∙ p)
  Offers-steps rev gs b u v w (inr (p, g)) (inl q) = inr (q ∙ p, g)
  Offers-steps rev gs b u v w p (inr q) = inr q

  Offers-frame :
      (rev : String) (gs : List String) (b : String) → IsFrame {A = A} {X = X} (Offers rev gs b)
  Offers-frame rev gs b = record {
    same = λ w. inl refl;
    steps = Offers-steps rev gs b;
    outside = λ w x. inl refl;
    fleet = λ w f x. inl refl;
  }

  module _ (ports : Ports A X) (b : String) where
    branch_steps :
        {B C : Type 0} (m : Action (World A X) B) (f : B → Action (World A X) C)
        → Leads (Kept b) m
        → ((a : B) → Leads (Kept b) (f a))
        → Leads (Kept b) (m >>= f)
    branch_steps m f = and_then ports (Kept b) (Kept-frame b) m f

    pub store_put-Kept : (s : State) → Leads (Kept b) (store_put ports s)
    unfolding store_put
    store_put-Kept s =
        branch_steps (call ports put_run) (λ u. modify (with_run (some s)))
          (call-Leads ports (Kept b) (Kept-frame b) put_run) (λ u w. refl)

    put_and-Kept : (s : State) (t : Ticked) → Leads (Kept b) (store_put ports s >> pure t)
    put_and-Kept s t =
        branch_steps (store_put ports s) (λ u. pure t) (store_put-Kept s) (λ u w. refl)

    pub finish-Kept :
        (act : Decision) (now : Time) (s : State) → Leads (Kept b) (finish ports act now s)
    unfolding finish
    finish-Kept act now s = put_and-Kept _ _

    await_build-Kept :
        (act : Decision) (now : Time) (s : State) → Leads (Kept b) (await_build ports act now s)
    unfolding await_build
    await_build-Kept act now s = put_and-Kept _ _

    mark_promoted-Kept :
        (act : Decision) (now : Time) (s : State) → Leads (Kept b) (mark_promoted ports act now s)
    unfolding mark_promoted
    mark_promoted-Kept act now s =
        branch_steps (or_raise (promoted s now) panicked) (finish ports act now)
          (or_raise-Leads ports (Kept b) (Kept-frame b) _ _) (finish-Kept act now)

    pub widen_wave-Kept :
        (act : Decision) (now : Time) (r : Ring) (s : State)
        → Leads (Kept b) (widen_wave ports act now r s)
    unfolding widen_wave
    widen_wave-Kept act now r s =
        let s' = record s { converged_at = delete_stamp s.converged_at s.ring } in
        branch_steps (release_cohort ports r) (λ u. finish ports act now s')
          (release_cohort-Leads ports (Kept b) (Kept-frame b) r) (λ u. finish-Kept act now s')

    pushed :
        (g rev : String) (m : Map String)
        → (lookup b (insert (ring_branch g) rev m) ≡ lookup b m)
          ⊎ ((b ≡ ring_branch g) × (lookup b (insert (ring_branch g) rev m) ≡ some rev))
    pushed g rev m = ground (arith, lookup-insert (ring_branch g) b rev m, eq_iff (ring_branch g) b)

    -- Moving the branch of a group to `rev` leaves every other branch alone.
    pub move_ring_ref-remote :
        (g rev : String) (w : World A X)
        → Kept b w (move_ring_ref ports g rev w).1
          ⊎ ((b ≡ ring_branch g) × (lookup b (move_ring_ref ports g rev w).1.remote ≡ some rev))
    unfolding move_ring_ref
    move_ring_ref-remote g rev w = elim (move_ring_ref-cases ports g rev w) [
      | inl (e, w', m, k) ↦ rw m (inl (ap (lookup b) k))
      | inr (x, m) ↦ rw m (pushed g rev w.remote)
    ]

  module _ (ports : Ports A X) (rev b : String) (all : List String) where
    offer_steps :
        {B C : Type 0} (m : Action (World A X) B) (f : B → Action (World A X) C)
        → Leads (Offers rev all b) m
        → ((a : B) → Leads (Offers rev all b) (f a))
        → Leads (Offers rev all b) (m >>= f)
    offer_steps m f = and_then ports (Offers rev all b) (Offers-frame rev all b) m f

    unmoved-Offers :
        {B : Type 0} (m : Action (World A X) B) → Leads (Kept b) m → Leads (Offers rev all b) m
    unmoved-Offers m h w = inl (h w)

    move_ref-Offers :
        (g : String) → contains all g ≡ true → Leads (Offers rev all b) (move_ring_ref ports g rev)
    move_ref-Offers g i w = elim (move_ring_ref-remote ports b g rev w) [
      | inl k ↦ inl k
      | inr (e, k) ↦ inr (k, (g, i, e))
    ]

    move_refs-Offers :
        (gs : List String)
        → ((g : String) → contains gs g ≡ true → contains all g ≡ true)
        → Leads (Offers rev all b) (move_refs ports rev gs)
    unfolding move_refs
    move_refs-Offers [] sub w = inl refl
    move_refs-Offers (g ∷ gs) sub w =
        offer_steps (move_ring_ref ports g rev) (λ u. move_refs ports rev gs)
          (move_ref-Offers g (sub g (ground (arith, eq_iff g g))))
          (λ u. move_refs-Offers gs (λ h i. sub h (ground arith))) w

    offer_wave-Offers : Leads (Offers rev all b) (offer_wave ports rev all)
    unfolding offer_wave
    offer_wave-Offers =
        if-Leads ports (Offers rev all b) (Offers-frame rev all b) ports.has_refs
          (move_refs ports rev all) (pure tt) (move_refs-Offers all (λ g i. i)) (λ w. inl refl)

  module _ (ports : Ports A X) (b : String) where
    release_wave-Offers :
        (act : Decision) (now : Time) (r : Ring) (s : State) (rev : String)
        → s.target ≡ rev
        → Leads (Offers rev (group_list r) b) (release_wave ports act now r s)
    unfolding release_wave
    release_wave-Offers act now r s rev e =
        let gs = group_list r in
        offer_steps ports rev b gs (pin_groups ports s gs)
          (λ u.
            release_cohort ports r
            >> (offer_wave ports s.target gs >> mark_promoted ports act now s))
          (pin_groups-Leads ports (Offers rev gs b) (Offers-frame rev gs b) s gs)
          (λ u.
            offer_steps ports rev b gs (release_cohort ports r)
              (λ u. offer_wave ports s.target gs >> mark_promoted ports act now s)
              (release_cohort-Leads ports (Offers rev gs b) (Offers-frame rev gs b) r)
              (λ u.
                offer_steps ports rev b gs (offer_wave ports s.target gs)
                  (λ u. mark_promoted ports act now s) (rw e (offer_wave-Offers ports rev b gs))
                  (λ u.
                    unmoved-Offers ports rev b gs (mark_promoted ports act now s)
                      (mark_promoted-Kept ports b act now s))))

    pub promote_wave-Offers :
        (act : Decision) (now : Time) (r : Ring) (s : State)
        → Leads (Offers s.target (group_list r) b) (promote_wave ports act now r s)
    unfolding promote_wave
    promote_wave-Offers act now r s =
        let R = Offers s.target (group_list r) b in
        let frame = Offers-frame s.target (group_list r) b in
        bind-Leads_given R frame.steps (λ p. IsHeld s p.1) (ensure_ring_built ports s r now)
          (λ built.
            if built.0
            then release_wave ports act now r built.1
            else await_build ports act now built.1)
          (ensure_ring_built-Leads ports R frame s r now) (ensure_ring_built-Gives ports s r now)
          (λ built h.
            if-Leads ports R frame built.0 (release_wave ports act now r built.1)
              (await_build ports act now built.1)
              (release_wave-Offers act now r built.1 s.target h.target)
              (unmoved-Offers ports s.target b (group_list r) (await_build ports act now built.1)
                (await_build-Kept ports b act now built.1)))
