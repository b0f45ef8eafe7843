-- ===== src/Service/Rollouts/Outcomes.antt =====
-- What the calls of the rollout service's ports come to.
use sextant.Common.{
  lookup, arith, lookup-insert, eq_iff, insert, String, ok, err, Option-cases, inl, inr, err,
  Option-cases, ◌≡◌, refl, ◌⊎◌, inl, inr, some,
}
use sextant.Rollout.State.{State}
use sextant.Service.Action.{Failure}
use sextant.Service.Rollouts.World.{
  push_branch, set_branch, ring_branch, with_branch, with_pushed, move_ring_ref, put_run, get_run,
  Ports, World, Call, call, store_get, store_put, with_outside, with_run,
}

module _ {A X : Type 0} (ports : Ports A X) where
  pub call-cases :
      (c : Call) (w : World A X)
      → ((x : X) × (call ports c w ≡ (ok tt, with_outside x w)))
        ⊎ ((e : Failure) × (x : X) × (call ports c w ≡ (err e, with_outside x w)))
  unfolding call
  call-cases c w = elim (Option-cases (ports.attempt c w.outside).0) [
    | inl n ↦ inl ((ports.attempt c w.outside).1, rw n refl)
    | inr (e, n) ↦ inr (e, (ports.attempt c w.outside).1, rw n refl)
  ]

  pub store_get-cases :
      (w : World A X)
      → ((x : X) × (store_get ports w ≡ (ok w.run, with_outside x w)))
        ⊎ ((e : Failure) × (x : X) × (store_get ports w ≡ (err e, with_outside x w)))
  unfolding store_get
  store_get-cases w = elim (call-cases get_run w) [
    | inl (x, n) ↦ inl (x, rw n refl)
    | inr (e, x, n) ↦ inr (e, x, rw n refl)
  ]

  pub store_put-cases :
      (s : State) (w : World A X)
      → ((x : X) × (store_put ports s w ≡ (ok tt, with_run (some s) (with_outside x w))))
        ⊎ ((e : Failure) × (x : X) × (store_put ports s w ≡ (err e, with_outside x w)))
  unfolding store_put
  store_put-cases s w = elim (call-cases put_run w) [
    | inl (x, n) ↦ inl (x, rw n refl)
    | inr (e, x, n) ↦ inr (e, x, rw n refl)
  ]

  pushed_back :
      (b rev : String) (w : World A X) (x : X)
      → with_pushed b (with_outside x (with_branch b rev w)) ≡ record w {
        branches = insert b rev w.branches;
        remote = insert b rev w.remote;
        outside = x;
      }
  pushed_back b rev w x =
      let there : lookup b (insert b rev w.branches) ≡ some rev =
        ground (arith, lookup-insert b b rev w.branches, eq_iff b b) in
      rw (there, with_pushed) refl

  -- A branch move that succeeds leaves the repository's branch and the remote's at the revision.
  pub move_ring_ref-cases :
      (g rev : String) (w : World A X)
      → ((e : Failure) × (w' : World A X) × (move_ring_ref ports g rev w ≡ (err e, w'))
          × (w'.remote ≡ w.remote))
        ⊎ ((x : X) × (move_ring_ref ports g rev w ≡ (
          ok tt,
          record w {
            branches = insert (ring_branch g) rev w.branches;
            remote = insert (ring_branch g) rev w.remote;
            outside = x;
          },
        )))
  unfolding move_ring_ref
  move_ring_ref-cases g rev w = elim (call-cases (set_branch (ring_branch g)) w) [
    | inr (e, x, n) ↦ inl (e, with_outside x w, rw (n, move_ring_ref) refl, refl)
    | inl (x, n) ↦
        let w1 = with_branch (ring_branch g) rev (with_outside x w) in
        elim (call-cases (push_branch (ring_branch g)) w1) [
          | inr (e, y, k) ↦ inl (e, with_outside y w1, rw (n, move_ring_ref) (rw k refl), refl)
          | inl (y, k) ↦
              inr (y, rw (n, move_ring_ref) (rw k (rw (pushed_back (ring_branch g) rev w y) refl)))
        ]
  ]
