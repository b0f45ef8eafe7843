-- ===== src/Rollout/State/Notes.antt =====
-- What a run remembers of why it waits, and how long it has been stalled.
use sextant.Common.{
  inr, inl, Bool-cases, ◌≤ℤ◌, pos, Time, minute, ℤ, ◌+◌, ◌*◌, ◌≤◌, eq_iff, ◌≡◌, refl, ◌≢◌, false,
  Option, none, some, List, [], ◌∷◌, arith,
}
use sextant.Rollout.State.{
  is_active, active, stamp_at, stamped, State, Action, ends_run, note, stalled_for, stall_window,
  positive_since,
}

-- The ticks of an engine that gives one and the same action at each of them.
unfoldable pub note_all : State → Action → List Time → State
note_all s a [] = s
note_all s a (t ∷ ts) = note_all (note s a t) a ts

note_again :
    (s : State) (a : Action) (t : Time)
    → ends_run a.kind ≡ false
    → s.waiting ≡ a.reason
    → note s a t ≡ s
unfolding note
note_again s a t k e = ground (arith, eq_iff s.waiting a.reason)

note_all_again :
    (s : State) (a : Action) (ts : List Time)
    → ends_run a.kind ≡ false
    → s.waiting ≡ a.reason
    → note_all s a ts ≡ s
unfolding note_all
note_all_again s a [] k e = refl
note_all_again s a (t ∷ ts) k e = rw (note_again s a t k e) (note_all_again s a ts k e)

note_waiting :
    (s : State) (a : Action) (t : Time) → ends_run a.kind ≡ false → (note s a t).waiting ≡ a.reason
unfolding note
note_waiting s a t k = ground (arith, eq_iff s.waiting a.reason)

note_since :
    (s : State) (a : Action) (t : Time)
    → ends_run a.kind ≡ false
    → s.waiting ≢ a.reason
    → (note s a t).waiting_since ≡ t
unfolding note
note_since s a t k ne = ground (arith, eq_iff s.waiting a.reason)

-- However often an action that does not end the run is given, with a reason that the run did not
-- wait for before, the run says that it waits for that reason since the first of these ticks.
pub note_all-since :
    (s : State) (a : Action) (t : Time) (ts : List Time)
    → ends_run a.kind ≡ false
    → s.waiting ≢ a.reason
    → ((note_all s a (t ∷ ts)).waiting ≡ a.reason) × ((note_all s a (t ∷ ts)).waiting_since ≡ t)
unfolding note_all
note_all-since s a t ts k ne =
    rw (note_all_again (note s a t) a ts k (note_waiting s a t k))
      (note_waiting s a t k, note_since s a t k ne)

positive_since_nonneg : (now : Time) (o : Option Time) → pos 0 ≤ℤ positive_since now o
positive_since_nonneg now none = omega arith
positive_since_nonneg now (some t) = ground arith

positive_since-window :
    (now : Time) (o : Option Time)
    → stall_window ≤ℤ positive_since now o
    → (t : Time) × (o ≡ some t) × (t + 45 * minute ≤ now)
positive_since-window now none h = absurd (omega arith)
positive_since-window now (some t) h = (t, refl, ground arith)

-- `StalledFor` is never negative.
pub stalled_for_nonneg : (s : Option State) (now : Time) (i : ℤ) → pos 0 ≤ℤ stalled_for s now i
unfolding stalled_for
stalled_for_nonneg none now i = omega arith
stalled_for_nonneg (some s) now i = elim (Bool-cases (is_active s.status)) [
  | inl e ↦ rw e (ground (arith, positive_since_nonneg now (stamp_at s.promoted_at i)))
  | inr e ↦ rw e (omega arith)
]

-- A run is stalled on a wave for at least the window only if it is active and the wave's pin was
-- committed at least that long ago, with no convergence seen.
pub stalled_for-window :
    (s : State) (now : Time) (i : ℤ)
    → stall_window ≤ℤ stalled_for (some s) now i
    → (s.status ≡ active)
      × (stamped (stamp_at s.converged_at i) ≡ false)
      × ((t : Time) × (stamp_at s.promoted_at i ≡ some t) × (t + 45 * minute ≤ now))
unfolding stalled_for
stalled_for-window s now i h = ground (arith, positive_since-window now (stamp_at s.promoted_at i))
