-- ===== src/Rollout/Decide/Safety.antt =====
-- What a decision of the engine proves about the run it was made for.
use sextant.Common.{
  Option-cases, length, ◌≤ℤ◌, Time, since, ℕ, ◌+ℤ◌, pos, Option, ◌<◌, String, ◌≡◌, ◌≢◌, ◌↔◌, inl,
  inr, Bool, true, false, not, ◌||◌, none, some, List, arith,
}
use sextant.Rollout.Ring.{Ring, RingStatus, enough_evidence, converged, too_broken}
use sextant.Rollout.State.{
  active, stamp_at, State, ActionKind, advance, widen_cohort, await_approval, done,
}
use sextant.Rollout.Decide.{
  is_approved, has_more, promote, halt, decide_soaked, soak, still_soaking, decide_converged,
  decide_promoted, decide_wave, decide, kind_of, wave_at,
}

-- A wave with devices that converged, was seen to converge, and soaked for its time.
pub record IsProved (r : Ring) (s : State) (rs : RingStatus) (now : Time) : Type 0 where
  pub whole : converged r rs ≡ true
  pub sound : too_broken r rs ≡ false
  pub evidence : enough_evidence r rs ≡ true
  pub clock : Time
  pub seen : stamp_at s.converged_at s.ring ≡ some clock
  pub soaked : soak r ≤ℤ since now clock

-- The kinds of action that move a run past the evidence of its wave.
abbrev pub moves_on : Option ActionKind → Bool
moves_on (some advance) = true
moves_on (some widen_cohort) = true
moves_on (some done) = true
moves_on (some await_approval) = true
moves_on _ = false

still_soaking-false :
    (r : Ring) (now t : Time) → still_soaking r now t ≡ false → soak r ≤ℤ since now t
unfolding still_soaking
still_soaking-false r now t h = ground arith

module _ (format : Time → String) where
  decide_converged-clock :
      (waves : ℕ) (r : Ring) (s : State) (rs : RingStatus) (now : Time)
      → moves_on (some (decide_converged format waves r s rs now).kind) ≡ true
      → (t : Time) × (stamp_at s.converged_at s.ring ≡ some t) × (still_soaking r now t ≡ false)
  unfolding decide_converged
  decide_converged-clock waves r s rs now h = elim (Option-cases (stamp_at s.converged_at s.ring)) [
    | inl e ↦ absurd (unseen e h)
    | inr (t, e) ↦ (t, e, soaked t e h)
  ]
    where
      unseen :
          stamp_at s.converged_at s.ring ≡ none
          → moves_on (some (decide_converged format waves r s rs now).kind) ≡ true
          → ⊥
      unseen e h = ground arith

      soaked :
          (t : Time)
          → stamp_at s.converged_at s.ring ≡ some t
          → moves_on (some (decide_converged format waves r s rs now).kind) ≡ true
          → still_soaking r now t ≡ false
      soaked t e h = ground arith

  -- An active run moves past a promoted wave that has devices (it advances, widens, asks for
  -- approval or ends) only when the wave is proved: enough devices are present, enough of them are
  -- healthy, they are not too broken, and they have soaked for the wave's time since they were first
  -- seen to converge.
  pub decide-IsProved :
      (rings : List Ring) (s : State) (rs : RingStatus) (now : Time) (r : Ring) (p : Time)
      → s.status ≡ active
      → wave_at rings s.ring ≡ some r
      → stamp_at s.promoted_at s.ring ≡ some p
      → 0 < rs.total
      → moves_on (kind_of (decide format rings s rs now)) ≡ true
      → IsProved r s rs now
  unfolding decide decide_wave decide_promoted
  decide-IsProved rings s rs now r p a g e n h =
      let (t, seen, over) = decide_converged-clock (length rings) r s rs now (ground arith) in
      record {
        whole = ground arith;
        sound = ground arith;
        evidence = ground arith;
        clock = t;
        seen = seen;
        soaked = still_soaking-false r now t over;
      }

  -- An active run on a promoted wave that has devices is halted exactly when the wave is too broken.
  pub decide-halt_iff :
      (rings : List Ring) (s : State) (rs : RingStatus) (now : Time) (r : Ring) (p : Time)
      → s.status ≡ active
      → wave_at rings s.ring ≡ some r
      → stamp_at s.promoted_at s.ring ≡ some p
      → 0 < rs.total
      → (kind_of (decide format rings s rs now) ≡ some halt) ↔ (too_broken r rs ≡ true)
  unfolding decide decide_wave decide_promoted decide_converged decide_soaked
  decide-halt_iff rings s rs now r p a g e n = ground arith

  -- The pin of a wave is asked for exactly when the run is active, its wave exists, and the wave's
  -- pin is not committed.
  pub decide-promote_iff :
      (rings : List Ring) (s : State) (rs : RingStatus) (now : Time)
      → (kind_of (decide format rings s rs now) ≡ some promote) ↔ (
          (s.status ≡ active)
          × (wave_at rings s.ring ≢ none)
          × (stamp_at s.promoted_at s.ring ≡ none))
  unfolding decide decide_wave decide_promoted decide_converged decide_soaked
  decide-promote_iff rings s rs now = ground arith

  -- A run leaves a wave that has devices for the next one only when the whole group is released, the
  -- wave is not the last, and an operator approved it where it is a manual gate.
  pub decide-advance :
      (rings : List Ring) (s : State) (rs : RingStatus) (now : Time) (r : Ring)
      → wave_at rings s.ring ≡ some r
      → 0 < rs.total
      → kind_of (decide format rings s rs now) ≡ some advance
      → (has_more r rs ≡ false)
        × (s.ring +ℤ pos 1 ≢ pos (length rings))
        × ((not r.require_approval || is_approved s) ≡ true)
  unfolding decide decide_wave decide_promoted decide_converged decide_soaked
  decide-advance rings s rs now r g n h = ground arith

  -- A run that is paused, halted, completed or cancelled is never acted on.
  pub decide-inactive :
      (rings : List Ring) (s : State) (rs : RingStatus) (now : Time)
      → s.status ≢ active
      → kind_of (decide format rings s rs now) ≡ some done
  unfolding decide
  decide-inactive rings s rs now h = ground arith
