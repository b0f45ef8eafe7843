-- ===== src/Rollout/Decide.antt =====
-- internal/domain/rollout/rollout.go, lines 390 to 482: `Decide`, the next action of a run. The
-- texts are the source's; `time.Time.Format` is the parameter `format`.
pub mod Safety
use sextant.Common.{
  ltb, if◌then◌else◌, length, get_elem?, ◌==◌, ◌-ℤ◌, ◌+ℤ◌, same_ℤ, leb_ℤ, ℤ, negsuc, Option, ◌*ℤ◌,
  ltb_ℤ, wrap_int64, pos, ◌<>◌, itoa, itoa_ℤ, Time, Duration, minute, since, add, ℕ, String, Bool,
  true, false, not, ◌&&◌, none, some, List, ℕ_Testable, String_Testable,
}
use sextant.Rollout.Ring.{
  Ring, RingStatus, label, min_healthy, min_present, present, enough_evidence, converged,
  too_broken,
}
use sextant.Rollout.State.{
  is_active, status_text, stamp_at, State, ActionKind, promote, wait, advance, widen_cohort, halt,
  await_approval, done, Action,
}

abbrev pub kind_of : Option Action → Option ActionKind
kind_of none = none
kind_of (some act) = some act.kind

-- `rings[i]`, with `none` out of range
abbrev pub wave_at : List Ring → ℤ → Option Ring
wave_at rings (pos i) = get_elem? rings i
wave_at rings (negsuc i) = none

abbrev pub act : ActionKind → String → Action
act k text = record { kind = k; reason = text }

-- `"ring %d (%s)"`
ring_text : State → Ring → String
ring_text s r = "ring " <> itoa_ℤ s.ring <> " (" <> r.group <> ")"

-- `"wave %d (%s)"`
wave_text : State → Ring → String
wave_text s r = "wave " <> itoa_ℤ s.ring <> " (" <> label r <> ")"

pub promote_text : State → Ring → String
promote_text s r = "pin ring " <> itoa_ℤ s.ring <> " (" <> r.group <> ") to " <> s.target

pub empty_text : State → Ring → String
unfolding ring_text
empty_text s r = ring_text s r <> " has no devices"

pub broken_text : State → Ring → RingStatus → String
unfolding ring_text
broken_text s r rs =
    ring_text s r
    <> ": "
    <> itoa rs.broken
    <> " device(s) unhealthy on target exceeds the "
    <> itoa_ℤ (pos 100 -ℤ min_healthy r)
    <> "% failure budget"

pub absent_text : State → Ring → RingStatus → String
unfolding ring_text
absent_text s r rs =
    ring_text s r
    <> ": all "
    <> itoa rs.total
    <> " device(s) absent, so this ring cannot converge. Cancel the run, or retire the devices that are gone"

pub evidence_text : State → Ring → RingStatus → String
unfolding ring_text
evidence_text s r rs =
    ring_text s r
    <> ": "
    <> itoa (present rs)
    <> " of "
    <> itoa rs.total
    <> " device(s) reachable, "
    <> itoa (min_present r rs.total)
    <> " needed before a health gate means anything"

pub converging_text : State → Ring → RingStatus → String
unfolding ring_text
converging_text s r rs =
    ring_text s r
    <> ": "
    <> itoa rs.healthy
    <> "/"
    <> itoa rs.total
    <> " healthy on target (gate "
    <> itoa_ℤ (min_healthy r)
    <> "%)"

pub soak_text : State → Ring → String
unfolding ring_text
soak_text s r = ring_text s r <> ": converged, starting soak"

pub widen_text : State → Ring → RingStatus → String
unfolding wave_text
widen_text s r rs =
    wave_text s r
    <> ": cohort of "
    <> itoa rs.released
    <> "/"
    <> itoa rs.group_total
    <> " healthy and soaked, releasing the next batch"

pub approval_text : State → Ring → String
unfolding wave_text
approval_text s r = wave_text s r <> ": healthy and soaked, awaiting approval to promote"

pub advance_text : State → Ring → String
unfolding wave_text
advance_text s r = wave_text s r <> " healthy and soaked"

-- `time.Duration(ring.SoakMinutes) * time.Minute`, in 64-bit integers
unfoldable pub soak : Ring → Duration
soak r = wrap_int64 (r.soak_minutes *ℤ pos minute)

-- `now.Sub(converged) < soak`
unfoldable pub still_soaking : Ring → Time → Time → Bool
still_soaking r now t = ltb_ℤ (since now t) (soak r)

-- `ring.MaxDevices > 0 && ringStatus.Released < ringStatus.GroupTotal`
unfoldable pub has_more : Ring → RingStatus → Bool
has_more r rs = ltb_ℤ (pos 0) r.max_devices && ltb rs.released rs.group_total

unfoldable pub is_approved : State → Bool
is_approved s = elim (stamp_at s.approved_at s.ring) [ none ↦ false | some _ ↦ true ]

-- What follows the soak: lines 461 to 481.
unfoldable pub decide_soaked : ℕ → Ring → State → RingStatus → Action
decide_soaked waves r s rs =
    if has_more r rs
    then act widen_cohort (widen_text s r rs)
    else if same_ℤ (s.ring +ℤ pos 1) (pos waves)
    then act done "last wave converged and soaked"
    else if r.require_approval && not (is_approved s)
    then act await_approval (approval_text s r)
    else act advance (advance_text s r)

module _ (format : Time → String) where
  pub soaking_text : State → Ring → Time → String
  unfolding ring_text
  soaking_text s r t = ring_text s r <> ": soaking until " <> format (add t (soak r))

  -- The soak clock: lines 445 to 456.
  unfoldable pub decide_converged : ℕ → Ring → State → RingStatus → Time → Action
  decide_converged waves r s rs now = elim (stamp_at s.converged_at s.ring) [
    | none ↦ act wait (soak_text s r)
    | some t ↦
        if still_soaking r now t then act wait (soaking_text s r t) else decide_soaked waves r s rs
  ]

  -- The gates of a wave whose pin is committed: lines 404 to 443.
  unfoldable pub decide_promoted : ℕ → Ring → State → RingStatus → Time → Action
  decide_promoted waves r s rs now =
      if rs.total == 0
      then act advance (empty_text s r)
      else if too_broken r rs
      then act halt (broken_text s r rs)
      else if present rs == 0
      then act wait (absent_text s r rs)
      else if not (enough_evidence r rs)
      then act wait (evidence_text s r rs)
      else if not (converged r rs)
      then act wait (converging_text s r rs)
      else decide_converged waves r s rs now

  unfoldable pub decide_wave : ℕ → Ring → State → RingStatus → Time → Action
  decide_wave waves r s rs now = elim (stamp_at s.promoted_at s.ring) [
    | none ↦ act promote (promote_text s r)
    | some _ ↦ decide_promoted waves r s rs now
  ]

  -- `Decide`; an index out of range is one past the last wave, or is negative, where `none` is the panic
  unfoldable pub decide : List Ring → State → RingStatus → Time → Option Action
  decide rings s rs now =
      if not (is_active s.status)
      then some (act done ("run is " <> status_text s.status))
      else elim (wave_at rings s.ring) [
        | none ↦ if leb_ℤ (pos 0) s.ring then some (act done "all rings rolled out") else none
        | some r ↦ some (decide_wave (length rings) r s rs now)
      ]
