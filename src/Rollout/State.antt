-- ===== src/Rollout/State.antt =====
-- internal/domain/rollout/rollout.go, lines 170 to 318: the durable record of a run and the
-- methods that read and write it. A Go map from ring index to time may be nil, where a read finds
-- nothing and a write panics: `Stamps` has `none` for the nil map, and a write returns `none` for
-- the panic. The index of the wave is a signed `int`, and nothing checks it when a run is read.
pub mod Notes
use sextant.Common.{
  if◌then◌else◌, ◌==◌, ltb_ℤ, same_ℤ, ℤ, pos, Time, Duration, zero_time, is_zero, minute, since, ℕ,
  ◌*◌, String, Bool, true, false, not, ◌||◌, Option, none, some, List, [], ℕ_Testable,
  String_Testable,
}
use sextant.Rollout.Ring.{Ring}

-- A text in the source, which writes these five values only.
pub data RunStatus : Type 0 where
  active paused halted completed cancelled : RunStatus

abbrev pub is_active : RunStatus → Bool
is_active active = true
is_active _ = false

abbrev pub status_text : RunStatus → String
status_text active = "active"
status_text paused = "paused"
status_text halted = "halted"
status_text completed = "completed"
status_text cancelled = "cancelled"

abbrev pub Stamps : Type 0
Stamps = Option (ℤ → Option Time)

-- `m[i]` with the second result
abbrev pub stamp_at : Stamps → ℤ → Option Time
stamp_at none i = none
stamp_at (some m) i = m i

abbrev pub empty_stamps : Stamps
empty_stamps = some (λ _. none)

abbrev pub put : (ℤ → Option Time) → ℤ → Time → ℤ → Option Time
put m i t j = if same_ℤ i j then some t else m j

-- `m[i] = t`
abbrev pub set_stamp : Stamps → ℤ → Time → Option Stamps
set_stamp none i t = none
set_stamp (some m) i t = some (some (put m i t))

abbrev pub cut : (ℤ → Option Time) → ℤ → ℤ → Option Time
cut m i j = if same_ℤ i j then none else m j

-- `delete(m, i)`, which does nothing to a nil map
abbrev pub delete_stamp : Stamps → ℤ → Stamps
delete_stamp none i = none
delete_stamp (some m) i = some (cut m i)

pub record State : Type 0 where
  pub target : String
  pub rings : List Ring
  pub change_id : String
  pub change_title : String
  pub ring : ℤ
  pub promoted_at : Stamps
  pub converged_at : Stamps
  pub approved_at : Stamps
  pub build_requested_at : Stamps
  pub status : RunStatus
  pub reason : String
  pub waiting : String
  pub waiting_since : Time
  pub started : Time
  pub updated : Time

pub data ActionKind : Type 0 where
  promote wait advance widen_cohort halt await_approval done : ActionKind

pub record Action : Type 0 where
  pub kind : ActionKind
  pub reason : String

-- `a.Kind == Halt || a.Kind == Done`
abbrev pub ends_run : ActionKind → Bool
ends_run halt = true
ends_run done = true
ends_run _ = false

-- `Note`
unfoldable pub note : State → Action → Time → State
note s a now =
    if ends_run a.kind
    then record s { waiting = ""; waiting_since = zero_time }
    else if s.waiting == a.reason
    then s
    else record s { waiting = a.reason; waiting_since = now }

-- `StuckFor`
unfoldable pub stuck_for : State → Time → Duration
stuck_for s now =
    if s.waiting == "" || is_zero s.waiting_since then pos 0 else since now s.waiting_since

-- `NewState`
unfoldable pub new_state : String → Time → State
new_state target now = record {
  target = target;
  rings = [];
  change_id = "";
  change_title = "";
  ring = pos 0;
  promoted_at = empty_stamps;
  converged_at = empty_stamps;
  approved_at = empty_stamps;
  build_requested_at = empty_stamps;
  status = active;
  reason = "";
  waiting = "";
  waiting_since = zero_time;
  started = now;
  updated = now;
}

abbrev pub non_nil : Stamps → Stamps
non_nil none = empty_stamps
non_nil (some m) = some m

-- `Approve`: the map is made first where it is nil, so the write cannot panic
unfoldable pub approve : State → Time → State
approve s now = elim s.approved_at [
  | none ↦ record s { approved_at = some (put (λ _. none) s.ring now) }
  | some m ↦ record s { approved_at = some (put m s.ring now) }
]

-- `Normalize`
unfoldable pub normalize : State → State
normalize s = record s {
  promoted_at = non_nil s.promoted_at;
  converged_at = non_nil s.converged_at;
  approved_at = non_nil s.approved_at;
  build_requested_at = non_nil s.build_requested_at;
}

-- `StallWindow`: 45 minutes
abbrev pub stall_window : Duration
stall_window = pos (45 * minute)

-- A stamp that is there and is not the zero time.
abbrev pub stamped : Option Time → Bool
stamped none = false
stamped (some t) = not (is_zero t)

abbrev pub positive_since : Time → Option Time → Duration
positive_since now none = pos 0
positive_since now (some t) = if ltb_ℤ (pos 0) (since now t) then since now t else pos 0

-- `StalledFor`; the nil receiver is `none`
unfoldable pub stalled_for : Option State → Time → ℤ → Duration
stalled_for none now i = pos 0
stalled_for (some s) now i =
    if not (is_active s.status)
    then pos 0
    else if not (stamped (stamp_at s.promoted_at i))
    then pos 0
    else if stamped (stamp_at s.converged_at i)
    then pos 0
    else positive_since now (stamp_at s.promoted_at i)
