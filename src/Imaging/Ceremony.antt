-- ===== src/Imaging/Ceremony.antt =====
-- The provisioning ceremony: the steps that a device's reports drive it through.
use sextant.Common.{
  inr, inl, Bool-cases, any, leb, map, arith, ℕ, ◌<◌, ◌≡◌, ◌↔◌, ◌⊎◌, Bool, true, false, not, ◌&&◌,
  ◌||◌, List, [], ◌∷◌,
}
use sextant.Imaging.{
  Status, pending, installed, sb_pending, sb_enrolled, tpm2_enrolled, done, failed, canceled, other,
  is_terminal, is_known, can_transition, needs_provisioning, SbState, Tpm2State, Ack,
  ack_sb_enroll_failed, ack_tpm2_enroll_failed, ack_tpm2_enrolled, ack_sb_enrolled, ack_other,
  advance, advance_from_device, is_enforcing, is_sb_unknown, is_tpm2_unknown, report,
}

stuck_of_terminal : (s t : Status) → is_terminal s ≡ true → can_transition s t ≡ false
unfolding is_terminal can_transition
stuck_of_terminal done t h = ground arith
stuck_of_terminal s t h = ground arith

terminal_of_stuck :
    (s : Status)
    → is_known s ≡ true
    → ((t : Status) → can_transition s t ≡ false)
    → is_terminal s ≡ true
unfolding is_terminal can_transition is_known
terminal_of_stuck (other x) k h = ground arith
terminal_of_stuck pending k h = ground (arith, h canceled)
terminal_of_stuck s k h = ground (arith, h canceled)

-- A done or canceled job stays as it is, and these are the only known statuses with no way out.
pub is_terminal_iff :
    (s : Status)
    → is_known s ≡ true
    → (is_terminal s ≡ true) ↔ ((t : Status) → can_transition s t ≡ false)
is_terminal_iff s k = (λ h t. stuck_of_terminal s t h, terminal_of_stuck s k)

-- The acks that report a failure.
abbrev pub reports_failure : Ack → Bool
reports_failure ack_sb_enroll_failed = true
reports_failure ack_tpm2_enroll_failed = true
reports_failure _ = false

-- Every move that `Advance` proposes is a legal transition, but for a failure ack on a job that is
-- done, canceled, or of an unknown status.
pub advance-legal :
    (s : Status) (sb : SbState) (tpm : Tpm2State) (ack : Ack) (want_sb want_tpm2 : Bool)
    → (advance s sb tpm ack want_sb want_tpm2).ok ≡ true
    → (can_transition s (advance s sb tpm ack want_sb want_tpm2).to ≡ true)
      ⊎ ((reports_failure ack ≡ true) × ((is_terminal s ≡ true) ⊎ (is_known s ≡ false)))
unfolding advance is_terminal is_known
advance-legal s sb tpm ack_other want_sb want_tpm2 h = ground arith
advance-legal s sb tpm ack want_sb want_tpm2 h = ground arith

-- How far a job is in the ceremony.
abbrev pub rank : Status → ℕ
rank installed = 0
rank sb_pending = 1
rank sb_enrolled = 2
rank tpm2_enrolled = 3
rank done = 4
rank failed = 5
rank _ = 0

-- A check-in leaves the status of a job in the ceremony or moves it forward, or to failed.
pub advance_from_device-forward :
    (s : Status) (sb : SbState) (tpm : Tpm2State) (ack : Ack) (want_sb want_tpm2 : Bool)
    → needs_provisioning s ≡ true
    → (advance_from_device s sb tpm ack want_sb want_tpm2 ≡ s)
      ⊎ (rank s < rank (advance_from_device s sb tpm ack want_sb want_tpm2))
unfolding advance_from_device needs_provisioning
advance_from_device-forward s sb tpm ack_other want_sb want_tpm2 h = ground arith
advance_from_device-forward s sb tpm ack want_sb want_tpm2 h = ground arith

-- What a device reports at a check-in.
pub record Beat : Type 0 where
  pub sb : SbState
  pub tpm2 : Tpm2State
  pub ack : Ack

-- What moves a job on: a check-in of its device, or a report of its station with a status. A job that
-- is cancelled or dispatched anew is left out.
pub data Event : Type 0 where
  beat : Beat → Event
  station : Status → Event

-- The events of a job, in their order, where the configuration of the device does not change.
unfoldable pub run : Bool → Bool → Status → List Event → Status
run want_sb want_tpm2 s [] = s
run want_sb want_tpm2 s (beat b ∷ events) =
    run want_sb want_tpm2 (advance_from_device s b.sb b.tpm2 b.ack want_sb want_tpm2) events
run want_sb want_tpm2 s (station to ∷ events) = run want_sb want_tpm2 (report s to) events

abbrev is_executor : Ack → Bool
is_executor ack_tpm2_enrolled = true
is_executor ack_sb_enrolled = true
is_executor _ = false

-- The statuses from Secure Boot enrolment on.
abbrev pub is_enrolled : Status → Bool
is_enrolled sb_enrolled = true
is_enrolled tpm2_enrolled = true
is_enrolled done = true
is_enrolled _ = false

-- A check-in that says that the firmware enforces Secure Boot, that an executor carried out a step, or
-- that the machine has a TPM2 state and no Secure Boot state at all; or a station that reports an
-- enrolled or a done job.
abbrev pub vouches : Event → Bool
vouches (beat b) =
    is_enforcing b.sb || is_executor b.ack || is_sb_unknown b.sb && not (is_tpm2_unknown b.tpm2)
vouches (station to) = is_enrolled to

advance_from_device-in_doubt :
    (s : Status) (sb : SbState) (tpm : Tpm2State) (ack : Ack) (want_tpm2 : Bool)
    → is_enrolled s ≡ false
    → vouches (beat (record { sb = sb; tpm2 = tpm; ack = ack })) ≡ false
    → is_enrolled (advance_from_device s sb tpm ack true want_tpm2) ≡ false
unfolding advance_from_device
advance_from_device-in_doubt installed sb tpm ack w h v = ground arith
advance_from_device-in_doubt s sb tpm ack w h v = ground arith

report-in_doubt :
    (s to : Status)
    → is_enrolled s ≡ false
    → is_enrolled to ≡ false
    → is_enrolled (report s to) ≡ false
unfolding report
report-in_doubt s to h v = elim (Bool-cases (can_transition s to)) [
  | inl e ↦ rw (e, report) v
  | inr e ↦ rw (e, report) h
]

run-in_doubt :
    (s : Status) (events : List Event) (want_tpm2 : Bool)
    → is_enrolled s ≡ false
    → any vouches events ≡ false
    → is_enrolled (run true want_tpm2 s events) ≡ false
unfolding run
run-in_doubt s [] w h v = h
run-in_doubt s (beat b ∷ events) w h v =
    run-in_doubt (advance_from_device s b.sb b.tpm2 b.ack true w) events w
      (advance_from_device-in_doubt s b.sb b.tpm2 b.ack w h (ground arith)) (ground arith)
run-in_doubt s (station to ∷ events) w h v =
    run-in_doubt (report s to) events w (report-in_doubt s to h (ground arith)) (ground arith)

-- A job of a device that is to have Secure Boot, and that is neither enrolled nor done, is done only
-- after an event vouched for it: the device says that its firmware enforces Secure Boot, its executor carried out
-- a step, the machine reports a TPM2 state and no Secure Boot state, or the station itself reported an
-- enrolled or a done job.
pub done-vouched :
    (s : Status) (events : List Event) (want_tpm2 : Bool)
    → is_enrolled s ≡ false
    → run true want_tpm2 s events ≡ done
    → any vouches events ≡ true
done-vouched s events w h e = elim (Bool-cases (any vouches events)) [
  | inl v ↦ v
  | inr v ↦ absurd (cc (run-in_doubt s events w h v, e))
]

-- The check-ins that tell of no failure.
abbrev pub goes_well : Beat → Bool
goes_well b = not (reports_failure b.ack)

abbrev is_done : Status → Bool
is_done done = true
is_done _ = false

-- A job of the ceremony or a done one, that has come so far.
abbrev has_come : ℕ → Status → Bool
has_come n s = (needs_provisioning s || is_done s) && leb n (rank s)

abbrev step : Bool → Bool → Status → Beat → Status
step want_sb want_tpm2 s b = advance_from_device s b.sb b.tpm2 b.ack want_sb want_tpm2

-- The check-ins of a device, with nothing from the station.
abbrev pub check_ins : Bool → Bool → Status → List Beat → Status
check_ins want_sb want_tpm2 s beats = run want_sb want_tpm2 s (map beat beats)
