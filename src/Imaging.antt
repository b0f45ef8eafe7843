-- ===== src/Imaging.antt =====
-- internal/domain/imaging: the life of an image job (imaging.go) and the rule by which a device's
-- reports advance it (provision.go), with the posture values of internal/domain/observed/posture.go.
pub mod Ceremony
use sextant.Common.{if◌then◌else◌, String, Bool, true, false, not, ◌&&◌, ◌||◌}

-- `Status` is a text in the source; `other` holds a text that is none of the nine.
pub data Status : Type 0 where
  pending imaging installed sb_pending sb_enrolled tpm2_enrolled done failed canceled : Status
  other : String → Status

-- `Valid`
unfoldable pub is_known : Status → Bool
is_known (other s) = false
is_known _ = true

-- `Terminal`
unfoldable pub is_terminal : Status → Bool
is_terminal done = true
is_terminal canceled = true
is_terminal _ = false

pub data Phase : Type 0 where
  install secureboot tpm2 complete halted : Phase

-- `Phase`
unfoldable pub phase : Status → Phase
phase pending = install
phase imaging = install
phase installed = install
phase sb_pending = secureboot
phase sb_enrolled = secureboot
phase tpm2_enrolled = tpm2
phase done = complete
phase _ = halted

-- The rows of `CanTransition`.
unfoldable pub next : Status → Status → Bool
next pending imaging = true
next pending failed = true
next pending canceled = true
next imaging installed = true
next imaging failed = true
next imaging canceled = true
next installed sb_pending = true
next installed sb_enrolled = true
next installed tpm2_enrolled = true
next installed done = true
next installed failed = true
next installed canceled = true
next sb_pending sb_enrolled = true
next sb_pending failed = true
next sb_pending canceled = true
next sb_enrolled tpm2_enrolled = true
next sb_enrolled done = true
next sb_enrolled failed = true
next sb_enrolled canceled = true
next tpm2_enrolled done = true
next tpm2_enrolled failed = true
next tpm2_enrolled canceled = true
next failed pending = true
next failed canceled = true
next _ _ = false

-- `CanTransition`
unfoldable pub can_transition : Status → Status → Bool
unfolding next is_known
can_transition from to = is_known to && next from to

-- `NeedsProvisioning`
unfoldable pub needs_provisioning : Status → Bool
needs_provisioning installed = true
needs_provisioning sb_pending = true
needs_provisioning sb_enrolled = true
needs_provisioning tpm2_enrolled = true
needs_provisioning _ = false

-- `SBState` and `TPM2State`, which the check-in validates to be one of these.
pub data SbState : Type 0 where
  sb_unknown sb_off sb_audit sb_enforcing : SbState

pub data Tpm2State : Type 0 where
  tpm2_unknown tpm2_absent tpm2_present tpm2_sealed : Tpm2State

-- The acks that `Advance` looks at, and every other.
pub data Ack : Type 0 where
  ack_sb_enroll_failed ack_tpm2_enroll_failed ack_tpm2_enrolled ack_sb_enrolled ack_other : Ack

abbrev pub is_sb_unknown : SbState → Bool
is_sb_unknown sb_unknown = true
is_sb_unknown _ = false

abbrev pub is_enforcing : SbState → Bool
is_enforcing sb_enforcing = true
is_enforcing _ = false

abbrev pub is_off_or_audit : SbState → Bool
is_off_or_audit sb_off = true
is_off_or_audit sb_audit = true
is_off_or_audit _ = false

abbrev pub is_tpm2_unknown : Tpm2State → Bool
is_tpm2_unknown tpm2_unknown = true
is_tpm2_unknown _ = false

abbrev pub is_tpm2_absent : Tpm2State → Bool
is_tpm2_absent tpm2_absent = true
is_tpm2_absent _ = false

abbrev pub is_failed : Status → Bool
is_failed failed = true
is_failed _ = false

-- A status to move to, with its message, and `ok`.
pub record Move : Type 0 where
  pub to : Status
  pub message : String
  pub ok : Bool

abbrev pub move : Status → Move
move to = record { to = to; message = ""; ok = true }

abbrev pub stay : Status → Move
stay current = record { to = current; message = ""; ok = false }

-- The second `switch` of `Advance`, on the posture.
unfoldable pub advance_posture : Status → SbState → Tpm2State → Bool → Bool → Move
advance_posture installed sb tpm want_sb want_tpm2 =
    if not want_sb
    then (if not (is_sb_unknown sb) || not (is_tpm2_unknown tpm) then move done else stay installed)
    else if is_enforcing sb
    then move sb_enrolled
    else if is_off_or_audit sb
    then move sb_pending
    else if is_sb_unknown sb && not (is_tpm2_unknown tpm)
    then move done
    else stay installed
advance_posture sb_pending sb tpm want_sb want_tpm2 =
    if is_enforcing sb then move sb_enrolled else stay sb_pending
advance_posture sb_enrolled sb tpm want_sb want_tpm2 =
    if not want_tpm2 then move done else if is_tpm2_absent tpm then move done else stay sb_enrolled
advance_posture tpm2_enrolled sb tpm want_sb want_tpm2 =
    if is_enforcing sb then move done else stay tpm2_enrolled
advance_posture current sb tpm want_sb want_tpm2 = stay current

-- `Advance`
unfoldable pub advance : Status → SbState → Tpm2State → Ack → Bool → Bool → Move
unfolding advance_posture can_transition
advance current sb tpm ack_sb_enroll_failed want_sb want_tpm2 = record {
  to = failed;
  message = "Secure Boot key enrolment failed on the device";
  ok = not (is_failed current);
}
advance current sb tpm ack_tpm2_enroll_failed want_sb want_tpm2 = record {
  to = failed;
  message = "TPM2 enrolment failed on the device";
  ok = not (is_failed current);
}
advance current sb tpm ack_tpm2_enrolled want_sb want_tpm2 =
    if can_transition current tpm2_enrolled
    then move tpm2_enrolled
    else advance_posture current sb tpm want_sb want_tpm2
advance current sb tpm ack_sb_enrolled want_sb want_tpm2 =
    if can_transition current sb_enrolled
    then move sb_enrolled
    else advance_posture current sb tpm want_sb want_tpm2
advance current sb tpm ack_other want_sb want_tpm2 =
    advance_posture current sb tpm want_sb want_tpm2

-- What one check-in does to a job's status: `AdvanceFromDevice` of internal/app/imaging.go, with the
-- store's guarded write going through.
unfoldable pub advance_from_device : Status → SbState → Tpm2State → Ack → Bool → Bool → Status
unfolding advance can_transition
advance_from_device current sb tpm ack want_sb want_tpm2 =
    let m = advance current sb tpm ack want_sb want_tpm2 in
    if not m.ok || not (can_transition current m.to) then current else m.to

-- What one report of a station does to a job's status: `Report` of internal/app/imaging.go, on a job
-- that is there, with the store's guarded write going through; a transition that is refused leaves it.
unfoldable pub report : Status → Status → Status
unfolding can_transition
report current to = if can_transition current to then to else current
