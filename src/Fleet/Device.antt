-- ===== src/Fleet/Device.antt =====
-- internal/domain/fleet/device.go and intent.go: what changes a device, as functions from a fleet to
-- a fleet or an error.
pub mod Lifecycle
pub mod Enrolment
use sextant.Common.{
  if◌then◌else◌, ◌==◌, is_empty, keep, contains, ◌<>◌, is_slug, Time, is_zero, Result, ◌>>◌, refuse,
  ok, err, Map, lookup, insert, remove, has, String, Bool, not, ◌&&◌, ◌||◌, none, some, List, [],
  ◌∷◌, ◌>>=◌, ℕ_Testable, String_Testable,
}
use sextant.Fleet.Model.{
  Fleet, Device, Group, device_active, device_retired, device_provisional, is_retired,
}

pub data Error : Type 0 where
  bad_tag unknown_device device_exists unknown_group unknown_class : String → Error
  no_hardware : Error
  class_refused : String → String → Error
  wrong_state : String → String → String → Error
  is_parked : String → Error
  wipe_unlocked : Error
  unknown_intent : String → Error

abbrev pub classes : List String
classes = "laptop" ∷ "desktop" ∷ "server" ∷ "station" ∷ []

-- `ValidClass`
unfoldable pub is_class : String → Bool
is_class s = contains classes s

module _ {A : Type 0} where
  -- `f.Devices[tag] = d`
  abbrev pub put_device : String → Device A → Fleet A → Fleet A
  put_device tag d f = record f { devices = insert tag d f.devices }

  -- `classAllowedBy`
  unfoldable pub class_allowed_by : Group A → String → Bool
  class_allowed_by g class = is_empty g.allowed_classes || contains g.allowed_classes class

  -- `checkClassAllowed`
  unfoldable pub check_class_allowed :
      Map (Group A) → String → List String → Result Error (Unit {0})
  unfolding class_allowed_by
  check_class_allowed groups class [] = ok tt
  check_class_allowed groups class (name ∷ names) = elim (lookup name groups) [
    | none ↦ check_class_allowed groups class names
    | some g ↦
        refuse (not (class_allowed_by g class)) (class_refused class name)
        >> check_class_allowed groups class names
  ]

  -- The loop over the groups of the new device.
  unfoldable pub check_groups : Map (Group A) → List String → Result Error (Unit {0})
  check_groups groups [] = ok tt
  check_groups groups (g ∷ gs) =
      refuse (not (has g groups)) (unknown_group g) >> check_groups groups gs

  abbrev pub with_state : String → Device A → Device A
  with_state state d = record d { state = state }

  abbrev pub with_enrolled : Time → Device A → Device A
  with_enrolled at d = record d { enrolled = at }

  abbrev pub with_intent : String → Device A → Device A
  with_intent intent d = record d { intent = intent }

  -- The defaults that `AddDevice` writes.
  unfoldable pub enrolled_as : Device A → Time → Device A
  enrolled_as d now =
      let d' = if d.state == device_active then with_state device_provisional d else d in
      if is_zero d'.enrolled then with_enrolled now d' else d'

  -- `AddDevice`
  unfoldable pub add_device : String → Device A → Time → Fleet A → Result Error (Fleet A)
  unfolding check_groups check_class_allowed enrolled_as is_class
  add_device tag d now f = do
    refuse (not (is_slug tag)) (bad_tag tag)
    refuse (has tag f.devices) (device_exists tag)
    refuse (d.hardware == "") no_hardware
    refuse (not (d.class == "") && not (is_class d.class)) (unknown_class d.class)
    check_groups f.groups d.groups
    check_class_allowed f.groups d.class d.groups
    ok (put_device tag (enrolled_as d now) f)

  -- `RemoveDevice`
  unfoldable pub remove_device : String → Fleet A → Result Error (Fleet A)
  remove_device tag f = do
    refuse (not (has tag f.devices)) (unknown_device tag)
    ok (record f {
      devices = remove tag f.devices;
      assignments = keep (λ a. not (a.target == "device:" <> tag)) f.assignments;
    })

  -- `setDeviceState`
  unfoldable pub set_device_state : String → String → String → Fleet A → Result Error (Fleet A)
  set_device_state tag to from f = elim (lookup tag f.devices) [
    | none ↦ err (unknown_device tag)
    | some d ↦
        refuse (not (d.state == from)) (wrong_state tag d.state from)
        >> ok (put_device tag (with_state to d) f)
  ]

  -- `RetireDevice`
  unfoldable pub retire_device : String → Fleet A → Result Error (Fleet A)
  unfolding set_device_state
  retire_device tag = set_device_state tag device_retired device_active

  -- `ReactivateDevice`
  unfoldable pub reactivate_device : String → Fleet A → Result Error (Fleet A)
  unfolding set_device_state
  reactivate_device tag = set_device_state tag device_active device_retired

  -- `ActivateProvisional`
  unfoldable pub activate_provisional : String → Fleet A → Result Error (Fleet A)
  unfolding set_device_state
  activate_provisional tag = set_device_state tag device_active device_provisional

  -- The `switch` of `SetDeviceIntent`.
  unfoldable pub check_intent : Device A → String → Bool → Result Error (Unit {0})
  check_intent d intent force =
      if intent == "lock" || intent == "reboot" || intent == "diagnostics"
      then ok tt
      else if intent == "wipe"
      then refuse (not (d.intent == "lock") && not force) wipe_unlocked
      else err (unknown_intent intent)

  -- `SetDeviceIntent`
  unfoldable pub set_device_intent : String → String → Bool → Fleet A → Result Error (Fleet A)
  unfolding check_intent
  set_device_intent tag intent force f = elim (lookup tag f.devices) [
    | none ↦ err (unknown_device tag)
    | some d ↦ do
      refuse (is_retired d) (is_parked tag)
      check_intent d intent force
      ok (put_device tag (with_intent intent d) f)
  ]

  -- `ClearDeviceIntent`
  unfoldable pub clear_device_intent : String → Fleet A → Result Error (Fleet A)
  clear_device_intent tag f = elim (lookup tag f.devices) [
    | none ↦ err (unknown_device tag)
    | some d ↦ ok (put_device tag (with_intent "" d) f)
  ]
