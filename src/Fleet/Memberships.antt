-- ===== src/Fleet/Memberships.antt =====
-- internal/domain/fleet/device.go: `UpdateDevice` and `CreateGroupWithDevices`, which guard the
-- groups of a device.
pub mod Updated
use sextant.Common.{
  if◌then◌else◌, ◌==◌, contains, Result, ◌>>◌, refuse, ok, err, Map, lookup, String, Bool, true,
  false, ◌||◌, Option, none, some, List, [], ◌∷◌, ◌++◌, ◌>>=◌, ℕ_Testable, String_Testable,
}
use sextant.Common.{[], ◌∷◌, none, some, true, false, ok, err}
use sextant.Fleet.Model.{Fleet, Device, Group, Itam}
use sextant.Fleet.Device
use sextant.Fleet.Device.{check_groups, check_class_allowed, put_device}
use sextant.Fleet.Edit
use sextant.Fleet.Edit.{add_group}
use sextant.Fleet.Redundancy.{reject_ancestor_duplication, with_groups}

pub data Error : Type 0 where
  of_group : Edit.Error → Error
  of_device : Device.Error → Error
  unknown_device : String → Error
  no_hardware : Error
  already_inside : String → String → Error

-- `DevicePatch`
pub record DevicePatch : Type 0 where
  pub hardware : Option String
  pub class : Option String
  pub assigned_user : Option String
  pub groups : Option (List String)
  pub labels : Option (Map String)
  pub itam : Option Itam

-- A field of the patch, or the one of the device.
abbrev pub or_keep : {B : Type 0} → Option B → B → B
or_keep none b = b
or_keep (some a) b = a

abbrev pub of_checked : {B : Type 0} → Result Device.Error B → Result Error B
of_checked (ok b) = ok b
of_checked (err e) = err (of_device e)

abbrev pub of_added : {B : Type 0} → Result Edit.Error B → Result Error B
of_added (ok b) = ok b
of_added (err e) = err (of_group e)

unfoldable pub check_hardware : Option String → Result Error (Unit {0})
check_hardware none = ok tt
check_hardware (some hardware) = refuse (hardware == "") no_hardware

abbrev pub is_given : {B : Type 0} → Option B → Bool
is_given none = false
is_given (some b) = true

module _ {A : Type 0} where
  -- `rejectAncestorDuplication`, as an error
  unfoldable pub check_duplicates : Map (Group A) → List String → Result Error (Unit {0})
  check_duplicates groups list = elim (reject_ancestor_duplication groups list) [
    | none ↦ ok tt
    | some (anc, g) ↦ err (already_inside anc g)
  ]

  -- The checks of the groups of the patch.
  unfoldable pub check_membership : Map (Group A) → Option (List String) → Result Error (Unit {0})
  unfolding check_duplicates
  check_membership groups none = ok tt
  check_membership groups (some list) =
      of_checked (check_groups groups list) >> check_duplicates groups list

  abbrev pub patched : DevicePatch → Device A → Device A
  patched p d = record d {
    hardware = or_keep p.hardware d.hardware;
    class = or_keep p.class d.class;
    assigned_user = or_keep p.assigned_user d.assigned_user;
    groups = or_keep p.groups d.groups;
    labels = or_keep p.labels d.labels;
    itam = or_keep p.itam d.itam;
  }

  -- The class guardrail, where the class or the groups changed.
  unfoldable pub check_guardrail : Map (Group A) → DevicePatch → Device A → Result Error (Unit {0})
  check_guardrail groups p d =
      if is_given p.class || is_given p.groups
      then of_checked (check_class_allowed groups d.class d.groups)
      else ok tt

  -- `UpdateDevice`
  unfoldable pub update_device : String → DevicePatch → Fleet A → Result Error (Fleet A)
  unfolding check_hardware check_membership check_guardrail
  update_device tag p f = elim (lookup tag f.devices) [
    | none ↦ err (unknown_device tag)
    | some d ↦ do
      check_hardware p.hardware
      check_membership f.groups p.groups
      check_guardrail f.groups p (patched p d)
      ok (put_device tag (patched p d) f)
  ]

  -- A device that joins the new group.
  unfoldable pub join_group : String → String → Fleet A → Result Error (Fleet A)
  unfolding check_duplicates
  join_group name tag f = elim (lookup tag f.devices) [
    | none ↦ err (unknown_device tag)
    | some d ↦ do
      of_checked (check_class_allowed f.groups d.class (name ∷ []))
      if contains d.groups name
          then ok f
          else (check_duplicates f.groups (d.groups ++ name ∷ [])
              >> ok (put_device tag (with_groups (d.groups ++ name ∷ []) d) f))
  ]

  unfoldable pub join_each : String → List String → Fleet A → Result Error (Fleet A)
  unfolding join_group
  join_each name [] f = ok f
  join_each name (tag ∷ tags) f = do g ← join_group name tag f; join_each name tags g

  -- `CreateGroupWithDevices`
  unfoldable pub create_group_with_devices :
      String → Group A → List String → Fleet A → Result Error (Fleet A)
  unfolding add_group join_each
  create_group_with_devices name g tags f = do
    f' ← of_added (add_group name g f)
    join_each name tags f'
