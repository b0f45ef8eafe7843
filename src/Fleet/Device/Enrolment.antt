-- ===== src/Fleet/Device/Enrolment.antt =====
-- What a device that was enrolled satisfies.
use sextant.Common.{
  if◌then◌else◌, ◌==◌, Bool-cases, Option-cases, All, is_slug, Time, is_zero, refuse-passed,
  then-passed, ok, Map, lookup, has, lookup-insert, String, ◌≡◌, refl, inl, inr, Bool, true, false,
  not, ◌&&◌, Option, none, some, List, [], ◌∷◌, arith, ℕ_Testable, String_Testable,
}
use sextant.Fleet.Model.{Fleet, Device, Group, device_active}
use sextant.Fleet.Device.{
  add_device, check_groups, check_class_allowed, class_allowed_by, enrolled_as, is_class,
  put_device, bad_tag, device_exists, no_hardware, unknown_class, unknown_group, class_refused,
}

accepted_by : (x : Bool) → not x ≡ false → x ≡ true
accepted_by x h = ground arith

module _ {A : Type 0} where
  -- A group lets devices of a class in; the check leaves a missing group to the other check.
  abbrev pub admits : Option (Group A) → String → Bool
  admits none class = true
  admits (some g) class = class_allowed_by g class

  pub check_groups-ok :
      (groups : Map (Group A)) (gs : List String)
      → check_groups groups gs ≡ ok tt
      → All (λ g. has g groups ≡ true) gs
  unfolding check_groups
  check_groups-ok groups [] h = tt
  check_groups-ok groups (g ∷ gs) h =
      let (p, k) =
        refuse-passed (not (has g groups)) (unknown_group g) (check_groups groups gs) tt h in
      (accepted_by _ p, check_groups-ok groups gs k)

  pub check_class_allowed-ok :
      (groups : Map (Group A)) (class : String) (gs : List String)
      → check_class_allowed groups class gs ≡ ok tt
      → All (λ g. admits (lookup g groups) class ≡ true) gs
  unfolding check_class_allowed
  check_class_allowed-ok groups class [] h = tt
  check_class_allowed-ok groups class (g ∷ gs) h = elim (Option-cases (lookup g groups)) [
    | inl n ↦ (rw n refl, check_class_allowed-ok groups class gs (rw (n, check_class_allowed) at h))
    | inr (x, s) ↦
        let (p, k) =
          refuse-passed (not (class_allowed_by x class)) (class_refused class g)
            (check_class_allowed groups class gs) tt (rw (s, check_class_allowed) at h) in
        (rw s (accepted_by _ p), check_class_allowed-ok groups class gs k)
  ]

  -- A device that was just enrolled is not active: it cannot count towards a rollout.
  enrolled_as-waits :
      (d : Device A) (now : Time) → ((enrolled_as d now).state == device_active) ≡ false
  unfolding enrolled_as
  enrolled_as-waits d now = elim (Bool-cases (d.state == device_active)) [
    | inl e ↦
        rw e (elim (Bool-cases (is_zero d.enrolled)) [ inl z ↦ rw z refl | inr z ↦ rw z refl ])
    | inr e ↦ rw e (elim (Bool-cases (is_zero d.enrolled)) [ inl z ↦ rw z e | inr z ↦ rw z e ])
  ]

  -- A device that `AddDevice` enrolls has a new and well-formed tag, groups that exist and that let
  -- its class in, and a state other than active; no other device changes.
  pub add_device-ok :
      (tag : String) (d : Device A) (now : Time) (f f' : Fleet A)
      → add_device tag d now f ≡ ok f'
      → (is_slug tag ≡ true)
        × (has tag f.devices ≡ false)
        × All (λ g. has g f.groups ≡ true) d.groups
        × All (λ g. admits (lookup g f.groups) d.class ≡ true) d.groups
        × (((enrolled_as d now).state == device_active) ≡ false)
        × ((other : String)
            → lookup other f'.devices
              ≡ (if tag == other then some (enrolled_as d now) else lookup other f.devices))
  unfolding add_device
  add_device-ok tag d now f f' h =
      let (slug, h1) = refuse-passed (not (is_slug tag)) (bad_tag tag) _ f' h in
      let (fresh, h2) = refuse-passed (has tag f.devices) (device_exists tag) _ f' h1 in
      let (hw, h3) = refuse-passed (d.hardware == "") no_hardware _ f' h2 in
      let (cl, h4) =
        refuse-passed (not (d.class == "") && not (is_class d.class)) (unknown_class d.class) _ f'
          h3 in
      let (known, h5) = then-passed (check_groups f.groups d.groups) _ f' h4 in
      let (let_in, h6) = then-passed (check_class_allowed f.groups d.class d.groups) _ f' h5 in
      let made : put_device tag (enrolled_as d now) f ≡ f' = cc in
      (
        accepted_by _ slug,
        fresh,
        check_groups-ok f.groups d.groups known,
        check_class_allowed-ok f.groups d.class d.groups let_in,
        enrolled_as-waits d now,
        λ other. rw⁻¹ made (lookup-insert tag other (enrolled_as d now) f.devices),
      )
