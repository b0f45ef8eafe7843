-- ===== src/Fleet/Memberships/Updated.antt =====
-- What an accepted patch leaves.
use sextant.Common.{
  if◌then◌else◌, ◌==◌, Option-cases, All, Result, then-passed, ok, err, Map, lookup, has,
  lookup-insert, String, ◌≡◌, refl, sym, ap, ◌∙◌, inl, inr, true, ◌||◌, some, List, [], arith,
  ℕ_Testable, String_Testable,
}
use sextant.Common.{[], some, true, ok, err, inl, inr}
use sextant.Fleet.Model.{Fleet, Device, Group}
use sextant.Fleet.Redundancy.{redundant_in, reject_ancestor_duplication}
use sextant.Fleet.Redundancy.Guard.{reject_ancestor_duplication_iff}
use sextant.Fleet.Memberships.{is_given, or_keep}
use sextant.Fleet.Device.{put_device, check_groups, check_class_allowed}
use sextant.Fleet.Device.Enrolment.{admits, check_groups-ok, check_class_allowed-ok}
use sextant.Fleet.Memberships.{
  DevicePatch, Error, patched, of_checked, check_duplicates, check_hardware, check_membership,
  check_guardrail, update_device,
}

of_checked-ok : (r : Result _ (Unit {0})) (u : Unit {0}) → of_checked r ≡ ok u → r ≡ ok tt
of_checked-ok (ok v) u h = refl
of_checked-ok (err e) u h = absurd (cc)

module _ {A : Type 0} where
  check_duplicates-ok :
      (groups : Map (Group A)) (list : List String) (u : Unit {0})
      → check_duplicates groups list ≡ ok u
      → redundant_in groups list ≡ []
  unfolding check_duplicates
  check_duplicates-ok groups list u h =
      elim (Option-cases (reject_ancestor_duplication groups list)) [
        | inl n ↦ (reject_ancestor_duplication_iff groups list).0 n
        | inr (x, n) ↦ absurd (cc (rw (n, check_duplicates) at h))
      ]

  -- A patch that is accepted is written to a device that is there, and to no other. Where it names the
  -- groups, each of them exists and none is above another one; where it names the groups or the class,
  -- every group of the patched device lets its class in.
  pub update_device-ok :
      (tag : String) (p : DevicePatch) (f g : Fleet A)
      → update_device tag p f ≡ ok g
      → (d : Device A) × (lookup tag f.devices ≡ some d)
        × ((other : String)
            → lookup other g.devices
              ≡ (if tag == other then some (patched p d) else lookup other f.devices))
        × ((list : List String)
            → p.groups ≡ some list
            → All (λ k. has k f.groups ≡ true) list
              × (redundant_in f.groups list ≡ [])
              × All (λ k. admits (lookup k f.groups) (patched p d).class ≡ true) list)
        × ((is_given p.class || is_given p.groups) ≡ true
            → All (λ k. admits (lookup k f.groups) (patched p d).class ≡ true) (patched p d).groups)
  unfolding update_device
  update_device-ok tag p f g h = elim (Option-cases (lookup tag f.devices)) [
    | inl n ↦ absurd (cc (rw (n, update_device) at h))
    | inr (d, n) ↦
        let (hw, k1) = then-passed (check_hardware p.hardware) _ g (rw (n, update_device) at h) in
        let (m, k2) = then-passed (check_membership f.groups p.groups) _ g k1 in
        let (c, made) = then-passed (check_guardrail f.groups p (patched p d)) _ g k2 in
        (
          d,
          n,
          λ other. written d made other,
          λ list q.
              joined list q m (patched p d).class
                (rw (ap (λ o. or_keep o d.groups) q) at (guarded list q d c)),
          λ asked.
              check_class_allowed-ok f.groups (patched p d).class (patched p d).groups
                (let_in d c asked),
        )
  ]
    where
      written :
          (d : Device A)
          → ◌≡◌ {A = Result Error (Fleet A)} (ok (put_device tag (patched p d) f)) (ok g)
          → (other : String)
          → lookup other g.devices
            ≡ (if tag == other then some (patched p d) else lookup other f.devices)
      written d made other =
          ap (λ (x : Fleet A). lookup other x.devices) (sym (same_fleet made))
          ∙ lookup-insert tag other (patched p d) f.devices
        where
          same_fleet :
              ◌≡◌ {A = Result Error (Fleet A)} (ok (put_device tag (patched p d) f)) (ok g)
              → put_device tag (patched p d) f ≡ g
          same_fleet q = cc

      let_in :
          (d : Device A)
          → check_guardrail f.groups p (patched p d) ≡ ok tt
          → (is_given p.class || is_given p.groups) ≡ true
          → check_class_allowed f.groups (patched p d).class (patched p d).groups ≡ ok tt
      let_in d c asked =
          of_checked-ok (check_class_allowed f.groups (patched p d).class (patched p d).groups) tt
            (rw (asked, check_guardrail) at c)

      guarded :
          (list : List String)
          → p.groups ≡ some list
          → (d : Device A) → check_guardrail f.groups p (patched p d) ≡ ok tt
          → check_class_allowed f.groups (patched p d).class (or_keep p.groups d.groups) ≡ ok tt
      guarded list q d c =
          let given : is_given p.groups ≡ true = ap is_given q in let_in d c (ground (arith, given))

      joined :
          (list : List String)
          → p.groups ≡ some list
          → check_membership f.groups p.groups ≡ ok tt
          → (class : String) → check_class_allowed f.groups class list ≡ ok tt
          → All (λ k. has k f.groups ≡ true) list
            × (redundant_in f.groups list ≡ [])
            × All (λ k. admits (lookup k f.groups) class ≡ true) list
      joined list q m class c =
          let (known, clean) =
            then-passed (of_checked (check_groups f.groups list)) (check_duplicates f.groups list)
              tt (rw (q, check_membership) at m) in
          (
            check_groups-ok f.groups list (of_checked-ok (check_groups f.groups list) tt known),
            check_duplicates-ok f.groups list tt clean,
            check_class_allowed-ok f.groups class list c,
          )
