-- ===== src/Fleet/Device/Lifecycle.antt =====
-- The life of a device in the fleet.
use sextant.Common.{
  ◌==◌, Bool-cases, Option-cases, refuse-passed, ok, Map, lookup, insert, lookup-insert, String,
  eq_iff, ◌≡◌, refl, sym, ap, ◌⊎◌, inl, inr, Bool, true, false, not, ◌&&◌, some, arith, ℕ_Testable,
  String_Testable,
}
use sextant.Fleet.Model.{Fleet, Device, device_active, device_retired, is_retired}
use sextant.Fleet.Device.{
  set_device_state, retire_device, reactivate_device, set_device_intent, check_intent, put_device,
  with_state, wipe_unlocked, is_parked, wrong_state,
}

locked : (x : Bool) → (not x && true) ≡ false → x ≡ true
locked x h = ground arith

armed :
    (intent : String) (force : Bool)
    → (not (intent == "lock") && not force) ≡ false
    → (force ≡ true) ⊎ (intent ≡ "lock")
armed intent true h = inl refl
armed intent false h = inr ((eq_iff intent "lock").0 (locked (intent == "lock") h))

false_of : (x : Bool) → not x ≡ false → x ≡ true
false_of x h = ground arith

module _ {A : Type 0} where
  -- What a state change does when it succeeds.
  set_device_state-ok :
      (tag to from : String) (f f' : Fleet A)
      → set_device_state tag to from f ≡ ok f'
      → (d : Device A) × (lookup tag f.devices ≡ some d)
        × (d.state ≡ from)
        × (f' ≡ put_device tag (with_state to d) f)
  unfolding set_device_state
  set_device_state-ok tag to from f f' h = elim (Option-cases (lookup tag f.devices)) [
    | inl n ↦ absurd (cc (rw (n, set_device_state) at h))
    | inr (d, s) ↦
        let (q, r) =
          refuse-passed (not (d.state == from)) (wrong_state tag d.state from)
            (ok (put_device tag (with_state to d) f)) f' (rw (s, set_device_state) at h) in
        (d, s, (eq_iff d.state from).0 (false_of _ q), cc)
  ]

  set_device_state-run :
      (tag to from : String) (f : Fleet A) (d : Device A)
      → lookup tag f.devices ≡ some d
      → d.state ≡ from
      → set_device_state tag to from f ≡ ok (put_device tag (with_state to d) f)
  unfolding set_device_state
  set_device_state-run tag to from f d s e =
      rw (s, set_device_state) (rw ((eq_iff d.state from).1 e) refl)

  found : (tag : String) (m : Map (Device A)) (d : Device A) → lookup tag (insert tag d m) ≡ some d
  found tag m d = ground (arith, lookup-insert tag tag d m, eq_iff tag tag)

  restored :
      (tag other : String) (m : Map (Device A)) (d d' : Device A)
      → lookup tag m ≡ some d
      → lookup other (insert tag d (insert tag d' m)) ≡ lookup other m
  restored tag other m d d' s =
      rw (lookup-insert tag other d (insert tag d' m), lookup-insert tag other d' m)
        (elim (Bool-cases (tag == other)) [
          | inl e ↦ rw (e, sym ((eq_iff tag other).0 e)) (sym s)
          | inr e ↦ rw e refl
        ])

  -- A device that was retired is returned to service, and every device then has the record that it
  -- had before.
  pub reactivate_device-retire :
      (tag : String) (f f' : Fleet A)
      → retire_device tag f ≡ ok f'
      → (f'' : Fleet A) × (reactivate_device tag f' ≡ ok f'')
        × ((other : String) → lookup other f''.devices ≡ lookup other f.devices)
  unfolding retire_device reactivate_device
  reactivate_device-retire tag f f' h =
      let (d, s, st, e) = set_device_state-ok tag device_retired device_active f f' h in
      let parked = with_state device_retired d in
      let same : with_state device_active d ≡ d = ap (λ x. with_state x d) (sym st) in
      (
        put_device tag (with_state device_active parked) (put_device tag parked f),
        rw e (
            set_device_state-run tag device_active device_retired (put_device tag parked f) parked
              (found tag f.devices parked) refl),
        λ other. rw same (restored tag other f.devices d parked s),
      )

  -- A wipe is armed only where it is forced or the device was locked, and never on a retired device.
  pub set_device_intent-wipe :
      (tag : String) (force : Bool) (f f' : Fleet A)
      → set_device_intent tag "wipe" force f ≡ ok f'
      → (d : Device A) × (lookup tag f.devices ≡ some d)
        × (is_retired d ≡ false)
        × ((force ≡ true) ⊎ (d.intent ≡ "lock"))
  unfolding set_device_intent check_intent
  set_device_intent-wipe tag force f f' h = elim (Option-cases (lookup tag f.devices)) [
    | inl n ↦ absurd (cc (rw (n, set_device_intent) at h))
    | inr (d, s) ↦
        let (p, k) =
          refuse-passed (is_retired d) (is_parked tag) _ f' (rw (s, set_device_intent) at h) in
        let (q, r) = refuse-passed (not (d.intent == "lock") && not force) wipe_unlocked _ f' k in
        (d, s, p, armed d.intent force q)
  ]
