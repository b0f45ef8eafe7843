-- ===== src/Fleet/Scopes/Writes.antt =====
-- What is read at a scope after a setting was written there.
use sextant.Common.{
  cut_prefix, Option-cases, if◌then◌else◌, ◌==◌, Bool-cases, Result, ok, err, Map, lookup, insert,
  lookup-insert, String, eq_iff, ◌≡◌, sym, ap, ◌∙◌, inl, inr, Option, none, some, List, arith,
  ℕ_Testable, String_Testable,
}
use sextant.Common.{some, none, inl, inr, ok, err, lookup-insert, sym, ap, ◌∙◌}
use sextant.Fleet.Model.{Fleet}
use sextant.Fleet.Scopes.{
  ScopeError, with_scope, scope_settings, set_scope_setting, edit_group, edit_device, org_scope,
}

found : {V : Type 0} (k : String) (v : V) (m : Map V) → lookup k (insert k v m) ≡ some v
found k v m = ground (arith, lookup-insert k k v m, eq_iff k k)

module _ {A : Type 0} where
  -- The value of a setting as it is read at a scope, if it is.
  abbrev pub read : String → Result ScopeError (Map A × List String) → Option A
  read k (ok p) = lookup k p.0
  read k (err e) = none

  fleet_of : Fleet A → Result ScopeError (Fleet A) → Fleet A
  fleet_of f (ok g) = g
  fleet_of f (err e) = f

  made : (f g : Fleet A) → ◌≡◌ {A = Result ScopeError (Fleet A)} (ok g) (ok f) → g ≡ f
  unfolding fleet_of
  made f g e = ap (fleet_of f) e

  -- A setting that is written at a scope is read back there, and every other setting of the scope reads as
  -- it did before.
  pub set_scope_setting-read :
      (ref key k : String) (v : A) (f f' : Fleet A)
      → set_scope_setting ref key v f ≡ ok f'
      → read k (scope_settings f' ref)
        ≡ (if key == k then some v else read k (scope_settings f ref))
  unfolding set_scope_setting with_scope scope_settings
  set_scope_setting-read ref key k v f f' h = elim (Bool-cases (ref == "org")) [
    | inl o ↦
        ap (λ g. read k (scope_settings g ref)) (sym (made f' _ (rw (o, with_scope) at h)))
        ∙ rw (o, scope_settings) (lookup-insert key k v (org_scope f).settings)
    | inr o ↦ elim (Option-cases (cut_prefix "group:" ref)) [
      | inr (name, c) ↦ elim (Option-cases (lookup name f.groups)) [
        | inl n ↦ absurd (cc (rw (n, edit_group) at (rw c at (rw (o, with_scope) at h))))
        | inr (g, n) ↦
            let g' = record g {
              scope = record g.scope { settings = insert key v g.scope.settings };
            } in
            ap (λ x. read k (scope_settings x ref))
              (sym (made f' _ (rw (n, edit_group) at (rw c at (rw (o, with_scope) at h)))))
            ∙ rw (o, scope_settings)
                (rw c (rw (found name g' f.groups) (rw n (lookup-insert key k v g.scope.settings))))
      ]
      | inl c ↦ elim (Option-cases (cut_prefix "device:" ref)) [
        | inl b ↦ absurd (cc (rw b at (rw c at (rw (o, with_scope) at h))))
        | inr (tag, b) ↦ elim (Option-cases (lookup tag f.devices)) [
          | inl n ↦
              absurd (cc (rw (n, edit_device) at (rw b at (rw c at (rw (o, with_scope) at h)))))
          | inr (d, n) ↦
              let d' = record d {
                scope = record d.scope { settings = insert key v d.scope.settings };
              } in
              ap (λ x. read k (scope_settings x ref))
                (sym (
                  made f' _ (rw (n, edit_device) at (rw b at (rw c at (rw (o, with_scope) at h))))))
              ∙ rw (o, scope_settings)
                  (rw (c, b)
                    (rw (found tag d' f.devices) (rw n (lookup-insert key k v d.scope.settings))))
        ]
      ]
    ]
  ]
