-- ===== src/Fleet/Scopes.antt =====
-- internal/domain/fleet/mutate.go and access.go: the settings, the locks and the acceptances that are
-- written at one scope, the classes of a group, and the access list.
pub mod Locks
pub mod Writes
use sextant.Common.{
  if◌then◌else◌, ◌==◌, is_empty, keep, all, any, contains, trim_space, cut_prefix, Result, refuse,
  ok, err, Map, lookup, insert, remove, has, String, Bool, true, false, not, ◌&&◌, none, some, List,
  [], ◌∷◌, ◌++◌, ◌>>=◌, ◌>>◌, ℕ_Testable, String_Testable,
}
use sextant.Fleet.Model.{Fleet, Group, Device, Scope, AccessBinding, no_scope, device_at}
use sextant.Fleet.Device.{is_class, put_device}
use sextant.Fleet.Edit.{with_groups}
use sextant.Fleet.Populations.{active_group_devices}
use sextant.Identity.{Binding, validate}

pub data ScopeError : Type 0 where
  unknown_group unknown_device bad_scope nothing_to_enforce no_reason unknown_class :
      String → ScopeError
  would_strand : String → ScopeError
  bad_binding : ScopeError
  no_binding : String → String → ScopeError

-- The loop over the classes of `SetGroupAllowedClasses`.
unfoldable pub check_classes : List String → Result ScopeError (Unit {0})
check_classes [] = ok tt
check_classes (c ∷ cs) = refuse (not (is_class c)) (unknown_class c) >> check_classes cs

-- Whether `Validate` accepts the binding.
unfoldable pub is_valid : AccessBinding → Bool
unfolding validate
is_valid b = elim (validate (record { group = b.group; role = b.role; scope = b.scope })) [
  | ok _ ↦ true
  | err _ ↦ false
]

abbrev pub drop_key : String → List String → List String
drop_key key ks = keep (λ k. not (k == key)) ks

-- The binding of a group at a scope.
abbrev pub binds : String → String → AccessBinding → Bool
binds group scope b = b.group == group && b.scope == scope

module _ {A : Type 0} where
  -- `f.Org = &Scope{}` where it is nil
  abbrev pub org_scope : Fleet A → Scope A
  org_scope f = elim f.org [ none ↦ no_scope | some s ↦ s ]

  abbrev pub in_group :
      String → Group A → Fleet A → Result ScopeError (Scope A) → Result ScopeError (Fleet A)
  in_group name g f (err e) = err e
  in_group name g f (ok s) = ok (with_groups (insert name (record g { scope = s }) f.groups) f)

  abbrev pub in_device :
      String → Device A → Fleet A → Result ScopeError (Scope A) → Result ScopeError (Fleet A)
  in_device tag d f (err e) = err e
  in_device tag d f (ok s) = ok (put_device tag (record d { scope = s }) f)

  abbrev pub in_org : Fleet A → Result ScopeError (Scope A) → Result ScopeError (Fleet A)
  in_org f (err e) = err e
  in_org f (ok s) = ok (record f { org = some s })

  abbrev pub edit_group :
      String → (Scope A → Result ScopeError (Scope A)) → Fleet A → Result ScopeError (Fleet A)
  edit_group name edit f = elim (lookup name f.groups) [
    | none ↦ err (unknown_group name)
    | some g ↦ in_group name g f (edit g.scope)
  ]

  abbrev pub edit_device :
      String → (Scope A → Result ScopeError (Scope A)) → Fleet A → Result ScopeError (Fleet A)
  edit_device tag edit f = elim (lookup tag f.devices) [
    | none ↦ err (unknown_device tag)
    | some d ↦ in_device tag d f (edit d.scope)
  ]

  -- `withScope` and `withAccepted`
  unfoldable pub with_scope :
      String → (Scope A → Result ScopeError (Scope A)) → Fleet A → Result ScopeError (Fleet A)
  with_scope ref edit f =
      if ref == "org" then in_org f (edit (org_scope f)) else elim (cut_prefix "group:" ref) [
        | some name ↦ edit_group name edit f
        | none ↦ elim (cut_prefix "device:" ref) [
          | some tag ↦ edit_device tag edit f
          | none ↦ err (bad_scope ref)
        ]
      ]

  -- `ScopeSettings`: the scope's own settings and locks
  unfoldable pub scope_settings : Fleet A → String → Result ScopeError (Map A × List String)
  scope_settings f ref =
      if ref == "org"
      then ok ((org_scope f).settings, (org_scope f).enforced)
      else elim (cut_prefix "group:" ref) [
        | some name ↦ elim (lookup name f.groups) [
          | none ↦ err (unknown_group name)
          | some g ↦ ok (g.scope.settings, g.scope.enforced)
        ]
        | none ↦ elim (cut_prefix "device:" ref) [
          | some tag ↦ elim (lookup tag f.devices) [
            | none ↦ err (unknown_device tag)
            | some d ↦ ok (d.scope.settings, d.scope.enforced)
          ]
          | none ↦ err (bad_scope ref)
        ]
      ]

  abbrev pub set_in : String → A → Scope A → Result ScopeError (Scope A)
  set_in key value s = ok (record s { settings = insert key value s.settings })

  abbrev pub clear_in : String → Scope A → Result ScopeError (Scope A)
  clear_in key s =
      ok (record s { settings = remove key s.settings; enforced = drop_key key s.enforced })

  abbrev pub enforce_in : String → Bool → Scope A → Result ScopeError (Scope A)
  enforce_in key false s = ok (record s { enforced = drop_key key s.enforced })
  enforce_in key true s =
      if not (has key s.settings)
      then err (nothing_to_enforce key)
      else ok
          (if contains s.enforced key then s else record s { enforced = s.enforced ++ key ∷ [] })

  -- `SetScopeSetting`
  unfoldable pub set_scope_setting : String → String → A → Fleet A → Result ScopeError (Fleet A)
  unfolding with_scope
  set_scope_setting ref key value = with_scope ref (set_in key value)

  -- `ClearScopeSetting`
  unfoldable pub clear_scope_setting : String → String → Fleet A → Result ScopeError (Fleet A)
  unfolding with_scope
  clear_scope_setting ref key = with_scope ref (clear_in key)

  -- `SetScopeEnforce`
  unfoldable pub set_scope_enforce : String → String → Bool → Fleet A → Result ScopeError (Fleet A)
  unfolding with_scope
  set_scope_enforce ref key on = with_scope ref (enforce_in key on)

  -- `SetAcceptance`
  unfoldable pub set_acceptance : String → String → String → Fleet A → Result ScopeError (Fleet A)
  unfolding with_scope
  set_acceptance ref key reason f =
      if trim_space reason == ""
      then err (no_reason key)
      else with_scope ref
          (λ s. ok (record s { accepted = insert key (trim_space reason) s.accepted })) f

  -- `ClearAcceptance`
  unfoldable pub clear_acceptance : String → String → Fleet A → Result ScopeError (Fleet A)
  unfolding with_scope
  clear_acceptance ref key =
      with_scope ref (λ s. ok (record s { accepted = remove key s.accepted }))

  -- `SetGroupAllowedClasses`
  unfoldable pub set_group_allowed_classes :
      String → List String → Fleet A → Result ScopeError (Fleet A)
  set_group_allowed_classes group classes f = elim (lookup group f.groups) [
    | none ↦ err (unknown_group group)
    | some g ↦ do
      check_classes classes
      refuse
          (not (is_empty classes)
            && any (λ tag. not (contains classes (device_at f tag).class))
                (active_group_devices f group))
          (would_strand group)
      ok (with_groups (insert group (record g { allowed_classes = classes }) f.groups) f)
  ]

  abbrev pub scope_exists : Fleet A → String → Bool
  scope_exists f scope = elim (cut_prefix "group:" scope) [ none ↦ true | some g ↦ has g f.groups ]

  -- `Grant`
  unfoldable pub grant : AccessBinding → Fleet A → Result ScopeError (Fleet A)
  unfolding is_valid
  grant b f = do
    refuse (not (is_valid b)) bad_binding
    refuse (not (scope_exists f b.scope)) (unknown_group b.scope)
    ok (record f { access = keep (λ x. not (binds b.group b.scope x)) f.access ++ b ∷ [] })

  -- `Revoke`
  unfoldable pub revoke : String → String → Fleet A → Result ScopeError (Fleet A)
  revoke group scope f = do
    refuse (not (any (binds group scope) f.access)) (no_binding group scope)
    ok (record f { access = keep (λ x. not (binds group scope x)) f.access })
