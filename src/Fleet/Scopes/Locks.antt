-- ===== src/Fleet/Scopes/Locks.antt =====
-- What an edit of a scope changes, and that a lock always locks a value.
use sextant.Common.{
  and_right, ◌∙◌, and_left, sym, ◌⊎◌, eq_iff, Bool-cases, Bool, ◌++◌, Result, ap, List, not, ◌==◌,
  contains, ok, Map, insert, remove, has, lookup-insert, lookup-remove, String, ◌≡◌, true, false,
  arith, ℕ_Testable, String_Testable,
}
use sextant.Common.{
  true, false, inl, inr, [], ◌∷◌, ok, err, contains-keep, lookup-insert, lookup-remove,
}
use sextant.Fleet.Model.{Scope}
use sextant.Fleet.Scopes.{drop_key, ScopeError, set_in, clear_in, enforce_in}

apart : (key k : String) → not (k == key) ≡ true → (key == k) ≡ false
apart key k h = ground (arith, eq_iff k key, eq_iff key k)

in_last :
    (ks : List String) (key k : String)
    → contains (ks ++ key ∷ []) k ≡ true
    → (contains ks k ≡ true) ⊎ (key ≡ k)
in_last [] key k h = inr ((eq_iff key k).0 (ground arith))
in_last (j ∷ ks) key k h = elim (Bool-cases (j == k)) [
  | inl e ↦ inl (ground (arith, e))
  | inr e ↦ elim (in_last ks key k (ground (arith, e, h))) [
    | inl p ↦ inl (ground (arith, p))
    | inr p ↦ inr p
  ]
]

module _ {A : Type 0} where
  -- A lock locks a value.
  abbrev pub IsLocked : Scope A → Type 0
  IsLocked s = (k : String) → contains s.enforced k ≡ true → has k s.settings ≡ true

  has-insert : (key k : String) (v : A) (m : Map A) → has k m ≡ true → has k (insert key v m) ≡ true
  has-insert key k v m h = ground (arith, h, lookup-insert key k v m)

  has-remove :
      (key k : String) (m : Map A)
      → (key == k) ≡ false
      → has k m ≡ true
      → has k (remove key m) ≡ true
  has-remove key k m ne h = ground (arith, h, lookup-remove key k m, ne)

  set-IsLocked :
      (key : String) (v : A) (s : Scope A)
      → IsLocked s
      → IsLocked (record s { settings = insert key v s.settings })
  set-IsLocked key v s h k c = has-insert key k v s.settings (h k c)

  moved-IsLocked : (x s : Scope A) → x ≡ s → IsLocked x → IsLocked s
  moved-IsLocked x s e h k c =
      ap (λ y. has k y.settings) (sym e) ∙ h k (ap (λ y. contains y.enforced k) e ∙ c)

  scope_or : Scope A → Result ScopeError (Scope A) → Scope A
  scope_or s (ok x) = x
  scope_or s (err e) = s

  same_scope : (x s : Scope A) → ◌≡◌ {A = Result ScopeError (Scope A)} (ok x) (ok s) → x ≡ s
  unfolding scope_or
  same_scope x s e = ap (scope_or s) e

  clear-IsLocked :
      (key : String) (s : Scope A)
      → IsLocked s
      → IsLocked (record s { settings = remove key s.settings; enforced = drop_key key s.enforced })
  clear-IsLocked key s h k c =
      let both = sym (contains-keep (λ j. not (j == key)) s.enforced k) ∙ c in
      has-remove key k s.settings
        (apart key k (and_right (contains s.enforced k) (not (k == key)) both))
        (h k (and_left (contains s.enforced k) (not (k == key)) both))

  drop-IsLocked :
      (key : String) (s : Scope A)
      → IsLocked s
      → IsLocked (record s { enforced = drop_key key s.enforced })
  drop-IsLocked key s h k c = h k (
      and_left (contains s.enforced k) (not (k == key))
        (sym (contains-keep (λ j. not (j == key)) s.enforced k) ∙ c))

  add-IsLocked :
      (key : String) (s : Scope A)
      → has key s.settings ≡ true
      → IsLocked s
      → IsLocked (record s { enforced = s.enforced ++ key ∷ [] })
  add-IsLocked key s v h k c = elim (in_last s.enforced key k c) [
    | inl p ↦ h k p
    | inr p ↦ ap (λ j. has j s.settings) (sym p) ∙ v
  ]

-- The three edits of a scope's settings and locks.
pub data ScopeEdit (A : Type 0) : Type 0 where
  set_key : String → A → ScopeEdit A
  clear_key : String → ScopeEdit A
  enforce_key : String → Bool → ScopeEdit A

module _ {A : Type 0} where
  abbrev pub edit_scope : ScopeEdit A → Scope A → Result ScopeError (Scope A)
  edit_scope (set_key key v) = set_in key v
  edit_scope (clear_key key) = clear_in key
  edit_scope (enforce_key key on) = enforce_in key on

  enforced-IsLocked :
      (key : String) (s s' : Scope A) → enforce_in key true s ≡ ok s' → IsLocked s → IsLocked s'
  enforced-IsLocked key s s' e h = elim (Bool-cases (has key s.settings)) [
    | inr n ↦ absurd (cc (rw n at e))
    | inl v ↦ elim (Bool-cases (contains s.enforced key)) [
      | inl c ↦ moved-IsLocked s s' (same_scope s s' (rw (v, c) at e)) h
      | inr c ↦
          moved-IsLocked (record s { enforced = s.enforced ++ key ∷ [] }) s'
            (same_scope _ s' (rw (v, c) at e)) (add-IsLocked key s v h)
    ]
  ]

  -- Where every lock of a scope locks a value, it still does after a setting is set or cleared and after a
  -- lock is put on or taken off.
  pub edit_scope-IsLocked :
      (edit : ScopeEdit A) (s s' : Scope A) → edit_scope edit s ≡ ok s' → IsLocked s → IsLocked s'
  edit_scope-IsLocked (set_key key v) s s' e h =
      moved-IsLocked (record s { settings = insert key v s.settings }) s' (same_scope _ s' e)
        (set-IsLocked key v s h)
  edit_scope-IsLocked (clear_key key) s s' e h =
      moved-IsLocked _ s' (same_scope _ s' e) (clear-IsLocked key s h)
  edit_scope-IsLocked (enforce_key key false) s s' e h =
      moved-IsLocked _ s' (same_scope _ s' e) (drop-IsLocked key s h)
  edit_scope-IsLocked (enforce_key key true) s s' e h = enforced-IsLocked key s s' e h
