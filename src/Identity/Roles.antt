-- ===== src/Identity/Roles.antt =====
-- What a user may do at a scope, in terms of the bindings.
use sextant.Common.{
  leb, if◌then◌else◌, ◌==◌, Bool-cases, any, contains, Result, ok, err, String, ◌≡◌, refl, sym, ap,
  ◌∙◌, ◌≢◌, ◌⊎◌, inl, inr, Bool, true, false, not, ◌&&◌, ◌||◌, List, [], ◌∷◌, arith, ℕ_Testable,
  String_Testable,
}
use sextant.Identity.{
  consider_binding, consider_if, Role, no_role, viewer, editor, owner, rank, parse_role, meets,
  Binding, Resolver, User, baseline, consider, consider_bindings, governing_scopes, narrower_scopes,
  role_at, can_view_anything, views, intersects,
}

-- What a binding grants, on its own, where its scope governs the target.
abbrev pub grants : List String → List String → Role → Binding → Bool
grants member govern required b =
    contains member b.group
    && contains govern b.scope
    && elim (parse_role b.role) [ ok r ↦ meets r required | err _ ↦ false ]

-- Whether the server's configuration grants a role.
abbrev pub base_grants : Resolver → List String → Role → Bool
base_grants rv member required =
    (intersects member rv.baseline_owner && meets owner required)
    || (intersects member rv.baseline_editor && meets editor required)
    || (intersects member rv.baseline_viewer && meets viewer required)

meets-consider : (a b q : Role) → meets (consider a b) q ≡ (meets b q || meets a q)
unfolding meets consider
meets-consider a b q = ground arith

Result-cases : {E A : Type 0} (o : Result E A) → ((e : E) × (o ≡ err e)) ⊎ ((a : A) × (o ≡ ok a))
Result-cases (err e) = inl (e, refl)
Result-cases (ok a) = inr (a, refl)

or_assoc : (x y z : Bool) → ((x || y) || z) ≡ (x || (y || z))
or_assoc x y z = ground arith

refused :
    (x y m : Bool) (best q : Role)
    → meets best q ≡ m
    → meets (if not x || not y then best else best) q ≡ (m || (x && y && false))
refused true true m best q h = rw h (ground arith)
refused true false m best q h = rw h (ground arith)
refused false y m best q h = rw h (ground arith)

counted :
    (x y : Bool) (r best q : Role)
    → meets (if not x || not y then best else consider r best) q
      ≡ (meets best q || (x && y && meets r q))
counted true true r best q = meets-consider r best q
counted true false r best q = ground arith
counted false y r best q = ground arith

meets-consider_binding :
    (member govern : List String) (b : Binding) (best q : Role)
    → meets (consider_binding member govern b best) q ≡ (meets best q || grants member govern q b)
unfolding consider_binding
meets-consider_binding member govern b best q = elim (Result-cases (parse_role b.role)) [
  | inl (e, p) ↦
      rw (p, consider_binding)
        (refused (contains member b.group) (contains govern b.scope) (meets best q) best q refl)
  | inr (r, p) ↦
      rw (p, consider_binding)
        (counted (contains member b.group) (contains govern b.scope) r best q)
]

meets-bindings :
    (member govern : List String) (best q : Role) (bs : List Binding)
    → meets (consider_bindings member govern best bs) q
      ≡ (meets best q || any (grants member govern q) bs)
unfolding consider_bindings
meets-bindings member govern best q [] = ground arith
meets-bindings member govern best q (b ∷ bs) =
    meets-bindings member govern (consider_binding member govern b best) q bs
    ∙ ap (λ x. x || any (grants member govern q) bs) (meets-consider_binding member govern b best q)
    ∙ or_assoc (meets best q) (grants member govern q b) (any (grants member govern q) bs)

meets-none : (q : Role) → rank q ≢ 0 → meets no_role q ≡ false
unfolding meets
meets-none q h = ground arith

meets-if :
    (holds : Bool) (a b q : Role)
    → meets (if holds then consider a b else b) q ≡ (meets b q || (holds && meets a q))
meets-if true a b q = meets-consider a b q
meets-if false a b q = ground arith

meets-baseline :
    (rv : Resolver) (member : List String) (q : Role)
    → rank q ≢ 0
    → meets (baseline rv member) q ≡ base_grants rv member q
unfolding baseline
meets-baseline rv member q h = ground (
  arith,
  meets-if (intersects member rv.baseline_viewer) viewer
      (consider_if (intersects member rv.baseline_editor) editor
        (consider_if (intersects member rv.baseline_owner) owner no_role))
      q,
  meets-if (intersects member rv.baseline_editor) editor
      (consider_if (intersects member rv.baseline_owner) owner no_role) q,
  meets-if (intersects member rv.baseline_owner) owner no_role q,
  meets-none q h,
)

-- A user who is not a service holds a role other than none at a scope exactly when the server's
-- configuration or a binding of one of the user's groups, at a scope that governs it, grants that
-- role or a higher one.
pub role_at-meets :
    (rv : Resolver) (u : User) (ref : String) (required : Role)
    → u.service ≡ false
    → rank required ≢ 0
    → meets (role_at rv u ref) required ≡ (
        base_grants rv u.groups required
        || any (grants u.groups (governing_scopes rv ref) required) rv.bindings)
unfolding role_at
role_at-meets rv u ref required s h =
    rw (s, role_at)
      (meets-bindings u.groups (governing_scopes rv ref) (baseline rv u.groups) required rv.bindings
        ∙ ap (λ x. x || any (grants u.groups (governing_scopes rv ref) required) rv.bindings)
            (meets-baseline rv u.groups required h))

any_mono :
    (p q : Binding → Bool) (bs : List Binding)
    → ((b : Binding) → p b ≡ true → q b ≡ true)
    → any p bs ≡ true
    → any q bs ≡ true
any_mono p q [] h a = a
any_mono p q (b ∷ bs) h a = elim (Bool-cases (p b)) [
  | inl e ↦ rw (h b e) refl
  | inr e ↦ rw (any_mono p q bs h (rw e at a)) (ground arith)
]

viewed : (x y z : Bool) → (x && y && z) ≡ true → (x && z) ≡ true
viewed x y z h = ground arith

wider : (x y z m : Bool) → (x && (y || false) && m) ≡ true → (x && (y || z) && m) ≡ true
wider x y z m h = ground arith

or_mono : (x y z : Bool) → (y ≡ true → z ≡ true) → (x || y) ≡ true → (x || z) ≡ true
or_mono true y z f h = refl
or_mono false y z f h = f h

no_view : (x y : Bool) → ¬ ((x && y && false) ≡ true)
no_view x y h = ground arith

grants-views :
    (member govern : List String) (b : Binding)
    → grants member govern viewer b ≡ true
    → views member b ≡ true
unfolding meets
grants-views member govern b h = elim (Result-cases (parse_role b.role)) [
  | inl (e, p) ↦ absurd (no_view (contains member b.group) (contains govern b.scope) (rw p at h))
  | inr (r, p) ↦
      rw p (viewed (contains member b.group) (contains govern b.scope) (leb 1 (rank r)) (rw p at h))
]

or_last : (x y : Bool) → (x || y) ≡ true → x ≡ false → y ≡ true
or_last x y h e = ground arith

or_first : (x y : Bool) → (x || y) ≡ false → x ≡ false
or_first x y h = ground arith

grants-org :
    (member : List String) (rv : Resolver) (ref : String) (required : Role) (b : Binding)
    → grants member (governing_scopes rv "org") required b ≡ true
    → grants member (governing_scopes rv ref) required b ≡ true
unfolding governing_scopes
grants-org member rv ref required b h =
    wider (contains member b.group) ("org" == b.scope) (contains (narrower_scopes rv ref) b.scope) _
      h

at_every :
    (rv : Resolver) (u : User) (ref : String) (required : Role)
    → rank required ≢ 0
    → meets (role_at rv u "org") required ≡ true
    → meets (role_at rv u ref) required ≡ true
unfolding role_at
at_every rv u ref required n h = elim (Bool-cases u.service) [
  | inl s ↦ rw (s, role_at) (rw (s, role_at) at h)
  | inr s ↦
      role_at-meets rv u ref required s n
      ∙ or_mono (base_grants rv u.groups required) _ _
          (any_mono _ _ rv.bindings (grants-org u.groups rv ref required))
          (sym (role_at-meets rv u "org" required s n) ∙ h)
]

-- Whoever holds a role at some scope passes the test at the login.
pub role_at-can_view_anything :
    (rv : Resolver) (u : User) (ref : String)
    → meets (role_at rv u ref) viewer ≡ true
    → can_view_anything rv u ≡ true
unfolding can_view_anything meets
role_at-can_view_anything rv u ref h = elim (Bool-cases u.service) [
  | inl s ↦ rw s refl
  | inr s ↦ elim (Bool-cases (leb (rank viewer) (rank (role_at rv u "org")))) [
    | inl m ↦ rw (m, s) refl
    | inr m ↦
        let at_org = sym (role_at-meets rv u "org" viewer s (λ z. cc)) ∙ m in
        let at_ref = sym (role_at-meets rv u ref viewer s (λ z. cc)) ∙ h in
        rw (m, s)
          (any_mono (grants u.groups (governing_scopes rv ref) viewer) (views u.groups) rv.bindings
            (grants-views u.groups (governing_scopes rv ref))
            (or_last (base_grants rv u.groups viewer)
              (any (grants u.groups (governing_scopes rv ref) viewer) rv.bindings) at_ref
              (or_first (base_grants rv u.groups viewer)
                (any (grants u.groups (governing_scopes rv "org") viewer) rv.bindings) at_org)))
  ]
]

-- A role at the organisation is a role at every scope, at least as high.
pub role_at-org :
    (rv : Resolver) (u : User) (ref : String) (required : Role)
    → meets (role_at rv u "org") required ≡ true
    → meets (role_at rv u ref) required ≡ true
unfolding meets
role_at-org rv u ref no_role h = ground arith
role_at-org rv u ref viewer h = at_every rv u ref viewer (λ z. cc) h
role_at-org rv u ref editor h = at_every rv u ref editor (λ z. cc) h
role_at-org rv u ref owner h = at_every rv u ref owner (λ z. cc) h
