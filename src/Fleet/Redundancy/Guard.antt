-- ===== src/Fleet/Redundancy/Guard.antt =====
-- The guard of a membership and the pruning of redundant groups agree.
use sextant.Common.{
  ◌==◌, Bool-cases, Option-cases, keep, any, contains, Map, contains-keep, String, eq_iff, ◌≡◌,
  refl, sym, ◌∙◌, ◌≢◌, ◌↔◌, inl, inr, Bool, true, false, not, ◌&&◌, none, List, [], ◌∷◌, arith,
  ℕ_Testable, String_Testable,
}
use sextant.Common.{[], ◌∷◌, none, true, false, inl, inr}
use sextant.Common.{[], ◌∷◌, none, true, false, inl, inr}
use sextant.Fleet.Model.{Group}
use sextant.Fleet.Groups.{group_ancestry}
use sextant.Fleet.Redundancy.{
  is_above, is_reachable, redundant_in, without, duplicate_of, first_duplicate,
  reject_ancestor_duplication,
}

-- An item that passes a test.
any-found :
    (p : String → Bool) (l : List String)
    → any p l ≡ true
    → (x : String) × (contains l x ≡ true) × (p x ≡ true)
any-found p [] h = absurd (cc)
any-found p (y ∷ l) h = elim (Bool-cases (p y)) [
  | inl b ↦ (y, ground (arith, eq_iff y y), b)
  | inr b ↦ let (x, m, q) = any-found p l (ground (arith, b, h)) in (x, ground (arith, m), q)
]

any-given :
    (p : String → Bool) (l : List String) (x : String)
    → contains l x ≡ true
    → p x ≡ true
    → any p l ≡ true
any-given p [] x m q = absurd (cc)
any-given p (y ∷ l) x m q = elim (Bool-cases (y == x)) [
  | inl b ↦ let e : y ≡ x = (eq_iff y x).0 b in ground (arith, rw (← e) at q)
  | inr b ↦ ground (arith, any-given p l x (ground (arith, b, m)) q)
]

keep-empty : (p : String → Bool) (l : List String) → (keep p l ≡ []) ↔ (any p l ≡ false)
keep-empty p [] = (λ h. refl, λ h. refl)
keep-empty p (y ∷ l) =
    let (f, g) = keep-empty p l in (λ h. ground (arith, f, h), λ h. ground (arith, g, h))

-- Whether the guard finds a pair.
abbrev clashes : {A : Type 0} → Map (Group A) → List String → String → Bool
clashes groups list g = any (λ anc. not (anc == g) && contains list anc) (group_ancestry groups g)

duplicate_of-none :
    (list : List String) (g : String) (above : List String)
    → (duplicate_of list g above ≡ none)
      ↔ (any (λ anc. not (anc == g) && contains list anc) above ≡ false)
unfolding duplicate_of
duplicate_of-none list g [] = (λ h. refl, λ h. refl)
duplicate_of-none list g (anc ∷ rest) =
    let (f, b) = duplicate_of-none list g rest in
    (λ h. ground (arith, f, h), λ h. ground (arith, b, h))

module _ {A : Type 0} (groups : Map (Group A)) where
  first_duplicate-none :
      (list gs : List String)
      → (first_duplicate groups list gs ≡ none) ↔ (any (clashes groups list) gs ≡ false)
  unfolding first_duplicate
  first_duplicate-none list [] = (λ h. refl, λ h. refl)
  first_duplicate-none list (g ∷ gs) =
      let (f, b) = first_duplicate-none list gs in
      let (f', b') = duplicate_of-none list g (group_ancestry groups g) in
      elim (Option-cases (duplicate_of list g (group_ancestry groups g))) [
        | inl n ↦ (
          λ h. ground (arith, f', n, f (rw (n, first_duplicate) at h)),
          λ h. rw (n, first_duplicate) (b (ground (arith, h))),
        )
        | inr (x, n) ↦ (
          λ h. absurd (cc (rw (n, first_duplicate) at h)),
          λ h. absurd (cc (n, b' (ground (arith, h)))),
        )
      ]

  -- A clash is a group of the list that is above another one.
  clash-reachable :
      (list : List String)
      → any (clashes groups list) list ≡ true
      → any (is_reachable groups list) list ≡ true
  clash-reachable list h =
      let (g, m, c) = any-found (clashes groups list) list h in
      let (anc, a, q) =
        any-found (λ anc. not (anc == g) && contains list anc) (group_ancestry groups g) c in
      any-given (is_reachable groups list) list anc (ground arith)
        (any-given (λ g. is_above groups g anc) list g m (ground arith))

  reachable-clash :
      (list : List String)
      → any (is_reachable groups list) list ≡ true
      → any (clashes groups list) list ≡ true
  reachable-clash list h =
      let (anc, m, r) = any-found (is_reachable groups list) list h in
      let (g, n, q) = any-found (λ g. is_above groups g anc) list r in
      any-given (clashes groups list) list g n (
        any-given (λ anc. not (anc == g) && contains list anc) (group_ancestry groups g) anc
          (ground arith) (ground arith))

  clashes-same :
      (list : List String) → any (clashes groups list) list ≡ any (is_reachable groups list) list
  clashes-same list = elim (Bool-cases (any (clashes groups list) list)) [
    | inl h ↦ cc (h, clash-reachable list h)
    | inr h ↦ elim (Bool-cases (any (is_reachable groups list) list)) [
      | inl r ↦ cc (r, reachable-clash list r)
      | inr r ↦ cc (h, r)
    ]
  ]

  -- A membership is accepted by the guard exactly when no group of it is redundant in it.
  pub reject_ancestor_duplication_iff :
      (list : List String)
      → (reject_ancestor_duplication groups list ≡ none) ↔ (redundant_in groups list ≡ [])
  unfolding reject_ancestor_duplication redundant_in
  reject_ancestor_duplication_iff list =
      let (f, b) = first_duplicate-none list list in
      let (k, e) = keep-empty (is_reachable groups list) list in
      (λ h. e (sym (clashes-same list) ∙ f h), λ h. b (clashes-same list ∙ k h))

  -- Where the redundant groups of a membership are cut, what is left is accepted.
  pub reject-without :
      (list : List String)
      → reject_ancestor_duplication groups (without (redundant_in groups list) list) ≡ none
  unfolding redundant_in without
  reject-without list =
      (reject_ancestor_duplication_iff kept).1
        (elim (Bool-cases (any (is_reachable groups kept) kept)) [
          | inl r ↦ absurd (apart r)
          | inr r ↦ (keep-empty (is_reachable groups kept) kept).1 r
        ])
    where
      kept : List String
      kept = without (redundant_in groups list) list

      apart : any (is_reachable groups kept) kept ≢ true
      apart r =
          let (anc, m, q) = any-found (is_reachable groups kept) kept r in
          let (g, n, a) = any-found (λ g. is_above groups g anc) kept q in
          let cut = redundant_in groups list in
          let anc_kept = contains-keep (λ g. not (contains cut g)) list anc in
          let g_kept = contains-keep (λ g. not (contains cut g)) list g in
          let anc_cut = contains-keep (is_reachable groups list) list anc in
          let reached : is_reachable groups list anc ≡ true =
            any-given (λ g. is_above groups g anc) list g (ground (arith, n, g_kept)) a in
          ground (arith, m, anc_kept, anc_cut, reached)
