-- ===== src/Fleet/Edit/Forest.antt =====
-- The groups stay a forest: no group is above itself.
use sextant.Common.{
  if◌then◌else◌, ◌==◌, Bool-cases, Option-cases, length, All, contains, refuse-passed, then-passed,
  ok, Map, lookup, insert, has, lookup-insert, ℕ, zero, suc, ◌<◌, String, eq_iff, differs, ◌≡◌,
  refl, ap, ◌≢◌, inl, inr, Bool, true, false, not, Option, none, some, List, [], ◌∷◌, arith,
  ℕ_Testable, String_Testable,
}
use mathlib.Core.Path.{subst}
use sextant.Fleet.Model.{Fleet, Group}
use sextant.Fleet.Edit.{
  with_groups, with_parent, parent_of, reaches, check_cycle, check_parent, set_group_parent,
  unknown_parent,
}

check_cycle-ok :
    (group parent : String) (o : Option Bool) → check_cycle group parent o ≡ ok tt → o ≡ some false
check_cycle-ok group parent none h = absurd (cc)
check_cycle-ok group parent (some true) h = absurd (cc)
check_cycle-ok group parent (some false) h = refl

module _ {A : Type 0} where
  -- The walk up from a name ends after so many steps.
  abbrev pub EndsIn : Map (Group A) → ℕ → String → Type 0
  EndsIn groups zero x = x ≡ ""
  EndsIn groups (suc n) x = (x ≢ "") × EndsIn groups n (parent_of groups x)

  -- The walk up from every name ends.
  abbrev pub IsForest : Map (Group A) → Type 0
  IsForest groups = (x : String) → (n : ℕ) × EndsIn groups n x

  ends_once :
      (groups : Map (Group A)) (n m : ℕ) (x : String)
      → EndsIn groups n x
      → EndsIn groups m x
      → n ≡ m
  ends_once groups zero zero x a b = refl
  ends_once groups zero (suc m) x a b = absurd (b.0 a)
  ends_once groups (suc n) zero x a b = absurd (a.0 b)
  ends_once groups (suc n) (suc m) x a b =
      ap suc (ends_once groups n m (parent_of groups x) a.1 b.1)

  -- The names below, from which the walk takes longer.
  abbrev Longer : Map (Group A) → ℕ → String → Type 0
  Longer groups n s = (m : ℕ) × EndsIn groups m s × (n < m)

  Longer-suc :
      (groups : Map (Group A)) (n : ℕ) (seen : List String)
      → All (Longer groups (suc n)) seen
      → All (Longer groups n) seen
  Longer-suc groups n [] h = tt
  Longer-suc groups n (s ∷ seen) ((m, e, l), h) = ((m, e, omega arith), Longer-suc groups n seen h)

  not_seen :
      (groups : Map (Group A)) (n : ℕ) (seen : List String) (x : String)
      → EndsIn groups n x
      → All (Longer groups n) seen
      → contains seen x ≡ false
  not_seen groups n [] x e h = refl
  not_seen groups n (s ∷ seen) x e ((m, b, l), h) = elim (Bool-cases (s == x)) [
    | inl q ↦
        let same : n ≡ m =
          ends_once groups n m x e (subst (EndsIn groups m) ((eq_iff s x).0 q) b) in
        absurd (omega arith)
    | inr q ↦ rw q (not_seen groups n seen x e h)
  ]

  parent_of-insert :
      (groups : Map (Group A)) (group x : String) (g : Group A)
      → parent_of (insert group g groups) x ≡ (if group == x then g.parent else parent_of groups x)
  parent_of-insert groups group x g = elim (Bool-cases (group == x)) [
    | inl e ↦ rw (lookup-insert group x g groups, parent_of) (rw e refl)
    | inr e ↦ rw (lookup-insert group x g groups, parent_of) (rw e refl)
  ]

  -- Where the walk does not reach the group, it is the same walk after the change.
  reaches-false :
      (groups : Map (Group A)) (group : String) (g : Group A) (n fuel : ℕ) (seen : List String)
      (cur : String)
      → EndsIn groups n cur
      → All (Longer groups n) seen
      → reaches groups fuel group seen cur ≡ some false
      → EndsIn (insert group g groups) n cur
  unfolding reaches
  reaches-false groups group g zero fuel seen cur e h r = e
  reaches-false groups group g (suc n) zero seen cur e h r = absurd (cc)
  reaches-false groups group g (suc n) (suc fuel) seen cur (ne, e) h r =
      elim (Bool-cases (cur == "")) [
        | inl q ↦ absurd (ne ((eq_iff cur "").0 q))
        | inr q ↦ elim (Bool-cases (cur == group)) [
          | inl p ↦ absurd (cc (rw (q, p) at r))
          | inr p ↦
              let k = not_seen groups (suc n) seen cur (ne, e) h in
              (
                ne,
                rw (parent_of-insert groups group cur g) (
                    rw (differs cur group p) (
                      reaches-false groups group g n fuel (cur ∷ seen) (parent_of groups cur) e
                        ((suc n, (ne, e), omega arith), Longer-suc groups n seen h)
                        (rw (q, p, k) at r))),
              )
        ]
      ]

  rebuilt :
      (groups : Map (Group A)) (group : String) (g : Group A) (k n : ℕ) (x : String)
      → EndsIn (insert group g groups) k g.parent
      → EndsIn groups n x
      → (m : ℕ) × EndsIn (insert group g groups) m x
  rebuilt groups group g k zero x b e = (0, e)
  rebuilt groups group g k (suc n) x b (ne, e) = elim (Bool-cases (group == x)) [
    | inl q ↦ (suc k, (ne, rw (parent_of-insert groups group x g) (rw q b)))
    | inr q ↦
        let (m, d) = rebuilt groups group g k n (parent_of groups x) b e in
        (suc m, (ne, rw (parent_of-insert groups group x g) (rw q d)))
  ]

  parent_ends :
      (groups : Map (Group A)) (group parent : String) (g : Group A)
      → IsForest groups
      → check_parent groups group parent ≡ ok tt
      → (n : ℕ) × EndsIn (insert group g groups) n parent
  unfolding check_parent
  parent_ends groups group parent g w c = elim (Bool-cases (parent == "")) [
    | inl e ↦ (0, (eq_iff parent "").0 e)
    | inr e ↦
        let (p, k) =
          refuse-passed (not (has parent groups)) (unknown_parent parent) _ tt (rw e at c) in
        (
          (w parent).0,
          reaches-false groups group g (w parent).0 (suc (suc (length groups))) [] parent
              (w parent).1 tt (check_cycle-ok group parent _ k),
        )
  ]

  -- Where the groups are a forest, a re-parenting that is accepted leaves them a forest: it closes
  -- no cycle.
  pub set_group_parent-IsForest :
      (group parent : String) (f f' : Fleet A)
      → IsForest f.groups
      → set_group_parent group parent f ≡ ok f'
      → IsForest f'.groups
  unfolding set_group_parent check_parent
  set_group_parent-IsForest group parent f f' w h = elim (Option-cases (lookup group f.groups)) [
    | inl n ↦ absurd (cc (rw (n, set_group_parent) at h))
    | inr (g, s) ↦
        let g' = with_parent parent g in
        let (c, k) =
          then-passed (check_parent f.groups group parent)
            (ok (with_groups (insert group g' f.groups) f)) f' (rw (s, set_group_parent) at h) in
        let (n, b) = parent_ends f.groups group parent g' w c in
        let made : with_groups (insert group g' f.groups) f ≡ f' = cc in
        subst (λ (x : Fleet A). IsForest x.groups) made
          (λ x. rebuilt f.groups group g' n (w x).0 x b (w x).1)
  ]
