-- ===== src/Fleet/Edit/Walk.antt =====
-- The walk up in `SetGroupParent`, internal/domain/fleet/groups.go.
use sextant.Common.{
  ◌==◌, Bool-cases, Option-cases, length, contains, Map, lookup, unseen, unseen-lt, unseen-length,
  ℕ, zero, suc, ◌+◌, ◌<◌, String, eq_iff, ◌≡◌, refl, sym, ◌∙◌, ◌≢◌, ◌⊎◌, ◌↔◌, inl, inr, Bool, true,
  false, some, List, [], ◌∷◌, arith, ℕ_Testable, String_Testable,
}
use mathlib.Core.Path.{subst}
use sextant.Fleet.Model.{Group}
use sextant.Fleet.Edit.{parent_of, reaches}

module _ {A : Type 0} where
  -- So many steps from a name to its parent lead to the other name.
  abbrev pub Climbs : Map (Group A) → ℕ → String → String → Type 0
  Climbs groups zero x y = x ≡ y
  Climbs groups (suc n) x y = (x ≢ "") × Climbs groups n (parent_of groups x) y

  -- None of the names is the group, and the parent of each is one of them or the current name.
  abbrev Closed : Map (Group A) → String → List String → String → Type 0
  Closed groups group seen cur =
      (s : String)
      → contains seen s ≡ true
      → (s ≢ group) × ((parent_of groups s ≡ cur) ⊎ (contains seen (parent_of groups s) ≡ true))

  Closed-climb :
      (groups : Map (Group A)) (group : String) (seen : List String) (cur : String)
      → Closed groups group seen cur
      → contains seen cur ≡ true
      → (n : ℕ) (s : String) → contains seen s ≡ true
      → ¬ Climbs groups n s group
  Closed-climb groups group seen cur c k zero s m e = (c s m).0 e
  Closed-climb groups group seen cur c k (suc n) s m (ne, up) = elim ((c s m).1) [
    | inl e ↦
        Closed-climb groups group seen cur c k n (parent_of groups s)
          (subst (λ (x : String). contains seen x ≡ true) (sym e) k) up
    | inr m' ↦ Closed-climb groups group seen cur c k n (parent_of groups s) m' up
  ]

  Closed-step :
      (groups : Map (Group A)) (group : String) (seen : List String) (cur : String)
      → Closed groups group seen cur
      → (cur == group) ≡ false
      → Closed groups group (cur ∷ seen) (parent_of groups cur)
  Closed-step groups group seen cur c p s m = elim (Bool-cases (cur == s)) [
    | inl e ↦
        let same : cur ≡ s = (eq_iff cur s).0 e in
        (
          λ q. cc ((eq_iff cur group).1 (same ∙ q), p),
          inl (subst (λ (x : String). parent_of groups x ≡ parent_of groups cur) same refl),
        )
    | inr e ↦
        let (ne, o) = c s (rw e at m) in
        (
          ne,
          elim o [
            | inl q ↦ inr (rw ((eq_iff cur (parent_of groups s)).1 (sym q)) refl)
            | inr k ↦ inr (ground (arith, k))
          ],
        )
  ]

  reaches-true :
      (groups : Map (Group A)) (group : String) (fuel : ℕ) (seen : List String) (cur : String)
      → reaches groups fuel group seen cur ≡ some true
      → (n : ℕ) × Climbs groups n cur group
  unfolding reaches
  reaches-true groups group zero seen cur r = absurd (cc)
  reaches-true groups group (suc fuel) seen cur r = elim (Bool-cases (cur == "")) [
    | inl q ↦ absurd (cc (rw (q, reaches) at r))
    | inr q ↦ elim (Bool-cases (cur == group)) [
      | inl p ↦ (0, (eq_iff cur group).0 p)
      | inr p ↦ elim (Bool-cases (contains seen cur)) [
        | inl k ↦ absurd (cc (rw (q, p, k, reaches) at r))
        | inr k ↦
            let (n, up) =
              reaches-true groups group fuel (cur ∷ seen) (parent_of groups cur)
                (rw (q, p, k, reaches) at r) in
            (suc n, (λ e. cc ((eq_iff cur "").1 e, q), up))
      ]
    ]
  ]

  nowhere :
      (groups : Map (Group A)) (group cur : String) (n : ℕ)
      → group ≢ ""
      → cur ≡ ""
      → ¬ Climbs groups n cur group
  nowhere groups group cur zero ne e up = ne (sym up ∙ e)
  nowhere groups group cur (suc n) ne e (k, up) = k e

  reaches-false :
      (groups : Map (Group A)) (group : String) (fuel : ℕ) (seen : List String) (cur : String)
      → group ≢ ""
      → Closed groups group seen cur
      → reaches groups fuel group seen cur ≡ some false
      → (n : ℕ) → ¬ Climbs groups n cur group
  unfolding reaches
  reaches-false groups group zero seen cur ne c r n up = absurd (cc)
  reaches-false groups group (suc fuel) seen cur ne c r n up = elim (Bool-cases (cur == "")) [
    | inl q ↦ nowhere groups group cur n ne ((eq_iff cur "").0 q) up
    | inr q ↦ elim (Bool-cases (cur == group)) [
      | inl p ↦ absurd (cc (rw (q, p, reaches) at r))
      | inr p ↦ elim (Bool-cases (contains seen cur)) [
        | inl k ↦ Closed-climb groups group seen cur c k n cur k up
        | inr k ↦
            further n up
              (reaches-false groups group fuel (cur ∷ seen) (parent_of groups cur) ne
                (Closed-step groups group seen cur c p) (rw (q, p, k, reaches) at r))
              p
      ]
    ]
  ]
    where
      further :
          (m : ℕ)
          → Climbs groups m cur group
          → ((k : ℕ) → ¬ Climbs groups k (parent_of groups cur) group)
          → (cur == group) ≡ false
          → ⊥
      further zero e h p = cc ((eq_iff cur group).1 e, p)
      further (suc m) (k, up) h p = h m up

  reaches-nil :
      (groups : Map (Group A)) (group : String) (fuel : ℕ) (seen : List String)
      → 0 < fuel
      → reaches groups fuel group seen "" ≡ some false
  unfolding reaches
  reaches-nil groups group zero seen h = absurd (omega arith)
  reaches-nil groups group (suc fuel) seen h = refl

  reaches_total :
      (groups : Map (Group A)) (group : String) (fuel : ℕ) (seen : List String) (cur : String)
      → unseen seen groups + 1 < fuel
      → (b : Bool) × (reaches groups fuel group seen cur ≡ some b)
  unfolding reaches
  reaches_total groups group zero seen cur h = absurd (omega arith)
  reaches_total groups group (suc fuel) seen cur h = elim (Bool-cases (cur == "")) [
    | inl q ↦ (false, rw q refl)
    | inr q ↦ elim (Bool-cases (cur == group)) [
      | inl p ↦ (true, rw (q, p) refl)
      | inr p ↦ elim (Bool-cases (contains seen cur)) [
        | inl k ↦ (false, rw (q, p, k) refl)
        | inr k ↦ elim (Option-cases (lookup cur groups)) [
          | inl n ↦ (
            false,
            rw (q, p, k)
                (rw (n, parent_of) (reaches-nil groups group fuel (cur ∷ seen) (omega arith))),
          )
          | inr (g, n) ↦
              let (b, e) =
                reaches_total groups group fuel (cur ∷ seen) (parent_of groups cur)
                  (omega (arith, unseen-lt seen cur groups g n k)) in
              (b, rw (q, p, k) e)
        ]
      ]
    ]
  ]

  -- The walk up from a new parent never runs out of its fuel, two rounds more than there are groups,
  -- cycles included, and it answers yes exactly where the group is the new parent or stands above it;
  -- the name of the group is not empty.
  pub reaches_decides :
      (groups : Map (Group A)) (group parent : String)
      → group ≢ ""
      → (b : Bool) × (reaches groups (suc (suc (length groups))) group [] parent ≡ some b)
        × ((b ≡ true) ↔ ((n : ℕ) × Climbs groups n parent group))
  reaches_decides groups group parent ne =
      let (b, e) =
        reaches_total groups group (suc (suc (length groups))) [] parent
          (omega (arith, unseen-length [] groups)) in
      (b, e, answer b e)
    where
      answer :
          (b : Bool)
          → reaches groups (suc (suc (length groups))) group [] parent ≡ some b
          → (b ≡ true) ↔ ((n : ℕ) × Climbs groups n parent group)
      answer true e =
          (λ h. reaches-true groups group (suc (suc (length groups))) [] parent e, λ h. refl)
      answer false e = (
        λ h. absurd (cc),
        λ (n, up). absurd (
            reaches-false groups group (suc (suc (length groups))) [] parent ne (λ s m. absurd (cc))
              e n up),
      )
