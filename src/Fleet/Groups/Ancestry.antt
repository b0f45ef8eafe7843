-- ===== src/Fleet/Groups/Ancestry.antt =====
-- What the ancestry of a group is.
use sextant.Common.{
  ◌==◌, Bool-cases, Option-cases, length, contains, last?, Distinct, Map, lookup, has, unseen,
  unseen-lt, unseen-length, ℕ, zero, suc, ◌<◌, String, eq_iff, ◌≡◌, refl, sym, ap, ◌∙◌, ◌≢◌, ◌⊎◌,
  inl, inr, true, false, some, List, [], ◌∷◌, arith, ℕ_Testable, String_Testable,
}
use mathlib.Core.Path.{ap, sym, subst}
use sextant.Fleet.Model.{Group}
use sextant.Fleet.Groups.{climb, group_ancestry}

module _ {A : Type 0} (groups : Map (Group A)) where
  climb_total :
      (fuel : ℕ) (seen : List String) (cur : String) (chain : List String)
      → unseen seen groups < fuel
      → (r : List String) × (climb groups fuel seen cur chain ≡ some r)
  unfolding climb
  climb_total zero seen cur chain h = absurd (omega arith)
  climb_total (suc fuel) seen cur chain h = elim (Bool-cases (cur == "")) [
    | inl e ↦ (chain, rw e)
    | inr e ↦ elim (Bool-cases (contains seen cur)) [
      | inl c ↦ (chain, rw (e, c))
      | inr c ↦ elim (Option-cases (lookup cur groups)) [
        | inl n ↦ (chain, rw (e, c, n))
        | inr (g, s) ↦
            rw (e, c, s)
              (climb_total fuel (cur ∷ seen) g.parent (cur ∷ chain)
                (omega (arith, unseen-lt seen cur groups g s c)))
      ]
    ]
  ]

  -- Climbing from a group never runs out of its fuel, one round more than there are groups, and
  -- gives the ancestry of the group.
  pub group_ancestry_total :
      (g : String) → climb groups (suc (length groups)) [] g [] ≡ some (group_ancestry groups g)
  unfolding group_ancestry
  group_ancestry_total g =
      let (r, e) =
        climb_total (suc (length groups)) [] g [] (omega (arith, unseen-length [] groups)) in
      rw e

  -- A list of groups in which each is the parent of the next.
  abbrev pub IsLinked : List String → Type 0
  IsLinked [] = Unit
  IsLinked (a ∷ []) = (x : Group A) × (lookup a groups ≡ some x)
  IsLinked (a ∷ b ∷ r) =
      ((x : Group A) × (lookup a groups ≡ some x))
      × ((y : Group A) × (lookup b groups ≡ some y) × (y.parent ≡ a))
      × IsLinked (b ∷ r)

  -- The next group above a chain is the parent of its first.
  abbrev NextAbove : String → String → List String → Type 0
  NextAbove g cur [] = cur ≡ g
  NextAbove g cur (a ∷ r) =
      ((y : Group A) × (lookup a groups ≡ some y) × (y.parent ≡ cur)) × (last? (a ∷ r) ≡ some g)

  -- Nothing can be put above a chain: its first group has no parent, an unknown one, or one that is
  -- in the chain.
  abbrev pub IsTop : List String → Type 0
  IsTop [] = Unit
  IsTop (a ∷ r) =
      (y : Group A) × (lookup a groups ≡ some y)
      × ((y.parent ≡ "") ⊎ (has y.parent groups ≡ false) ⊎ (contains (a ∷ r) y.parent ≡ true))

  record IsClimbed (g : String) (chain : List String) : Type 0 where
    pub linked : IsLinked chain
    pub distinct : Distinct chain
    pub top : IsTop chain
    pub own : g ≢ "" → has g groups ≡ true → last? chain ≡ some g

  not_own :
      (g cur : String)
      → g ≢ ""
      → has g groups ≡ true
      → cur ≡ g
      → (cur ≡ "") ⊎ (has cur groups ≡ false) ⊎ (contains [] cur ≡ true)
      → ⊥
  not_own g cur e h n (inl s) = e (sym n ∙ s)
  not_own g cur e h n (inr (inl s)) = cc
  not_own g cur e h n (inr (inr s)) = cc

  above :
      (g cur : String) (chain : List String) (x : Group A)
      → lookup cur groups ≡ some x
      → IsLinked chain
      → NextAbove g cur chain
      → IsLinked (cur ∷ chain) × NextAbove g x.parent (cur ∷ chain)
  above g cur [] x e l n = ((x, e), ((x, e, refl), ap some n))
  above g cur (a ∷ r) x e l n = (((x, e), n.0, l), ((x, e, refl), n.1))

  stopped :
      (g cur : String) (chain : List String)
      → IsLinked chain
      → Distinct chain
      → NextAbove g cur chain
      → (cur ≡ "") ⊎ (has cur groups ≡ false) ⊎ (contains chain cur ≡ true)
      → IsClimbed g chain
  stopped g cur [] l d n s = record {
    linked = l;
    distinct = d;
    top = tt;
    own = λ e h. absurd (not_own g cur e h n s);
  }
  stopped g cur (a ∷ r) l d n s = record {
    linked = l;
    distinct = d;
    top = (n.0.0, n.0.1, rw n.0.2 s);
    own = λ e h. n.1;
  }

  climb-IsClimbed :
      (g : String) (fuel : ℕ) (cur : String) (chain r : List String)
      → climb groups fuel chain cur chain ≡ some r
      → IsLinked chain
      → Distinct chain
      → NextAbove g cur chain
      → IsClimbed g r
  unfolding climb
  climb-IsClimbed g zero cur chain r h l d n = absurd (cc)
  climb-IsClimbed g (suc fuel) cur chain r h l d n = elim (Bool-cases (cur == "")) [
    | inl e ↦ finish (rw e at h) (inl ((eq_iff cur "").0 e))
    | inr e ↦ elim (Bool-cases (contains chain cur)) [
      | inl c ↦ finish (rw (e, c) at h) (inr (inr c))
      | inr c ↦ elim (Option-cases (lookup cur groups)) [
        | inl k ↦ finish (rw (e, c, k) at h) (inr (inl (rw (k, has))))
        | inr (x, k) ↦
            let (l', n') = above g cur chain x k l n in
            climb-IsClimbed g fuel x.parent (cur ∷ chain) r (rw (e, c, k) at h) l' (c, d) n'
      ]
    ]
  ]
    where
      finish :
          some chain ≡ some r
          → (cur ≡ "") ⊎ (has cur groups ≡ false) ⊎ (contains chain cur ≡ true)
          → IsClimbed g r
      finish p s = subst (λ (c : List String). IsClimbed g c) (cc) (stopped g cur chain l d n s)

  group_ancestry-IsClimbed : (g : String) → IsClimbed g (group_ancestry groups g)
  group_ancestry-IsClimbed g =
      climb-IsClimbed g (suc (length groups)) g [] (group_ancestry groups g)
        (group_ancestry_total g) tt tt refl

  -- The ancestry of a known group ends at the group itself.
  pub group_ancestry-last :
      (g : String) → g ≢ "" → has g groups ≡ true → last? (group_ancestry groups g) ≡ some g
  group_ancestry-last g e h = (group_ancestry-IsClimbed g).own e h
