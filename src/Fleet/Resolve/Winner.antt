-- ===== src/Fleet/Resolve/Winner.antt =====
-- The contributor that wins a key.
use sextant.Common.{
  Bool-cases, and_left, and_right, any, All, ◌≡◌, refl, ◌↔◌, ◌⊎◌, inl, inr, Bool, true, false, ◌&&◌,
  Option, none, some, List, [], ◌∷◌, arith,
}
use mathlib.Core.List.{Mem, mem-cons_self, mem-cons_of_mem}
use mathlib.Core.Path.{subst}
use sextant.Fleet.Chain.{Contributor}
use sextant.Fleet.Resolve.{better, improves, pick}

module _ {A : Type 0} where
  better_trans :
      (general : Bool) (a b c : Contributor A)
      → better general a b ≡ true
      → better general b c ≡ true
      → better general a c ≡ true
  unfolding better
  better_trans general a b c p q = ground arith

  unbeaten_trans :
      (general : Bool) (a b c : Contributor A)
      → better general a b ≡ false
      → better general b c ≡ false
      → better general a c ≡ false
  unfolding better
  unbeaten_trans general a b c p q = ground arith

  better_irrefl : (general : Bool) (a : Contributor A) → better general a a ≡ false
  unfolding better
  better_irrefl general a = ground arith

  -- The contributors that a pass looks at, and none of which is better than the winner.
  abbrev pub Unbeaten :
      (Contributor A → Bool) → Bool → Contributor A → List (Contributor A) → Type 0
  Unbeaten eligible general w chain =
      All (λ c. eligible c ≡ true → better general c w ≡ false) chain

  abbrev Holds : Contributor A → Bool → Option (Contributor A) → Type 0
  Holds w general none = Unit
  Holds w general (some b) = better general b w ≡ false

  -- What a pass returns.
  record IsWinner (eligible : Contributor A → Bool) (general : Bool) (best : Option (Contributor A))
      (chain : List (Contributor A)) (w : Contributor A) : Type 0 where
    from : (best ≡ some w) ⊎ (Mem w chain × (eligible w ≡ true))
    holds : Holds w general best
    unbeaten : Unbeaten eligible general w chain

  replaced :
      (general : Bool) (c : Contributor A) (best : Option (Contributor A)) (w : Contributor A)
      → improves general c best ≡ true
      → better general c w ≡ false
      → Holds w general best
  replaced general c none w i h = tt
  replaced general c (some b) w i h = elim (Bool-cases (better general b w)) [
    | inl e ↦ absurd (cc (better_trans general c b w i e))
    | inr e ↦ e
  ]

  kept :
      (eligible : Contributor A → Bool) (general : Bool) (c : Contributor A)
      (best : Option (Contributor A)) (w : Contributor A)
      → (eligible c && improves general c best) ≡ false
      → Holds w general best
      → eligible c ≡ true
      → better general c w ≡ false
  kept eligible general c none w k h e = absurd (cc (rw e at k))
  kept eligible general c (some b) w k h e = unbeaten_trans general c b w (rw e at k) h

  started :
      (eligible : Contributor A → Bool) (c w : Contributor A) (chain : List (Contributor A))
      → eligible c ≡ true
      → (some c ≡ some w) ⊎ (Mem w chain × (eligible w ≡ true))
      → Mem w (c ∷ chain) × (eligible w ≡ true)
  started eligible c w chain e (inl p) =
      let same : c ≡ w = cc in
      (
        subst (λ (x : Contributor A). Mem x (c ∷ chain)) same mem-cons_self,
        subst (λ (x : Contributor A). eligible x ≡ true) same e,
      )
  started eligible c w chain e (inr (m, p)) = (mem-cons_of_mem c m, p)

  later :
      (eligible : Contributor A → Bool) (best : Option (Contributor A)) (c w : Contributor A)
      (chain : List (Contributor A))
      → (best ≡ some w) ⊎ (Mem w chain × (eligible w ≡ true))
      → (best ≡ some w) ⊎ (Mem w (c ∷ chain) × (eligible w ≡ true))
  later eligible best c w chain (inl p) = inl p
  later eligible best c w chain (inr (m, p)) = inr (mem-cons_of_mem c m, p)

  pick-IsWinner :
      (eligible : Contributor A → Bool) (general : Bool) (best : Option (Contributor A))
      (chain : List (Contributor A)) (w : Contributor A)
      → pick eligible general best chain ≡ some w
      → IsWinner eligible general best chain w
  unfolding pick
  pick-IsWinner eligible general none [] w h = absurd (cc)
  pick-IsWinner eligible general (some b) [] w h =
      let same : b ≡ w = cc in
      record { from = inl h; holds = rw same (better_irrefl general w); unbeaten = tt }
  pick-IsWinner eligible general best (c ∷ chain) w h =
      elim (Bool-cases (eligible c && improves general c best)) [
        | inl e ↦
            let ih = pick-IsWinner eligible general (some c) chain w (rw e at h) in
            record {
              from = inr (started eligible c w chain (and_left _ _ e) ih.from);
              holds = replaced general c best w (and_right _ _ e) ih.holds;
              unbeaten = (λ _. ih.holds, ih.unbeaten);
            }
        | inr e ↦
            let ih = pick-IsWinner eligible general best chain w (rw e at h) in
            record {
              from = later eligible best c w chain ih.from;
              holds = ih.holds;
              unbeaten = (kept eligible general c best w e ih.holds, ih.unbeaten);
            }
      ]

  -- A pass over a chain that starts with nobody finds an eligible contributor of the chain that no
  -- eligible one is better than.
  pub pick-winner :
      (eligible : Contributor A → Bool) (general : Bool) (chain : List (Contributor A))
      (w : Contributor A)
      → pick eligible general none chain ≡ some w
      → Mem w chain × (eligible w ≡ true) × Unbeaten eligible general w chain
  pick-winner eligible general chain w h =
      let p = pick-IsWinner eligible general none chain w h in
      elim p.from [ inl e ↦ absurd (cc) | inr (m, e) ↦ (m, e, p.unbeaten) ]

  pick-some :
      (eligible : Contributor A → Bool) (general : Bool) (b : Contributor A)
      (chain : List (Contributor A))
      → (w : Contributor A) × (pick eligible general (some b) chain ≡ some w)
  unfolding pick
  pick-some eligible general b [] = (b, refl)
  pick-some eligible general b (c ∷ chain) = elim (Bool-cases (eligible c && better general c b)) [
    | inl e ↦ rw e (pick-some eligible general c chain)
    | inr e ↦ rw e (pick-some eligible general b chain)
  ]

  -- A pass finds nobody exactly when nobody is eligible.
  pub pick-none_iff :
      (eligible : Contributor A → Bool) (general : Bool) (chain : List (Contributor A))
      → (pick eligible general none chain ≡ none) ↔ (any eligible chain ≡ false)
  unfolding pick
  pick-none_iff eligible general [] = (λ _. refl, λ _. refl)
  pick-none_iff eligible general (c ∷ chain) =
      ground (arith, pick-some eligible general c chain, pick-none_iff eligible general chain)
