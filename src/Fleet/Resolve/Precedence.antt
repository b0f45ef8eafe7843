-- ===== src/Fleet/Resolve/Precedence.antt =====
-- The precedence rule: what a key resolves to, and what decides between equals.
use sextant.Common.{
  Bool-cases, Option-cases, and_left, keep, any, All, Map, lookup, has, ◌≤◌, String, ◌≡◌, ◌≢◌, ◌⊎◌,
  refl, ap, ◌∙◌, inl, inr, Bool, true, false, none, some, List, [], ◌∷◌, arith,
}
use mathlib.Core.List.{Mem}
use sextant.Fleet.Chain.{Contributor}
use sextant.Fleet.Resolve.{better, pick, sets, enforces, resolve_key, resolution, settle}
use sextant.Fleet.Resolve.Winner.{pick-winner, pick-none_iff, Unbeaten}

module _ {A : Type 0} where
  -- A key resolves to the value of a contributor, with the lock or without it.
  abbrev pub ResolvesTo : List (Contributor A) → String → Contributor A → Bool → Type 0
  ResolvesTo chain key w locked =
      (v : A) × (lookup key w.settings ≡ some v)
      × (resolve_key chain key ≡ some (record { value = v; source = w.source; enforced = locked }))

  better-general : (c w : Contributor A) → better true c w ≡ false → w.specificity ≤ c.specificity
  unfolding better
  better-general c w h = ground arith

  better-specific : (c w : Contributor A) → better false c w ≡ false → c.specificity ≤ w.specificity
  unfolding better
  better-specific c w h = ground arith

  most_general :
      (e : Contributor A → Bool) (w : Contributor A) (chain : List (Contributor A))
      → Unbeaten e true w chain
      → All (λ c. w.specificity ≤ c.specificity) (keep e chain)
  most_general e w [] u = tt
  most_general e w (c ∷ chain) u = elim (Bool-cases (e c)) [
    | inl p ↦ rw p (better-general c w (u.0 p), most_general e w chain u.1)
    | inr p ↦ rw p (most_general e w chain u.1)
  ]

  most_specific :
      (e : Contributor A → Bool) (w : Contributor A) (chain : List (Contributor A))
      → Unbeaten e false w chain
      → All (λ c. c.specificity ≤ w.specificity) (keep e chain)
  most_specific e w [] u = tt
  most_specific e w (c ∷ chain) u = elim (Bool-cases (e c)) [
    | inl p ↦ rw p (better-specific c w (u.0 p), most_specific e w chain u.1)
    | inr p ↦ rw p (most_specific e w chain u.1)
  ]

  has-some : (key : String) (m : Map A) → has key m ≡ true → (v : A) × (lookup key m ≡ some v)
  has-some key m h = elim (Option-cases (lookup key m)) [
    | inl e ↦ absurd (cc (rw (e, has) at h))
    | inr s ↦ s
  ]

  picked :
      (e : Contributor A → Bool) (general : Bool) (chain : List (Contributor A))
      → any e chain ≡ true
      → (w : Contributor A) × (pick e general none chain ≡ some w)
  picked e general chain h = elim (Option-cases (pick e general none chain)) [
    | inl n ↦ absurd (cc ((pick-none_iff e general chain).0 n))
    | inr s ↦ s
  ]

  pub resolution-set :
      (key : String) (w : Contributor A) (v : A) (locked : Bool)
      → lookup key w.settings ≡ some v
      → resolution key locked (some w)
        ≡ some (record { value = v; source = w.source; enforced = locked })
  resolution-set key w v locked s = rw (s, resolution) refl

  resolve_key-picked :
      (chain : List (Contributor A)) (key : String) (w : Contributor A)
      → pick (enforces key) true none chain ≡ some w
      → enforces key w ≡ true
      → ResolvesTo chain key w true
  unfolding resolve_key
  resolve_key-picked chain key w p e =
      let (v, s) = has-some key w.settings (and_left _ _ e) in
      (
        v,
        s,
        ap (λ q. settle key q (pick (sets key) false none chain)) p ∙ resolution-set key w v true s,
      )

  resolve_key-fallback :
      (chain : List (Contributor A)) (key : String) (w : Contributor A)
      → pick (enforces key) true none chain ≡ none
      → pick (sets key) false none chain ≡ some w
      → sets key w ≡ true
      → ResolvesTo chain key w false
  unfolding resolve_key
  resolve_key-fallback chain key w n p e =
      let (v, s) = has-some key w.settings e in
      (
        v,
        s,
        ap (λ q. settle key q (pick (sets key) false none chain)) n
            ∙ ap (resolution key false) p
            ∙ resolution-set key w v false s,
      )

  -- Where a contributor enforces a key that it sets, the key is locked to the value of one of the
  -- most general contributors that do.
  pub resolve_key-enforced :
      (chain : List (Contributor A)) (key : String)
      → any (enforces key) chain ≡ true
      → (w : Contributor A) × Mem w chain
        × (enforces key w ≡ true)
        × All (λ c. w.specificity ≤ c.specificity) (keep (enforces key) chain)
        × ResolvesTo chain key w true
  resolve_key-enforced chain key h =
      let (w, p) = picked (enforces key) true chain h in
      let (m, e, u) = pick-winner (enforces key) true chain w p in
      (w, m, e, most_general (enforces key) w chain u, resolve_key-picked chain key w p e)

  -- Where a key is set and no contributor enforces it, it resolves, without a lock, to the value of
  -- one of the most specific contributors that set it.
  pub resolve_key-default :
      (chain : List (Contributor A)) (key : String)
      → any (enforces key) chain ≡ false
      → any (sets key) chain ≡ true
      → (w : Contributor A) × Mem w chain
        × (sets key w ≡ true)
        × All (λ c. c.specificity ≤ w.specificity) (keep (sets key) chain)
        × ResolvesTo chain key w false
  resolve_key-default chain key n h =
      let (w, p) = picked (sets key) false chain h in
      let (m, e, u) = pick-winner (sets key) false chain w p in
      (
        w,
        m,
        e,
        most_specific (sets key) w chain u,
        resolve_key-fallback chain key w ((pick-none_iff (enforces key) true chain).1 n) p e,
      )

  -- What decides between `w` and a contributor of the same specificity: the one whose own settings
  -- these are goes before an assigned policy, and then the lower order does.
  abbrev pub StandsBefore : Contributor A → Contributor A → Type 0
  StandsBefore w c =
      (c.specificity ≢ w.specificity)
      ⊎ (((w.inline ≡ true) × (c.inline ≡ false)) ⊎ ((c.inline ≡ w.inline) × (w.order ≤ c.order)))

  better-ties :
      (general : Bool) (c w : Contributor A) → better general c w ≡ false → StandsBefore w c
  unfolding better
  better-ties general c w h = ground arith

  ties_won :
      (e : Contributor A → Bool) (general : Bool) (w : Contributor A) (chain : List (Contributor A))
      → Unbeaten e general w chain
      → All (StandsBefore w) (keep e chain)
  ties_won e general w [] u = tt
  ties_won e general w (c ∷ chain) u = elim (Bool-cases (e c)) [
    | inl p ↦ rw p (better-ties general c w (u.0 p), ties_won e general w chain u.1)
    | inr p ↦ rw p (ties_won e general w chain u.1)
  ]

  -- The contributors that count for a key: those that enforce it where there
  -- are any, and else those that set it.
  abbrev pub counts : Bool → String → Contributor A → Bool
  counts true key = enforces key
  counts false key = sets key

  -- A key that is set resolves to the value of a contributor that wins every tie: of those that count
  -- and have its specificity, none has settings of its own where it has a policy's, and none of the
  -- same kind has a lower order.
  pub resolve_key-ties :
      (chain : List (Contributor A)) (key : String)
      → any (sets key) chain ≡ true
      → (w : Contributor A) × Mem w chain
        × (counts (any (enforces key) chain) key w ≡ true)
        × All (StandsBefore w) (keep (counts (any (enforces key) chain) key) chain)
        × ResolvesTo chain key w (any (enforces key) chain)
  resolve_key-ties chain key h = elim (Bool-cases (any (enforces key) chain)) [
    | inl l ↦
        let (w, p) = picked (enforces key) true chain l in
        let (m, e, u) = pick-winner (enforces key) true chain w p in
        rw l (w, m, e, ties_won (enforces key) true w chain u, resolve_key-picked chain key w p e)
    | inr n ↦
        let (w, p) = picked (sets key) false chain h in
        let (m, e, u) = pick-winner (sets key) false chain w p in
        rw n (
          w,
          m,
          e,
          ties_won (sets key) false w chain u,
          resolve_key-fallback chain key w ((pick-none_iff (enforces key) true chain).1 n) p e,
        )
  ]
