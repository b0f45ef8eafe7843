-- ===== src/Service/Config/Verdicts/Bounds.antt =====
-- The memo of verdicts is bounded, its set with its list, and holds nothing that was not recorded.
use sextant.Common.{
  ltb, ◌==◌, Bool-cases, and_left, length, contains, keys, contains-keep, Distinct, ap, false, ◌&&◌,
  eq_iff, differs, ℕ, ◌≤◌, String, ◌≡◌, refl, sym, ◌∙◌, ◌⊎◌, inl, inr, Bool, true, not, ◌||◌,
  Option, none, some, List, [], ◌∷◌, ◌++◌, arith, ℕ_Testable, String_Testable,
}
use sextant.Service.Config.Verdicts.{
  VerdictCache, evict, add_all, record_keys, max_verdicts, known, without,
}

-- The set and the list of a memo hold the same keys, each once in the list.
abbrev pub IsSound : VerdictCache → Type 0
IsSound c = Distinct c.order × ((j : String) → contains c.seen j ≡ contains c.order j)

evict-bound : (max : ℕ) (seen ks : List String) → length (evict max seen ks).order ≤ max
unfolding evict
evict-bound max seen [] = omega arith
evict-bound max seen (k ∷ ks) = elim (Bool-cases (ltb max (length (k ∷ ks)))) [
  | inl h ↦ rw (h, evict) (evict-bound max (without k seen) ks)
  | inr h ↦ rw (h, evict) (ground (arith, h))
]

-- A key that stands once is gone with its first occurrence.
dropped :
    (k j : String) (ks : List String)
    → contains ks k ≡ false
    → (contains (k ∷ ks) j && not (j == k)) ≡ contains ks j
dropped k j ks h = elim (Bool-cases (k == j)) [
  | inl e ↦
      let same : k ≡ j = (eq_iff k j).0 e in
      let gone : contains ks j ≡ false = rw same at h in
      ground (arith, (eq_iff j k).1 (sym same), gone)
  | inr e ↦ ground (arith, e, differs k j e)
]

evict-IsSound :
    (max : ℕ) (seen ks : List String)
    → IsSound (record { seen = seen; order = ks })
    → IsSound (evict max seen ks)
unfolding evict
evict-IsSound max seen [] s = s
evict-IsSound max seen (k ∷ ks) ((fresh, d), s) = elim (Bool-cases (ltb max (length (k ∷ ks)))) [
  | inr h ↦ rw (h, evict) ((fresh, d), s)
  | inl h ↦
      rw (h, evict)
        (evict-IsSound max (without k seen) ks (
          d,
          λ j.
              contains-keep (λ i. not (i == k)) seen j
              ∙ ap (λ b. b && not (j == k)) (s j)
              ∙ dropped k j ks fresh,
        ))
]

contains-last :
    (ks : List String) (k j : String) → contains (ks ++ k ∷ []) j ≡ (k == j || contains ks j)
contains-last [] k j = refl
contains-last (x ∷ ks) k j = ground (arith, contains-last ks k j)

Distinct-last :
    (ks : List String) (k : String) → Distinct ks → contains ks k ≡ false → Distinct (ks ++ k ∷ [])
Distinct-last [] k d h = (refl, tt)
Distinct-last (x ∷ ks) k (fresh, d) h = (
  contains-last ks k x ∙ ground (arith, fresh, differs x k (ground (arith, h))),
  Distinct-last ks k d (ground (arith, h)),
)

add_all-IsSound : (ks : List String) (c : VerdictCache) → IsSound c → IsSound (add_all ks c)
unfolding add_all
add_all-IsSound [] c s = s
add_all-IsSound (k ∷ ks) c (d, s) = elim (Bool-cases (contains c.seen k)) [
  | inl e ↦ rw (e, add_all) (add_all-IsSound ks c (d, s))
  | inr e ↦
      rw (e, add_all)
        (add_all-IsSound ks (record { seen = k ∷ c.seen; order = c.order ++ k ∷ [] })
          (
            Distinct-last c.order k d (sym (s k) ∙ e),
            λ j. ap (λ b. k == j || b) (s j) ∙ sym (contains-last c.order k j),
          ))
]

-- However many keys are recorded in a memo whose set and list hold the same keys, the list has at most
-- 4096 of them if it had no more before, each of them once, and the keys that are known are still
-- exactly those of the list.
pub record_keys-bound :
    (c : VerdictCache) (keys : List String)
    → length c.order ≤ 4096
    → IsSound c
    → (c' : VerdictCache) × (record_keys (some c) keys ≡ some c')
      × (length c'.order ≤ 4096)
      × Distinct c'.order
      × ((j : String) → known (some c') j ≡ contains c'.order j)
unfolding record_keys known
record_keys-bound c [] h s = (c, refl, h, s.0, s.1)
record_keys-bound c (k ∷ ks) h s =
    let added = add_all (k ∷ ks) c in
    let kept = evict-IsSound max_verdicts added.seen added.order (add_all-IsSound (k ∷ ks) c s) in
    (
      evict max_verdicts added.seen added.order,
      refl,
      evict-bound max_verdicts added.seen added.order,
      kept.0,
      kept.1,
    )

evict-sub :
    (max : ℕ) (seen ks : List String) (j : String)
    → contains (evict max seen ks).seen j ≡ true
    → contains seen j ≡ true
unfolding evict
evict-sub max seen [] j h = h
evict-sub max seen (k ∷ ks) j h = elim (Bool-cases (ltb max (length (k ∷ ks)))) [
  | inl e ↦ and_left (contains seen j) (not (j == k)) (
      sym (contains-keep (λ i. not (i == k)) seen j)
      ∙ evict-sub max (without k seen) ks j (rw (e, evict) at h))
  | inr e ↦ rw (e, evict) at h
]

add_all-sub :
    (ks : List String) (c : VerdictCache) (j : String)
    → contains (add_all ks c).seen j ≡ true
    → (contains c.seen j ≡ true) ⊎ (contains ks j ≡ true)
unfolding add_all
add_all-sub [] c j h = inl h
add_all-sub (k ∷ ks) c j h = elim (Bool-cases (contains c.seen k)) [
  | inl e ↦ elim (add_all-sub ks c j (rw (e, add_all) at h)) [
    | inl p ↦ inl p
    | inr p ↦ inr (ground arith)
  ]
  | inr e ↦
      elim (add_all-sub ks (record { seen = k ∷ c.seen; order = c.order ++ k ∷ [] }) j
        (rw (e, add_all) at h)) [
          | inl p ↦ added k j (contains c.seen j) (contains ks j) p
          | inr p ↦ inr (ground arith)
        ]
]
  where
    added : (k j : String) (a b : Bool) → (k == j || a) ≡ true → (a ≡ true) ⊎ ((k == j || b) ≡ true)
    added k j a b h = ground arith

-- A key is known after a record only if it was known before or is one of the keys recorded.
pub known-record_keys :
    (o : Option VerdictCache) (keys : List String) (j : String)
    → known (record_keys o keys) j ≡ true
    → (known o j ≡ true) ⊎ (contains keys j ≡ true)
unfolding known record_keys
known-record_keys none keys j h = inl h
known-record_keys (some c) [] j h = inl h
known-record_keys (some c) (k ∷ ks) j h =
    add_all-sub (k ∷ ks) c j
      (evict-sub max_verdicts (add_all (k ∷ ks) c).seen (add_all (k ∷ ks) c).order j h)
