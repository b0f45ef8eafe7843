-- ===== src/Service/Config/Shapes/Cover.antt =====
-- A sample stands for every device that it was drawn from.
use sextant.Common.{
  ap, ◌∙◌, length, sym, leb, refl, Option-cases, Bool, ◌==◌, Bool-cases, contains, Map, lookup, has,
  lookup-insert, String, eq_iff, ◌≡◌, ◌⊎◌, inl, inr, true, ◌||◌, some, List, [], ◌∷◌, arith,
  ℕ_Testable, String_Testable,
}
use sextant.Common.{true, false, some, inl, inr, [], ◌∷◌, contains-sort}
use sextant.Fleet.Model.{Fleet, Device, is_retired}
use sextant.Service.Config.Shapes.{
  sample_one, sample_from, sample_hosts, class_key_of, place_tag, values,
}

values-lookup : (m : Map String) (k t : String) → lookup k m ≡ some t → contains (values m) t ≡ true
values-lookup [] k t h = absurd (cc)
values-lookup ((j, v) ∷ m) k t h = elim (Bool-cases (j == k)) [
  | inl e ↦ here v t (values m) (rw e at h)
  | inr e ↦ there v t (values m) (values-lookup m k t (rw e at h))
]
  where
    here : (v t : String) (vs : List String) → some v ≡ some t → (v == t || contains vs t) ≡ true
    here v t vs h = ground (arith, eq_iff v t)

    there :
        (v t : String) (vs : List String) → contains vs t ≡ true → (v == t || contains vs t) ≡ true
    there v t vs h = ground arith

-- Placing a tag gives its class an entry, and leaves every other class its own.
place_tag-lookup :
    (key tag k : String) (m : Map String) (t : String)
    → lookup k (place_tag key tag m) ≡ some t
    → ((k ≡ key) × (t ≡ tag)) ⊎ (lookup k m ≡ some t)
place_tag-lookup key tag k m t h = ground (arith, h, lookup-insert key k tag m, eq_iff key k)

place_tag-has :
    (key tag k : String) (m : Map String)
    → ((key == k) || has k m) ≡ true
    → has k (place_tag key tag m) ≡ true
place_tag-has key tag k m h = ground (arith, h, lookup-insert key k tag m, eq_iff key k)

or_right : (a b : Bool) → b ≡ true → (a || b) ≡ true
or_right a b h = ground arith

module _ {A : Type 0} (class_key : Fleet A → String → Device A → String) (f : Fleet A) where
  -- Every entry of the sample has the shape that it stands for.
  abbrev Sound : Map String → Type 0
  Sound m = (k t : String) → lookup k m ≡ some t → class_key_of class_key f t ≡ k

  in_class :
      (tag : String) (d : Device A)
      → lookup tag f.devices ≡ some d
      → is_retired d ≡ false
      → class_key_of class_key f tag ≡ class_key f tag d
  unfolding class_key_of
  in_class tag d n r = rw (n, class_key_of) (rw r refl)

  sample_one-Sound :
      (tag : String) (m : Map String) → Sound m → Sound (sample_one class_key f tag m)
  unfolding sample_one class_key_of
  sample_one-Sound tag m s k t h = elim (Option-cases (lookup tag f.devices)) [
    | inl n ↦ s k t (rw (n, sample_one) at h)
    | inr (d, n) ↦ elim (Bool-cases (is_retired d)) [
      | inl r ↦ s k t (rw (n, r, sample_one) at h)
      | inr r ↦ elim (place_tag-lookup (class_key f tag d) tag k m t (rw (n, r, sample_one) at h)) [
        | inr q ↦ s k t q
        | inl (p, q) ↦ ap (class_key_of class_key f) q ∙ in_class tag d n r ∙ sym p
      ]
    ]
  ]

  sample_from-Sound :
      (tags : List String) (m : Map String) → Sound m → Sound (sample_from class_key f tags m)
  unfolding sample_from
  sample_from-Sound [] m s = s
  sample_from-Sound (tag ∷ tags) m s =
      sample_from-Sound tags (sample_one class_key f tag m) (sample_one-Sound tag m s)

  sample_one-kept :
      (tag k : String) (m : Map String)
      → has k m ≡ true
      → has k (sample_one class_key f tag m) ≡ true
  unfolding sample_one
  sample_one-kept tag k m h = elim (Option-cases (lookup tag f.devices)) [
    | inl n ↦ rw (n, sample_one) h
    | inr (d, n) ↦ elim (Bool-cases (is_retired d)) [
      | inl r ↦ rw (n, r, sample_one) h
      | inr r ↦
          rw (n, r, sample_one)
            (place_tag-has (class_key f tag d) tag k m
              (or_right (class_key f tag d == k) (has k m) h))
    ]
  ]

  sample_from-kept :
      (tags : List String) (k : String) (m : Map String)
      → has k m ≡ true
      → has k (sample_from class_key f tags m) ≡ true
  unfolding sample_from
  sample_from-kept [] k m h = h
  sample_from-kept (tag ∷ tags) k m h =
      sample_from-kept tags k (sample_one class_key f tag m) (sample_one-kept tag k m h)

  module _ (tag : String) (d : Device A) (n : lookup tag f.devices ≡ some d)
      (r : is_retired d ≡ false) where
    sample_one-new :
        (m : Map String) → has (class_key f tag d) (sample_one class_key f tag m) ≡ true
    unfolding sample_one
    sample_one-new m =
        rw (n, r, sample_one)
          (place_tag-has (class_key f tag d) tag (class_key f tag d) m
            (ground (arith, eq_iff (class_key f tag d) (class_key f tag d))))

    sample_from-new :
        (tags : List String) (m : Map String)
        → contains tags tag ≡ true
        → has (class_key f tag d) (sample_from class_key f tags m) ≡ true
    unfolding sample_from
    sample_from-new [] m h = absurd (cc)
    sample_from-new (u ∷ tags) m h = elim (Bool-cases (u == tag)) [
      | inl e ↦
          sample_from-kept tags (class_key f tag d) (sample_one class_key f u m)
            (rw ((eq_iff u tag).0 e) (sample_one-new m))
      | inr e ↦ sample_from-new tags (sample_one class_key f u m) (rw e at h)
    ]

    none_there : Sound []
    none_there k t h = absurd (cc)

    drawn :
        (m : Map String) (k : String)
        → has k m ≡ true
        → Sound m
        → (t : String) × (contains (values m) t ≡ true) × (class_key_of class_key f t ≡ k)
    drawn m k h s = elim (Option-cases (lookup k m)) [
      | inl e ↦ absurd (cc (rw (e, has) at h))
      | inr (t, e) ↦ (t, values-lookup m k t e, s k t e)
    ]

    -- Every device in service among the tags has the shape of some device of their sample.
    pub sample_hosts-Covers :
        (tags : List String)
        → contains tags tag ≡ true
        → (t : String) × (contains (sample_hosts class_key f tags) t ≡ true)
          × (class_key_of class_key f t ≡ class_key_of class_key f tag)
    unfolding sample_hosts
    sample_hosts-Covers tags h = elim (Bool-cases (leb (length tags) 1)) [
      | inl e ↦ (tag, rw (e, sample_hosts) h, refl)
      | inr e ↦
          let m = sample_from class_key f tags [] in
          let (t, i, k) =
            drawn m (class_key f tag d) (sample_from-new tags [] h)
              (sample_from-Sound tags [] none_there) in
          (t, rw (e, sample_hosts) (contains-sort (values m) t ∙ i), k ∙ sym (in_class tag d n r))
    ]
