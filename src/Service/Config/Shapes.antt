-- ===== src/Service/Config/Shapes.antt =====
-- internal/domain/fleet/classes.go: one device for each shape of configuration. The
-- fingerprint of a device (`classKey`, a hash of what it resolves to) is the parameter `class_key`.
pub mod Cover
use sextant.Common.{
  leb, if◌then◌else◌, length, before, Map, lookup, insert, text_leb, sort, String, Bool, not, none,
  some, List, [], ◌∷◌, ◌++◌, map,
}
use sextant.Fleet.Model.{Fleet, Device, is_retired}

abbrev pub text_lt : String → String → Bool
text_lt a b = not (text_leb b a)

-- The entry of a class is the least of its tags.
abbrev pub place_tag : String → String → Map String → Map String
place_tag key tag m = elim (lookup key m) [
  | none ↦ insert key tag m
  | some cur ↦ if text_lt tag cur then insert key tag m else m
]

abbrev pub values : {V : Type 0} → Map V → List V
values = map (λ e. e.1)

-- `classes[key] = append(classes[key], tag)`
abbrev pub append_to : String → String → Map (List String) → Map (List String)
append_to key tag m = elim (lookup key m) [
  | none ↦ insert key (tag ∷ []) m
  | some tags ↦ insert key (tags ++ tag ∷ []) m
]

-- The first of the sorted members of every class.
abbrev pub firsts : List (List String) → List String
firsts [] = []
firsts (tags ∷ rest) = elim (sort tags) [ [] ↦ firsts rest | t ∷ ts ↦ t ∷ firsts rest ]

module _ {A : Type 0} (class_key : Fleet A → String → Device A → String) where
  -- The loop of `EquivalenceClasses`.
  unfoldable pub classes_of : Fleet A → Map (Device A) → Map (List String) → Map (List String)
  classes_of f [] m = m
  classes_of f ((tag, d) ∷ devices) m =
      classes_of f devices (if is_retired d then m else append_to (class_key f tag d) tag m)

  -- `EquivalenceClasses`, before the members are sorted
  unfoldable pub equivalence_classes : Fleet A → Map (List String)
  unfolding classes_of
  equivalence_classes f = classes_of f f.devices []

  -- `Representatives`
  unfoldable pub representatives : Fleet A → List String
  unfolding equivalence_classes
  representatives f = sort (firsts (values (equivalence_classes f)))

  -- `ClassKeyOf`
  unfoldable pub class_key_of : Fleet A → String → String
  class_key_of f tag = elim (lookup tag f.devices) [
    | none ↦ ""
    | some d ↦ if is_retired d then "" else class_key f tag d
  ]

  -- The body of the loop of `SampleHosts`.
  unfoldable pub sample_one : Fleet A → String → Map String → Map String
  sample_one f tag m = elim (lookup tag f.devices) [
    | none ↦ m
    | some d ↦ if is_retired d then m else place_tag (class_key f tag d) tag m
  ]

  -- The loop of `SampleHosts`.
  unfoldable pub sample_from : Fleet A → List String → Map String → Map String
  unfolding sample_one
  sample_from f [] m = m
  sample_from f (tag ∷ tags) m = sample_from f tags (sample_one f tag m)

  -- `SampleHosts`
  unfoldable pub sample_hosts : Fleet A → List String → List String
  unfolding sample_from
  sample_hosts f tags = if leb (length tags) 1 then tags else sort (values (sample_from f tags []))
