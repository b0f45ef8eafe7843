-- ===== src/Fleet/Chain.antt =====
-- internal/domain/fleet/chain.go: what contributes settings to a device, as one list.
use sextant.Common.{
  if◌then◌else◌, ◌==◌, is_empty, ◌<>◌, cut_prefix, has_prefix, Map, lookup, has, ℕ, suc, ◌+◌,
  String, Bool, true, false, ◌&&◌, Option, none, some, List, [], ◌∷◌, ◌++◌, ℕ_Testable,
  String_Testable,
}
use sextant.Fleet.Model.{Scope, Group, Assignment, Fleet, device_at, no_group}
use sextant.Fleet.Filter.{matches_filter, member_groups}

-- internal/domain/fleet/resolve.go, lines 24 to 27
pub record Source : Type 0 where
  pub scope : String
  pub policy : String

-- `enforced` is the list that `enforcedSet` makes a set of.
pub record Contributor (A : Type 0) : Type 0 where
  pub specificity : ℕ
  pub inline : Bool
  pub order : ℕ
  pub source : Source
  pub settings : Map A
  pub enforced : List String

-- The map of `scopePositions`: `org` is at 0, `groups` holds the entries `group:<name>` by name, and
-- `next` is the entry `device`.
pub record Positions : Type 0 where
  pub groups : Map ℕ
  pub next : ℕ

-- The loop over the ancestors of the device's groups.
unfoldable pub place : List String → Positions → Positions
place [] p = p
place (anc ∷ rest) p = place rest (
    if has anc p.groups
    then p
    else record { groups = p.groups ++ (anc, p.next) ∷ []; next = p.next + 1 })

-- `assignmentPosition`
unfoldable pub assignment_position : Positions → String → String → Option ℕ
assignment_position places target tag =
    if target == "org" then some 0 else elim (cut_prefix "group:" target) [
      | some g ↦ lookup g places.groups
      | none ↦ elim (cut_prefix "device:" target) [
        | some t ↦ if t == tag then some places.next else none
        | none ↦ none
      ]
    ]

-- `displayScope`
unfoldable pub display_scope : String → String
display_scope target = if has_prefix target "device:" then "device" else target

module _ {A : Type 0} where
  -- `scopePositions`
  unfoldable pub scope_positions : Fleet A → String → Positions
  unfolding place
  scope_positions f tag =
      place (member_groups f.groups (device_at f tag).groups) (record { groups = []; next = 1 })

  -- An inline contributor, where the scope has anything to say.
  unfoldable pub inline_at : ℕ → String → Scope A → List (Contributor A)
  inline_at specificity ref s =
      if is_empty s.settings && is_empty s.enforced
      then []
      else record {
        specificity = specificity;
        inline = true;
        order = 0;
        source = record { scope = ref; policy = "" };
        settings = s.settings;
        enforced = s.enforced;
      }
        ∷ []

  unfoldable pub org_part : Option (Scope A) → List (Contributor A)
  unfolding inline_at
  org_part none = []
  org_part (some s) = inline_at 0 "org" s

  abbrev pub group_or_zero : Option (Group A) → Group A
  group_or_zero none = no_group
  group_or_zero (some g) = g

  -- The loop over the positions of the groups.
  unfoldable pub group_part : Map (Group A) → Map ℕ → List (Contributor A)
  unfolding inline_at
  group_part groups [] = []
  group_part groups ((name, p) ∷ rest) =
      inline_at p ("group:" <> name) (group_or_zero (lookup name groups)).scope
      ++ group_part groups rest

  -- Whether an assignment's filter lets the device through; a missing filter does not.
  unfoldable pub filter_passes : Fleet A → String → String → Bool
  filter_passes f filter tag =
      if filter == ""
      then true
      else elim (lookup filter f.filters) [ none ↦ false | some fl ↦ matches_filter f fl tag ]

  -- The contributor that an assignment makes, with its index.
  unfoldable pub policy_at : Fleet A → String → Positions → ℕ → Assignment → List (Contributor A)
  unfolding filter_passes
  policy_at f tag places i a = elim (lookup a.policy f.policies) [
    | none ↦ []
    | some p ↦ elim (assignment_position places a.target tag) [
      | none ↦ []
      | some spec ↦
          if filter_passes f a.filter tag
          then record {
            specificity = spec;
            inline = false;
            order = i;
            source = record { scope = display_scope a.target; policy = a.policy };
            settings = p.settings;
            enforced = p.enforced;
          }
            ∷ []
          else []
    ]
  ]

  -- The loop over the assignments.
  unfoldable pub policy_part :
      Fleet A → String → Positions → ℕ → List Assignment → List (Contributor A)
  unfolding policy_at
  policy_part f tag places i [] = []
  policy_part f tag places i (a ∷ rest) =
      policy_at f tag places i a ++ policy_part f tag places (suc i) rest

  -- `chainFor`
  unfoldable pub chain_for : Fleet A → String → List (Contributor A)
  unfolding scope_positions org_part group_part policy_part inline_at
  chain_for f tag =
      let places = scope_positions f tag in
      org_part f.org
      ++ (group_part f.groups places.groups
          ++ (inline_at places.next "device" (device_at f tag).scope
              ++ policy_part f tag places 0 f.assignments))
