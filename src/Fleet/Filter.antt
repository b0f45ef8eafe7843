-- ===== src/Fleet/Filter.antt =====
-- internal/domain/fleet/filter.go: predicates over device attributes.
pub mod Laws
use sextant.Common.{
  if◌then◌else◌, ◌==◌, is_empty, any, contains, cut_prefix, has_prefix, Result, ◌>>◌, refuse, ok,
  err, Map, lookup, ℕ, suc, String, Bool, true, false, not, ◌&&◌, ◌||◌, Option, none, some, List,
  [], ◌∷◌, ◌++◌, ◌>>=◌, ℕ_Testable, String_Testable,
}
use sextant.Fleet.Model.{Device, FilterRule, Filter, Group, Fleet}
use sextant.Fleet.Groups.{group_ancestry}

pub data Error : Type 0 where
  bad_match : String → Error
  no_rules : Error
  bad_attr no_value no_values empty_value bad_op : ℕ → Error

-- `label:` and at least one more byte, and what follows it
unfoldable pub label_key : String → Option String
label_key a = cut_prefix "label:" a

-- `validAttr`
unfoldable pub is_attr : String → Bool
unfolding label_key
is_attr a =
    a == "tag"
    || a == "class"
    || a == "hardware"
    || a == "assignedUser"
    || a == "group"
    || elim (label_key a) [ none ↦ false | some k ↦ not (k == "") ]

-- The `switch` on the operator in `ValidateFilter`.
unfoldable pub check_op : ℕ → FilterRule → Result Error (Unit {0})
check_op i r =
    if r.op == "eq" || r.op == "ne" || r.op == "prefix"
    then refuse (r.value == "") (no_value i)
    else if r.op == "in"
    then (refuse (is_empty r.values) (no_values i) >> refuse (contains r.values "") (empty_value i))
    else err (bad_op i)

-- The checks of one rule in `ValidateFilter`.
unfoldable pub check_rule : ℕ → FilterRule → Result Error (Unit {0})
unfolding is_attr check_op
check_rule i r = refuse (not (is_attr r.attr)) (bad_attr i) >> check_op i r

unfoldable pub check_rules : ℕ → List FilterRule → Result Error (Unit {0})
unfolding check_rule
check_rules i [] = ok tt
check_rules i (r ∷ rs) = check_rule i r >> check_rules (suc i) rs

-- `ValidateFilter`
unfoldable pub validate : Filter → Result Error (Unit {0})
unfolding check_rules
validate fl = do
  refuse (not (fl.match == "" || fl.match == "all" || fl.match == "any")) (bad_match fl.match)
  refuse (is_empty fl.rules) no_rules
  check_rules 0 fl.rules

abbrev pub text_or_empty : Option String → String
text_or_empty none = ""
text_or_empty (some s) = s

-- The operators on a set of groups, and on a text.
unfoldable pub match_groups : FilterRule → List String → Bool
match_groups r member =
    if r.op == "eq"
    then contains member r.value
    else if r.op == "ne"
    then not (contains member r.value)
    else if r.op == "prefix"
    then any (λ g. has_prefix g r.value) member
    else if r.op == "in"
    then any (λ v. contains member v) r.values
    else false

unfoldable pub match_text : FilterRule → String → Bool
match_text r got =
    if r.op == "eq"
    then got == r.value
    else if r.op == "ne"
    then not (got == r.value)
    else if r.op == "prefix"
    then not (got == "") && has_prefix got r.value
    else if r.op == "in"
    then contains r.values got
    else false

module _ {A : Type 0} where
  -- The groups of a device with their ancestors.
  unfoldable pub member_groups : Map (Group A) → List String → List String
  member_groups groups [] = []
  member_groups groups (g ∷ gs) = group_ancestry groups g ++ member_groups groups gs

  -- The value of an attribute other than `group`; `none` is the `default` that never matches.
  unfoldable pub attribute : Device A → String → String → Option String
  unfolding label_key
  attribute d tag attr =
      if attr == "tag"
      then some tag
      else if attr == "class"
      then some d.class
      else if attr == "hardware"
      then some d.hardware
      else if attr == "assignedUser"
      then some d.assigned_user
      else elim (label_key attr) [ none ↦ none | some k ↦ some (text_or_empty (lookup k d.labels)) ]

  -- `matchesRule`
  unfoldable pub matches_rule : Fleet A → String → FilterRule → Bool
  unfolding match_groups match_text attribute member_groups
  matches_rule f tag r = elim (lookup tag f.devices) [
    | none ↦ false
    | some d ↦
        if r.attr == "group"
        then match_groups r (member_groups f.groups d.groups)
        else elim (attribute d tag r.attr) [ none ↦ false | some got ↦ match_text r got ]
  ]

  -- The loop of `matchesFilter`, for a mode that is not empty.
  unfoldable pub match_loop : Fleet A → String → String → List FilterRule → Bool
  match_loop f tag mode [] = mode == "all"
  match_loop f tag mode (r ∷ rs) =
      let rest = match_loop f tag mode rs in
      if mode == "all" && not (matches_rule f tag r)
      then false
      else if mode == "any" && matches_rule f tag r
      then true
      else rest

  -- `matchesFilter`
  unfoldable pub matches_filter : Fleet A → Filter → String → Bool
  unfolding match_loop
  matches_filter f fl tag =
      if is_empty fl.rules
      then false
      else match_loop f tag (if fl.match == "" then "all" else fl.match) fl.rules
