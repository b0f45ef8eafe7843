-- ===== src/Fleet/Filter/Laws.antt =====
-- What a filter selects.
use sextant.Common.{
  if◌then◌else◌, ◌==◌, Option-cases, is_empty, all, any, cut_prefix, cut_prefix-some, lookup,
  String, eq_iff, ◌≡◌, refl, ◌≢◌, ◌⊎◌, inl, inr, false, not, ◌&&◌, none, some, List, [], ◌∷◌, arith,
  ℕ_Testable, String_Testable,
}
use sextant.Fleet.Model.{Device, FilterRule, Filter, Fleet}
use sextant.Fleet.Filter.{matches_rule, match_loop, matches_filter, is_attr, match_text, attribute}

module _ {A : Type 0} (f : Fleet A) (tag : String) where
  loop-all : (rs : List FilterRule) → match_loop f tag "all" rs ≡ all (matches_rule f tag) rs
  unfolding match_loop
  loop-all [] = refl
  loop-all (r ∷ rs) = ground (arith, loop-all rs)

  loop-any : (rs : List FilterRule) → match_loop f tag "any" rs ≡ any (matches_rule f tag) rs
  unfolding match_loop
  loop-any [] = refl
  loop-any (r ∷ rs) = ground (arith, loop-any rs)

  any_rules :
      (rs : List FilterRule)
      → (if is_empty rs then false else match_loop f tag "any" rs) ≡ any (matches_rule f tag) rs
  any_rules [] = refl
  any_rules (r ∷ rs) = loop-any (r ∷ rs)

  all_rules :
      (rs : List FilterRule)
      → (if is_empty rs then false else match_loop f tag "all" rs)
        ≡ (not (is_empty rs) && all (matches_rule f tag) rs)
  all_rules [] = refl
  all_rules (r ∷ rs) = loop-all (r ∷ rs)

  -- A filter in the mode `any` selects the devices that satisfy one of its rules; in the mode `all`,
  -- or with no mode, those that satisfy every rule, of which there must be one.
  pub matches_filter-mode :
      (fl : Filter)
      → (fl.match ≡ "any") ⊎ (fl.match ≡ "all") ⊎ (fl.match ≡ "")
      → matches_filter f fl tag ≡ (
          if fl.match == "any"
          then any (matches_rule f tag) fl.rules
          else not (is_empty fl.rules) && all (matches_rule f tag) fl.rules)
  unfolding matches_filter
  matches_filter-mode fl (inl m) = rw m (any_rules fl.rules)
  matches_filter-mode fl (inr (inl m)) = rw m (all_rules fl.rules)
  matches_filter-mode fl (inr (inr m)) = rw m (all_rules fl.rules)

  op_closed :
      (r : FilterRule) (got : String)
      → (r.op == "eq") ≡ false
      → (r.op == "ne") ≡ false
      → (r.op == "prefix") ≡ false
      → (r.op == "in") ≡ false
      → match_text r got ≡ false
  unfolding match_text
  op_closed r got e n p i = rw (e, n, p, i)

  label_text : (attr k : String) → cut_prefix "label:" attr ≡ some k → k ≡ "" → attr ≡ "label:"
  label_text attr k e z = rw z at (cut_prefix-some "label:" attr k e)

  attribute-none :
      (d : Device A) (attr : String)
      → attr ≢ "label:"
      → is_attr attr ≡ false
      → ((attr == "group") ≡ false) × (attribute d tag attr ≡ none)
  unfolding attribute is_attr
  attribute-none d attr n h = elim (Option-cases (cut_prefix "label:" attr)) [
    | inl e ↦ ground arith
    | inr (k, e) ↦ ground (arith, eq_iff k "", label_text attr k e)
  ]

  -- An unknown device matches no rule, and a rule on an unknown attribute matches no device; the text
  -- `label:` with no key counts as a known attribute here.
  pub matches_rule-unknown :
      (r : FilterRule)
      → r.attr ≢ "label:"
      → (lookup tag f.devices ≡ none) ⊎ (is_attr r.attr ≡ false)
      → matches_rule f tag r ≡ false
  unfolding matches_rule
  matches_rule-unknown r n (inl h) = rw (h, matches_rule)
  matches_rule-unknown r n (inr h) = elim (Option-cases (lookup tag f.devices)) [
    | inl e ↦ rw (e, matches_rule)
    | inr (d, e) ↦
        let (not_group, no_value) = attribute-none d r.attr n h in
        rw (e, matches_rule) (rw (not_group, no_value))
  ]
