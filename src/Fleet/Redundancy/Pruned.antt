-- ===== src/Fleet/Redundancy/Pruned.antt =====
-- What pruning leaves of the memberships.
use sextant.Common.{
  ltb, if◌then◌else◌, ◌==◌, Bool-cases, Option-cases, contains, contains-keep, not, ◌&&◌, Bool,
  length, is_empty, Map, lookup, String, eq_iff, ◌≡◌, refl, sym, ap, ◌∙◌, ◌||◌, inl, inr, false,
  Option, none, some, List, [], ◌∷◌, arith, ℕ_Testable, String_Testable,
}
use sextant.Common.{[], ◌∷◌, none, some, true, false, inl, inr}
use sextant.Fleet.Model.{Fleet, Device, Group}
use sextant.Fleet.Redundancy.{
  is_reachable, redundant_in, redundant_groups, without, with_groups, prune_each,
  prune_redundant_groups,
}
use sextant.Fleet.Groups.{group_ancestry}
use sextant.Fleet.Redundancy.Guard.{reject_ancestor_duplication_iff, reject-without}

alone : (a : Bool) → true ≡ not (a && false || false)
alone true = refl
alone false = refl

module _ {A : Type 0} where
  abbrev pruned_as : Fleet A → String → Device A → Device A
  pruned_as f tag d =
      if is_empty (redundant_groups f tag)
      then d
      else with_groups (without (redundant_groups f tag) d.groups) d

  lookup-prune_each :
      (f : Fleet A) (m : Map (Device A)) (tag : String)
      → lookup tag (prune_each f m)
        ≡ (elim (lookup tag m) [ none ↦ none | some d ↦ some (pruned_as f tag d) ])
  unfolding prune_each
  lookup-prune_each f [] tag = refl
  lookup-prune_each f ((k, d) ∷ m) tag = elim (Bool-cases (k == tag)) [
    | inl e ↦ rw e (ap (λ t. some (pruned_as f t d)) ((eq_iff k tag).0 e))
    | inr e ↦ rw e (lookup-prune_each f m tag)
  ]

  redundant_in-without :
      (groups : Map (Group A)) (list : List String)
      → redundant_in groups (without (redundant_in groups list) list) ≡ []
  redundant_in-without groups list =
      (reject_ancestor_duplication_iff groups (without (redundant_in groups list) list)).0
        (reject-without groups list)

  -- `RedundantGroups` of a device with these groups
  abbrev redundancy : Map (Group A) → List String → List String
  redundancy groups list = if ltb (length list) 2 then [] else redundant_in groups list

  abbrev of_record : Map (Group A) → Option (Device A) → List String
  of_record groups none = []
  of_record groups (some d) = redundancy groups d.groups

  redundant_groups-of :
      (f : Fleet A) (tag : String) (o : Option (Device A))
      → lookup tag f.devices ≡ o
      → redundant_groups f tag ≡ of_record f.groups o
  unfolding redundant_groups
  redundant_groups-of f tag none h = rw (h, redundant_groups) refl
  redundant_groups-of f tag (some d) h = rw (h, redundant_groups) refl

  redundancy-without :
      (groups : Map (Group A)) (list : List String)
      → redundancy groups (
          if is_empty (redundancy groups list) then list else without (redundancy groups list) list)
        ≡ []
  redundancy-without groups list = elim (Bool-cases (ltb (length list) 2)) [
    | inl l ↦ ground (arith, l)
    | inr l ↦ cut (redundant_in groups list) refl l
  ]
    where
      cut :
          (r : List String)
          → redundant_in groups list ≡ r
          → ltb (length list) 2 ≡ false
          → redundancy groups (
              if is_empty (redundancy groups list)
              then list
              else without (redundancy groups list) list)
            ≡ []
      cut [] e l = ground (arith, l, e)
      cut (x ∷ r) e l = ground (arith, l, e, redundant_in-without groups list)

  pruned_as-clean :
      (f : Fleet A) (tag : String) (d : Device A)
      → redundant_groups f tag ≡ redundancy f.groups d.groups
      → redundancy f.groups (pruned_as f tag d).groups ≡ []
  pruned_as-clean f tag d e =
      rw (shape (redundant_groups f tag)) (rw e (redundancy-without f.groups d.groups))
    where
      shape :
          (r : List String)
          → (if is_empty r then d else with_groups (without r d.groups) d).groups
            ≡ (if is_empty r then d.groups else without r d.groups)
      shape [] = refl
      shape (x ∷ r) = refl

  redundant_groups-prune :
      (f : Fleet A) (tag : String) → redundant_groups (prune_redundant_groups f) tag ≡ []
  unfolding prune_redundant_groups
  redundant_groups-prune f tag = elim (Option-cases (lookup tag f.devices)) [
    | inl n ↦
        redundant_groups-of (prune_redundant_groups f) tag none
          (lookup-prune_each f f.devices tag ∙ rw n refl)
    | inr (d, n) ↦
        redundant_groups-of (prune_redundant_groups f) tag (some (pruned_as f tag d))
          (lookup-prune_each f f.devices tag ∙ rw n refl)
        ∙ pruned_as-clean f tag d (redundant_groups-of f tag (some d) n)
  ]

  -- The members of a list without its redundant entries.
  contains-without :
      (groups : Map (Group A)) (list : List String) (g : String)
      → contains (without (redundant_in groups list) list) g
        ≡ (contains list g && not (is_reachable groups list g))
  unfolding without redundant_in
  contains-without groups list g =
      contains-keep (λ h. not (contains (redundant_in groups list) h)) list g
      ∙ rw (contains-keep (is_reachable groups list) list g)
          (absorbed (contains list g) (is_reachable groups list g))
    where
      absorbed : (a b : Bool) → (a && not (a && b)) ≡ (a && not b)
      absorbed true b = refl
      absorbed false b = refl

  -- What a device keeps of its groups.
  abbrev left : Map (Group A) → List String → List String
  left groups list =
      if is_empty (redundancy groups list) then list else without (redundancy groups list) list

  short-left :
      (groups : Map (Group A)) (list : List String) (g : String)
      → ltb (length list) 2 ≡ true
      → contains list g ≡ (contains list g && not (is_reachable groups list g))
  short-left groups [] g l = refl
  short-left groups (x ∷ []) g l = elim (Bool-cases (x == g)) [
    | inl e ↦
        rw (e, (eq_iff x g).0 e)
          (rw ((eq_iff g g).1 refl) (alone (contains (group_ancestry groups g) g)))
    | inr e ↦ rw e refl
  ]
  short-left groups (x ∷ y ∷ list) g l = absurd (ground (arith, l))

  not-reachable :
      (groups : Map (Group A)) (list : List String) (g : String)
      → redundant_in groups list ≡ []
      → contains list g ≡ (contains list g && not (is_reachable groups list g))
  unfolding redundant_in
  not-reachable groups list g e =
      apart (contains list g) (is_reachable groups list g)
        (ap (λ r. contains r g) (sym e) ∙ contains-keep (is_reachable groups list) list g)
    where
      apart : (a b : Bool) → false ≡ (a && b) → a ≡ (a && not b)
      apart true b h = rw (sym h) refl
      apart false b h = refl

  contains-left :
      (groups : Map (Group A)) (list : List String) (g : String)
      → contains (left groups list) g ≡ (contains list g && not (is_reachable groups list g))
  contains-left groups list g = elim (Bool-cases (ltb (length list) 2)) [
    | inl l ↦ rw l (short-left groups list g l)
    | inr l ↦ rw l (cut (redundant_in groups list) refl)
  ]
    where
      cut :
          (r : List String)
          → redundant_in groups list ≡ r
          → contains
              (if is_empty (redundant_in groups list)
                then list
                else without (redundant_in groups list) list)
              g
            ≡ (contains list g && not (is_reachable groups list g))
      cut [] e = rw e (not-reachable groups list g e)
      cut (x ∷ r) e = rw e (rw e at (contains-without groups list g))

  pruned_as-left :
      (f : Fleet A) (tag : String) (d : Device A)
      → redundant_groups f tag ≡ redundancy f.groups d.groups
      → pruned_as f tag d ≡ with_groups (left f.groups d.groups) d
  pruned_as-left f tag d e = rw e (shape (redundancy f.groups d.groups))
    where
      shape :
          (r : List String)
          → (if is_empty r then d else with_groups (without r d.groups) d)
            ≡ with_groups (if is_empty r then d.groups else without r d.groups) d
      shape [] = refl
      shape (x ∷ r) = refl

  -- The pruning leaves every device in place and changes nothing but its groups. The device keeps
  -- exactly those of its groups that are not above another one of its groups, and no group of it is
  -- redundant any more.
  pub prune_redundant_groups-exact :
      (f : Fleet A) (tag : String) (d : Device A)
      → lookup tag f.devices ≡ some d
      → (list : List String) × (lookup tag (prune_redundant_groups f).devices
          ≡ some (with_groups list d))
        × ((g : String)
            → contains list g ≡ (contains d.groups g && not (is_reachable f.groups d.groups g)))
        × (redundant_groups (prune_redundant_groups f) tag ≡ [])
  unfolding prune_redundant_groups
  prune_redundant_groups-exact f tag d n =
      let e = redundant_groups-of f tag (some d) n in
      (
        left f.groups d.groups,
        kept (pruned_as-left f tag d e),
        contains-left f.groups d.groups,
        redundant_groups-prune f tag,
      )
    where
      kept :
          pruned_as f tag d ≡ with_groups (left f.groups d.groups) d
          → lookup tag (prune_redundant_groups f).devices
            ≡ some (with_groups (left f.groups d.groups) d)
      kept e = lookup-prune_each f f.devices tag ∙ rw n (ap some e)
