-- ===== src/Fleet/Edit/Plan.antt =====
-- What a rollout plan that was accepted satisfies.
use sextant.Common.{
  ◌==◌, is_empty, All, contains, Distinct, ltb_ℤ, pos, before, Result, ◌>>◌, refuse, refuse-passed,
  then-passed, bind-passed, refuse-ok, ok, Map, has, ℕ, suc, String, eq_iff, ◌≡◌, refl, sym, ap,
  ◌∙◌, Bool, true, false, not, ◌||◌, some, List, [], ◌∷◌, ◌++◌, arith, ℕ_Testable, String_Testable,
}
use sextant.Fleet.Model.{Fleet, Group, RolloutRing, RolloutPolicy, group_list}
use sextant.Fleet.Edit.{
  with_rollout, Error, check_ring_groups, check_bounds, check_rings, set_rollout_plan, no_rings,
  no_group_named, unknown_ring_group, taken, negative_soak, bad_percent,
}

-- The groups of the rings, in their order.
abbrev pub ring_groups : List RolloutRing → List String
ring_groups [] = []
ring_groups (r ∷ rs) = group_list r ++ ring_groups rs

swap : (x y z : Bool) → (y || (x || z)) ≡ ((x || y) || z)
swap x y z = ground arith

true_of : (x : Bool) → not x ≡ false → x ≡ true
true_of x h = ground arith

contains-later : (x y : Bool) → (x || y) ≡ false → y ≡ false
contains-later x y h = ground arith

contains-first : (x y : Bool) → (x || y) ≡ false → x ≡ false
contains-first x y h = ground arith

unseen_before :
    (g : String) (seen gs : List String)
    → All (λ x. contains (g ∷ seen) x ≡ false) gs
    → All (λ x. contains seen x ≡ false) gs
unseen_before g seen [] h = tt
unseen_before g seen (x ∷ gs) h =
    (contains-later (g == x) (contains seen x) h.0, unseen_before g seen gs h.1)

unlisted :
    (g : String) (seen gs : List String)
    → All (λ x. contains (g ∷ seen) x ≡ false) gs
    → contains gs g ≡ false
unlisted g seen [] h = refl
unlisted g seen (x ∷ gs) h = ground (arith, eq_iff g x, eq_iff x g, unlisted g seen gs h.1)

check_bounds-ok :
    (i : ℕ) (r : RolloutRing)
    → check_bounds i r ≡ ok tt
    → (ltb_ℤ r.soak_minutes (pos 0) ≡ false)
      × ((ltb_ℤ r.min_healthy_percent (pos 0) || ltb_ℤ (pos 100) r.min_healthy_percent) ≡ false)
unfolding check_bounds
check_bounds-ok i r h =
    let (a, k) = refuse-passed (ltb_ℤ r.soak_minutes (pos 0)) (negative_soak i) _ tt h in
    (
      a,
      refuse-ok (ltb_ℤ r.min_healthy_percent (pos 0) || ltb_ℤ (pos 100) r.min_healthy_percent)
          (bad_percent i) tt k,
    )

made-ok : {A : Type 0} (a b : Fleet A) (h : Path (Result Error (Fleet A)) (ok a) (ok b)) → a ≡ b
made-ok a b h = cc

All-append : (P : String → Type 0) (xs ys : List String) → All P xs → All P ys → All P (xs ++ ys)
All-append P [] ys a b = b
All-append P (x ∷ xs) ys a b = (a.0, All-append P xs ys a.1 b)

contains-append :
    (xs ys : List String) (g : String) → contains (xs ++ ys) g ≡ (contains xs g || contains ys g)
contains-append [] ys g = refl
contains-append (x ∷ xs) ys g = ground (arith, contains-append xs ys g)

Distinct-append :
    (xs ys : List String)
    → Distinct xs
    → Distinct ys
    → All (λ g. contains xs g ≡ false) ys
    → Distinct (xs ++ ys)
Distinct-append [] ys a b c = b
Distinct-append (x ∷ xs) ys a b c = (
  rw (contains-append xs ys x) (rw a.0 (unlisted x xs ys c)),
  Distinct-append xs ys a.1 b (unseen_before x xs ys c),
)

apart :
    (gs seen seen' rest : List String)
    → ((g : String) → contains seen' g ≡ (contains gs g || contains seen g))
    → All (λ g. contains seen' g ≡ false) rest
    → All (λ g. contains gs g ≡ false) rest × All (λ g. contains seen g ≡ false) rest
apart gs seen seen' [] m h = (tt, tt)
apart gs seen seen' (g ∷ rest) m h =
    let none_of = sym (m g) ∙ h.0 in
    let (a, b) = apart gs seen seen' rest m h.1 in
    (
      (contains-first (contains gs g) (contains seen g) none_of, a),
      (contains-later (contains gs g) (contains seen g) none_of, b),
    )

module _ {A : Type 0} where
  -- A ring of a plan that was accepted.
  abbrev pub IsSound : Map (Group A) → RolloutRing → Type 0
  IsSound groups r =
      (is_empty (group_list r) ≡ false)
      × All (λ g. has g groups ≡ true) (group_list r)
      × (ltb_ℤ r.soak_minutes (pos 0) ≡ false)
      × ((ltb_ℤ r.min_healthy_percent (pos 0) || ltb_ℤ (pos 100) r.min_healthy_percent) ≡ false)

  -- What the loop over a ring's groups leaves.
  record IsTaken (groups : Map (Group A)) (gs seen seen' : List String) : Type 0 where
    known : All (λ g. has g groups ≡ true) gs
    fresh : All (λ g. contains seen g ≡ false) gs
    distinct : Distinct gs
    marked : (g : String) → contains seen' g ≡ (contains gs g || contains seen g)

  check_ring_groups-IsTaken :
      (groups : Map (Group A)) (i : ℕ) (gs seen seen' : List String)
      → check_ring_groups groups i gs seen ≡ ok seen'
      → IsTaken groups gs seen seen'
  unfolding check_ring_groups
  check_ring_groups-IsTaken groups i [] seen seen' h = record {
    known = tt;
    fresh = tt;
    distinct = tt;
    marked = λ g. let same : seen ≡ seen' = cc in ap (λ s. contains s g) (sym same);
  }
  check_ring_groups-IsTaken groups i (g ∷ gs) seen seen' h =
      let (p, k) =
        refuse-passed (not (has g groups)) (unknown_ring_group i g)
          (refuse (contains seen g) (taken i g) >> check_ring_groups groups i gs (g ∷ seen)) seen'
          h in
      let (q, r) =
        refuse-passed (contains seen g) (taken i g) (check_ring_groups groups i gs (g ∷ seen)) seen'
          k in
      let ih = check_ring_groups-IsTaken groups i gs (g ∷ seen) seen' r in
      record {
        known = (true_of _ p, ih.known);
        fresh = (q, unseen_before g seen gs ih.fresh);
        distinct = (unlisted g seen gs ih.fresh, ih.distinct);
        marked = λ x. ih.marked x ∙ swap (g == x) (contains gs x) (contains seen x);
      }

  record IsAccepted (groups : Map (Group A)) (rs : List RolloutRing) (seen : List String)
      : Type 0 where
    sound : All (IsSound groups) rs
    fresh : All (λ g. contains seen g ≡ false) (ring_groups rs)
    distinct : Distinct (ring_groups rs)

  check_rings-IsAccepted :
      (groups : Map (Group A)) (i : ℕ) (rs : List RolloutRing) (seen seen' : List String)
      → check_rings groups i rs seen ≡ ok seen'
      → IsAccepted groups rs seen
  unfolding check_rings
  check_rings-IsAccepted groups i [] seen seen' h = record { sound = tt; fresh = tt; distinct = tt }
  check_rings-IsAccepted groups i (r ∷ rs) seen seen' h =
      let (p, k) = refuse-passed (is_empty (group_list r)) (no_group_named i) _ seen' h in
      let (seen1, t, k2) = bind-passed (check_ring_groups groups i (group_list r) seen) _ seen' k in
      let (bd, k3) =
        then-passed (check_bounds i r) (check_rings groups (suc i) rs seen1) seen' k2 in
      let taken_here = check_ring_groups-IsTaken groups i (group_list r) seen seen1 t in
      let ih = check_rings-IsAccepted groups (suc i) rs seen1 seen' k3 in
      let (gone, before) =
        apart (group_list r) seen seen1 (ring_groups rs) taken_here.marked ih.fresh in
      record {
        sound = (let (a, b) = check_bounds-ok i r bd in (p, taken_here.known, a, b), ih.sound);
        fresh =
            All-append (λ g. contains seen g ≡ false) (group_list r) (ring_groups rs)
              taken_here.fresh before;
        distinct =
            Distinct-append (group_list r) (ring_groups rs) taken_here.distinct ih.distinct gone;
      }

  -- A plan that was accepted is put in force and has a ring; each of its rings names groups, all of
  -- which exist, soaks for no less than no time, and asks for a share between 0 and 100; and no
  -- group stands in the plan twice.
  pub set_rollout_plan-IsSound :
      (p : RolloutPolicy) (f f' : Fleet A)
      → set_rollout_plan (some p) f ≡ ok f'
      → (f'.rollout ≡ some p)
        × (is_empty p.rings ≡ false)
        × All (IsSound f.groups) p.rings
        × Distinct (ring_groups p.rings)
  unfolding set_rollout_plan
  set_rollout_plan-IsSound p f f' h =
      let (e, k) = refuse-passed (is_empty p.rings) no_rings _ f' h in
      let (seen, a, k2) = bind-passed (check_rings f.groups 0 p.rings []) _ f' k in
      let r = check_rings-IsAccepted f.groups 0 p.rings [] seen a in
      let made : with_rollout (some p) f ≡ f' = made-ok (with_rollout (some p) f) f' k2 in
      (ap (λ x. x.rollout) (sym made), e, r.sound, r.distinct)
