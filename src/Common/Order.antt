-- ===== src/Common/Order.antt =====
-- Lists of texts in order, as `sort.Strings` leaves them, and parts of lists.
use Prim.Native.Nat.{ℕ, zero, suc, Ordering}
use Prim.Native.String.{String, compare}
use mathlib.Core.Path.{◌≡◌, refl}
use mathlib.Core.Bool.{Bool, true, false, ◌||◌}
use mathlib.Core.List.{List, [], ◌∷◌}
use native.Mathlib.Omega.{arith}
use sextant.Common.Tests.{if◌then◌else◌, ◌==◌, String_Testable}
use sextant.Common.Lists.{contains, keep}
use mathlib.Core.Logic.{inl, inr}
use mathlib.Core.Bool.{◌&&◌}
use text.Mathlib.TextEquality.{eq_iff}
use sextant.Common.Tests.{Bool-cases}

abbrev pub text_leb : String → String → Bool
text_leb a b = elim (compare a b) [ Ordering.gt ↦ false | _ ↦ true ]

abbrev pub place_text : String → List String → List String
place_text a [] = a ∷ []
place_text a (b ∷ bs) = if text_leb a b then a ∷ b ∷ bs else b ∷ place_text a bs

-- `sort.Strings`
abbrev pub sort : List String → List String
sort [] = []
sort (a ∷ rest) = place_text a (sort rest)

pub contains-place_text :
    (a b : String) (bs : List String) → contains (place_text a bs) b ≡ (a == b || contains bs b)
contains-place_text a b [] = refl
contains-place_text a b (c ∷ cs) = ground (arith, contains-place_text a b cs)

-- Sorting keeps the items.
pub contains-sort : (names : List String) (b : String) → contains (sort names) b ≡ contains names b
contains-sort [] b = refl
contains-sort (a ∷ rest) b = rw (contains-place_text a b (sort rest)) (rw (contains-sort rest b))

-- A filter keeps exactly the items that pass.
pub contains-keep :
    (p : String → Bool) (xs : List String) (t : String)
    → contains (keep p xs) t ≡ (contains xs t && p t)
contains-keep p [] t = refl
contains-keep p (x ∷ xs) t = elim (Bool-cases (x == t)) [
  | inl e ↦ ground (arith, (eq_iff x t).0 e, contains-keep p xs t)
  | inr e ↦ ground (arith, contains-keep p xs t)
]

module _ {ℓ} {A : Type ℓ} where
  -- `xs[:n]` and `xs[n:]`, for an `n` within the list
  abbrev pub take : ℕ → List A → List A
  take zero xs = []
  take (suc n) [] = []
  take (suc n) (x ∷ xs) = x ∷ take n xs

  abbrev pub drop : ℕ → List A → List A
  drop zero xs = xs
  drop (suc n) [] = []
  drop (suc n) (x ∷ xs) = drop n xs
