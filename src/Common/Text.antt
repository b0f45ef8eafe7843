-- ===== src/Common/Text.antt =====
-- Text: concatenation, the decimal numbers of `fmt`, prefixes, and `strings.Join`.
use text.Mathlib.TextLemmas.{nil-append, cons-append}
use text.Mathlib.TextEquality.{Char-path, eq_iff}
use mathlib.Core.Path.{◌≡◌, refl, sym, ap₂}
use native.Mathlib.Omega.{arith}
use mathlib.Core.Logic.{inl, inr}
use sextant.Common.Tests.{Bool-cases, nat_eq_iff, nat_eq_refl}
use mathlib.Core.Option.{Option, none, some}
use Prim.Native.Char.{code}
use mathlib.Core.Bool.{Bool, true, false, ◌&&◌, ◌||◌}
use sextant.Common.Tests.{leb, ◌==◌, ℕ_Testable, String_Testable}
use Prim.Native.Nat.{ℕ, zero, suc, ◌/◌, ◌%◌}
use Prim.Native.String
use Prim.Native.String.{String}
use mathlib.Core.List.{List, [], ◌∷◌}
use sextant.Common.Tests.{ltb, if◌then◌else◌}
use sextant.Common.Int.{ℤ, pos, negsuc}

pub differs : (a b : String) → (a == b) ≡ false → (b == a) ≡ false
differs a b h = ground (arith, eq_iff a b, eq_iff b a)

infixr 64 ◌<>◌
abbrev pub ◌<>◌ : String → String → String
s <> t = String.◌++◌ s t

digit : ℕ → String
digit n =
    if ltb n 1
    then "0"
    else if ltb n 2
    then "1"
    else if ltb n 3
    then "2"
    else if ltb n 4
    then "3"
    else if ltb n 5
    then "4"
    else if ltb n 6
    then "5"
    else if ltb n 7
    then "6"
    else if ltb n 8
    then "7"
    else if ltb n 9
    then "8"
    else "9"

decimal : ℕ → ℕ → String
unfolding digit
decimal zero n = ""
decimal (suc fuel) n =
    let front = decimal fuel (n / 10) <> digit (n % 10) in if ltb n 10 then digit n else front

-- `%d` of a number: one digit for each round of fuel, and n + 1 rounds are more than n has digits.
unfoldable pub itoa : ℕ → String
unfolding decimal
itoa n = decimal (suc n) n

-- `%d` of an integer.
unfoldable pub itoa_ℤ : ℤ → String
unfolding itoa
itoa_ℤ (pos n) = itoa n
itoa_ℤ (negsuc n) = "-" <> itoa (suc n)

-- `strings.Join`
unfoldable pub join : List String → String → String
join [] sep = ""
join (x ∷ []) sep = x
join (x ∷ y ∷ xs) sep = x <> sep <> join (y ∷ xs) sep

-- The characters that `unicode.IsSpace` takes for white space.
is_space : ℕ → Bool
is_space c =
    leb 9 c && leb c 13
    || c == 32
    || c == 0x85
    || c == 0xa0
    || c == 0x1680
    || leb 0x2000 c && leb c 0x200a
    || c == 0x2028
    || c == 0x2029
    || c == 0x202f
    || c == 0x205f
    || c == 0x3000

trim_left : String → String
unfolding is_space
trim_left String.[] = ""
trim_left (String.◌∷◌ c s) =
    let rest = trim_left s in if is_space (code c) then rest else String.◌∷◌ c s

trim_right : String → String
unfolding is_space
trim_right String.[] = ""
trim_right (String.◌∷◌ c s) =
    if is_space (code c) && trim_right s == "" then "" else String.◌∷◌ c (trim_right s)

-- `strings.TrimSpace`
unfoldable pub trim_space : String → String
unfolding trim_left trim_right
trim_space s = trim_right (trim_left s)

-- `strings.TrimSpace(s) == ""`
abbrev pub is_blank : String → Bool
is_blank s = trim_space s == ""

-- The characters `[a-z0-9]`.
is_alphanumeric : ℕ → Bool
is_alphanumeric c = leb b'a' c && leb c b'z' || leb b'0' c && leb c b'9'

-- The texts of `[a-z0-9-]*` of at most so many characters.
is_tail : ℕ → String → Bool
unfolding is_alphanumeric
is_tail room String.[] = true
is_tail zero (String.◌∷◌ c s) = false
is_tail (suc room) (String.◌∷◌ c s) = (is_alphanumeric (code c) || code c == b'-') && is_tail room s

-- The regular expression `^[a-z0-9][a-z0-9-]{0,62}$`.
unfoldable pub is_slug : String → Bool
unfolding is_tail
is_slug String.[] = false
is_slug (String.◌∷◌ c s) = is_alphanumeric (code c) && is_tail 62 s

-- What follows a prefix: `strings.HasPrefix` with `strings.TrimPrefix`, and `strings.CutPrefix`.
unfoldable pub cut_prefix : String → String → Option String
cut_prefix String.[] s = some s
cut_prefix (String.◌∷◌ c p) String.[] = none
cut_prefix (String.◌∷◌ c p) (String.◌∷◌ d s) = if code c == code d then cut_prefix p s else none

unfoldable pub has_prefix : String → String → Bool
unfolding cut_prefix
has_prefix s p = elim (cut_prefix p s) [ none ↦ false | some _ ↦ true ]

-- A prefix is cut off exactly where it stands.
pub cut_prefix-append : (p s : String) → cut_prefix p (p <> s) ≡ some s
unfolding cut_prefix
cut_prefix-append String.[] s = rw nil-append
cut_prefix-append (String.◌∷◌ c p) s =
    rw cons-append (rw (nat_eq_refl (code c)) (cut_prefix-append p s))

pub cut_prefix-some : (p s t : String) → cut_prefix p s ≡ some t → s ≡ p <> t
unfolding cut_prefix
cut_prefix-some String.[] s t h = rw nil-append (cc)
cut_prefix-some (String.◌∷◌ c p) String.[] t h = absurd (cc)
cut_prefix-some (String.◌∷◌ c p) (String.◌∷◌ d s) t h = elim (Bool-cases (code c == code d)) [
  | inl e ↦ rw cons-append (
      ap₂ String.◌∷◌ (sym (Char-path c d ((nat_eq_iff (code c) (code d)).0 e)))
        (cut_prefix-some p s t (rw e at h)))
  | inr e ↦ absurd (cc (rw e at h))
]

-- `s[:i]` for the first index `i` of a byte, `strings.IndexByte`; `none` where it does not occur.
unfoldable pub cut_at : ℕ → String → Option String
cut_at b String.[] = none
cut_at b (String.◌∷◌ c s) =
    let rest = cut_at b s in
    if code c == b then some "" else elim rest [ none ↦ none | some t ↦ some (String.◌∷◌ c t) ]

-- The characters of a slug are not an underscore.
slug_char : (c : ℕ) → (is_alphanumeric c || c == b'-') ≡ true → (c == b'_') ≡ false
unfolding is_alphanumeric
slug_char c h = ground (arith, h)

cut_at-underscore : (s : String) → cut_at b'_' ("_" <> s) ≡ some ""
unfolding cut_at
cut_at-underscore s = rw (cons-append "_" "" s) refl

cut_at-tail :
    (room : ℕ) (t s : String) → is_tail room t ≡ true → cut_at b'_' (t <> ("_" <> s)) ≡ some t
unfolding cut_at is_tail
cut_at-tail room String.[] s h = rw nil-append (cut_at-underscore s)
cut_at-tail zero (String.◌∷◌ c t) s h = absurd (cc)
cut_at-tail (suc room) (String.◌∷◌ c t) s h =
    elim (Bool-cases (is_alphanumeric (code c) || code c == b'-')) [
      | inl e ↦
          rw cons-append (rw (slug_char (code c) e) (rw (cut_at-tail room t s (rw e at h)) refl))
      | inr e ↦ absurd (cc (rw e at h))
    ]

-- A slug holds no underscore.
pub cut_at-slug : (t s : String) → is_slug t ≡ true → cut_at b'_' (t <> ("_" <> s)) ≡ some t
unfolding cut_at is_slug is_tail
cut_at-slug String.[] s h = absurd (cc)
cut_at-slug (String.◌∷◌ c t) s h = elim (Bool-cases (is_alphanumeric (code c))) [
  | inl e ↦
      rw cons-append
        (rw (slug_char (code c) (rw e refl)) (rw (cut_at-tail 62 t s (rw e at h)) refl))
  | inr e ↦ absurd (cc (rw e at h))
]
