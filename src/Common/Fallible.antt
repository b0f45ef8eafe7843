-- ===== src/Common/Fallible.antt =====
-- A call that returns a value or an `error`.
use mathlib.Core.Bool.{Bool, true, false}
use mathlib.Core.Path.{◌≡◌, refl}

pub data Result (E A : Type 0) : Type 0 where
  ok : A → Result E A
  err : E → Result E A

infixl 5 ◌>>=◌ ◌>>◌
abbrev pub ◌>>=◌ : {E A B : Type 0} → Result E A → (A → Result E B) → Result E B
ok a >>= f = f a
err e >>= f = err e

abbrev pub ◌>>◌ : {E B : Type 0} → Result E (Unit {0}) → Result E B → Result E B
m >> k = m >>= λ _. k

-- `if bad { return e }`
abbrev pub refuse : {E : Type 0} → Bool → E → Result E (Unit {0})
refuse true e = err e
refuse false e = ok tt

-- What a refusal that did not happen leaves.
pub refuse-passed :
    {E B : Type 0} (bad : Bool) (e : E) (k : Result E B) (b : B)
    → (refuse bad e >> k) ≡ ok b
    → (bad ≡ false) × (k ≡ ok b)
refuse-passed true e k b h = absurd (cc)
refuse-passed false e k b h = (refl, h)

pub then-passed :
    {E B : Type 0} (m : Result E (Unit {0})) (k : Result E B) (b : B)
    → (m >> k) ≡ ok b
    → (m ≡ ok tt) × (k ≡ ok b)
then-passed (ok tt) k b h = (refl, h)
then-passed (err e) k b h = absurd (cc)

pub bind-passed :
    {E A B : Type 0} (m : Result E A) (k : A → Result E B) (b : B)
    → (m >>= k) ≡ ok b
    → (a : A) × (m ≡ ok a) × (k a ≡ ok b)
bind-passed (ok a) k b h = (a, refl, h)
bind-passed (err e) k b h = absurd (cc)

pub refuse-ok : {E : Type 0} (bad : Bool) (e : E) (u : Unit {0}) → refuse bad e ≡ ok u → bad ≡ false
refuse-ok true e u h = absurd (cc)
refuse-ok false e u h = refl
