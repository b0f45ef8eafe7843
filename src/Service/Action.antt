-- ===== src/Service/Action.antt =====
-- A method of a service: it reads and writes the state `S` and returns a value or an error. What was
-- written before an error stays written.
use sextant.Common.{
  if◌then◌else◌, String, ◌≡◌, refl, Bool, Option, none, some, arith, Result, ok, err,
}

-- `conflict` wraps ports.ErrConflict, `rejected` is a *ports.ValidationError, and `panicked` is a
-- panic of Go's runtime; `wrapped` is `fmt.Errorf` with `%w`, and `joined` is `errors.Join`.
pub data Failure : Type 0 where
  failed : String → Failure
  conflict : Failure
  rejected : String → Failure
  panicked : Failure
  wrapped : String → Failure → Failure
  joined : Failure → Failure → Failure

abbrev pub Action : Type 0 → Type 0 → Type 0
Action S A = S → Result Failure A × S

-- What follows a call that has returned.
abbrev pub after : {S A B : Type 0} → Result Failure A × S → (A → Action S B) → Result Failure B × S
after (ok a, s) f = f a s
after (err e, s) f = (err e, s)

infixl 5 ◌>>=◌ ◌>>◌
abbrev pub ◌>>=◌ : {S A B : Type 0} → Action S A → (A → Action S B) → Action S B
◌>>=◌ m f s = after (m s) f

abbrev pub ◌>>◌ : {S A B : Type 0} → Action S A → Action S B → Action S B
m >> k = m >>= λ _. k

-- A method that may return anything.
abbrev pub Anything : {A : Type 0} → A → Type 0
Anything a = Unit {0}

-- What was returned, or else `b`.
abbrev pub value_or : {B : Type 0} → B → Result Failure B → B
value_or b (ok a) = a
value_or b (err e) = b

module _ {S : Type 0} where
  abbrev pub pure : {A : Type 0} → A → Action S A
  pure a s = (ok a, s)

  abbrev pub raise : {A : Type 0} → Failure → Action S A
  raise e s = (err e, s)

  abbrev pub gets : {A : Type 0} → (S → A) → Action S A
  gets f s = (ok (f s), s)

  abbrev pub modify : (S → S) → Action S (Unit {0})
  modify f s = (ok tt, f s)

  abbrev pub raise_if : Bool → Failure → Action S (Unit {0})
  raise_if b e s = (if b then err e else ok tt, s)

  abbrev pub or_raise : {A : Type 0} → Option A → Failure → Action S A
  or_raise none e = raise e
  or_raise (some a) e = pure a

  -- A value that is there already.
  abbrev pub lifted : {A : Type 0} → Result Failure A → Action S A
  lifted r s = (r, s)

  -- Every run of a method relates the state before to the state after.
  abbrev pub Leads : (S → S → Type 0) → {A : Type 0} → Action S A → Type 0
  Leads R m = (s : S) → R s (m s).1

  after-ok :
      {A B : Type 0} (r : Result Failure A × S) (f : A → Action S B) (b : B) (t : S)
      → after r f ≡ (ok b, t)
      → (a : A) × (u : S) × (r ≡ (ok a, u)) × (f a u ≡ (ok b, t))
  after-ok (ok a, u) f b t h = (a, u, refl, h)
  after-ok (err e, u) f b t h = absurd (cc)

  -- What a chain of calls that succeeds leaves.
  pub bind-ok :
      {A B : Type 0} (m : Action S A) (f : A → Action S B) (s : S) (b : B) (t : S)
      → (m >>= f) s ≡ (ok b, t)
      → (a : A) × (u : S) × (m s ≡ (ok a, u)) × (f a u ≡ (ok b, t))
  bind-ok m f s b t h = after-ok (m s) f b t h

  pub or_raise-ok :
      {A : Type 0} (o : Option A) (e : Failure) (s : S) (a : A) (t : S)
      → or_raise o e s ≡ (ok a, t)
      → (o ≡ some a) × (t ≡ s)
  or_raise-ok none e s a t h = absurd (cc)
  or_raise-ok (some b) e s a t h = (ground arith, ground arith)

  pub lifted-ok :
      {A B : Type 0} (x : Result Failure A) (f : A → Action S B) (s : S) (b : B) (t : S)
      → (lifted x >>= f) s ≡ (ok b, t)
      → (a : A) × (x ≡ ok a) × (f a s ≡ (ok b, t))
  lifted-ok (ok a) f s b t h = (a, refl, h)
  lifted-ok (err e) f s b t h = absurd (cc)

  -- What a method returns satisfies a predicate.
  abbrev pub Gives : {A : Type 0} → (A → Type 0) → Action S A → Type 0
  Gives {A} P m = (s : S) (a : A) → (m s).0 ≡ ok a → P a

  module _ {A B : Type 0} (P : A → Type 0) (f : A → Action S B) where
    after-Gives :
        (Q : B → Type 0) (r : Result Failure A × S)
        → ((a : A) → r.0 ≡ ok a → P a)
        → ((a : A) → P a → Gives Q (f a))
        → (b : B) → (after r f).0 ≡ ok b
        → Q b
    after-Gives Q (ok a, t) g q b h = q a (g a refl) t b h
    after-Gives Q (err e, t) g q b h = absurd (cc)

    pub bind-Gives :
        (Q : B → Type 0) (m : Action S A)
        → Gives P m
        → ((a : A) → P a → Gives Q (f a))
        → Gives Q (m >>= f)
    bind-Gives Q m g q s b h = after-Gives Q (m s) (g s) q b h

  pub or_raise-Gives :
      {A : Type 0} (P : A → Type 0) (o : Option A) (e : Failure)
      → ((a : A) → o ≡ some a → P a)
      → Gives P (or_raise o e)
  or_raise-Gives P none e g s a h = absurd (cc)
  or_raise-Gives P (some b) e g s a h = g a (ground arith)

  pub anything : {A : Type 0} (m : Action S A) → Gives Anything m
  anything m s a h = tt

  module _ (R : S → S → Type 0) (trans : (a b c : S) → R a b → R b c → R a c) where
    after-Leads :
        {A B : Type 0} (s : S) (r : Result Failure A × S) (f : A → Action S B)
        → R s r.1
        → ((a : A) → Leads R (f a))
        → R s (after r f).1
    after-Leads s (ok a, t) f h q = trans s t _ h (q a t)
    after-Leads s (err e, t) f h q = h

    after-Leads_given :
        {A B : Type 0} (P : A → Type 0) (s : S) (r : Result Failure A × S) (f : A → Action S B)
        → R s r.1
        → ((a : A) → r.0 ≡ ok a → P a)
        → ((a : A) → P a → Leads R (f a))
        → R s (after r f).1
    after-Leads_given P s (ok a, t) f h g q = trans s t _ h (q a (g a refl) t)
    after-Leads_given P s (err e, t) f h g q = h

    -- The same, where what follows relies on what was returned.
    pub bind-Leads_given :
        {A B : Type 0} (P : A → Type 0) (m : Action S A) (f : A → Action S B)
        → Leads R m
        → Gives P m
        → ((a : A) → P a → Leads R (f a))
        → Leads R (m >>= f)
    bind-Leads_given P m f p g q s = after-Leads_given P s (m s) f (p s) (g s) q

    pub bind-Leads :
        {A B : Type 0} (m : Action S A) (f : A → Action S B)
        → Leads R m
        → ((a : A) → Leads R (f a))
        → Leads R (m >>= f)
    bind-Leads m f p q s = after-Leads s (m s) f (p s) q
