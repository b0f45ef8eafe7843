-- ===== src/Fleet/Resolve/Governance.antt =====
-- The settings that the organisation enforces, as they arrive at a device.
use sextant.Common.{
  ◌==◌, Bool-cases, Option-cases, is_empty, contains, Map, lookup, has, keys, lookup-insert, String,
  eq_iff, ◌≡◌, refl, sym, ap, ◌∙◌, inl, inr, Bool, true, false, none, some, List, [], ◌∷◌, ◌++◌,
  arith, ℕ_Testable, String_Testable,
}
use sextant.Fleet.Model.{Fleet, Scope, device_at}
use sextant.Fleet.Chain.{
  Contributor, chain_for, org_part, inline_at, group_part, policy_part, scope_positions,
}
use sextant.Fleet.Resolve.Precedence.{resolution-set}
use sextant.Fleet.Resolve.{
  Resolution, better, pick, sets, enforces, settle, resolve_key, chain_keys, record_key,
  resolve_keys, resolve,
}

module _ {A : Type 0} where
  -- The organisation's settings as a contributor.
  abbrev pub org_contributor : Scope A → Contributor A
  org_contributor s = record {
    specificity = 0;
    inline = true;
    order = 0;
    source = record { scope = "org"; policy = "" };
    settings = s.settings;
    enforced = s.enforced;
  }

  -- Nobody is more general.
  org_unbeaten : (c : Contributor A) (s : Scope A) → better true c (org_contributor s) ≡ false
  unfolding better
  org_unbeaten c s = ground arith

  pick-org :
      (e : Contributor A → Bool) (s : Scope A) (chain : List (Contributor A))
      → pick e true (some (org_contributor s)) chain ≡ some (org_contributor s)
  unfolding pick
  pick-org e s [] = refl
  pick-org e s (c ∷ chain) = elim (Bool-cases (e c)) [
    | inl p ↦ rw (p, org_unbeaten c s) (pick-org e s chain)
    | inr p ↦ rw p (pick-org e s chain)
  ]

  has_of : (key : String) (m : Map A) (v : A) → lookup key m ≡ some v → has key m ≡ true
  has_of key m v h = rw (h, has) refl

  filled : (key : String) (m : Map A) (v : A) → lookup key m ≡ some v → is_empty m ≡ false
  filled key [] v h = absurd (cc)
  filled key (e ∷ m) v h = refl

  resolve_key-org :
      (s : Scope A) (chain : List (Contributor A)) (key : String) (v : A)
      → contains s.enforced key ≡ true
      → lookup key s.settings ≡ some v
      → resolve_key (org_contributor s ∷ chain) key
        ≡ some
            (record { value = v; source = record { scope = "org"; policy = "" }; enforced = true })
  unfolding resolve_key pick
  resolve_key-org s chain key v e h =
      let won : pick (enforces key) true none (org_contributor s ∷ chain)
          ≡ some (org_contributor s) =
        rw (has_of key s.settings v h, e) (pick-org (enforces key) s chain) in
      ap (λ q. settle key q (pick (sets key) false none (org_contributor s ∷ chain))) won
      ∙ resolution-set key (org_contributor s) v true h

  chain_for-org :
      (f : Fleet A) (tag key : String) (s : Scope A) (v : A)
      → f.org ≡ some s
      → lookup key s.settings ≡ some v
      → (rest : List (Contributor A)) × (chain_for f tag ≡ org_contributor s ∷ rest)
  unfolding chain_for org_part inline_at
  chain_for-org f tag key s v o h =
      let places = scope_positions f tag in
      (
        group_part f.groups places.groups
            ++ (inline_at places.next "device" (device_at f tag).scope
                ++ policy_part f tag places 0 f.assignments),
        rw (o, filled key s.settings v h) refl,
      )

  keys-contain :
      (key : String) (m : Map A) (v : A) (more : List String)
      → lookup key m ≡ some v
      → contains (keys m ++ more) key ≡ true
  keys-contain key [] v more h = absurd (cc)
  keys-contain key ((j, w) ∷ m) v more h = elim (Bool-cases (j == key)) [
    | inl e ↦ rw e refl
    | inr e ↦ rw e (keys-contain key m v more (rw e at h))
  ]

  recorded-kept :
      (chain : List (Contributor A)) (j key : String) (r : Resolution A) (out : Map (Resolution A))
      → resolve_key chain key ≡ some r
      → lookup key out ≡ some r
      → lookup key (record_key j (resolve_key chain j) out) ≡ some r
  recorded-kept chain j key r out h k = elim (Option-cases (resolve_key chain j)) [
    | inl n ↦ rw n k
    | inr (q, p) ↦ rw p (
        rw (lookup-insert j key q out) (elim (Bool-cases (j == key)) [
          | inl e ↦ rw e (sym (rw ((eq_iff j key).0 e) at p) ∙ h)
          | inr e ↦ rw e k
        ]))
  ]

  recorded-found :
      (chain : List (Contributor A)) (key : String) (r : Resolution A) (out : Map (Resolution A))
      → resolve_key chain key ≡ some r
      → lookup key (record_key key (resolve_key chain key) out) ≡ some r
  recorded-found chain key r out h =
      rw h (rw (lookup-insert key key r out) (rw ((eq_iff key key).1 refl) refl))

  -- A key that was resolved stays resolved.
  resolve_keys-kept :
      (chain : List (Contributor A)) (key : String) (r : Resolution A) (ks : List String)
      (out : Map (Resolution A))
      → resolve_key chain key ≡ some r
      → lookup key out ≡ some r
      → lookup key (resolve_keys chain ks out) ≡ some r
  unfolding resolve_keys
  resolve_keys-kept chain key r [] out h k = k
  resolve_keys-kept chain key r (j ∷ ks) out h k =
      resolve_keys-kept chain key r ks (record_key j (resolve_key chain j) out) h
        (recorded-kept chain j key r out h k)

  resolve_keys-found :
      (chain : List (Contributor A)) (key : String) (r : Resolution A) (ks : List String)
      (out : Map (Resolution A))
      → resolve_key chain key ≡ some r
      → contains ks key ≡ true
      → lookup key (resolve_keys chain ks out) ≡ some r
  unfolding resolve_keys
  resolve_keys-found chain key r [] out h k = absurd (cc)
  resolve_keys-found chain key r (j ∷ ks) out h k = elim (Bool-cases (j == key)) [
    | inl e ↦
        resolve_keys-kept chain key r ks (record_key j (resolve_key chain j) out) h
          (rw ((eq_iff j key).0 e) (recorded-found chain key r out h))
    | inr e ↦
        resolve_keys-found chain key r ks (record_key j (resolve_key chain j) out) h (rw e at k)
  ]

  -- A key that the organisation sets and enforces resolves for every device to the organisation's
  -- value, with the lock, whatever the device's groups, its own settings and its policies say.
  pub resolve-org :
      (f : Fleet A) (tag key : String) (s : Scope A) (v : A)
      → f.org ≡ some s
      → contains s.enforced key ≡ true
      → lookup key s.settings ≡ some v
      → lookup key (resolve f tag)
        ≡ some
            (record { value = v; source = record { scope = "org"; policy = "" }; enforced = true })
  unfolding resolve chain_keys
  resolve-org f tag key s v o e h =
      let (rest, c) = chain_for-org f tag key s v o h in
      resolve_keys-found (chain_for f tag) key _ (chain_keys (chain_for f tag)) []
        (rw c (resolve_key-org s rest key v e h))
        (rw (c, chain_keys) (keys-contain key s.settings v (chain_keys rest) h))
