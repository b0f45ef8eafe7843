-- ===== src/Token/Minted.antt =====
-- internal/domain/token/token.go: what `Mint` returns.
use sextant.Common.{
  ◌<>◌, pos, negsuc, leb_ℤ, add, before, is_slug, refuse-passed, then-passed, bind-passed,
  cut_prefix-append, cut_at-slug, ◌==◌, Time, Duration, Result, ok, err, String, Bool, true, false,
  not, ◌≡◌, refl, sym, ap, List, ◌||◌, String_Testable,
}
use sextant.Token.{
  Kind, Error, Token, Crypto, Bytes, incomplete, unknown_kind, no_ttl, bad_id, is_known, prefix,
  hash_secret, check_ceiling, secret_of, mint, expired, id_from_secret,
}
use native.Mathlib.Omega.{arith}

-- A lookup of a secret finds the id it was written for.
secret-id :
    (c : Crypto) (id : String) (raw : Bytes)
    → (id == "") ≡ false
    → is_slug id ≡ true
    → id_from_secret (secret_of c id raw) ≡ id
unfolding id_from_secret secret_of
secret-id c id raw e h =
    rw (id_from_secret, secret_of, cut_prefix-append prefix (id <> ("_" <> c.raw_url raw)))
      (rw (cut_at-slug id (c.raw_url raw) h) (rw e (rw h refl)))

-- A positive lifetime ends later.
lives :
    (now : Time) (ttl : Duration)
    → leb_ℤ ttl (pos 0) ≡ false
    → not (before now (add now ttl)) ≡ false
lives now (pos n) h = ground (arith, h)
lives now (negsuc n) h = absurd (ground (arith, h))

-- What two equal results hold agrees in every part.
ok-part : {A X : Type 0} (f : A → X) (a b : A) → ◌≡◌ {A = Result Error A} (ok a) (ok b) → f a ≡ f b
ok-part f a b h = ap (λ r. elim r [ ok x ↦ f x | err _ ↦ f a ]) h

either-false : (a b : Bool) → (a || b) ≡ false → a ≡ false
either-false true b h = absurd (cc)
either-false false b h = refl

not-not : (a : Bool) → not a ≡ false → a ≡ true
not-not true h = refl
not-not false h = absurd (cc)

-- The secret that a successful `Mint` returns carries the id of the record, the record is not yet
-- expired at the time of minting, and its hash is one that `hashSecret` returns for the secret.
pub mint-id :
    (c : Crypto) (id name : String) (kind : Kind) (subject : String) (groups : List String)
    (ceiling : String) (now : Time) (ttl : Duration) (t : Token) (secret : String)
    → mint c id name kind subject groups ceiling now ttl ≡ ok (t, secret)
    → (id_from_secret secret ≡ t.id) × (expired t now ≡ false) × (hash_secret c secret ≡ ok t.hash)
unfolding mint expired
mint-id c id name kind subject groups ceiling now ttl t secret h =
    let (h1, k1) =
      refuse-passed (id == "" || name == "" || subject == "") incomplete _ (t, secret) h in
    let (h2, k2) = refuse-passed (not (is_known kind)) (unknown_kind kind) _ (t, secret) k1 in
    let (h3, k3) = then-passed (check_ceiling ceiling) _ (t, secret) k2 in
    let (h4, k4) = refuse-passed (leb_ℤ ttl (pos 0)) no_ttl _ (t, secret) k3 in
    let (h5, k5) = refuse-passed (not (is_slug id)) (bad_id id) _ (t, secret) k4 in
    let (raw, h6, k6) = bind-passed (c.random 0 24) _ (t, secret) k5 in
    let (hash, h7, k7) = bind-passed (hash_secret c (secret_of c id raw)) _ (t, secret) k6 in
    let same_secret = ok-part (λ p. p.1) _ (t, secret) k7 in
    (
      rw (sym same_secret, sym (ok-part (λ p. p.0.id) _ (t, secret) k7))
          (secret-id c id raw (either-false _ _ (either-false _ _ h1)) (not-not _ h5)),
      rw (sym (ok-part (λ p. p.0.expires) _ (t, secret) k7)) (lives now ttl h4),
      rw (sym same_secret, sym (ok-part (λ p. p.0.hash) _ (t, secret) k7)) h7,
    )
