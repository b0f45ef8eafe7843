-- ===== src/Token.antt =====
-- internal/domain/token/token.go: API credentials. A secret holds the id of its record, so that a
-- lookup reads one record. The random source, argon2 and the two base64 encodings of bytes are the
-- parameters of `Crypto`.
pub mod Minted
use sextant.Common.{
  if◌then◌else◌, leb_ℤ, pos, ◌==◌, ◌<>◌, cut_prefix, cut_at, is_slug, itoa, Time, Duration, add,
  before, Result, refuse, ok, err, ℕ, ◌*◌, String, Bool, true, false, not, ◌&&◌, ◌||◌, ◌>>=◌, ◌>>◌,
  Option, none, some, List, String_Testable,
}
use sextant.Identity
use sextant.Identity.{Role, User, no_role, parse_role}

-- `Kind`; `other` is any text that is none of the constants.
pub data Kind : Type 0 where
  personal service device station : Kind
  other : String → Kind

abbrev pub is_known : Kind → Bool
is_known (other _) = false
is_known _ = true

pub data Error : Type 0 where
  incomplete no_ttl : Error
  unknown_kind : Kind → Error
  bad_ceiling : Identity.Error → Error
  bad_id : String → Error
  no_random : Error

abbrev pub Bytes : Type 0
Bytes = List ℕ

-- `rand.Read`, by the number of the call in `Mint` and the number of bytes, `argon2.IDKey` of a secret and a salt with the constants below, and
-- `EncodeToString` of `base64.RawURLEncoding` and of `base64.RawStdEncoding`.
pub record Crypto : Type 0 where
  pub random : ℕ → ℕ → Result Error Bytes
  pub id_key : String → Bytes → Bytes
  pub raw_url : Bytes → String
  pub raw_std : Bytes → String

abbrev pub prefix : String
prefix = "sxt_"

-- The argon2 parameters and the lengths of the random bytes.
abbrev argon_time : ℕ
argon_time = 1

abbrev argon_memory : ℕ
argon_memory = 64 * 1024

abbrev argon_threads : ℕ
argon_threads = 4

abbrev salt_len : ℕ
salt_len = 16

abbrev secret_len : ℕ
secret_len = 24

-- `Token`
pub record Token : Type 0 where
  pub id : String
  pub name : String
  pub kind : Kind
  pub subject : String
  pub groups : List String
  pub ceiling : String
  pub hash : String
  pub created : Time
  pub expires : Time
  pub last_used : Option Time

-- `hashSecret`
unfoldable pub hash_secret : Crypto → String → Result Error String
hash_secret c secret = do
  salt ← c.random 1 salt_len
  ok (
      "argon2id$"
      <> itoa argon_memory
      <> ","
      <> itoa argon_time
      <> ","
      <> itoa argon_threads
      <> "$"
      <> c.raw_std salt
      <> "$"
      <> c.raw_std (c.id_key secret salt))

-- The test of `Mint` on the ceiling.
unfoldable pub check_ceiling : String → Result Error (Unit {0})
check_ceiling ceiling =
    if ceiling == ""
    then ok tt
    else elim (parse_role ceiling) [ ok _ ↦ ok tt | err e ↦ err (bad_ceiling e) ]

-- The secret that `Mint` writes for an id and its random bytes.
unfoldable pub secret_of : Crypto → String → Bytes → String
secret_of c id raw = prefix <> (id <> ("_" <> c.raw_url raw))

-- `Mint`: the record and the one plaintext secret.
unfoldable pub mint :
    Crypto
    → String
    → String
    → Kind
    → String
    → List String
    → String
    → Time
    → Duration
    → Result Error (Token × String)
unfolding check_ceiling hash_secret secret_of
mint c id name kind subject groups ceiling now ttl = do
  refuse (id == "" || name == "" || subject == "") incomplete
  refuse (not (is_known kind)) (unknown_kind kind)
  check_ceiling ceiling
  refuse (leb_ℤ ttl (pos 0)) no_ttl
  refuse (not (is_slug id)) (bad_id id)
  raw ← c.random 0 secret_len
  hash ← hash_secret c (secret_of c id raw)
  ok (
    record {
      id = id;
      name = name;
      kind = kind;
      subject = subject;
      groups = groups;
      ceiling = ceiling;
      hash = hash;
      created = now;
      expires = add now ttl;
      last_used = none;
    },
    secret_of c id raw,
  )

-- `Expired`
unfoldable pub expired : Token → Time → Bool
expired t now = not (before now t.expires)

-- `User`
unfoldable pub user : Token → User
user t = record {
  subject = t.subject;
  name = t.name;
  email = "";
  groups = t.groups;
  service = false;
}

-- `CeilingRole`: the role, and whether a ceiling is set.
unfoldable pub ceiling_role : Token → Role × Bool
unfolding parse_role
ceiling_role t =
    if t.ceiling == ""
    then (no_role, false)
    else elim (parse_role t.ceiling) [ ok r ↦ (r, true) | err _ ↦ (no_role, true) ]

-- `IDFromSecret`
unfoldable pub id_from_secret : String → String
id_from_secret secret = elim (cut_prefix prefix secret) [
  | none ↦ ""
  | some rest ↦ elim (cut_at b'_' rest) [
    | none ↦ ""
    | some id ↦ if id == "" then "" else if is_slug id then id else ""
  ]
]
