-- ===== src/Examples/Tokens.antt =====
-- The credential of internal/domain/token/token.go at a concrete input.
use sextant.Common.{refl, ok, pos, is_slug, itoa, ◌≡◌, false, none, [], ◌∷◌}
use sextant.Identity.{parse_role}
use sextant.Token.{
  Crypto, Token, device, check_ceiling, secret_of, hash_secret, mint, expired, id_from_secret,
}
use sextant.Token.Minted.{mint-id}

abbrev toy : Crypto
toy = record {
  random = λ call n. ok (n ∷ []);
  id_key = λ secret salt. salt;
  raw_url = λ bytes. "a_b-";
  raw_std = λ bytes. "cd";
}

abbrev minted : Token
minted = record {
  id = "pc-1";
  name = "pc-1 check-in";
  kind = device;
  subject = "pc-1";
  groups = [];
  ceiling = "viewer";
  hash = "argon2id$65536,1,4$cd$cd";
  created = 50;
  expires = 60;
  last_used = none;
}

mint-id_example :
    (id_from_secret "sxt_pc-1_a_b-" ≡ "pc-1")
    × (expired minted 50 ≡ false)
    × (hash_secret toy "sxt_pc-1_a_b-" ≡ ok "argon2id$65536,1,4$cd$cd")
mint-id_example =
    mint-id toy "pc-1" "pc-1 check-in" device "pc-1" [] "viewer" 50 (pos 10) minted "sxt_pc-1_a_b-"
      (unfold mint check_ceiling parse_role secret_of hash_secret is_slug itoa in refl)
