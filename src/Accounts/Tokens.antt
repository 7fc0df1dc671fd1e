-- ===== src/Accounts/Tokens.antt =====
-- `JWTManager` of internal/utils/jwt.go. Lifetimes are counted in microseconds, as times are.
use void_link_tunnels.Base.{
  ℕ, ◌+◌, ◌*◌, ◌/◌, Bool, true, false, Option, none, some, Bytes, codes, ◌>>=◌,
}
use void_link_tunnels.Text.Hex.{encode_to_string}
use void_link_tunnels.Accounts.{Claims, Primitives}

pub record JwtManager : Type 0 where
  pub secret_key : Bytes
  pub access_ttl : ℕ
  pub refresh_ttl : ℕ

abbrev pub second : ℕ
second = 1000000

-- `NewJWTManager`, for lifetimes that are not negative.
unfoldable pub new_jwt_manager : Bytes → ℕ → ℕ → JwtManager
new_jwt_manager secret access_minutes refresh_days = record {
  secret_key = secret;
  access_ttl = access_minutes * 60 * second;
  refresh_ttl = refresh_days * 24 * 3600 * second;
}

-- `int(m.accessTTL.Seconds())`
abbrev pub get_access_ttl_seconds : JwtManager → ℕ
get_access_ttl_seconds m = m.access_ttl / second

-- A new refresh token, its hash, and when it expires.
pub record NewToken : Type 0 where
  pub token : Bytes
  pub token_hash : Bytes
  pub expires_at : ℕ

abbrev pub valid_claims : Claims × Bool → Option Claims
valid_claims (claims, valid) = elim valid [ true ↦ some claims | false ↦ none ]

module _ (lib : Primitives) (m : JwtManager) where
  -- The claims that are signed; `NewNumericDate` cuts a time to whole seconds.
  abbrev pub claims_for : Bytes → Bytes → ℕ → Claims
  claims_for user_id email now = record {
    user_id = user_id;
    email = email;
    expires_at = (now + m.access_ttl) / second;
    issued_at = now / second;
    issuer = codes "tunnel-api";
  }

  unfoldable pub generate_access_token : Bytes → Bytes → ℕ → Option Bytes
  generate_access_token user_id email now = lib.sign (claims_for user_id email now) m.secret_key

  unfoldable pub hash_token : Bytes → Bytes
  hash_token token = encode_to_string (lib.sha256 token)

  -- Given the random bytes, if the source yields them.
  unfoldable pub generate_refresh_token : Option Bytes → ℕ → Option NewToken
  generate_refresh_token none now = none
  generate_refresh_token (some bytes) now = some (record {
    token = encode_to_string bytes;
    token_hash = hash_token (encode_to_string bytes);
    expires_at = now + m.refresh_ttl;
  })

  unfoldable pub validate_access_token : ℕ → Bytes → Option Claims
  validate_access_token now token = lib.parse_with_claims now token m.secret_key >>= valid_claims
