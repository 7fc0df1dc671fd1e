-- ===== src/Tests/Accounts.antt =====
-- Accounts: Ann, and Bob, whose second factor is on. The passwords are stored as they are, a hash is
-- the text itself, and the one token that is signed is Ann's of the second 1000.
mod Flows
use void_link_tunnels.Base.{
  ℕ, ◌*◌, ◌≡◌, ◌≢◌, refl, Bool, true, false, ◌&&◌, none, some, Option, [], ◌∷◌, Bytes, codes, ◌==◌,
  bytes_eq, nat_eq, bytes_beq, bytes_beq_iff, if◌then◌else◌, ltb, arith, inl, inr,
}
use void_link_tunnels.Base.Distinct.{Distinct}
use void_link_tunnels.Models.User.{User}
use void_link_tunnels.Accounts.{Db, Env, Primitives, Claims, RefreshToken, ResetToken}
use void_link_tunnels.Accounts.Tokens.{JwtManager, second, claims_for}
use void_link_tunnels.Accounts.Moves.Invariant.{IsSound, HasSecret}

abbrev pub ann_mail : Bytes
ann_mail = codes "ann@x.io"

abbrev pub ann : User
ann = record {
  id = codes "u1";
  email = ann_mail;
  password_hash = codes "rosebud1";
  totp_secret = none;
  totp_enabled = false;
  created_at = 5;
  updated_at = 5;
}

abbrev pub bob : User
bob = record {
  id = codes "u2";
  email = codes "bob@x.io";
  password_hash = codes "xanadu22";
  totp_secret = some (codes "123456");
  totp_enabled = true;
  created_at = 6;
  updated_at = 6;
}

abbrev pub manager : JwtManager
manager = record {
  secret_key = codes "key";
  access_ttl = 3600 * second;
  refresh_ttl = 604800 * second;
}

abbrev pub ann_claims : Claims
ann_claims = record {
  user_id = codes "u1";
  email = ann_mail;
  expires_at = 4600;
  issued_at = 1000;
  issuer = codes "tunnel-api";
}

abbrev pub ann_token : Bytes
ann_token = codes "t.a.k"

abbrev pub is_ann : Claims → Bool
is_ann c =
    c.user_id == codes "u1"
    && c.email == ann_mail
    && c.expires_at == 4600
    && c.issued_at == 1000
    && c.issuer == codes "tunnel-api"

abbrev pub lib : Primitives
lib = record {
  compare_hash = λ hash password. hash == password;
  sha256 = λ text. text;
  sign = λ claims key. if is_ann claims then some ann_token else none;
  parse_with_claims = λ now token key.
      if token == ann_token && ltb now (4600 * second) then some (ann_claims, true) else none;
  generate_otp = λ issuer account secret.
      some
        (record { url = codes "otpauth://totp"; image = some (codes "i"); png = some (codes "p") });
  validate_otp = λ now code secret. code == secret;
  base32 = λ bytes. bytes;
  base32_decode = λ text. some text;
  base64 = λ bytes. bytes;
}

-- The second 1000; all statements are carried out.
abbrev pub env : Env
env = record {
  now = 1000 * second;
  up = λ n. true;
  new_id = codes "r9";
  random = some (0x1f ∷ 0xa0 ∷ []);
  hashed = λ password. some password;
}

-- Ten seconds later, with other random bytes.
abbrev pub later : Env
later = record env { now = 1010 * second; new_id = codes "r10"; random = some (7 ∷ 8 ∷ []) }

-- The refresh token 1fa0 of Ann, its hash in hexadecimal, and a reset code.
abbrev pub ann_refresh : RefreshToken
ann_refresh = record {
  id = codes "r1";
  user_id = codes "u1";
  token_hash = codes "6666";
  expires_at = 2000 * second;
}

abbrev pub ann_reset : ResetToken
ann_reset = record {
  id = codes "c1";
  user_id = codes "u1";
  token_hash = codes "6767";
  expires_at = 2000 * second;
  used = false;
}

abbrev pub db : Db
db = record {
  users = ann ∷ bob ∷ [];
  refresh_tokens = ann_refresh ∷ [];
  reset_tokens = ann_reset ∷ [];
}

abbrev pub no_one : Db
no_one = record { users = []; refresh_tokens = []; reset_tokens = [] }

pub differ : (a b : Bytes) → bytes_beq a b ≡ false → a ≢ b
differ a b miss same = absurd (ground (arith, bytes_beq_iff a b))

pub db-IsSound : IsSound db.users
unfolding bytes_beq
db-IsSound = record {
  ids = ((differ (codes "u2") (codes "u1") refl, tt), (tt, tt));
  emails = ((differ (codes "bob@x.io") ann_mail refl, tt), (tt, tt));
  secrets = (inl refl, (inr refl, tt));
}
