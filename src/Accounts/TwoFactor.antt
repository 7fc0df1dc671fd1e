-- ===== src/Accounts/TwoFactor.antt =====
-- `TwoFactorHandler` of internal/handlers/twofactor.go, with the service of
-- internal/services/totp.go, for the user that the middleware has found.
use void_link_tunnels.Base.{
  ℕ, Bool, true, false, not, Option, none, some, Bytes, codes, ◌++◌, bytes_eq, ◌⊎◌,
}
use void_link_tunnels.Models.User.{User, TotpVerifyRequest, TotpDisableRequest}
use void_link_tunnels.Accounts.{
  Env, Primitives, OtpKey, failure, success, setup_started, Chain, ◌>>=◌, ◌>>◌, require, expect,
  bind_json, query, exec, done,
}
use void_link_tunnels.Accounts.Auth.{user_by_id, valid_code}
use void_link_tunnels.Accounts.Reset.{update_user}

-- `UPDATE users SET totp_secret = $1, updated_at = NOW()`, and those of the other two handlers.
abbrev pub set_secret : ℕ → Bytes → User → User
set_secret now secret u = record u { totp_secret = some secret; updated_at = now }

abbrev pub enable_totp : ℕ → User → User
enable_totp now u = record u { totp_enabled = true; updated_at = now }

abbrev pub disable_totp : ℕ → User → User
disable_totp now u = record u { totp_enabled = false; totp_secret = none; updated_at = now }

-- The secret that a query of `totp_secret` and `totp_enabled` yields, with the second field.
abbrev pub stored_secret : Option User → Option (Bytes × Bool)
stored_secret none = none
stored_secret (some u) = elim u.totp_secret [
  | none ↦ none
  | some secret ↦ some (secret, u.totp_enabled)
]

module _ (lib : Primitives) where
  -- `GenerateSecret`
  unfoldable pub generate_secret : Option Bytes → Option Bytes
  generate_secret none = none
  generate_secret (some bytes) = some (lib.base32 bytes)

  -- `GenerateKey`
  unfoldable pub generate_key : Bytes → Bytes → Bytes → Option OtpKey
  generate_key issuer email secret = elim (lib.base32_decode secret) [
    | none ↦ none
    | some bytes ↦ lib.generate_otp issuer email bytes
  ]

  unfoldable pub setup : Bytes → Env → Bytes → Bytes → Chain
  setup issuer env user_id email = do
    user ← query (env.up 0) (user_by_id user_id) (failure 404 (codes "User not found"))
    require (not user.totp_enabled) (failure 400 (codes "2FA is already enabled"))
    secret ←
        expect (generate_secret env.random) (failure 500 (codes "Failed to generate 2FA secret"))
    key ←
        expect (generate_key issuer email secret) (failure 500 (codes "Failed to generate 2FA key"))
    image ← expect key.image (failure 500 (codes "Failed to generate QR code"))
    png ← expect key.png (failure 500 (codes "Failed to encode QR code"))
    exec (env.up 1) (update_user user_id (set_secret env.now secret))
        (failure 500 (codes "Failed to save 2FA secret"))
    done (
        setup_started (record {
          secret = secret;
          qr_code = codes "data:image/png;base64," ++ lib.base64 png;
          url = key.url;
        }))

  unfoldable pub verify : Env → Bytes → Bytes ⊎ TotpVerifyRequest → Chain
  verify env user_id body = do
    req ← bind_json body (λ e. failure 400 (codes "Invalid request"))
    (secret, enabled) ←
        query (env.up 0) (λ db. stored_secret (user_by_id user_id db))
          (failure 400 (codes "2FA setup not started"))
    require (not enabled) (failure 400 (codes "2FA is already enabled"))
    require (lib.validate_otp env.now req.code secret)
        (failure 400 (codes "Invalid verification code"))
    exec (env.up 1) (update_user user_id (enable_totp env.now))
        (failure 500 (codes "Failed to enable 2FA"))
    done (success 200 (codes "2FA enabled successfully"))

  unfoldable pub disable : Env → Bytes → Bytes ⊎ TotpDisableRequest → Chain
  disable env user_id body = do
    req ← bind_json body (λ e. failure 400 (codes "Invalid request"))
    user ← query (env.up 0) (user_by_id user_id) (failure 404 (codes "User not found"))
    require user.totp_enabled (failure 400 (codes "2FA is not enabled"))
    require (lib.compare_hash user.password_hash req.password)
        (failure 401 (codes "Invalid password"))
    require (valid_code lib env.now user.totp_secret req.code)
        (failure 400 (codes "Invalid 2FA code"))
    exec (env.up 1) (update_user user_id (disable_totp env.now))
        (failure 500 (codes "Failed to disable 2FA"))
    done (success 200 (codes "2FA disabled successfully"))
