-- ===== src/Models/User.antt =====
-- The account data of internal/models/user.go. An id is its printed form, and a time is a number of
-- microseconds.
use void_link_tunnels.Base.{ℕ, Bool, Option, Bytes}

pub record User : Type 0 where
  pub id : Bytes
  pub email : Bytes
  pub password_hash : Bytes
  pub totp_secret : Option Bytes
  pub totp_enabled : Bool
  pub created_at : ℕ
  pub updated_at : ℕ

pub record UserResponse : Type 0 where
  pub id : Bytes
  pub email : Bytes
  pub totp_enabled : Bool
  pub created_at : ℕ

-- `(*User).ToResponse`
abbrev pub user_to_response : User → UserResponse
user_to_response u = record {
  id = u.id;
  email = u.email;
  totp_enabled = u.totp_enabled;
  created_at = u.created_at;
}

pub record RegisterRequest : Type 0 where
  pub email : Bytes
  pub password : Bytes

pub record LoginRequest : Type 0 where
  pub email : Bytes
  pub password : Bytes
  pub totp_code : Bytes

pub record AuthResponse : Type 0 where
  pub access_token : Bytes
  pub refresh_token : Bytes
  pub expires_in : ℕ
  pub user : UserResponse

pub record RefreshRequest : Type 0 where
  pub refresh_token : Bytes

pub record TotpSetupResponse : Type 0 where
  pub secret : Bytes
  pub qr_code : Bytes
  pub url : Bytes

pub record TotpVerifyRequest : Type 0 where
  pub code : Bytes

pub record TotpDisableRequest : Type 0 where
  pub code : Bytes
  pub password : Bytes

-- The bodies of `ForgotPassword` and `ResetPassword`, declared in internal/handlers/auth.go.
pub record ForgotRequest : Type 0 where
  pub email : Bytes

pub record ResetRequest : Type 0 where
  pub token : Bytes
  pub new_password : Bytes
