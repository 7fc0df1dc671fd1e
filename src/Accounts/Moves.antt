-- ===== src/Accounts/Moves.antt =====
-- The table of users as the requests may change it.
pub mod Steps
pub mod Invariant
use void_link_tunnels.Base.{
  ℕ, Bool, true, false, Option, none, some, List, ◌∷◌, Bytes, ◌⊎◌, inl, inr, Bool-cases,
  Option-cases, ◌≡◌, refl, ◌∙◌, ◌==◌, bytes_eq, arith,
}
use void_link_tunnels.Base.Rows.{update_rows}
use void_link_tunnels.Models.User.{
  User, RegisterRequest, LoginRequest, RefreshRequest, ForgotRequest, ResetRequest,
  TotpVerifyRequest, TotpDisableRequest,
}
use void_link_tunnels.Accounts.{Db, Env, Primitives, Answer, Outcome, run}
use void_link_tunnels.Accounts.Tokens.{JwtManager}
use void_link_tunnels.Accounts.Auth.{
  user_by_email, user_by_id, valid_code, register, login, refresh, logout, me,
}
use void_link_tunnels.Accounts.Reset.{forgot_password, reset_password, set_password}
use void_link_tunnels.Accounts.TwoFactor.{
  setup, verify, disable, set_secret, enable_totp, disable_totp,
}

-- A request, with what the environment decides for it.
pub data Request : Type 0 where
  registers : Env → Bytes ⊎ RegisterRequest → Request
  logs_in : Env → Bytes ⊎ LoginRequest → Request
  refreshes : Env → Bytes ⊎ RefreshRequest → Request
  logs_out : Env → Bytes ⊎ RefreshRequest → Request
  asks : Env → Bytes → Request
  forgets : Bool → Env → Bytes ⊎ ForgotRequest → Request
  resets : Env → Bytes ⊎ ResetRequest → Request
  sets_up : Bytes → Env → Bytes → Bytes → Request
  verifies : Env → Bytes → Bytes ⊎ TotpVerifyRequest → Request
  disables : Env → Bytes → Bytes ⊎ TotpDisableRequest → Request

-- The row of one user, found by the id, is changed.
abbrev pub changed : Bytes → (User → User) → List User → List User
changed id f users = update_rows (λ u. u.id == id) f users

module _ (lib : Primitives) (m : JwtManager) where
  -- The tables after a request.
  unfoldable pub handle : Request → Db → Db
  handle (registers env body) db = (register env body db).1
  handle (logs_in env body) db = (login lib m env body db).1
  handle (refreshes env body) db = (refresh lib m env body db).1
  handle (logs_out env body) db = (logout lib m env body db).1
  handle (asks env id) db = (me env id db).1
  handle (forgets configured env body) db = (forgot_password lib m configured env body db).1
  handle (resets env body) db = (reset_password lib m env body db).1
  handle (sets_up issuer env id email) db = (setup lib issuer env id email db).1
  handle (verifies env id body) db = (verify lib env id body db).1
  handle (disables env id body) db = (disable lib env id body db).1

-- What may happen to the users: nothing; one with a new email and id joins, the second factor off;
-- a password changes; the second factor is prepared while it is off; it is turned on, by a code for
-- the secret that is stored; it is turned off, by the password and a code.
pub data Move (lib : Primitives) (db : Db) (after : List User) : Type 0 where
  stays : after ≡ db.users → Move lib db after
  joins :
      (u : User)
      → user_by_email u.email db ≡ none
      → user_by_id u.id db ≡ none
      → u.totp_enabled ≡ false
      → after ≡ u ∷ db.users
      → Move lib db after
  renews :
      (id : Bytes) (now : ℕ) (password_hash : Bytes)
      → after ≡ changed id (set_password now password_hash) db.users
      → Move lib db after
  prepares :
      (u : User) (id : Bytes) (now : ℕ) (secret : Bytes)
      → user_by_id id db ≡ some u
      → u.totp_enabled ≡ false
      → after ≡ changed id (set_secret now secret) db.users
      → Move lib db after
  turns_on :
      (u : User) (id : Bytes) (now : ℕ) (secret code : Bytes)
      → user_by_id id db ≡ some u
      → u.totp_enabled ≡ false
      → u.totp_secret ≡ some secret
      → lib.validate_otp now code secret ≡ true
      → after ≡ changed id (enable_totp now) db.users
      → Move lib db after
  turns_off :
      (u : User) (id : Bytes) (now : ℕ) (password code : Bytes)
      → user_by_id id db ≡ some u
      → u.totp_enabled ≡ true
      → lib.compare_hash u.password_hash password ≡ true
      → valid_code lib now u.totp_secret code ≡ true
      → after ≡ changed id (disable_totp now) db.users
      → Move lib db after
