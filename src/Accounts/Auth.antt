-- ===== src/Accounts/Auth.antt =====
-- The handlers `Register`, `Login`, `Refresh`, `Me` and `Logout` of internal/handlers/auth.go.
pub mod Parts
pub mod Login
pub mod Rotation
use void_link_tunnels.Base.{
  ℕ, Bool, true, false, not, ◌&&◌, ◌||◌, Option, none, some, List, [], ◌∷◌, Bytes, codes, is_some,
  if◌then◌else◌, ltb, ◌==◌, bytes_eq, ◌⊎◌,
}
use void_link_tunnels.Base.Rows.{select_row, delete_rows}
use void_link_tunnels.Text.{to_lower, trim_space}
use void_link_tunnels.Models.User.{
  User, RegisterRequest, LoginRequest, RefreshRequest, AuthResponse, user_to_response,
}
use void_link_tunnels.Accounts.{
  RefreshToken, Db, Env, Primitives, Answer, failure, needs_code, success, registered, session,
  profile, Action, Chain, ◌>>=◌, ◌>>◌, require, expect, bind_json, query, exec, try_exec, answer,
  done, pure, run, invalid_request,
}
use void_link_tunnels.Accounts.Tokens.{
  JwtManager, NewToken, get_access_ttl_seconds, generate_access_token, generate_refresh_token,
  hash_token,
}

-- `strings.ToLower(strings.TrimSpace(req.Email))`
unfoldable pub normalize_email : Bytes → Bytes
normalize_email email = to_lower (trim_space email)

-- `SELECT … FROM users WHERE email = $1`, and `WHERE id = $1`
abbrev pub user_by_email : Bytes → Db → Option User
user_by_email email db = select_row (λ u. u.email == email) db.users

abbrev pub user_by_id : Bytes → Db → Option User
user_by_id id db = select_row (λ u. u.id == id) db.users

-- The row of `INSERT INTO users (email, password_hash)`, with the defaults of the other columns.
abbrev pub new_user : Env → Bytes → Bytes → User
new_user env email password_hash = record {
  id = env.new_id;
  email = email;
  password_hash = password_hash;
  totp_secret = none;
  totp_enabled = false;
  created_at = env.now;
  updated_at = env.now;
}

abbrev pub insert_user : User → Db → Db
insert_user u db = record db { users = u ∷ db.users }

-- The insertion of a user; the database refuses an email or an id that a row
-- has, with an error that says `duplicate key`.
unfoldable pub create_user : Env → Bytes → Bytes → Chain
create_user env email password_hash db =
    let u = new_user env email password_hash in
    if not (env.up 0)
    then done (failure 500 (codes "Failed to create user")) db
    else if is_some (user_by_email email db) || is_some (user_by_id u.id db)
    then done (failure 409 (codes "Email already registered")) db
    else done (registered u.id) (insert_user u db)

unfoldable pub register : Env → Bytes ⊎ RegisterRequest → Chain
register env body = do
  req ← bind_json body invalid_request
  password_hash ←
      expect (env.hashed req.password) (failure 500 (codes "Failed to process password"))
  create_user env (normalize_email req.email) password_hash

-- `INSERT INTO refresh_tokens (user_id, token_hash, expires_at)`
abbrev pub insert_refresh : Env → Bytes → NewToken → Db → Db
insert_refresh env user_id new db =
    let row : RefreshToken = record {
      id = env.new_id;
      user_id = user_id;
      token_hash = new.token_hash;
      expires_at = new.expires_at;
    } in
    record db { refresh_tokens = row ∷ db.refresh_tokens }

abbrev pub delete_refresh : (RefreshToken → Bool) → Db → Db
delete_refresh p db = record db { refresh_tokens = delete_rows p db.refresh_tokens }

-- `SELECT … FROM refresh_tokens WHERE token_hash = $1`
abbrev pub refresh_by_hash : Bytes → Db → Option RefreshToken
refresh_by_hash hash db = select_row (λ t. t.token_hash == hash) db.refresh_tokens

abbrev pub invalid_credentials : Answer
invalid_credentials = failure 401 (codes "Invalid email or password")

module _ (lib : Primitives) where
  abbrev pub valid_code : ℕ → Option Bytes → Bytes → Bool
  valid_code now none code = false
  valid_code now (some secret) code = lib.validate_otp now code secret

  -- `if user.TOTPEnabled { … }` of `Login`.
  unfoldable pub second_factor : ℕ → User → Bytes → Action (Unit {0})
  second_factor now user code = do
    require (not (user.totp_enabled && code == [])) needs_code
    require (not user.totp_enabled || valid_code now user.totp_secret code)
        (failure 401 (codes "Invalid 2FA code"))

module _ (lib : Primitives) (m : JwtManager) where
  -- The two tokens of a session; nothing is stored yet.
  unfoldable pub issue : Env → User → Action (Bytes × NewToken)
  issue env user = do
    access ←
        expect (generate_access_token lib m user.id user.email env.now)
          (failure 500 (codes "Failed to generate token"))
    new ←
        expect (generate_refresh_token lib m env.random env.now)
          (failure 500 (codes "Failed to generate refresh token"))
    pure (access, new)

  abbrev pub auth_response : User → Bytes → NewToken → AuthResponse
  auth_response user access new = record {
    access_token = access;
    refresh_token = new.token;
    expires_in = get_access_ttl_seconds m;
    user = user_to_response user;
  }

  unfoldable pub login : Env → Bytes ⊎ LoginRequest → Chain
  login env body = do
    req ← bind_json body invalid_request
    user ← query (env.up 0) (user_by_email (normalize_email req.email)) invalid_credentials
    require (lib.compare_hash user.password_hash req.password) invalid_credentials
    second_factor lib env.now user req.totp_code
    (access, new) ← issue env user
    exec (env.up 1) (insert_refresh env user.id new) (failure 500 (codes "Failed to save session"))
    done (session (auth_response user access new))

  -- An expired token is deleted, and refused.
  unfoldable pub refuse_expired : Env → RefreshToken → Action (Unit {0})
  refuse_expired env t db =
      if ltb t.expires_at env.now
      then (try_exec (env.up 1) (delete_refresh (λ r. r.id == t.id))
            >> answer (failure 401 (codes "Refresh token expired")))
          db
      else pure tt db

  unfoldable pub refresh : Env → Bytes ⊎ RefreshRequest → Chain
  refresh env body = do
    req ← bind_json body (λ e. failure 400 (codes "Invalid request"))
    t ←
        query (env.up 0) (refresh_by_hash (hash_token lib m req.refresh_token))
          (failure 401 (codes "Invalid refresh token"))
    refuse_expired env t
    user ← query (env.up 1) (user_by_id t.user_id) (failure 401 (codes "User not found"))
    (access, new) ← issue env user
    try_exec (env.up 2) (delete_refresh (λ r. r.id == t.id))
    try_exec (env.up 3) (insert_refresh env t.user_id new)
    done (session (auth_response user access new))

  unfoldable pub logout : Env → Bytes ⊎ RefreshRequest → Chain
  logout env body = do
    req ← bind_json body (λ e. failure 400 (codes "Invalid request"))
    try_exec (env.up 0) (delete_refresh (λ r. r.token_hash == hash_token lib m req.refresh_token))
    done (success 200 (codes "Logged out successfully"))

-- `Me`, for the user that the middleware has found.
unfoldable pub me : Env → Bytes → Chain
me env user_id = do
  user ← query (env.up 0) (user_by_id user_id) (failure 404 (codes "User not found"))
  done (profile (user_to_response user))
