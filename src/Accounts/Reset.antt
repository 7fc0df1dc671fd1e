-- ===== src/Accounts/Reset.antt =====
-- The handlers `ForgotPassword` and `ResetPassword` of internal/handlers/auth.go. Whether the mail
-- service is configured is an argument; a mail that is sent is the address and the token.
pub mod Codes
pub mod Mails
use void_link_tunnels.Base.{
  ℕ, ◌+◌, ◌*◌, Bool, true, false, not, Option, none, some, List, [], ◌∷◌, Bytes, codes,
  if◌then◌else◌, ltb, ◌==◌, bytes_eq, ◌⊎◌,
}
use void_link_tunnels.Base.Rows.{select_row, update_rows, delete_rows}
use void_link_tunnels.Models.User.{User, ForgotRequest, ResetRequest}
use void_link_tunnels.Accounts.{
  ResetToken, Db, Env, Primitives, Answer, failure, success, Outcome, value, answered, Action,
  Chain, ◌>>=◌, ◌>>◌, require, expect, bind_json, query, exec, try_exec, answer, done, pure,
}
use void_link_tunnels.Accounts.Tokens.{
  JwtManager, NewToken, second, generate_refresh_token, hash_token,
}
use void_link_tunnels.Accounts.Auth.{normalize_email, user_by_email, delete_refresh}

-- A mail with a reset code.
pub record Mail : Type 0 where
  pub to : Bytes
  pub token : Bytes

abbrev pub sent_message : Answer
sent_message = success 200 (codes "If the email exists, a reset code has been sent")

abbrev pub delete_resets : (ResetToken → Bool) → Db → Db
delete_resets p db = record db { reset_tokens = delete_rows p db.reset_tokens }

-- The code expires in an hour.
abbrev pub insert_reset : Env → Bytes → Bytes → Db → Db
insert_reset env user_id hash db =
    let row : ResetToken = record {
      id = env.new_id;
      user_id = user_id;
      token_hash = hash;
      expires_at = env.now + 3600 * second;
      used = false;
    } in
    record db { reset_tokens = row ∷ db.reset_tokens }

-- `SELECT … FROM password_reset_tokens WHERE token_hash = $1`
abbrev pub reset_by_hash : Bytes → Db → Option ResetToken
reset_by_hash hash db = select_row (λ t. t.token_hash == hash) db.reset_tokens

abbrev pub update_user : Bytes → (User → User) → Db → Db
update_user id f db = record db { users = update_rows (λ u. u.id == id) f db.users }

-- `UPDATE password_reset_tokens SET used = TRUE WHERE id = $1`
abbrev pub mark_used : Bytes → Db → Db
mark_used id db = record db {
  reset_tokens = update_rows (λ t. t.id == id) (λ t. record t { used = true }) db.reset_tokens;
}

abbrev pub set_password : ℕ → Bytes → User → User
set_password now password_hash u = record u { password_hash = password_hash; updated_at = now }

module _ (lib : Primitives) (m : JwtManager) where
  -- The answer comes with the mail that is sent, if any.
  unfoldable pub forgot_password : Bool → Env → Bytes ⊎ ForgotRequest → Action (Answer × List Mail)
  forgot_password configured env body = do
    req ← bind_json body (λ e. failure 400 (codes "Invalid email"))
    user ← query (env.up 0) (user_by_email (normalize_email req.email)) sent_message
    new ←
        expect (generate_refresh_token lib m env.random env.now)
          (failure 500 (codes "Failed to generate reset token"))
    try_exec (env.up 1) (delete_resets (λ t. t.user_id == user.id))
    exec (env.up 2) (insert_reset env user.id new.token_hash)
        (failure 500 (codes "Failed to save reset token"))
    pure (
      sent_message,
      if configured then record { to = normalize_email req.email; token = new.token } ∷ [] else [],
    )

  -- An expired code is deleted, and refused.
  unfoldable pub refuse_old : Env → ResetToken → Action (Unit {0})
  refuse_old env t db =
      if ltb t.expires_at env.now
      then (try_exec (env.up 1) (delete_resets (λ r. r.id == t.id))
            >> answer (failure 400 (codes "Reset token expired")))
          db
      else pure tt db

  unfoldable pub reset_password : Env → Bytes ⊎ ResetRequest → Chain
  reset_password env body = do
    req ← bind_json body (λ e. failure 400 (codes "Invalid request"))
    t ←
        query (env.up 0) (reset_by_hash (hash_token lib m req.token))
          (failure 400 (codes "Invalid or expired reset token"))
    require (not t.used) (failure 400 (codes "Reset token already used"))
    refuse_old env t
    password_hash ←
        expect (env.hashed req.new_password) (failure 500 (codes "Failed to process password"))
    exec (env.up 1) (update_user t.user_id (set_password env.now password_hash))
        (failure 500 (codes "Failed to update password"))
    try_exec (env.up 2) (mark_used t.id)
    try_exec (env.up 3) (delete_refresh (λ r. r.user_id == t.user_id))
    done (success 200 (codes "Password reset successfully"))
