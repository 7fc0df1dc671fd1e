-- ===== src/Accounts/Reset/Mails.antt =====
-- The request for a reset code: what it answers, and that the code in the mail serves.
use void_link_tunnels.Base.{
  ◌+◌, ◌*◌, Bool, true, false, some, [], List, Bytes, inl, inr, ◌≡◌, ◌==◌, bytes_eq, if◌then◌else◌,
  Option-cases, Bool-cases,
}
use void_link_tunnels.Models.User.{User, ForgotRequest}
use void_link_tunnels.Accounts.{
  ResetToken, Db, Env, Primitives, Answer, Outcome, value, answered, ◌>>=◌, ◌>>◌, bind_json, query,
  expect, exec, try_exec,
}
use void_link_tunnels.Accounts.Tokens.{JwtManager, NewToken, second, generate_refresh_token}
use void_link_tunnels.Accounts.Auth.{normalize_email, user_by_email}
use void_link_tunnels.Accounts.Reset.{Mail, sent_message, delete_resets, forgot_password}

abbrev pub forgot_answer : Outcome (Answer × List Mail) → Answer
forgot_answer (value (r, mails)) = r
forgot_answer (answered r) = r

abbrev pub mails : Outcome (Answer × List Mail) → List Mail
mails (value (r, sent)) = sent
mails (answered r) = []

abbrev forget_when : Bool → Bytes → Db → Db
forget_when up user_id db = if up then delete_resets (λ t. t.user_id == user_id) db else db

module _ (lib : Primitives) (m : JwtManager) where
  -- The answer does not tell whether the email is one of a user, where the random source and the
  -- insertion serve.
  pub forgot_password-uniform :
      (configured : Bool) (env : Env) (req : ForgotRequest) (bytes : Bytes) (db : Db)
      → env.random ≡ some bytes
      → env.up 2 ≡ true
      → forgot_answer (forgot_password lib m configured env (inr req) db).0 ≡ sent_message
  unfolding forgot_password bind_json query expect try_exec exec generate_refresh_token ◌>>=◌ ◌>>◌
  forgot_password-uniform configured env req bytes db random up = elim (Bool-cases (env.up 0)) [
    | inl asked ↦ elim (Option-cases (user_by_email (normalize_email req.email) db)) [
      | inl unknown ↦ rw (asked, unknown)
      | inr (u, found) ↦ rw (asked, found, random, up)
    ]
    | inr down ↦ rw down
  ]

  -- The row of the code that was mailed.
  abbrev mailed : Env → User → NewToken → ResetToken
  mailed env u new = record {
    id = env.new_id;
    user_id = u.id;
    token_hash = new.token_hash;
    expires_at = env.now + 3600 * second;
    used = false;
  }
