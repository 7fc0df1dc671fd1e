-- ===== src/Accounts/Auth/Login.antt =====
-- How a login ends, and that of a user who has just registered.
use void_link_tunnels.Base.{
  Bool, true, false, none, some, Bytes, ◌⊎◌, inr, ◌≡◌, refl, ◌∙◌, ap, bytes_eq, bytes_beq_iff,
}
use void_link_tunnels.Base.Rows.{select_row}
use void_link_tunnels.Text.{to_lower, trim_space}
use void_link_tunnels.Models.User.{User, RegisterRequest, LoginRequest}
use void_link_tunnels.Accounts.{
  Db, Env, Primitives, Answer, session, registered, Outcome, final, run, ◌>>=◌, ◌>>◌, bind_json,
  query, require, expect, exec,
}
use void_link_tunnels.Accounts.Tokens.{
  JwtManager, NewToken, generate_access_token, generate_refresh_token,
}
use void_link_tunnels.Accounts.Auth.{
  normalize_email, user_by_email, user_by_id, insert_user, new_user, register, create_user,
  valid_code, insert_refresh, auth_response, login, second_factor, issue,
}
use void_link_tunnels.Accounts.Rules.{after-bind_json, after-query, after-require, after-exec}
use void_link_tunnels.Accounts.Auth.Parts.{after-second_factor, after-issue}

abbrev pub is_session : Answer → Bool
is_session (session r) = true
is_session _ = false

module _ (lib : Primitives) (m : JwtManager) where
  -- A login that is refused leaves the tables as they were. One that is not is of a user with the
  -- email, the password, and, where it is on, a code for the second factor; it stores the hash of
  -- the token that it answers, and nothing else.
  pub data LoginEnd (env : Env) (body : Bytes ⊎ LoginRequest) (db : Db) (end : Answer × Db)
      : Type 0 where
    refused : is_session end.0 ≡ false → end.1 ≡ db → LoginEnd env body db end
    entered :
        (req : LoginRequest) (u : User) (access : Bytes) (new : NewToken)
        → body ≡ inr req
        → user_by_email (normalize_email req.email) db ≡ some u
        → lib.compare_hash u.password_hash req.password ≡ true
        → (u.totp_enabled ≡ false) ⊎ (valid_code lib env.now u.totp_secret req.totp_code ≡ true)
        → generate_access_token lib m u.id u.email env.now ≡ some access
        → generate_refresh_token lib m env.random env.now ≡ some new
        → end.0 ≡ session (auth_response lib m u access new)
        → end.1 ≡ insert_refresh env u.id new db
        → LoginEnd env body db end

  -- Every login ends in one of two ways. Either it answers no session and leaves the tables as they
  -- were; or the body names a user by the normalized email, with the user's password and, where the
  -- second factor is on, a valid code, and then it answers that user's session and adds one row, the
  -- hash of the refresh token that it answers.
  pub login-LoginEnd :
      (env : Env) (body : Bytes ⊎ LoginRequest) (db : Db)
      → LoginEnd env body db (run (login lib m env body) db)
  unfolding login
  login-LoginEnd env body db =
      let Q : Outcome Answer × Db → Type 0 = λ end. LoginEnd env body db (final end.0, end.1) in
      after-bind_json Q _ _ _ db (λ e. refused refl refl)
        λ req given. after-query Q _ _ _ _ db (refused refl refl) λ u found.
          after-require Q _ _ _ db (refused refl refl) λ password.
            after-second_factor Q lib _ u _ _ db (refused refl refl) (refused refl refl) λ second.
              after-issue Q lib m env u _ db (refused refl refl) (refused refl refl)
                λ access new signed drawn.
                  after-exec Q _ _ _ _ db (refused refl refl)
                    (entered req u access new given found password second signed drawn refl refl)

-- A registration with an email and an id that no user has adds a row.
pub register_lem :
    (env : Env) (req : RegisterRequest) (hash : Bytes) (db : Db)
    → env.hashed req.password ≡ some hash
    → env.up 0 ≡ true
    → user_by_email (normalize_email req.email) db ≡ none
    → user_by_id env.new_id db ≡ none
    → run (register env (inr req)) db
      ≡ (registered env.new_id, insert_user (new_user env (normalize_email req.email) hash) db)
unfolding register create_user bind_json expect ◌>>=◌
register_lem env req hash db hashed up free fresh = rw (hashed, up, free, fresh)

-- A login with the email and the password of a registration. The validation of both requests
-- accepts no email with spaces around it.
pub record IsRepeated (req : RegisterRequest) (again : LoginRequest) : Type 0 where
  pub plain : trim_space req.email ≡ req.email
  pub plain_again : trim_space again.email ≡ again.email
  pub email : to_lower again.email ≡ to_lower req.email
  pub password : again.password ≡ req.password

normalize_email-to_lower :
    (email : Bytes) → trim_space email ≡ email → normalize_email email ≡ to_lower email
unfolding normalize_email
normalize_email-to_lower email plain = ap to_lower plain

-- What bcrypt makes of a password matches that password.
abbrev pub IsBcrypt : Primitives → Env → Type 0
IsBcrypt lib env =
    (password hash : Bytes)
    → env.hashed password ≡ some hash
    → lib.compare_hash hash password ≡ true

-- The user who was inserted is found.
user_by_email-insert_user : (u : User) (db : Db) → user_by_email u.email (insert_user u db) ≡ some u
unfolding select_row
user_by_email-insert_user u db = rw ((bytes_beq_iff u.email u.email).1 refl)

module _ (lib : Primitives) (m : JwtManager) where
  -- Where all is given that a login asks for, it succeeds.
  pub login_lem :
      (env : Env) (req : LoginRequest) (u : User) (access : Bytes) (new : NewToken) (db : Db)
      → env.up 0 ≡ true
      → env.up 1 ≡ true
      → user_by_email (normalize_email req.email) db ≡ some u
      → lib.compare_hash u.password_hash req.password ≡ true
      → u.totp_enabled ≡ false
      → generate_access_token lib m u.id u.email env.now ≡ some access
      → generate_refresh_token lib m env.random env.now ≡ some new
      → run (login lib m env (inr req)) db
        ≡ (session (auth_response lib m u access new), insert_refresh env u.id new db)
  unfolding login bind_json query require second_factor issue expect exec ◌>>=◌ ◌>>◌
  login_lem env req u access new db up up' found password off signed drawn =
      rw (up, found, password, off, signed, drawn, up')

  -- A user who has registered, with an email and an id that no user has, can log in with the same
  -- password, and with the same email in any case of its letters, where the statements of both
  -- requests are carried out, the random source yields and the access token is signed.
  pub login-register :
      (env env' : Env) (req : RegisterRequest) (again : LoginRequest) (hash access : Bytes)
      (new : NewToken) (db : Db)
      → IsRepeated req again
      → IsBcrypt lib env
      → env.hashed req.password ≡ some hash
      → env.up 0 ≡ true
      → user_by_email (to_lower req.email) db ≡ none
      → user_by_id env.new_id db ≡ none
      → env'.up 0 ≡ true
      → env'.up 1 ≡ true
      → generate_access_token lib m env.new_id (to_lower req.email) env'.now ≡ some access
      → generate_refresh_token lib m env'.random env'.now ≡ some new
      → (run (login lib m env' (inr again)) (run (register env (inr req)) db).1).0
        ≡ session (auth_response lib m (new_user env (to_lower req.email) hash) access new)
  login-register env env' req again hash access new db r law hashed up free fresh up' up'' signed
        drawn =
      let u = new_user env (to_lower req.email) hash in
      let same = normalize_email-to_lower req.email r.plain in
      let same_again = normalize_email-to_lower again.email r.plain_again ∙ r.email in
      let found : user_by_email (normalize_email again.email) (insert_user u db) ≡ some u =
        ap (λ e. user_by_email e (insert_user u db)) same_again ∙ user_by_email-insert_user u db in
      let password : lib.compare_hash hash again.password ≡ true =
        ap (lib.compare_hash hash) r.password ∙ law req.password hash hashed in
      let added : (run (register env (inr req)) db).1 ≡ insert_user u db =
        ap (λ end. end.1)
          (register_lem env req hash db hashed up (ap (λ e. user_by_email e db) same ∙ free) fresh)
        ∙ ap (λ e. insert_user (new_user env e hash) db) same in
      ap (λ after. (run (login lib m env' (inr again)) after).0) added
      ∙ ap (λ end. end.0)
          (login_lem env' again u access new (insert_user u db) up' up'' found password refl signed
            drawn)
