-- ===== src/Accounts/Moves/Steps.antt =====
-- Each handler of the accounts makes one of the moves.
use void_link_tunnels.Base.{
  Bool, Bytes, ◌⊎◌, inl, inr, Bool-cases, Option-cases, refl, ◌∙◌, bytes_eq,
}
use void_link_tunnels.Models.User.{
  RegisterRequest, LoginRequest, RefreshRequest, ForgotRequest, ResetRequest, TotpVerifyRequest,
  TotpDisableRequest,
}
use void_link_tunnels.Accounts.{Db, Env, Primitives, Outcome}
use void_link_tunnels.Accounts.Tokens.{JwtManager}
use void_link_tunnels.Accounts.Auth.{
  user_by_email, user_by_id, register, login, refresh, logout, me, create_user, new_user,
}
use void_link_tunnels.Accounts.Reset.{forgot_password, reset_password, set_password}
use void_link_tunnels.Accounts.TwoFactor.{setup, verify, disable}
use void_link_tunnels.Accounts.Rules.{
  after-bind_json, after-expect, after-query, after-require, after-exec, after-try_exec,
  not-eq-true, secret_stored,
}
use void_link_tunnels.Accounts.Auth.Parts.{after-second_factor, after-issue, after-refuse_expired}
use void_link_tunnels.Accounts.Reset.Codes.{after-refuse_old}
use void_link_tunnels.Accounts.Moves.{
  Request, registers, logs_in, refreshes, logs_out, asks, forgets, resets, sets_up, verifies,
  disables, changed, handle, Move, stays, joins, renews, prepares, turns_on, turns_off,
}

module _ (lib : Primitives) (db : Db) where
  abbrev After : {B : Type 0} → Outcome B × Db → Type 0
  After end = Move lib db end.1.users

  create_user-Move :
      (env : Env) (email hash : Bytes) → Move lib db (create_user env email hash db).1.users
  unfolding create_user
  create_user-Move env email hash =
      let u = new_user env email hash in
      elim (Bool-cases (env.up 0)) [
        | inl up ↦ rw up (elim (Option-cases (user_by_email email db)) [
          | inl free ↦ rw free (elim (Option-cases (user_by_id u.id db)) [
            | inl fresh ↦ rw fresh (joins u free fresh refl refl)
            | inr (v, taken) ↦ rw taken (stays refl)
          ])
          | inr (v, taken) ↦ rw taken (stays refl)
        ])
        | inr down ↦ rw down (stays refl)
      ]

  setup-Move :
      (issuer : Bytes) (env : Env) (id email : Bytes)
      → Move lib db (setup lib issuer env id email db).1.users
  unfolding setup
  setup-Move issuer env id email =
      let same : Move lib db db.users = stays refl in
      after-query After _ _ _ _ db same λ u found. after-require After _ _ _ db same λ off.
        after-expect After _ _ _ db same λ secret _. after-expect After _ _ _ db same λ key _.
          after-expect After _ _ _ db same λ image _. after-expect After _ _ _ db same λ png _.
            after-exec After _ _ _ _ db same
              (prepares u id env.now secret found (not-eq-true _ off) refl)

  verify-Move :
      (env : Env) (id : Bytes) (body : Bytes ⊎ TotpVerifyRequest)
      → Move lib db (verify lib env id body db).1.users
  unfolding verify
  verify-Move env id body =
      let same : Move lib db db.users = stays refl in
      after-bind_json After _ _ _ db (λ e. same)
        λ req _. after-query After _ _ _ _ db same λ s found.
          let (u, row, stored, enabled) = secret_stored _ s found in
          after-require After _ _ _ db same λ off. after-require After _ _ _ db same λ valid.
            after-exec After _ _ _ _ db same (
              turns_on u id env.now s.0 req.code row (enabled ∙ not-eq-true _ off) stored valid
                refl)

  disable-Move :
      (env : Env) (id : Bytes) (body : Bytes ⊎ TotpDisableRequest)
      → Move lib db (disable lib env id body db).1.users
  unfolding disable
  disable-Move env id body =
      let same : Move lib db db.users = stays refl in
      after-bind_json After _ _ _ db (λ e. same)
        λ req _. after-query After _ _ _ _ db same λ u found.
          after-require After _ _ _ db same λ on. after-require After _ _ _ db same λ password.
            after-require After _ _ _ db same λ valid.
              after-exec After _ _ _ _ db same
                (turns_off u id env.now req.password req.code found on password valid refl)

  register-Move :
      (env : Env) (body : Bytes ⊎ RegisterRequest) → Move lib db (register env body db).1.users
  unfolding register
  register-Move env body =
      let same : Move lib db db.users = stays refl in
      after-bind_json After _ _ _ db (λ e. same)
        λ req _. after-expect After _ _ _ db same λ hash _. create_user-Move env _ hash

  login-Move :
      (m : JwtManager) (env : Env) (body : Bytes ⊎ LoginRequest)
      → Move lib db (login lib m env body db).1.users
  unfolding login
  login-Move m env body =
      let same : Move lib db db.users = stays refl in
      after-bind_json After _ _ _ db (λ e. same)
        λ req _. after-query After _ _ _ _ db same λ u _. after-require After _ _ _ db same λ _.
          after-second_factor After lib _ u _ _ db same same λ _.
            after-issue After lib m env u _ db same same
              λ access new _ _. after-exec After _ _ _ _ db same same

  refresh-Move :
      (m : JwtManager) (env : Env) (body : Bytes ⊎ RefreshRequest)
      → Move lib db (refresh lib m env body db).1.users
  unfolding refresh
  refresh-Move m env body =
      let same : Move lib db db.users = stays refl in
      after-bind_json After _ _ _ db (λ e. same)
        λ req _. after-query After _ _ _ _ db same λ t _.
          after-refuse_expired After lib m env t _ db same same λ _.
            after-query After _ _ _ _ db same λ u _.
              after-issue After lib m env u _ db same same λ access new _ _.
                after-try_exec After _ _ _ db (after-try_exec After _ _ _ db same same)
                  (after-try_exec After _ _ _ _ same same)

  logout-Move :
      (m : JwtManager) (env : Env) (body : Bytes ⊎ RefreshRequest)
      → Move lib db (logout lib m env body db).1.users
  unfolding logout
  logout-Move m env body =
      let same : Move lib db db.users = stays refl in
      after-bind_json After _ _ _ db (λ e. same) λ req _. after-try_exec After _ _ _ db same same

  me-Move : (env : Env) (id : Bytes) → Move lib db (me env id db).1.users
  unfolding me
  me-Move env id =
      let same : Move lib db db.users = stays refl in after-query After _ _ _ _ db same λ u _. same

  forgot_password-Move :
      (m : JwtManager) (configured : Bool) (env : Env) (body : Bytes ⊎ ForgotRequest)
      → Move lib db (forgot_password lib m configured env body db).1.users
  unfolding forgot_password
  forgot_password-Move m configured env body =
      let same : Move lib db db.users = stays refl in
      after-bind_json After _ _ _ db (λ e. same)
        λ req _. after-query After _ _ _ _ db same λ u _. after-expect After _ _ _ db same λ new _.
          after-try_exec After _ _ _ db (after-exec After _ _ _ _ db same same)
            (after-exec After _ _ _ _ _ same same)

  reset_password-Move :
      (m : JwtManager) (env : Env) (body : Bytes ⊎ ResetRequest)
      → Move lib db (reset_password lib m env body db).1.users
  unfolding reset_password
  reset_password-Move m env body =
      let same : Move lib db db.users = stays refl in
      after-bind_json After _ _ _ db (λ e. same)
        λ req _. after-query After _ _ _ _ db same λ t _. after-require After _ _ _ db same λ _.
          after-refuse_old lib m After env t _ db same same λ _.
            after-expect After _ _ _ db same λ hash _.
              let new : Move lib db (changed t.user_id (set_password env.now hash) db.users) =
                renews t.user_id env.now hash refl in
              after-exec After _ _ _ _ db same (
                after-try_exec After _ _ _ _ (after-try_exec After _ _ _ _ new new)
                  (after-try_exec After _ _ _ _ new new))

  -- Whatever a request is and the environment does, it does one thing at most to the table of users:
  -- a user with a new email and a new id joins, the second factor off; a password changes; a secret
  -- is stored for a user whose second factor is off; that is turned on by a code for the stored
  -- secret; or it is turned off by the password and a valid code.
  pub handle-Move :
      (m : JwtManager) (request : Request) → Move lib db (handle lib m request db).users
  unfolding handle
  handle-Move m (registers env body) = register-Move env body
  handle-Move m (logs_in env body) = login-Move m env body
  handle-Move m (refreshes env body) = refresh-Move m env body
  handle-Move m (logs_out env body) = logout-Move m env body
  handle-Move m (asks env id) = me-Move env id
  handle-Move m (forgets configured env body) = forgot_password-Move m configured env body
  handle-Move m (resets env body) = reset_password-Move m env body
  handle-Move m (sets_up issuer env id email) = setup-Move issuer env id email
  handle-Move m (verifies env id body) = verify-Move env id body
  handle-Move m (disables env id body) = disable-Move env id body
