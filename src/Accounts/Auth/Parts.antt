-- ===== src/Accounts/Auth/Parts.antt =====
-- Rules for the parts that the handlers of sessions share.
use void_link_tunnels.Base.{
  ℕ, Bool, true, false, not, ◌&&◌, ◌||◌, some, Bytes, codes, ◌⊎◌, inl, inr, ◌≡◌, refl, Bool-cases,
  Option-cases, ltb, ◌==◌, bytes_eq, [],
}
use void_link_tunnels.Models.User.{User}
use void_link_tunnels.Accounts.{
  RefreshToken, Db, Env, Primitives, failure, needs_code, Outcome, answered, Action, ◌>>=◌, ◌>>◌,
  require, expect, try_exec,
}
use void_link_tunnels.Accounts.Tokens.{
  JwtManager, NewToken, generate_access_token, generate_refresh_token,
}
use void_link_tunnels.Accounts.Auth.{
  second_factor, valid_code, issue, refuse_expired, delete_refresh,
}

pub factor_passed :
    (enabled valid : Bool) → not enabled || valid ≡ true → (enabled ≡ false) ⊎ (valid ≡ true)
factor_passed true valid h = inr h
factor_passed false valid h = inl refl

module _ {B : Type 0} (Q : Outcome B × Db → Type 0) (lib : Primitives) where
  pub after-second_factor :
      (now : ℕ) (u : User) (code : Bytes) (k : Action B) (db : Db)
      → Q (answered needs_code, db)
      → Q (answered (failure 401 (codes "Invalid 2FA code")), db)
      → ((u.totp_enabled ≡ false) ⊎ (valid_code lib now u.totp_secret code ≡ true) → Q (k db))
      → Q ((second_factor lib now u code >> k) db)
  unfolding second_factor ◌>>◌ require
  after-second_factor now u code k db no_code wrong go =
      elim (Bool-cases (not (u.totp_enabled && code == []))) [
        | inr missing ↦ rw missing no_code
        | inl given ↦
            rw given
              (elim (Bool-cases (not u.totp_enabled || valid_code lib now u.totp_secret code)) [
                | inl passed ↦ rw passed (go (factor_passed _ _ passed))
                | inr failed ↦ rw failed wrong
              ])
      ]

  pub after-issue :
      (m : JwtManager) (env : Env) (u : User) (k : Bytes × NewToken → Action B) (db : Db)
      → Q (answered (failure 500 (codes "Failed to generate token")), db)
      → Q (answered (failure 500 (codes "Failed to generate refresh token")), db)
      → ((access : Bytes) (new : NewToken)
          → generate_access_token lib m u.id u.email env.now ≡ some access
          → generate_refresh_token lib m env.random env.now ≡ some new
          → Q (k (access, new) db))
      → Q ((issue lib m env u >>= k) db)
  unfolding issue ◌>>=◌ expect
  after-issue m env u k db no_access no_refresh go =
      elim (Option-cases (generate_access_token lib m u.id u.email env.now)) [
        | inl none_signed ↦ rw none_signed no_access
        | inr (access, signed) ↦
            rw signed (elim (Option-cases (generate_refresh_token lib m env.random env.now)) [
              | inl none_drawn ↦ rw none_drawn no_refresh
              | inr (new, drawn) ↦ rw drawn (go access new signed drawn)
            ])
      ]

  pub after-refuse_expired :
      (m : JwtManager) (env : Env) (t : RefreshToken) (k : Action B) (db : Db)
      → Q (answered (failure 401 (codes "Refresh token expired")), db)
      → Q (
        answered (failure 401 (codes "Refresh token expired")),
        delete_refresh (λ r. r.id == t.id) db,
      )
      → (ltb t.expires_at env.now ≡ false → Q (k db))
      → Q ((refuse_expired lib m env t >> k) db)
  unfolding refuse_expired ◌>>◌ try_exec
  after-refuse_expired m env t k db kept deleted go = elim (Bool-cases (ltb t.expires_at env.now)) [
    | inl old ↦
        rw old (elim (Bool-cases (env.up 1)) [ inl up ↦ rw up deleted | inr down ↦ rw down kept ])
    | inr fine ↦ rw fine (go fine)
  ]
