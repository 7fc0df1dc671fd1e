-- ===== src/Accounts/Reset/Codes.antt =====
-- How the reset of a password ends, and that a code serves once.
use void_link_tunnels.Base.{
  Bool, true, false, some, Bytes, codes, ◌⊎◌, inl, inr, ◌≡◌, refl, ◌∙◌, ap, ltb, ◌==◌, bytes_eq,
  bytes_beq_iff, if◌then◌else◌, Bool-cases, arith,
}
use void_link_tunnels.Base.Lists.{All}
use void_link_tunnels.Base.Rows.{delete_rows_lem, select_row-update_rows}
use void_link_tunnels.Models.User.{ResetRequest}
use void_link_tunnels.Accounts.{
  ResetToken, Db, Env, Primitives, Answer, success, failure, Outcome, answered, Action, final, run,
  ◌>>=◌, ◌>>◌, bind_json, query, require, try_exec,
}
use void_link_tunnels.Accounts.Tokens.{JwtManager, hash_token}
use void_link_tunnels.Accounts.Auth.{delete_refresh}
use void_link_tunnels.Accounts.Reset.{
  reset_by_hash, delete_resets, update_user, mark_used, set_password, refuse_old, reset_password,
}
use void_link_tunnels.Accounts.Rules.{
  after-bind_json, after-query, after-require, after-expect, after-exec, not-eq-true,
}

abbrev pub is_success : Answer → Bool
is_success (success code text) = true
is_success _ = false

abbrev pub mark_when : Bool → Bytes → Db → Db
mark_when up id db = if up then mark_used id db else db

abbrev pub revoke_when : Bool → Bytes → Db → Db
revoke_when up user_id db = if up then delete_refresh (λ r. r.user_id == user_id) db else db

module _ (lib : Primitives) (m : JwtManager) where
  pub after-refuse_old :
      {B : Type 0} (Q : Outcome B × Db → Type 0) (env : Env) (t : ResetToken) (k : Action B)
      (db : Db)
      → Q (answered (failure 400 (codes "Reset token expired")), db)
      → Q (
        answered (failure 400 (codes "Reset token expired")),
        delete_resets (λ r. r.id == t.id) db,
      )
      → (ltb t.expires_at env.now ≡ false → Q (k db))
      → Q ((refuse_old lib m env t >> k) db)
  unfolding refuse_old ◌>>◌ try_exec
  after-refuse_old Q env t k db kept deleted go = elim (Bool-cases (ltb t.expires_at env.now)) [
    | inl old ↦
        rw old (elim (Bool-cases (env.up 1)) [ inl up ↦ rw up deleted | inr down ↦ rw down kept ])
    | inr fine ↦ rw fine (go fine)
  ]

  after-marks :
      (Q : Outcome Answer × Db → Type 0) (marked revoked : Bool) (id user_id : Bytes)
      (k : Db → Outcome Answer × Db) (db : Db)
      → Q (k (revoke_when revoked user_id (mark_when marked id db)))
      → Q (
          (try_exec marked (mark_used id)
              >> (try_exec revoked (delete_refresh (λ r. r.user_id == user_id)) >> k))
            db)
  unfolding try_exec ◌>>◌
  after-marks Q true true id user_id k db h = h
  after-marks Q true false id user_id k db h = h
  after-marks Q false true id user_id k db h = h
  after-marks Q false false id user_id k db h = h

  -- A reset that is refused touches neither users nor sessions. One that is not is by a code that
  -- is stored, unused and not expired; it changes the password, and then, as far as the database
  -- carries out the two statements, whose errors are ignored, marks the code and revokes all
  -- refresh tokens of the user.
  pub data ResetEnd (env : Env) (body : Bytes ⊎ ResetRequest) (db : Db) (end : Answer × Db)
      : Type 0 where
    refused :
        is_success end.0 ≡ false
        → end.1.users ≡ db.users
        → end.1.refresh_tokens ≡ db.refresh_tokens
        → ResetEnd env body db end
    renewed :
        (req : ResetRequest) (t : ResetToken) (hash : Bytes)
        → body ≡ inr req
        → reset_by_hash (hash_token lib m req.token) db ≡ some t
        → t.used ≡ false
        → ltb t.expires_at env.now ≡ false
        → env.hashed req.new_password ≡ some hash
        → end.0 ≡ success 200 (codes "Password reset successfully")
        → end.1
          ≡ revoke_when
              (env.up 3)
              t.user_id
              (mark_when (env.up 2) t.id (update_user t.user_id (set_password env.now hash) db))
        → ResetEnd env body db end

  -- Every reset of a password ends in one of two ways. Either it is refused and touches neither users
  -- nor refresh tokens; or the code is stored, unused and not expired, and then the password of its
  -- user is changed, the code is marked as used and the user's refresh tokens are deleted, the last
  -- two as far as the database carries them out.
  pub reset_password-ResetEnd :
      (env : Env) (body : Bytes ⊎ ResetRequest) (db : Db)
      → ResetEnd env body db (run (reset_password lib m env body) db)
  unfolding reset_password
  reset_password-ResetEnd env body db =
      let Q : Outcome Answer × Db → Type 0 = λ end. ResetEnd env body db (final end.0, end.1) in
      after-bind_json Q _ _ _ db (λ e. refused refl refl refl)
        λ req given. after-query Q _ _ _ _ db (refused refl refl refl) λ t found.
          after-require Q _ _ _ db (refused refl refl refl) λ unused.
            after-refuse_old Q env t _ db (refused refl refl refl) (refused refl refl refl) λ fresh.
              after-expect Q _ _ _ db (refused refl refl refl) λ hash hashed.
                after-exec Q _ _ _ _ db (refused refl refl refl) (
                  after-marks Q (env.up 2) (env.up 3) t.id t.user_id _ _
                    (renewed req t hash given found (not-eq-true _ unused) fresh hashed refl refl))

  -- A code that is marked is refused.
  reset_marked :
      (env : Env) (req : ResetRequest) (t : ResetToken) (db : Db)
      → env.up 0 ≡ true
      → reset_by_hash (hash_token lib m req.token) db ≡ some t
      → t.used ≡ true
      → run (reset_password lib m env (inr req)) db
        ≡ (failure 400 (codes "Reset token already used"), db)
  unfolding reset_password bind_json query require ◌>>=◌ ◌>>◌
  reset_marked env req t db up found used = rw (up, found, used)

  reset_by_hash-mark_used :
      (hash : Bytes) (t : ResetToken) (db : Db)
      → reset_by_hash hash db ≡ some t
      → reset_by_hash hash (mark_used t.id db) ≡ some (record t { used = true })
  reset_by_hash-mark_used hash t db found =
      let marked =
        select_row-update_rows (λ r. r.token_hash == hash) (λ r. r.id == t.id)
          (λ r. record r { used = true }) db.reset_tokens t (λ b. refl) found in
      rw ((bytes_beq_iff t.id t.id).1 refl) at marked

  reset_by_hash-revoke_when :
      (revoked : Bool) (hash user_id : Bytes) (db : Db)
      → reset_by_hash hash (revoke_when revoked user_id db) ≡ reset_by_hash hash db
  reset_by_hash-revoke_when true hash user_id db = refl
  reset_by_hash-revoke_when false hash user_id db = refl

  -- A code serves once: where it has reset a password, and the mark was carried out, it is refused
  -- by the next request with it that the database answers.
  pub reset_password-reset_password :
      (env env' : Env) (req req' : ResetRequest) (db : Db)
      → req'.token ≡ req.token
      → env.up 2 ≡ true
      → env'.up 0 ≡ true
      → is_success (run (reset_password lib m env (inr req)) db).0 ≡ true
      → (run
          (reset_password lib m env' (inr req'))
          (run (reset_password lib m env (inr req)) db).1).0
        ≡ failure 400 (codes "Reset token already used")
  reset_password-reset_password env env' req req' db token up up' ok =
      elim (reset_password-ResetEnd env (inr req) db) [
        | refused no_success users tokens ↦ absurd (cc)
        | renewed r t hash given found unused fresh hashed answer after ↦
            let same : r ≡ req = ground arith in
            let h = hash_token lib m req'.token in
            let db' = update_user t.user_id (set_password env.now hash) db in
            let stored : reset_by_hash h db ≡ some t = rw (token, ← same) found in
            let marked : reset_by_hash h (run (reset_password lib m env (inr req)) db).1
                ≡ some (record t { used = true }) =
              rw (after, up)
                (reset_by_hash-revoke_when (env.up 3) h t.user_id (mark_used t.id db')
                  ∙ reset_by_hash-mark_used h t db' stored) in
            ap (λ end. end.0) (reset_marked env' req' _ _ up' marked refl)
      ]

  -- After a reset that succeeds, and whose last statement the database carried out, no refresh token
  -- of the user whose code it was is left.
  pub refresh_tokens-reset_password :
      (env : Env) (req : ResetRequest) (t : ResetToken) (db : Db)
      → reset_by_hash (hash_token lib m req.token) db ≡ some t
      → env.up 3 ≡ true
      → is_success (run (reset_password lib m env (inr req)) db).0 ≡ true
      → All
          (λ r. r.user_id == t.user_id ≡ false)
          (run (reset_password lib m env (inr req)) db).1.refresh_tokens
  refresh_tokens-reset_password env req t db found up ok =
      elim (reset_password-ResetEnd env (inr req) db) [
        | refused no_success users tokens ↦ absurd (cc)
        | renewed r t' hash given found' unused fresh hashed answer after ↦
            let same : r ≡ req = ground arith in
            let again : reset_by_hash (hash_token lib m req.token) db ≡ some t' =
              rw (← same) found' in
            let same_row : t' ≡ t = cc in rw (after, up, same_row) (delete_rows_lem _ _)
      ]
