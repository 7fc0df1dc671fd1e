-- ===== src/Accounts/Auth/Rotation.antt =====
-- Refresh tokens: how the exchange of one ends, and that it serves once.
use void_link_tunnels.Base.{
  Bool, true, false, none, some, Bytes, codes, ◌⊎◌, inl, inr, ◌≡◌, ◌≢◌, refl, ap, ltb, ◌==◌,
  bytes_eq, bytes_beq, bytes_beq_iff, if◌then◌else◌, Bool-cases, arith,
}
use void_link_tunnels.Base.Rows.{select_row, select_row_of_All, delete_rows_lem}
use void_link_tunnels.Base.Distinct.{Distinct, select_row-delete_rows_self}
use void_link_tunnels.Models.User.{User, RefreshRequest}
use void_link_tunnels.Accounts.{
  RefreshToken, Db, Env, Primitives, Answer, session, failure, Outcome, final, run, ◌>>=◌, ◌>>◌,
  bind_json, query, try_exec,
}
use void_link_tunnels.Accounts.Tokens.{
  JwtManager, NewToken, hash_token, generate_access_token, generate_refresh_token,
}
use void_link_tunnels.Accounts.Auth.{
  user_by_id, refresh_by_hash, delete_refresh, insert_refresh, auth_response, refresh, logout,
}
use void_link_tunnels.Accounts.Rules.{after-bind_json, after-query}
use void_link_tunnels.Accounts.Auth.Parts.{after-issue, after-refuse_expired}
use void_link_tunnels.Accounts.Auth.Login.{is_session}

abbrev pub delete_when : Bool → Bytes → Db → Db
delete_when up id db = if up then delete_refresh (λ r. r.id == id) db else db

abbrev pub insert_when : Bool → Env → Bytes → NewToken → Db → Db
insert_when up env user_id new db = if up then insert_refresh env user_id new db else db

module _ (lib : Primitives) (m : JwtManager) where
  -- A token that is not stored is refused, and nothing changes; one that has expired is refused,
  -- and may be deleted; any other is exchanged for a new one, as far as the database carries out
  -- the two statements, whose errors are ignored.
  pub data RefreshEnd (env : Env) (body : Bytes ⊎ RefreshRequest) (db : Db) (end : Answer × Db)
      : Type 0 where
    refused : is_session end.0 ≡ false → end.1 ≡ db → RefreshEnd env body db end
    expired :
        (req : RefreshRequest) (t : RefreshToken)
        → body ≡ inr req
        → refresh_by_hash (hash_token lib m req.refresh_token) db ≡ some t
        → is_session end.0 ≡ false
        → end.1 ≡ delete_refresh (λ r. r.id == t.id) db
        → RefreshEnd env body db end
    rotated :
        (req : RefreshRequest) (t : RefreshToken) (u : User) (access : Bytes) (new : NewToken)
        → body ≡ inr req
        → refresh_by_hash (hash_token lib m req.refresh_token) db ≡ some t
        → ltb t.expires_at env.now ≡ false
        → user_by_id t.user_id db ≡ some u
        → generate_access_token lib m u.id u.email env.now ≡ some access
        → generate_refresh_token lib m env.random env.now ≡ some new
        → end.0 ≡ session (auth_response lib m u access new)
        → end.1 ≡ insert_when (env.up 3) env t.user_id new (delete_when (env.up 2) t.id db)
        → RefreshEnd env body db end

  -- The two statements at the end.
  after-rotation :
      (Q : Outcome Answer × Db → Type 0) (gone stored : Bool) (env : Env) (id user_id : Bytes)
      (new : NewToken) (k : Db → Outcome Answer × Db) (db : Db)
      → Q (k (insert_when stored env user_id new (delete_when gone id db)))
      → Q (
          (try_exec gone (delete_refresh (λ r. r.id == id))
              >> (try_exec stored (insert_refresh env user_id new) >> k))
            db)
  unfolding try_exec ◌>>◌
  after-rotation Q true true env id user_id new k db h = h
  after-rotation Q true false env id user_id new k db h = h
  after-rotation Q false true env id user_id new k db h = h
  after-rotation Q false false env id user_id new k db h = h

  pub refresh-RefreshEnd :
      (env : Env) (body : Bytes ⊎ RefreshRequest) (db : Db)
      → RefreshEnd env body db (run (refresh lib m env body) db)
  unfolding refresh
  refresh-RefreshEnd env body db =
      let Q : Outcome Answer × Db → Type 0 = λ end. RefreshEnd env body db (final end.0, end.1) in
      after-bind_json Q _ _ _ db (λ e. refused refl refl)
        λ req given. after-query Q _ _ _ _ db (refused refl refl) λ t found.
          after-refuse_expired Q lib m env t _ db (refused refl refl)
            (expired req t given found refl refl)
            λ fresh. after-query Q _ _ _ _ db (refused refl refl) λ u row.
              after-issue Q lib m env u _ db (refused refl refl) (refused refl refl)
                λ access new signed drawn.
                  after-rotation Q (env.up 2) (env.up 3) env t.id t.user_id new _ db
                    (rotated req t u access new given found fresh row signed drawn refl refl)

  -- A token that is not stored.
  refresh_unknown :
      (env : Env) (req : RefreshRequest) (db : Db)
      → refresh_by_hash (hash_token lib m req.refresh_token) db ≡ none
      → run (refresh lib m env (inr req)) db ≡ (failure 401 (codes "Invalid refresh token"), db)
  unfolding refresh bind_json query ◌>>=◌
  refresh_unknown env req db e = elim (Bool-cases (env.up 0)) [
    | inl up ↦ rw (up, e)
    | inr down ↦ rw down
  ]

  -- No row has the hash after the exchange.
  refresh_by_hash-insert_when :
      (env : Env) (stored : Bool) (user_id hash : Bytes) (new : NewToken) (db : Db)
      → new.token_hash ≢ hash
      → refresh_by_hash hash db ≡ none
      → refresh_by_hash hash (insert_when stored env user_id new db) ≡ none
  unfolding select_row
  refresh_by_hash-insert_when env true user_id hash new db other e =
      elim (Bool-cases (bytes_beq new.token_hash hash)) [
        | inl same ↦ absurd (other ((bytes_beq_iff new.token_hash hash).0 same))
        | inr miss ↦ rw miss e
      ]
  refresh_by_hash-insert_when env false user_id hash new db other e = e

  -- A refresh token serves once: where the hashes of the stored tokens are distinct, a token has been
  -- exchanged for one with another hash, and the database carried out the deletion, the next
  -- refresh with the old token is refused.
  pub refresh-refresh :
      (env env' : Env) (req : RefreshRequest) (db : Db)
      → Distinct (λ t. t.token_hash) db.refresh_tokens
      → env.up 2 ≡ true
      → ((new : NewToken)
          → generate_refresh_token lib m env.random env.now ≡ some new
          → new.token_hash ≢ hash_token lib m req.refresh_token)
      → is_session (run (refresh lib m env (inr req)) db).0 ≡ true
      → (run (refresh lib m env' (inr req)) (run (refresh lib m env (inr req)) db).1).0
        ≡ failure 401 (codes "Invalid refresh token")
  refresh-refresh env env' req db d up other ok = elim (refresh-RefreshEnd env (inr req) db) [
    | refused no_session same ↦ absurd (cc)
    | expired req' t given found no_session same ↦ absurd (cc)
    | rotated req' t u access new given found fresh row signed drawn answer after ↦
        let same : req' ≡ req = ground arith in
        let hash = hash_token lib m req.refresh_token in
        let stored : refresh_by_hash hash db ≡ some t = rw (← same) found in
        let gone : refresh_by_hash hash (delete_when (env.up 2) t.id db) ≡ none = rw up (
          select_row-delete_rows_self (λ t. t.token_hash) (λ r. r.id == t.id) hash db.refresh_tokens
            t d stored ((bytes_beq_iff t.id t.id).1 refl)) in
        let unknown : refresh_by_hash hash (run (refresh lib m env (inr req)) db).1 ≡ none =
          rw after (
            refresh_by_hash-insert_when env (env.up 3) t.user_id hash new _ (other new drawn)
              gone) in
        ap (λ end. end.0) (refresh_unknown env' req _ unknown)
  ]

  -- A refresh token is refused after a logout with it that the database carried out.
  pub refresh-logout :
      (env env' : Env) (req : RefreshRequest) (db : Db)
      → env.up 0 ≡ true
      → run (refresh lib m env' (inr req)) (run (logout lib m env (inr req)) db).1 ≡ (
        failure 401 (codes "Invalid refresh token"),
        delete_refresh (λ t. t.token_hash == hash_token lib m req.refresh_token) db,
      )
  unfolding logout bind_json try_exec ◌>>=◌ ◌>>◌
  refresh-logout env env' req db up =
      rw up
        (refresh_unknown env' req _ (select_row_of_All _ _ (delete_rows_lem _ db.refresh_tokens)))
