-- ===== src/Api/Session.antt =====
-- A session from the login on, through the API.
use void_link_tunnels.Base.{
  ℕ, ◌+◌, ◌*◌, ◌<◌, ◌≤◌, ◌≡◌, sym, ◌∙◌, ap, true, ◌∷◌, ◌++◌, Bytes, codes, Lacks, bytes_eq,
  bytes_beq, inr, some,
}
use void_link_tunnels.Base.Distinct.{Distinct, select_row-key}
use void_link_tunnels.Models.User.{User, LoginRequest, AuthResponse, user_to_response}
use void_link_tunnels.Accounts.{Db, Env, Primitives, Claims, session, profile, run, ◌>>=◌, query}
use void_link_tunnels.Accounts.Tokens.{JwtManager, second}
use void_link_tunnels.Accounts.Auth.{user_by_id, auth_response, login, me}
use void_link_tunnels.Accounts.Auth.Login.{refused, entered, login-LoginEnd}
use void_link_tunnels.Handlers.Edit.{Limits}
use void_link_tunnels.Middleware.{auth_middleware}
use void_link_tunnels.Middleware.Bearer.{auth_middleware-generate_access_token}
use void_link_tunnels.Api.{
  ApiRequest, Site, account, show_profile, protected_route, serve_protected, serve_api, sent_only,
}

me_lem :
    (env : Env) (id : Bytes) (u : User) (db : Db)
    → env.up 0 ≡ true
    → user_by_id id db ≡ some u
    → run (me env id) db ≡ (profile (user_to_response u), db)
unfolding me query ◌>>=◌
me_lem env id u db up found = rw (up, found)

module _ (cfg : Limits) (lib : Primitives) (m : JwtManager) where
  abbrev pub profile_request : Env → Bytes → ApiRequest
  profile_request env token = record {
    method = codes "GET";
    authorization = codes "Bearer" ++ b' ' ∷ token;
    time = env.now;
    route = protected_route (show_profile env);
  }

  -- A request for the profile of the user whom the middleware finds.
  serve_api-profile :
      (env : Env) (token email : Bytes) (u : User) (site : Site)
      → auth_middleware lib m env.now (codes "Bearer" ++ b' ' ∷ token)
        ≡ inr (record { user_id = u.id; user_email = email })
      → env.up 0 ≡ true
      → user_by_id u.id site.accounts ≡ some u
      → serve_api cfg lib m (profile_request env token) site
        ≡ sent_only (account (profile (user_to_response u))) site
  unfolding serve_api serve_protected bytes_beq
  serve_api-profile env token email u site passed up found = rw passed (
      ap (λ end. sent_only (account end.0) (record site { accounts = end.1 }))
        (me_lem env u.id u site.accounts up found))

  -- Suppose that the library accepts the tokens that it has signed until they expire. Then the token
  -- of a login shows its user's profile, the one that the login has answered, until a second before
  -- its lifetime is over.
  pub serve_api-login :
      (env env' : Env) (req : LoginRequest) (r : AuthResponse) (site : Site)
      → ((claims : Claims) (key tok : Bytes) (at_time : ℕ)
          → lib.sign claims key ≡ some tok
          → at_time < claims.expires_at * second
          → lib.parse_with_claims at_time tok key ≡ some (claims, true))
      → Distinct (λ u. u.id) site.accounts.users
      → (run (login lib m env (inr req)) site.accounts).0 ≡ session r
      → Lacks b' ' r.access_token
      → env'.up 0 ≡ true
      → env'.now + second ≤ env.now + m.access_ttl
      → let after = record site { accounts = (run (login lib m env (inr req)) site.accounts).1 } in
        serve_api cfg lib m (profile_request env' r.access_token) after
        ≡ sent_only (account (profile r.user)) after
  serve_api-login env env' req r site accepts ids ok solid up soon =
      let site' = record site { accounts = (run (login lib m env (inr req)) site.accounts).1 } in
      elim (login-LoginEnd lib m env (inr req) site.accounts) [
        | refused no_session same ↦ absurd (cc)
        | entered req' u access new given found password factor signed drawn answer after ↦
            let same : r ≡ auth_response lib m u access new = cc in
            let token : r.access_token ≡ access = ap (λ a. a.access_token) same in
            let shown : r.user ≡ user_to_response u = ap (λ a. a.user) same in
            let known : user_by_id u.id (run (login lib m env (inr req)) site.accounts).1 ≡ some u =
              rw after (select_row-key (λ v. v.id) _ site.accounts.users u ids found) in
            let passed =
              auth_middleware-generate_access_token lib m env.now env'.now u.id u.email
                r.access_token accepts (signed ∙ ap some (sym token)) solid soon in
            serve_api-profile env' r.access_token u.email u site' passed up known
            ∙ ap (λ p. sent_only (account (profile p)) site') (sym shown)
      ]
