-- ===== src/Api.antt =====
-- The API as cmd/server/main.go puts it together: the answer to `OPTIONS`, the public routes, and
-- the routes behind the middleware. The router is not part of the repository: a request names the
-- handler that it is for. The endpoints of internal/handlers/health.go are here, too.
pub mod Guard
pub mod Session
use void_link_tunnels.Base.{
  ℕ, Bool, true, false, List, [], ◌∷◌, Bytes, codes, ◌==◌, bytes_eq, ◌⊎◌, inl, inr, if◌then◌else◌,
}
use void_link_tunnels.Models.User.{
  RegisterRequest, LoginRequest, RefreshRequest, ForgotRequest, ResetRequest, TotpVerifyRequest,
  TotpDisableRequest,
}
use void_link_tunnels.Accounts.{Db, Env, Primitives, Answer, Chain, run, Outcome, value, answered}
use void_link_tunnels.Accounts.Tokens.{JwtManager}
use void_link_tunnels.Accounts.Auth.{register, login, refresh, logout, me}
use void_link_tunnels.Accounts.Reset.{Mail, forgot_password, reset_password}
use void_link_tunnels.Accounts.Reset.Mails.{forgot_answer, mails}
use void_link_tunnels.Accounts.TwoFactor.{setup, verify, disable}
use void_link_tunnels.Tunnel.Server.{Effect}
use void_link_tunnels.Handlers.{World, Response}
use void_link_tunnels.Handlers.Edit.{Limits}
use void_link_tunnels.Handlers.Calls.{TunnelCall, handle_tunnel}
use void_link_tunnels.Middleware.{Identity, auth_middleware}

pub data PublicCall : Type 0 where
  health : Bool → PublicCall
  ping : PublicCall
  register_account : Env → Bytes ⊎ RegisterRequest → PublicCall
  open_session : Env → Bytes ⊎ LoginRequest → PublicCall
  renew_session : Env → Bytes ⊎ RefreshRequest → PublicCall
  close_session : Env → Bytes ⊎ RefreshRequest → PublicCall
  forget_password : Bool → Env → Bytes ⊎ ForgotRequest → PublicCall
  renew_password : Env → Bytes ⊎ ResetRequest → PublicCall

pub data ProtectedCall : Type 0 where
  show_profile : Env → ProtectedCall
  setup_totp : Env → ProtectedCall
  verify_totp : Env → Bytes ⊎ TotpVerifyRequest → ProtectedCall
  disable_totp : Env → Bytes ⊎ TotpDisableRequest → ProtectedCall
  on_tunnels : TunnelCall → ProtectedCall

pub data Route : Type 0 where
  public_route : PublicCall → Route
  protected_route : ProtectedCall → Route

pub record ApiRequest : Type 0 where
  pub method : Bytes
  pub authorization : Bytes
  pub time : ℕ
  pub route : Route

-- The tables of the accounts; the table of tunnels, with the tunnel server.
pub record Site : Type 0 where
  pub accounts : Db
  pub world : World

pub data Sent : Type 0 where
  no_content : Sent
  pong : Sent
  status : ℕ → Bytes → Bool → Sent
  account : Answer → Sent
  tunnels : Response → Sent

-- What is sent back, the state after it, and what goes elsewhere.
pub record ApiReply : Type 0 where
  pub sent : Sent
  pub site : Site
  pub mail : List Mail
  pub effects : List Effect

abbrev pub sent_only : Sent → Site → ApiReply
sent_only sent site = record { sent = sent; site = site; mail = []; effects = [] }

-- `Health`
abbrev pub health_status : Bool → Sent
health_status true = status 200 (codes "healthy") true
health_status false = status 503 (codes "unhealthy") false

abbrev pub on_accounts : Chain → Site → ApiReply
on_accounts chain site =
    let (answer, db) = run chain site.accounts in
    sent_only (account answer) (record site { accounts = db })

-- The issuer that `main` gives to the TOTP service.
abbrev pub issuer : Bytes
issuer = codes "VoidLink Tunnels"

module _ (cfg : Limits) (lib : Primitives) (m : JwtManager) where
  unfoldable pub serve_public : PublicCall → Site → ApiReply
  serve_public (health up) site = sent_only (health_status up) site
  serve_public ping site = sent_only pong site
  serve_public (register_account env body) site = on_accounts (register env body) site
  serve_public (open_session env body) site = on_accounts (login lib m env body) site
  serve_public (renew_session env body) site = on_accounts (refresh lib m env body) site
  serve_public (close_session env body) site = on_accounts (logout lib m env body) site
  serve_public (forget_password configured env body) site =
      let (o, db) = forgot_password lib m configured env body site.accounts in
      record {
        sent = account (forgot_answer o);
        site = record site { accounts = db };
        mail = mails o;
        effects = [];
      }
  serve_public (renew_password env body) site = on_accounts (reset_password lib m env body) site

  unfoldable pub serve_protected : Identity → ProtectedCall → Site → ApiReply
  serve_protected who (show_profile env) site = on_accounts (me env who.user_id) site
  serve_protected who (setup_totp env) site =
      on_accounts (setup lib issuer env who.user_id who.user_email) site
  serve_protected who (verify_totp env body) site =
      on_accounts (verify lib env who.user_id body) site
  serve_protected who (disable_totp env body) site =
      on_accounts (disable lib env who.user_id body) site
  serve_protected who (on_tunnels call) site =
      let (response, world, effects) = handle_tunnel cfg who.user_id call site.world in
      record {
        sent = tunnels response;
        site = record site { world = world };
        mail = [];
        effects = effects;
      }

  -- What the middleware lets through is served.
  abbrev pub let_in : ProtectedCall → Site → Answer ⊎ Identity → ApiReply
  let_in call site (inl refusal) = sent_only (account refusal) site
  let_in call site (inr who) = serve_protected who call site

  abbrev pub serve_route : ℕ → Bytes → Route → Site → ApiReply
  serve_route now header (public_route call) site = serve_public call site
  serve_route now header (protected_route call) site =
      let_in call site (auth_middleware lib m now header)

  unfoldable pub serve_api : ApiRequest → Site → ApiReply
  serve_api r site =
      if r.method == codes "OPTIONS"
      then sent_only no_content site
      else serve_route r.time r.authorization r.route site
