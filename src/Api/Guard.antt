-- ===== src/Api/Guard.antt =====
-- The routes behind the middleware.
use void_link_tunnels.Base.{
  ◌≡◌, ◌≢◌, refl, ap, [], ◌∷◌, Bytes, codes, bytes_eq, bytes_beq, ◌⊎◌, inl, inr, Bool-cases, some,
}
use void_link_tunnels.Text.{to_lower, split}
use void_link_tunnels.Accounts.{Primitives, Claims}
use void_link_tunnels.Accounts.Tokens.{JwtManager, validate_access_token}
use void_link_tunnels.Handlers.Edit.{Limits}
use void_link_tunnels.Handlers.Rows.{Distinct}
use void_link_tunnels.Handlers.Listing.{rows_of}
use void_link_tunnels.Handlers.Calls.Tenants.{handle_tunnel-rows_of}
use void_link_tunnels.Middleware.{Identity, auth_middleware}
use void_link_tunnels.Middleware.Bearer.{auth_middleware_sound}
use void_link_tunnels.Api.{
  ApiRequest, Site, PublicCall, health, ping, register_account, open_session, renew_session,
  close_session, forget_password, renew_password, ProtectedCall, show_profile, setup_totp,
  verify_totp, disable_totp, on_tunnels, Route, public_route, serve_public, serve_route,
  protected_route, serve_protected, serve_api,
}

either {ℓ κ} :
    {A : Type ℓ} {B : Type κ} (s : A ⊎ B) → ((a : A) × (s ≡ inl a)) ⊎ ((b : B) × (s ≡ inr b))
either (inl a) = inl (a, refl)
either (inr b) = inr (b, refl)

module _ (cfg : Limits) (lib : Primitives) (m : JwtManager) where
  -- A request for a protected route either leaves everything as it is, and nothing goes out, or it
  -- has a header of the word `bearer` in any case, one space and a valid token, and is served for
  -- the user whom the token names.
  pub serve_api-protected_route :
      (r : ApiRequest) (call : ProtectedCall) (site : Site)
      → r.route ≡ protected_route call
      → ((serve_api cfg lib m r site).site ≡ site)
          × ((serve_api cfg lib m r site).mail ≡ [])
          × ((serve_api cfg lib m r site).effects ≡ [])
        ⊎ ((scheme : Bytes) × (token : Bytes) × (claims : Claims) × (split b' ' r.authorization
              ≡ scheme ∷ token ∷ [])
            × (to_lower scheme ≡ codes "bearer")
            × (validate_access_token lib m r.time token ≡ some claims)
            × (serve_api cfg lib m r site
                ≡ serve_protected cfg lib m
                    (record { user_id = claims.user_id; user_email = claims.email })
                    call
                    site))
  unfolding serve_api
  serve_api-protected_route r call site protected =
      elim (Bool-cases (bytes_beq r.method (codes "OPTIONS"))) [
        | inl options ↦ inl (rw options (refl, refl, refl))
        | inr other ↦ elim (either (auth_middleware lib m r.time r.authorization)) [
          | inl (refusal, refused) ↦ inl (rw (other, protected, refused) (refl, refl, refl))
          | inr (who, passed) ↦
              let (scheme, token, claims, parts, bearer, valid, same) =
                auth_middleware_sound lib m r.time r.authorization who passed in
              inr (
                scheme,
                token,
                claims,
                parts,
                bearer,
                valid,
                rw (other, protected, passed)
                    (ap (λ w. serve_protected cfg lib m w call site) same),
              )
        ]
      ]

  -- A public route leaves the tunnels as they are.
  serve_public-world :
      (call : PublicCall) (site : Site) → (serve_public cfg lib m call site).site.world ≡ site.world
  unfolding serve_public
  serve_public-world (health up) site = refl
  serve_public-world ping site = refl
  serve_public-world (register_account env body) site = refl
  serve_public-world (open_session env body) site = refl
  serve_public-world (renew_session env body) site = refl
  serve_public-world (close_session env body) site = refl
  serve_public-world (forget_password configured env body) site = refl
  serve_public-world (renew_password env body) site = refl

  serve_protected-rows_of :
      (who : Identity) (other : Bytes) (call : ProtectedCall) (site : Site)
      → who.user_id ≢ other
      → Distinct site.world.tunnels
      → rows_of other (serve_protected cfg lib m who call site).site.world.tunnels
        ≡ rows_of other site.world.tunnels
  unfolding serve_protected
  serve_protected-rows_of who other (show_profile env) site differ d = refl
  serve_protected-rows_of who other (setup_totp env) site differ d = refl
  serve_protected-rows_of who other (verify_totp env body) site differ d = refl
  serve_protected-rows_of who other (disable_totp env body) site differ d = refl
  serve_protected-rows_of who other (on_tunnels call) site differ d =
      handle_tunnel-rows_of cfg who.user_id other call site.world differ d

  -- Where no two tunnels share an id or a subdomain, a request changes the tunnels of a user only if
  -- it shows a token that the middleware accepts as that user's.
  pub serve_api-rows_of :
      (r : ApiRequest) (other : Bytes) (site : Site)
      → ((who : Identity)
          → auth_middleware lib m r.time r.authorization ≡ inr who
          → who.user_id ≢ other)
      → Distinct site.world.tunnels
      → rows_of other (serve_api cfg lib m r site).site.world.tunnels
        ≡ rows_of other site.world.tunnels
  unfolding serve_api
  serve_api-rows_of r other site foreign d =
      elim (Bool-cases (bytes_beq r.method (codes "OPTIONS"))) [
        | inl options ↦ rw options
        | inr served ↦ rw served (by_route r.route)
      ]
    where
      by_route :
          (route : Route)
          → rows_of other
              (serve_route cfg lib m r.time r.authorization route site).site.world.tunnels
            ≡ rows_of other site.world.tunnels
      by_route (public_route call) =
          ap (λ w. rows_of other w.tunnels) (serve_public-world call site)
      by_route (protected_route call) =
          elim (either (auth_middleware lib m r.time r.authorization)) [
            | inl (refusal, refused) ↦ rw refused
            | inr (who, passed) ↦
                rw passed (serve_protected-rows_of who other call site (foreign who passed) d)
          ]
