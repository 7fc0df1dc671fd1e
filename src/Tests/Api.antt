-- ===== src/Tests/Api.antt =====
-- Requests to the API: of Ann, with the token that she has got, and of a stranger.
use void_link_tunnels.Base.{
  ℕ, ◌*◌, ◌<◌, ◌≡◌, ◌≢◌, refl, true, some, List, [], ◌∷◌, Bytes, codes, bytes_eq, nat_eq, bytes_beq,
  bytes_beq_iff, ltb, arith, inl, inr, ◌⊎◌, Bool-cases, map,
}
use mathlib.Core.List.{Perm}
use void_link_tunnels.Base.Map.{load}
use void_link_tunnels.Base.Rows.{select_row}
use void_link_tunnels.Text.{to_lower, lower_byte, trim_space, split}
use void_link_tunnels.Text.Hex.{encode_to_string, hex_digit}
use void_link_tunnels.Models.{TunnelResponse, to_response}
use void_link_tunnels.Models.User.{LoginRequest, AuthResponse}
use void_link_tunnels.Accounts.{
  Claims, session, profile, run, ◌>>=◌, ◌>>◌, bind_json, query, expect, exec, require,
}
use void_link_tunnels.Accounts.Tokens.{
  second, hash_token, generate_access_token, generate_refresh_token, validate_access_token,
}
use void_link_tunnels.Accounts.Auth.{normalize_email, auth_response, login, issue, second_factor}
use void_link_tunnels.Handlers.{World, only, tunnel_list}
use void_link_tunnels.Handlers.Edit.{Limits, count_rows}
use void_link_tunnels.Handlers.Listing.{rows_of, list_tunnels}
use void_link_tunnels.Handlers.Listing.Sorted.{IsDescending, list_tunnels_lem}
use void_link_tunnels.Handlers.Calls.{TunnelCall, starts, stops, handle_all, route_of}
use void_link_tunnels.Handlers.Calls.Restart.{active_rows, restart-route_of}
use void_link_tunnels.Services.{restore_active_tunnels}
use void_link_tunnels.Tunnel.Server.{new_server}
use void_link_tunnels.Middleware.{Identity, auth_middleware}
use void_link_tunnels.Api.{
  ApiRequest, Site, account, protected_route, on_tunnels, serve_protected, serve_api, sent_only,
}
use void_link_tunnels.Api.Guard.{serve_api-protected_route, serve_api-rows_of}
use void_link_tunnels.Api.Session.{profile_request, serve_api-login}
use void_link_tunnels.Tests.{zone, cat}
use void_link_tunnels.Tests.Sorting.{insertion_sort, insertion_sort-IsOrderBy}
use void_link_tunnels.Tests.Requests.{idle, idle-IsSynced}
use void_link_tunnels.Tests.Accounts.{
  ann, ann_mail, ann_claims, ann_token, is_ann, manager, lib, env, later, db, db-IsSound,
}

abbrev limits : Limits
limits = record {
  domain = zone;
  region = codes "eu";
  max_tunnels = 3;
  min_port = 20000;
  max_port = 30000;
}

-- The user u1 starts the tunnel t1, which is then active, and stops it.
abbrev calls : List (Bytes × TunnelCall)
calls = (codes "u1", starts (some (codes "t1")) 5 true true) ∷ []

restart-route_of_example :
    let s = new_server (codes "secret") 7001 25565 8081 zone 20000 30000 in
    let start : World = record {
      tunnels = idle.tunnels;
      server = (restore_active_tunnels (some (active_rows idle.tunnels)) s).0;
    } in
    load cat (handle_all limits calls start).server.subdomain_map
    ≡ route_of cat (handle_all limits calls start).tunnels
restart-route_of_example =
    restart-route_of limits idle.tunnels calls (codes "secret") cat 7001 25565 8081
      idle-IsSynced.distinct (tt, tt)

list_tunnels_lem_example :
    (shown : List TunnelResponse) × (list_tunnels limits insertion_sort true
        (λ t. true)
        (codes "u1")
        idle
      ≡ only idle (
          tunnel_list
            (record { tunnels = shown; count = count_rows (codes "u1") idle.tunnels; limit = 3 })))
    × IsDescending shown
    × Perm shown (map (to_response zone) (rows_of (codes "u1") idle.tunnels))
list_tunnels_lem_example =
    list_tunnels_lem limits insertion_sort (codes "u1") idle insertion_sort-IsOrderBy

abbrev site : Site
site = record { accounts = db; world = idle }

-- A stop of t1 with a token that was never signed.
abbrev forged : ApiRequest
forged = record {
  method = codes "POST";
  authorization = codes "Bearer x.y.z";
  time = env.now;
  route = protected_route (on_tunnels (stops (some (codes "t1")) 5 true true));
}

serve_api-protected_route_example :
    ((serve_api limits lib manager forged site).site ≡ site)
      × ((serve_api limits lib manager forged site).mail ≡ [])
      × ((serve_api limits lib manager forged site).effects ≡ [])
    ⊎ ((scheme : Bytes) × (token : Bytes) × (claims : Claims) × (split b' ' (codes "Bearer x.y.z")
          ≡ scheme ∷ token ∷ [])
        × (to_lower scheme ≡ codes "bearer")
        × (validate_access_token lib manager env.now token ≡ some claims)
        × (serve_api limits lib manager forged site
            ≡ serve_protected limits lib manager
                (record { user_id = claims.user_id; user_email = claims.email })
                (on_tunnels (stops (some (codes "t1")) 5 true true))
                site))
serve_api-protected_route_example =
    serve_api-protected_route limits lib manager forged
      (on_tunnels (stops (some (codes "t1")) 5 true true)) site refl

not_let_in :
    (who : Identity)
    → auth_middleware lib manager env.now (codes "Bearer x.y.z") ≡ inr who
    → who.user_id ≢ codes "u1"
unfolding auth_middleware bytes_beq split to_lower lower_byte validate_access_token
not_let_in who e = absurd (cc)

serve_api-rows_of_example :
    rows_of (codes "u1") (serve_api limits lib manager forged site).site.world.tunnels
    ≡ rows_of (codes "u1") idle.tunnels
serve_api-rows_of_example =
    serve_api-rows_of limits lib manager forged (codes "u1") site not_let_in idle-IsSynced.distinct

-- The library accepts what it has signed.
is_ann_sound : (c : Claims) → is_ann c ≡ true → c ≡ ann_claims
is_ann_sound c h = ground (
  arith,
  bytes_beq_iff c.user_id (codes "u1"),
  bytes_beq_iff c.email ann_mail,
  bytes_beq_iff c.issuer (codes "tunnel-api"),
)

lib-accepts :
    (claims : Claims) (key tok : Bytes) (at_time : ℕ)
    → lib.sign claims key ≡ some tok
    → at_time < claims.expires_at * second
    → lib.parse_with_claims at_time tok key ≡ some (claims, true)
unfolding bytes_beq
lib-accepts claims key tok at_time signed soon = elim (Bool-cases (is_ann claims)) [
  | inr other ↦ absurd (cc (rw other at signed))
  | inl anns ↦
      let same : claims ≡ ann_claims = is_ann_sound claims anns in
      let token : ann_token ≡ tok = cc (rw anns at signed) in
      let early : at_time < 4600 * second = rw same at soon in
      let fresh : ltb at_time (4600 * second) ≡ true = ground arith in rw (same, ← token) (rw fresh)
]

abbrev ann_logs_in : LoginRequest
ann_logs_in = record { email = ann_mail; password = codes "rosebud1"; totp_code = [] }

abbrev ann_session : AuthResponse
ann_session =
    auth_response lib manager ann ann_token
      (record { token = codes "1fa0"; token_hash = codes "31666130"; expires_at = 605800 * second })

ann_entered : (run (login lib manager env (inr ann_logs_in)) db).0 ≡ session ann_session
unfolding login issue second_factor normalize_email select_row hash_token encode_to_string hex_digit
    bytes_beq bind_json query expect exec require ◌>>=◌ ◌>>◌ generate_access_token
    generate_refresh_token to_lower lower_byte trim_space
ann_entered = refl

serve_api-login_example :
    let after = record site { accounts = (run (login lib manager env (inr ann_logs_in)) db).1 } in
    serve_api limits lib manager (profile_request limits lib manager later ann_token) after
    ≡ sent_only (account (profile ann_session.user)) after
serve_api-login_example =
    serve_api-login limits lib manager env later ann_logs_in ann_session site lib-accepts
      db-IsSound.ids ann_entered (omega arith) refl (omega arith)
