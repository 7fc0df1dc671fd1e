-- ===== src/Handlers/Calls/Restart.antt =====
-- The routing table from the start of the process on: `RestoreActiveTunnels` of
-- internal/services/tunnel_service.go, and then the requests.
use void_link_tunnels.Base.{
  ℕ, ◌≡◌, refl, ap, ◌∙◌, false, Option, none, some, List, [], ◌∷◌, Bytes, bytes_eq, bytes_beq,
  bytes_beq_iff, Bool-cases, inl, inr, arith, if◌then◌else◌, All,
}
use void_link_tunnels.Base.Map.{load}
use void_link_tunnels.Models.{Tunnel}
use void_link_tunnels.Services.{restore_rows, restore_active_tunnels, start_tunnel}
use void_link_tunnels.Services.Restore.{IsOther}
use void_link_tunnels.Tunnel.Server.{Server, new_server}
use void_link_tunnels.Handlers.{World}
use void_link_tunnels.Handlers.Rows.{Distinct, All-map, All-zip}
use void_link_tunnels.Handlers.Followed.{start_tunnel-route}
use void_link_tunnels.Handlers.Edit.{Limits, subdomain_exists}
use void_link_tunnels.Handlers.Calls.{TunnelCall, handle_all, IsCarriedOut, route_of}
use void_link_tunnels.Handlers.Calls.Exact.{IsExact, handle_all-route_of, route_of-others}

-- `WHERE is_active = TRUE`; every row can be scanned.
unfoldable pub active_rows : List Tunnel → List (Option Tunnel)
active_rows [] = []
active_rows (t ∷ rows) = let rest = active_rows rows in if t.is_active then some t ∷ rest else rest

abbrev or_else : Option Bytes → Option Bytes → Option Bytes
or_else none other = other
or_else (some id) other = some id

restore_rows-route :
    (name : Bytes) (rows : List Tunnel) (s : Server)
    → Distinct rows
    → load name (restore_rows (active_rows rows) s).0.subdomain_map
      ≡ or_else (route_of name rows) (load name s.subdomain_map)
unfolding restore_rows active_rows route_of start_tunnel
restore_rows-route name [] s d = refl
restore_rows-route name (t ∷ rows) s (fresh, d) = elim (Bool-cases t.is_active) [
  | inr idle ↦ elim (Bool-cases (bytes_beq t.subdomain name)) [
    | inl same ↦ rw (idle, same) (restore_rows-route name rows s d)
    | inr other ↦ rw (idle, other) (restore_rows-route name rows s d)
  ]
  | inl active ↦
      let later = restore_rows-route name rows (start_tunnel t s).0 d in
      elim (Bool-cases (bytes_beq t.subdomain name)) [
        | inl same ↦
            let named : t.subdomain ≡ name = (bytes_beq_iff t.subdomain name).0 same in
            let routed = start_tunnel-route t s name ∙ rw same in
            rw (active, same) (later ∙ rw (route_of-others t name rows named fresh) routed)
        | inr other ↦
            let kept = start_tunnel-route t s name ∙ rw other in
            rw (active, other) (later ∙ ap (or_else (route_of name rows)) kept)
      ]
]

-- Each row is led to by its own subdomain, if it is active.
route_of-rows :
    (rows : List Tunnel)
    → Distinct rows
    → All (λ u. route_of u.subdomain rows ≡ (if u.is_active then some u.id else none)) rows
unfolding route_of
route_of-rows [] d = tt
route_of-rows (t ∷ rows) (fresh, d) = (
  elim (Bool-cases t.is_active) [
    | inl active ↦ rw ((bytes_beq_iff t.subdomain t.subdomain).1 refl, active)
    | inr idle ↦
        rw ((bytes_beq_iff t.subdomain t.subdomain).1 refl, idle)
          (route_of-others t t.subdomain rows refl fresh)
  ],
  All-zip (IsOther t) (λ u. route_of u.subdomain rows ≡ (if u.is_active then some u.id else none)) _
      (λ u other led. ground (arith, other.subdomain, led, bytes_beq_iff t.subdomain u.subdomain))
      rows fresh (route_of-rows rows d),
)

route_of_unknown :
    (name : Bytes) (rows : List Tunnel)
    → subdomain_exists name rows ≡ false
    → route_of name rows ≡ none
unfolding route_of subdomain_exists
route_of_unknown name [] h = refl
route_of_unknown name (t ∷ rows) h = ground (arith, route_of_unknown name rows)

or_else-none : (o : Option Bytes) → or_else o none ≡ o
or_else-none none = refl
or_else-none (some id) = refl

-- After the restore the routing table, which was empty before, is the one that the rows describe.
restored-route_of :
    (rows : List Tunnel) (s : Server) (name : Bytes)
    → Distinct rows
    → load name s.subdomain_map ≡ none
    → load name (restore_rows (active_rows rows) s).0.subdomain_map ≡ route_of name rows
restored-route_of rows s name d empty =
    restore_rows-route name rows s d
    ∙ ap (or_else (route_of name rows)) empty
    ∙ or_else-none (route_of name rows)

restart-IsExact :
    (rows : List Tunnel) (s : Server)
    → Distinct rows
    → ((name : Bytes) → load name s.subdomain_map ≡ none)
    → IsExact
        (record { tunnels = rows; server = (restore_active_tunnels (some (active_rows rows)) s).0 })
unfolding restore_active_tunnels
restart-IsExact rows s d empty = record {
  synced = record {
    distinct = d;
    followed =
        All-map (λ u. route_of u.subdomain rows ≡ (if u.is_active then some u.id else none)) _
          (λ u led. restored-route_of rows s u.subdomain d (empty u.subdomain) ∙ led) rows
          (route_of-rows rows d);
  };
  clear =
      λ name gone. restored-route_of rows s name d (empty name) ∙ route_of_unknown name rows gone;
}

-- Start the process with any rows whose ids and subdomains are distinct, let it restore the active
-- ones into a new server, and then let users send any requests for tunnels, in any order, where the
-- database carries out the statements of stops and deletions. At the end the routing table of
-- subdomains is a function of the rows: a subdomain leads to the tunnel that has it, if that is
-- active, and else nowhere.
pub restart-route_of :
    (cfg : Limits) (rows : List Tunnel) (calls : List (Bytes × TunnelCall)) (secret name : Bytes)
    (tunnel_port mc_proxy_port http_proxy_port : ℕ)
    → Distinct rows
    → All IsCarriedOut calls
    → let s =
        new_server secret tunnel_port mc_proxy_port http_proxy_port cfg.domain cfg.min_port
          cfg.max_port in
      let start : World = record {
        tunnels = rows;
        server = (restore_active_tunnels (some (active_rows rows)) s).0;
      } in
      load name (handle_all cfg calls start).server.subdomain_map
      ≡ route_of name (handle_all cfg calls start).tunnels
unfolding load
restart-route_of cfg rows calls secret name tunnel_port mc_proxy_port http_proxy_port d out =
    let s =
      new_server secret tunnel_port mc_proxy_port http_proxy_port cfg.domain cfg.min_port
        cfg.max_port in
    handle_all-route_of cfg calls _ name out (restart-IsExact rows s d (λ n. refl))
