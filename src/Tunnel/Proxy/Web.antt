-- ===== src/Tunnel/Proxy/Web.antt =====
-- A visitor of a tunnel's web map: from the header lines of the request to the client.
use void_link_tunnels.Base.{
  ℕ, ◌≡◌, ◌≢◌, refl, ◌∙◌, ap, sym, Bool, some, List, [], ◌∷◌, ◌++◌, Bytes, All, bytes_beq, arith,
  Option-cases, Bool-cases, inl, inr, nat_eq, bytes_eq,
}
use void_link_tunnels.Base.Int.{ℤ}
use void_link_tunnels.Base.Map.{load}
use void_link_tunnels.Text.{split_host_port}
use void_link_tunnels.Text.Host.{IsHost}
use void_link_tunnels.Tunnel.Hostname.{strip_port, extract_subdomain_from_addr}
use void_link_tunnels.Tunnel.Hostname.Laws.{IsLabel, dotted, extract_subdomain_from_addr-dotted}
use void_link_tunnels.Tunnel.Server.{Server, ClientConn}
use void_link_tunnels.Tunnel.Server.Data.{Session, open_session}
use void_link_tunnels.Tunnel.Server.Data.Opened.{IsOpened, IsOpened-same, open_session-IsOpened}
use void_link_tunnels.Tunnel.Proxy.{generate_id, http_route, open_http_connection, read_headers}
use void_link_tunnels.Tunnel.Proxy.Minecraft.{if_named_lem, open_session-eq-some}
use void_link_tunnels.Tunnel.Proxy.HeaderBlock.{
  IsField, put_headers, host_of, read_headers-put_headers,
}

-- What the server's tables must hold for a subdomain's web map to be reached: a registration with
-- an HTTP port, and a connected client.
pub record IsWebServed (sub : Bytes) (s : Server) : Type 0 where
  pub tunnel_id : Bytes
  pub client : ℕ
  pub port : ℤ
  pub label : IsLabel sub
  pub named : sub ≢ []
  pub domain : IsHost s.domain
  pub routed : load sub s.subdomain_map ≡ some tunnel_id
  pub http_port : load tunnel_id s.tunnel_http_port ≡ some port
  pub connected : load tunnel_id s.clients ≡ some client

dotted-ne-nil : (a b : Bytes) → dotted a b ≢ []
dotted-ne-nil [] b = cc
dotted-ne-nil (c ∷ a) b = cc

strip_port-nil : strip_port [] ≡ []
unfolding strip_port split_host_port
strip_port-nil = refl

http_route_served :
    (header pre sub : Bytes) (s : Server) (v : IsWebServed sub s)
    → IsHost pre
    → strip_port header ≡ dotted pre (dotted sub s.domain)
    → http_route header s ≡ some (v.port, v.client)
unfolding http_route
http_route_served header pre sub s v hp e =
    let present : header ≢ [] =
      λ n. dotted-ne-nil pre (dotted sub s.domain) (sym e ∙ ap strip_port n ∙ strip_port-nil) in
    let found : extract_subdomain_from_addr (strip_port header) s.domain ≡ sub =
      ap (λ a. extract_subdomain_from_addr a s.domain) e
      ∙ (extract_subdomain_from_addr-dotted sub s.domain [] pre v.label v.domain none_at_all
          hp).2 in
    rw (if_named_lem header present)
      (rw (found, if_named_lem sub v.named) (rw v.routed (rw v.http_port (rw v.connected))))
  where
    none_at_all : IsHost []
    none_at_all = record { colon = tt; left = tt; right = tt }

open_http_connection-open_session :
    (player ts : ℕ) (lines : List Bytes) (rest pre sub : Bytes) (s : Server) (v : IsWebServed sub s)
    → All IsField lines
    → IsHost pre
    → strip_port (host_of lines []) ≡ dotted pre (dotted sub s.domain)
    → (sent : Bool)
    → open_http_connection player (put_headers lines ++ rest) ts sent s
      ≡ open_session player v.client (generate_id ts) v.port (put_headers lines) sent s
unfolding open_http_connection
open_http_connection-open_session player ts lines rest pre sub s v hl hp e sent =
    rw
      (
        read_headers-put_headers lines rest hl,
        http_route_served (host_of lines []) pre sub s v hp e,
        open_http_connection,
      )
      (rw (read_headers-put_headers lines rest hl))

-- A request of header lines that are not blank, whose last Host header names `prefix.sub.domain`,
-- with or without a port, for a subdomain with an HTTP port and a connected client: the visitor
-- gets a session with exactly that client, which is sent OPEN with the session's id and the HTTP
-- port; the session's channel is pending, and the header block is kept unchanged. If the client
-- cannot be told, the visitor gets no session and is disconnected, and nothing is pending under the
-- id. This holds whatever follows the header block.
pub open_http_connection-put_headers :
    (player ts : ℕ) (lines : List Bytes) (rest pre sub : Bytes) (client : ClientConn) (s : Server)
    (v : IsWebServed sub s)
    → load v.client s.objects ≡ some client
    → All IsField lines
    → IsHost pre
    → strip_port (host_of lines []) ≡ dotted pre (dotted sub s.domain)
    → IsOpened player v.client
        (generate_id ts)
        v.port
        (put_headers lines)
        client
        s
        (λ sent. open_http_connection player (put_headers lines ++ rest) ts sent s)
open_http_connection-put_headers player ts lines rest pre sub client s v found hl hp e =
    IsOpened-same _ _ (open_http_connection-open_session player ts lines rest pre sub s v hl hp e) (
      open_session-IsOpened player v.client (generate_id ts) v.port (put_headers lines) client s
        found)

-- How a visitor was routed: the tunnel that the request's host leads to, and its HTTP port.
pub record IsWebRouted (stream : Bytes) (s : Server) (session : Session) : Type 0 where
  pub tunnel_id : Bytes
  pub port : ℤ
  pub registered :
      load
        (extract_subdomain_from_addr (strip_port (read_headers stream).host) s.domain)
        s.subdomain_map
      ≡ some tunnel_id
  pub enabled : load tunnel_id s.tunnel_http_port ≡ some port
  pub connected : load tunnel_id s.clients ≡ some session.client
  pub request : session.buffered ≡ (read_headers stream).raw

http_route_sound :
    (header : Bytes) (s : Server) (port : ℤ) (client : ℕ)
    → http_route header s ≡ some (port, client)
    → (id : Bytes) × (load
          (extract_subdomain_from_addr (strip_port header) s.domain)
          s.subdomain_map
        ≡ some id)
      × (load id s.tunnel_http_port ≡ some port)
      × (load id s.clients ≡ some client)
unfolding http_route
http_route_sound header s port client h =
    let name = extract_subdomain_from_addr (strip_port header) s.domain in
    elim (Bool-cases (bytes_beq header [])) [
      | inl empty ↦ absurd (ground arith)
      | inr given ↦ elim (Bool-cases (bytes_beq name [])) [
        | inl empty ↦ absurd (ground arith)
        | inr named ↦ elim (Option-cases (load name s.subdomain_map)) [
          | inl n ↦ absurd (ground arith)
          | inr (id, routed) ↦ elim (Option-cases (load id s.tunnel_http_port)) [
            | inl n ↦ absurd (ground arith)
            | inr (p, enabled) ↦ elim (Option-cases (load id s.clients)) [
              | inl n ↦ absurd (ground arith)
              | inr (ref, connected) ↦ (id, routed, ground arith, ground arith)
            ]
          ]
        ]
      ]
    ]

-- Whatever a visitor of the web proxy sends: if a session is opened, the host of the request names,
-- under the server's domain, a registered subdomain whose tunnel has HTTP enabled, the session is
-- with that tunnel's present client, and the header block is kept as it was sent.
pub open_http_connection-IsWebRouted :
    (player ts : ℕ) (stream : Bytes) (sent : Bool) (s : Server) (session : Session)
    → (open_http_connection player stream ts sent s).0 ≡ some session
    → IsWebRouted stream s session
unfolding open_http_connection
open_http_connection-IsWebRouted player ts stream sent s session h =
    elim (Option-cases (http_route (read_headers stream).host s)) [
      | inl n ↦ absurd (ground (arith, n))
      | inr ((port, ref), routed) ↦
          let (id, registered, enabled, connected) =
            http_route_sound (read_headers stream).host s port ref routed in
          let (client, buffered, _) =
            open_session-eq-some player ref (generate_id ts) _ _ sent _ session
              (rw (routed, open_http_connection) at h) in
          record {
            tunnel_id = id;
            port = port;
            registered = registered;
            enabled = enabled;
            connected = connected ∙ ap some (sym client);
            request = buffered;
          }
    ]
