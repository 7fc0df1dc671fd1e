-- ===== src/Handlers/Edit/Limit.antt =====
-- What `Create` keeps: the limit of tunnels for each user, and distinct names and ports.
use void_link_tunnels.Base.{
  ℕ, suc, ◌≤◌, ◌≡◌, false, Option, none, some, [], Bytes, Option-cases, Bool-cases, ◌⊎◌, inl, inr,
  arith, if◌then◌else◌, leb, ◌==◌, bytes_eq, bytes_beq, bytes_beq_iff,
}
use void_link_tunnels.Models.{CreateTunnelRequest, TunnelResponse, to_response}
use void_link_tunnels.Handlers.{World, tunnel, port_exists, allocate_udp_port}
use void_link_tunnels.Handlers.Edit.{
  Limits, Choices, count_rows, subdomain_exists, find_subdomain, insert_row, create_named, create,
}

-- At most one row is added, and it is the user's.
insert_row-count_rows :
    (cfg : Limits) (req : CreateTunnelRequest) (user name other : Bytes) (now port : ℕ)
    (id : Option Bytes) (w : World)
    → count_rows other (insert_row cfg req user now name port id w).1.tunnels
      ≤ (if user == other then suc (count_rows other w.tunnels) else count_rows other w.tunnels)
unfolding insert_row count_rows
insert_row-count_rows cfg req user name other now port none w = ground arith
insert_row-count_rows cfg req user name other now port (some id) w = ground arith

create_named-count_rows :
    (cfg : Limits) (ch : Choices) (req : CreateTunnelRequest) (user other : Bytes) (now : ℕ)
    (w : World)
    → count_rows other (create_named cfg ch req user now w).1.tunnels
      ≤ (if user == other then suc (count_rows other w.tunnels) else count_rows other w.tunnels)
unfolding create_named
create_named-count_rows cfg ch req user other now w =
    elim (Option-cases (find_subdomain ch w.tunnels 0 10)) [
      | inl n ↦ rw (n, create_named) (ground arith)
      | inr (name, found) ↦ elim (Bool-cases (bytes_beq name [])) [
        | inl empty ↦ rw (found, empty, create_named) (ground arith)
        | inr named ↦
            elim (Option-cases
              (allocate_udp_port ch.ports_up cfg.min_port cfg.max_port w.tunnels)) [
                | inl n ↦ rw (found, named, n, create_named) (ground arith)
                | inr (port, free) ↦
                    rw (found, named, free, create_named)
                      (insert_row-count_rows cfg req user name other now port ch.inserted w)
              ]
      ]
    ]

-- No user comes to have more tunnels than the limit by a request for a new tunnel, whoever sends it
-- and whatever the database and the generator do; requests are taken one after the other.
pub create-count_rows :
    (cfg : Limits) (ch : Choices) (body : Bytes ⊎ CreateTunnelRequest) (user other : Bytes)
    (now : ℕ) (w : World)
    → count_rows other w.tunnels ≤ cfg.max_tunnels
    → count_rows other (create cfg ch body user now w).1.tunnels ≤ cfg.max_tunnels
unfolding create
create-count_rows cfg ch (inl e) user other now w h = h
create-count_rows cfg ch (inr req) user other now w h =
    ground (arith, create_named-count_rows cfg ch req user other now w, bytes_beq_iff user other)

insert_row-fresh :
    (cfg : Limits) (req : CreateTunnelRequest) (user name : Bytes) (now port : ℕ)
    (id : Option Bytes) (w : World) (r : TunnelResponse)
    → (insert_row cfg req user now name port id w).0 ≡ tunnel 201 r
    → (subdomain_exists r.subdomain w.tunnels ≡ false)
      × (port_exists r.udp_public_port w.tunnels ≡ false)
      × (count_rows user (insert_row cfg req user now name port id w).1.tunnels
          ≡ suc (count_rows user w.tunnels))
unfolding insert_row count_rows to_response
insert_row-fresh cfg req user name now port none w r e = absurd (cc)
insert_row-fresh cfg req user name now port (some id) w r e =
    ground (arith, bytes_beq_iff user user)

create_named-fresh :
    (cfg : Limits) (ch : Choices) (req : CreateTunnelRequest) (user : Bytes) (now : ℕ) (w : World)
    (r : TunnelResponse)
    → (create_named cfg ch req user now w).0 ≡ tunnel 201 r
    → (subdomain_exists r.subdomain w.tunnels ≡ false)
      × (port_exists r.udp_public_port w.tunnels ≡ false)
      × (count_rows user (create_named cfg ch req user now w).1.tunnels
          ≡ suc (count_rows user w.tunnels))
unfolding create_named
create_named-fresh cfg ch req user now w r e =
    elim (Option-cases (find_subdomain ch w.tunnels 0 10)) [
      | inl n ↦ absurd (cc (rw (n, create_named) at e))
      | inr (name, found) ↦ elim (Bool-cases (bytes_beq name [])) [
        | inl empty ↦ absurd (cc (rw (found, empty, create_named) at e))
        | inr named ↦
            elim (Option-cases
              (allocate_udp_port ch.ports_up cfg.min_port cfg.max_port w.tunnels)) [
                | inl n ↦ absurd (cc (rw (found, named, n, create_named) at e))
                | inr (port, free) ↦
                    rw (found, named, free, create_named)
                      (insert_row-fresh cfg req user name now port ch.inserted w r
                        (rw (found, named, free, create_named) at e))
              ]
      ]
    ]

-- A request that is answered with a new tunnel: no other row has its subdomain or its public port,
-- and the user has one tunnel more than before.
pub create-fresh :
    (cfg : Limits) (ch : Choices) (body : Bytes ⊎ CreateTunnelRequest) (user : Bytes) (now : ℕ)
    (w : World) (r : TunnelResponse)
    → (create cfg ch body user now w).0 ≡ tunnel 201 r
    → (subdomain_exists r.subdomain w.tunnels ≡ false)
      × (port_exists r.udp_public_port w.tunnels ≡ false)
      × (count_rows user (create cfg ch body user now w).1.tunnels
          ≡ suc (count_rows user w.tunnels))
unfolding create create_named
create-fresh cfg ch (inl m) user now w r e = absurd (cc)
create-fresh cfg ch (inr req) user now w r e = elim (Bool-cases ch.counted) [
  | inl counted ↦ elim (Bool-cases (leb cfg.max_tunnels (count_rows user w.tunnels))) [
    | inl full ↦ absurd (cc (rw (counted, full) at e))
    | inr room ↦
        rw (counted, room) (create_named-fresh cfg ch req user now w r (rw (counted, room) at e))
  ]
  | inr failed ↦ absurd (cc (rw failed at e))
]
