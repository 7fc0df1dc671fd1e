-- ===== src/Tests/Requests.antt =====
-- Requests of the user u1, who has the tunnel t1, for a server that routes nothing yet and for one
-- that routes t1.
use void_link_tunnels.Base.{
  ◌≡◌, refl, true, false, none, some, [], ◌∷◌, Bytes, codes, nat_eq, bytes_eq, bytes_beq,
  bytes_beq_iff, false, ◌≢◌, ◌≤◌, ◌⊎◌, arith, All,
}
use void_link_tunnels.Base.Map.{load, store}
use void_link_tunnels.Models.{Tunnel}
use void_link_tunnels.Services.Restore.{IsOther}
use void_link_tunnels.Handlers.{
  World, select_tunnel, get, start, stop, remove, only, not_found, allocate_udp_port, find_port,
  port_exists,
}
use void_link_tunnels.Handlers.Pool.{allocate_udp_port-eq-some}
use void_link_tunnels.Handlers.Followed.{IsSynced}
use void_link_tunnels.Handlers.Synced.{stop-failed, with_tunnel-not_found}
use void_link_tunnels.Tests.{cat, zone, connected, serving_cat, cat_tunnel, dog_tunnel}

-- The tunnel t2 is stopped; it has another port.
abbrev pub resting_dog : Tunnel
resting_dog = record dog_tunnel { is_active = false; udp_public_port = some 20003 }

abbrev pub resting_cat : Tunnel
resting_cat = record cat_tunnel { is_active = false }

abbrev active : World
active = record { tunnels = cat_tunnel ∷ resting_dog ∷ []; server = serving_cat }

abbrev pub idle : World
idle = record { tunnels = resting_cat ∷ resting_dog ∷ []; server = connected }

abbrev t1 : Bytes
t1 = codes "t1"

abbrev u1 : Bytes
u1 = codes "u1"

dog-IsOther : IsOther cat_tunnel resting_dog
unfolding bytes_beq
dog-IsOther = record {
  id = λ e. absurd (cc ((bytes_beq_iff (codes "t2") t1).1 e));
  subdomain = λ e. absurd (cc ((bytes_beq_iff (codes "sad-dog") cat).1 e));
}

active-IsSynced : IsSynced active
unfolding load store bytes_beq
active-IsSynced = record { distinct = ((dog-IsOther, tt), (tt, tt)); followed = (refl, (refl, tt)) }

pub idle-IsSynced : IsSynced idle
unfolding load bytes_beq
idle-IsSynced = record {
  distinct = ((record { id = dog-IsOther.id; subdomain = dog-IsOther.subdomain }, tt), (tt, tt));
  followed = (refl, (refl, tt));
}

found : select_tunnel t1 u1 active.tunnels ≡ some cat_tunnel
unfolding select_tunnel bytes_beq
found = refl

stop-failed_example :
    let w' = (stop (some t1) u1 5 true false active).1 in
    (w'.tunnels ≡ active.tunnels) × (load cat w'.server.subdomain_map ≡ none)
stop-failed_example = stop-failed t1 u1 5 active cat_tunnel found refl

-- Another user.
abbrev u2 : Bytes
u2 = codes "u2"

other_user : u1 ≢ u2
unfolding bytes_beq
other_user e = absurd (cc ((bytes_beq_iff u1 u2).1 e))

not_theirs : All (λ t. t.id ≡ t1 → t.user_id ≢ u2) active.tunnels
not_theirs = (λ e. other_user, (λ e. other_user, tt))

with_tunnel-not_found_example :
    (get zone (some t1) u2 true active ≡ only active not_found)
    × (start (some t1) u2 5 true true active ≡ only active not_found)
    × (stop (some t1) u2 5 true true active ≡ only active not_found)
    × (remove (some t1) u2 true true active ≡ only active not_found)
with_tunnel-not_found_example = with_tunnel-not_found zone t1 u2 5 true true active not_theirs

first_free : allocate_udp_port (λ _. true) 20001 20004 active.tunnels ≡ some 20002
unfolding allocate_udp_port find_port port_exists
first_free = refl

allocate_udp_port-eq-some_example :
    (20001 ≤ 20002)
    × (20002 ≤ 20004)
    × (port_exists 20002 active.tunnels ≡ false)
    × ((20002 ≤ 20001) ⊎ (port_exists 20001 active.tunnels ≡ true))
allocate_udp_port-eq-some_example =
    allocate_udp_port-eq-some 20001 20004 20002 20001 active.tunnels first_free (omega arith)

none_free : allocate_udp_port (λ _. true) 20001 20001 active.tunnels ≡ none
unfolding allocate_udp_port find_port port_exists
none_free = refl
