-- ===== src/Tests/Edit.antt =====
-- The user u1 creates a tunnel and changes one.
use void_link_tunnels.Base.{
  zero, suc, ◌≡◌, ◌≤◌, refl, true, none, some, Bytes, codes, nat_eq, bytes_eq, bytes_beq, inr,
  arith,
}
use void_link_tunnels.Base.Int.{pos}
use void_link_tunnels.Models.{CreateTunnelRequest, UpdateTunnelRequest, TunnelResponse, to_response}
use void_link_tunnels.Handlers.{tunnel, port_exists, find_port, allocate_udp_port}
use void_link_tunnels.Handlers.Edit.{
  Limits, Choices, count_rows, subdomain_exists, id_exists, find_subdomain, new_row, insert_row,
  create_named, create,
}
use void_link_tunnels.Handlers.Edit.Limit.{create-count_rows}
use void_link_tunnels.Tests.{zone}
use void_link_tunnels.Tests.Requests.{idle}

abbrev cfg : Limits
cfg = record {
  domain = zone;
  region = codes "eu";
  max_tunnels = 3;
  min_port = 20001;
  max_port = 20004;
}

-- The generator yields a name that exists, and then another.
abbrev ch : Choices
ch = record {
  counted = true;
  generated = λ n. elim n [ zero ↦ some (codes "sad-dog") | suc m ↦ some (codes "red-fox") ];
  names_up = λ _. true;
  ports_up = λ _. true;
  inserted = some (codes "t3");
}

abbrev req : CreateTunnelRequest
req = record {
  name = codes "Creative";
  mc_local_port = pos 0;
  http_local_port = none;
  udp_local_port = pos 0;
}

abbrev u1 : Bytes
u1 = codes "u1"

two_tunnels : count_rows u1 idle.tunnels ≤ cfg.max_tunnels
unfolding count_rows bytes_beq
two_tunnels = omega arith

create-count_rows_example : count_rows u1 (create cfg ch (inr req) u1 9 idle).1.tunnels ≤ 3
create-count_rows_example = create-count_rows cfg ch (inr req) u1 u1 9 idle two_tunnels

abbrev created : TunnelResponse
created = to_response zone (record (new_row cfg req u1 9 (codes "t3") (codes "red-fox") 20002) {
  created_at = 0;
  updated_at = 0;
})

answered : (create cfg ch (inr req) u1 9 idle).0 ≡ tunnel 201 created
unfolding create create_named find_subdomain insert_row allocate_udp_port find_port port_exists
    subdomain_exists id_exists count_rows bytes_beq
answered = refl

-- HTTP is disabled.
abbrev change : UpdateTunnelRequest
change = record {
  name = none;
  mc_local_port = none;
  http_local_port = some (pos 0);
  udp_local_port = none;
}
