-- ===== src/Tests/Channel.antt =====
-- A desktop client connects for the tunnel t1, and a data connection arrives.
use void_link_tunnels.Base.{
  ℕ, ◌≡◌, ◌≢◌, ◌↔◌, refl, true, none, some, [], Bytes, codes, arith, bytes_beq, nat_eq, bytes_eq,
  ◌==◌, if◌then◌else◌, nat_beq,
}
use void_link_tunnels.Base.Int.{pos}
use void_link_tunnels.Base.Map.{load, store}
use void_link_tunnels.Text.{is_space, trim_space, fields, fields_from, trim_left, trim_right}
use void_link_tunnels.Text.Words.{IsWord}
use void_link_tunnels.Tunnel.Server.{Server}
use void_link_tunnels.Tunnel.Server.Data.{pending_channel, handle_data_conn}
use void_link_tunnels.Tunnel.Server.Data.Delivery.{waiting, IsOwn, handle_data_conn-open_session}
use void_link_tunnels.Tunnel.Server.Control.{
  JwtParse, hmac, validate_jwt, serving, done, accept_client, handle_control_conn, handle_new_conn,
  control_ended, first_line, auth_line,
}
use void_link_tunnels.Tunnel.Server.Control.Accept.{
  IsAuth, auth_message, handle_control_conn_iff, handle_new_conn-IsAuth,
  handle_new_conn-auth_message,
}
use void_link_tunnels.Tunnel.Server.Control.Replace.{control_ended-accept_client}
use void_link_tunnels.Tests.{
  cat, cat_client, serving_cat, serving_cat-clients, serving_cat-subdomains, serving_cat-objects,
}

-- A parser that accepts the token that spells the key.
abbrev parse_key : JwtParse
parse_key token key = elim (key hmac) [
  | none ↦ none
  | some secret ↦ if token == secret then some true else none
]

abbrev good : Bytes
good = codes "secret"

abbrev t1 : Bytes
t1 = codes "t1"

good-valid : validate_jwt parse_key good serving_cat ≡ true
unfolding validate_jwt bytes_beq
good-valid = refl

good-IsWord : IsWord good
unfolding is_space
good-IsWord = record { solid = ground arith; some_byte = cc }

t1-IsWord : IsWord t1
unfolding is_space
t1-IsWord = record { solid = ground arith; some_byte = cc }

handle_control_conn_iff_example :
    ((handle_control_conn parse_key 11 good t1 serving_cat).0 ≡ serving 4) ↔ (
      (validate_jwt parse_key good serving_cat ≡ true)
      × ((name : Bytes) × (load name serving_cat.subdomain_map ≡ some t1)))
handle_control_conn_iff_example = handle_control_conn_iff parse_key 11 good t1 serving_cat

served : (handle_new_conn parse_key 11 (some (auth_message good t1)) serving_cat).0 ≡ serving 4
served =
    handle_new_conn-auth_message parse_key 11 good t1 cat serving_cat good-IsWord t1-IsWord
      good-valid serving_cat-subdomains

handle_new_conn-IsAuth_example : IsAuth parse_key 11 (some (auth_message good t1)) serving_cat
handle_new_conn-IsAuth_example =
    handle_new_conn-IsAuth parse_key 11 (some (auth_message good t1)) serving_cat 4 served

-- An HTTP request on the port of the tunnels.
abbrev stray : Bytes
stray = codes "GET /\n"

stray-done : (handle_new_conn parse_key 11 (some stray) serving_cat).0 ≡ done
unfolding handle_new_conn first_line auth_line trim_space trim_left trim_right fields fields_from
    is_space bytes_beq
stray-done = refl

control_ended-accept_client_example :
    control_ended t1 3 (accept_client 11 t1 serving_cat).0 ≡ (accept_client 11 t1 serving_cat).0
control_ended-accept_client_example = control_ended-accept_client 11 3 t1 serving_cat (omega arith)

-- The client object 3 is the only one.
alone : (r : ℕ) → r ≢ 3 → pending_channel cat r serving_cat ≡ none
unfolding pending_channel load store
alone r h = ground arith

own : IsOwn 7 3 cat (pos 25565) [] serving_cat
own = record {
  client = cat_client;
  tunnel_id = t1;
  object = serving_cat-objects;
  current = serving_cat-clients;
  alone = alone;
}

abbrev asked : Server
asked = waiting 7 3 cat (pos 25565) [] serving_cat

handle_data_conn-open_session_example :
    let (s', effects) = handle_data_conn 8 cat asked in
    (effects ≡ [])
    × (load 4 s'.channels ≡ (if nat_beq 4 4 then some (some 8) else load 4 asked.channels))
handle_data_conn-open_session_example =
    handle_data_conn-open_session 7 3 cat (pos 25565) [] serving_cat 8 4 own
