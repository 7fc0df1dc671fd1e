-- ===== src/Tunnel/Server/Data.antt =====
-- Data connections and the sessions that wait for them: `handleDataConn` of
-- internal/tunnel/server.go, and what the two proxies have in common: a fresh channel under a new
-- id in the client's `pendingTCP`, the request OPEN, and the removal when the handler returns.
pub mod Delivery
pub mod Opened
use void_link_tunnels.Base.{
  ℕ, ◌+◌, Bool, true, false, Option, none, some, List, [], ◌∷◌, ◌++◌, Bytes, codes, is_some,
  if◌then◌else◌, nat_eq, bytes_eq,
}
use void_link_tunnels.Base.Int.{ℤ, int_text}
use void_link_tunnels.Base.Map.{Map, load, store, delete, range_first}
use void_link_tunnels.Tunnel.Server.{Server, ClientConn, Effect, write, close}

-- The channel that the client behind a reference keeps for an id.
unfoldable pub pending_channel : Bytes → ℕ → Server → Option ℕ
pending_channel conn_id ref s = elim (load ref s.objects) [
  | none ↦ none
  | some client ↦ load conn_id client.pending_tcp
]

-- The send into a channel of capacity one, or else the connection is closed. (Without a channel
-- nothing is done; after the walk that found the id this cannot be.)
unfoldable pub deliver : ℕ → Option ℕ → Server → Server × List Effect
deliver conn none s = (s, [])
deliver conn (some channel) s = elim (load channel s.channels) [
  | some none ↦ (record s { channels = store channel (some conn) s.channels }, [])
  | _ ↦ (s, close conn ∷ [])
]

-- The walk over the clients for one with a pending connection of that id.
unfoldable pub find_pending : Bytes → Server → Option ℕ
find_pending conn_id s = range_first (λ ref. is_some (pending_channel conn_id ref s)) s.clients

unfoldable pub handle_data_conn : ℕ → Bytes → Server → Server × List Effect
unfolding find_pending deliver
handle_data_conn conn conn_id s = elim (find_pending conn_id s) [
  | none ↦ (s, close conn ∷ [])
  | some ref ↦ deliver conn (pending_channel conn_id ref s) s
]

-- A change of the client object behind a reference.
unfoldable pub update_pending : ℕ → (Map Bytes ℕ → Map Bytes ℕ) → Server → Server
update_pending ref f s = elim (load ref s.objects) [
  | none ↦ s
  | some client ↦ record s {
    objects = store ref (record client { pending_tcp = f client.pending_tcp }) s.objects;
  }
]

-- What a handler keeps while it waits: the player, the client that it asked, the id and channel,
-- and the bytes that go first.
pub record Session : Type 0 where
  pub player : ℕ
  pub client : ℕ
  pub conn_id : Bytes
  pub channel : ℕ
  pub buffered : Bytes

-- `client.send` of a message that is written to the client's connection.
unfoldable pub client_write : ℕ → Bytes → Server → List Effect
client_write ref message s = elim (load ref s.objects) [
  | none ↦ []
  | some client ↦ write client.conn message ∷ []
]

-- The message that asks a client for a data connection.
unfoldable pub open_message : Bytes → ℤ → Bytes
unfolding int_text
open_message conn_id port =
    codes "OPEN " ++ (conn_id ++ (codes " " ++ (int_text port ++ codes "\n")))

-- `defer client.pendingTCP.Delete(connID)`
unfoldable pub forget : ℕ → Bytes → Server → Server
unfolding update_pending
forget ref conn_id s = update_pending ref (delete conn_id) s

-- The two handlers from `generateID` on: `sent` says whether `client.send` succeeds. If it does
-- not, the handler returns, and its deferred calls run.
unfoldable pub open_session :
    ℕ → ℕ → Bytes → ℤ → Bytes → Bool → Server → Option Session × Server × List Effect
unfolding forget update_pending client_write open_message
open_session player ref conn_id port buffered sent s =
    let channel = s.next_ref in
    let waiting =
      update_pending ref (store conn_id channel)
        (record s { channels = store channel none s.channels; next_ref = channel + 1 }) in
    if sent
    then (
      some (record {
        player = player;
        client = ref;
        conn_id = conn_id;
        channel = channel;
        buffered = buffered;
      }),
      waiting,
      client_write ref (open_message conn_id port) s,
    )
    else (none, forget ref conn_id waiting, close player ∷ [])
