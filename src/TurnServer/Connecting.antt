-- ===== src/TurnServer/Connecting.antt =====
-- `connect` and `connection_bind` of rust/core/src/relay/turn_server.rs, with the sockets parked
-- in `PENDING` passed in and out. `serve` makes the map before it accepts a connection.
use localsend_rs.Base.{
  ℕ, ◌+◌, ◌/◌, ◌%◌, ◌^◌, ◌++◌, Bool, none, some, List, [], ◌∷◌, nat_eq, if◌then◌else◌, any,
}
use localsend_rs.HashMap.{get, insert, remove, values, map_entries}
use localsend_rs.Stun.Types.{Method, Attr}
use localsend_rs.Stun.Codec.{Incoming}
use localsend_rs.Stun.Fields.{Ipv4Addr, SocketAddr, v4, v6, xor_address, connection_id}
use localsend_rs.TurnServer.State.{
  Crypto, TurnServerConfig, Allocation, Session, Pending, Env, ascii,
}
use localsend_rs.TurnServer.Replies.{error_resp, connect_resp, success}
use localsend_rs.TurnServer.Allocations.{permits}

unfoldable pub permitted : Ipv4Addr → Session → Bool
unfolding permits
permitted ip session = any (permits ip) (values session.allocations)

-- `(rand_nonce() >> 32) as u32`
unfoldable pub conn_id_of : Env → ℕ
conn_id_of env = env.random / 2 ^ 32 % 2 ^ 32

unfoldable pub connected : TurnServerConfig → Env → ℕ → Session → Session
connected cfg env conn_id session = record session {
  allocations =
      map_entries
        (λ port (a : Allocation). record a {
          connections = a.connections ++ conn_id ∷ [];
          deadline = env.now + cfg.lifetime;
        })
        session.allocations;
}

-- The call of `TcpStream::connect`.
unfoldable pub dialing : SocketAddr → Session → Session
dialing peer session = record session { dialed = peer ∷ session.dialed }

-- The part of `connect` after the permission was found.
unfoldable pub dial_peer :
    Crypto
    → TurnServerConfig
    → Env
    → Incoming
    → SocketAddr
    → Session
    → Pending
    → (Session × Pending) × List ℕ
unfolding dialing connected conn_id_of
dial_peer crypto cfg env msg peer session pending = elim (env.dial peer) [
  | none ↦ ((dialing peer session, pending), error_resp crypto msg 447 (ascii "connection failed"))
  | some stream ↦ (
    (
      connected cfg env (conn_id_of env) (dialing peer session),
      insert (conn_id_of env) stream pending,
    ),
    connect_resp crypto (conn_id_of env) msg,
  )
]

unfoldable pub connect :
    Crypto → TurnServerConfig → Env → Incoming → Session → Pending → (Session × Pending) × List ℕ
unfolding xor_address permitted dial_peer
connect crypto cfg env msg session pending = elim (xor_address Attr.xor_peer_address msg) [
  | none ↦ ((session, pending), error_resp crypto msg 400 (ascii "missing xor-peer-address"))
  | some (v6 octets port) ↦
      ((session, pending), error_resp crypto msg 443 (ascii "peer family mismatch"))
  | some (v4 ip port) ↦
      if permitted ip session
      then dial_peer crypto cfg env msg (v4 ip port) session pending
      else ((session, pending), error_resp crypto msg 403 (ascii "no permission for peer"))
]

-- What a ConnectionBind leads to: an answer and the end of the connection, or an answer and a
-- pipe between the connection and the socket `stream`.
pub data Bind : Type 0 where
  refused : List ℕ → Bind
  spliced : List ℕ → ℕ → Bind

unfoldable pub connection_bind : Crypto → Incoming → Pending → Pending × Bind
unfolding connection_id
connection_bind crypto msg pending = elim (connection_id msg) [
  | none ↦ (pending, Bind.refused (error_resp crypto msg 400 (ascii "missing connection id")))
  | some conn_id ↦ elim (get conn_id pending) [
    | none ↦ (
      remove conn_id pending,
      Bind.refused (error_resp crypto msg 437 (ascii "allocation mismatch")),
    )
    | some stream ↦
        (remove conn_id pending, Bind.spliced (success crypto Method.connection_bind msg) stream)
  ]
]
