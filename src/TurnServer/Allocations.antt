-- ===== src/TurnServer/Allocations.antt =====
-- `allocate`, `refresh` and `permission` of rust/core/src/relay/turn_server.rs. A handler reads
-- the clock once, at `env.now`.
use localsend_rs.Base.{
  ℕ, ◌+◌, ◌%◌, ◌++◌, Bool, true, false, Option, none, some, List, [], ◌∷◌, ◌==◌, nat_eq, bytes_eq,
  if◌then◌else◌, ltb, nat_beq, any,
}
use localsend_rs.HashMap.{insert, map_entries}
use localsend_rs.Stun.Types.{Method, Attr, Result, ok, ◌>>=◌}
use localsend_rs.Stun.Codec.{Incoming}
use localsend_rs.Stun.Fields.{Ipv4Addr, v4, v6, find, string_attr, xor_address, lifetime}
use localsend_rs.TurnServer.State.{
  Crypto, TurnServerConfig, Allocation, Session, Env, ascii, ipv4_eq,
}
use localsend_rs.TurnServer.Auth.{verify_integrity}
use localsend_rs.TurnServer.Replies.{error_resp, challenge, allocate_resp, refresh_resp, success}

-- Is the first byte of REQUESTED-TRANSPORT 6?
unfoldable pub wants_tcp : Incoming → Bool
unfolding find
wants_tcp msg = elim (find Attr.requested_transport msg) [
  | none ↦ false
  | some [] ↦ false
  | some (protocol ∷ rest) ↦ nat_beq protocol 6
]

unfoldable pub requested_lifetime : TurnServerConfig → Incoming → ℕ
unfolding lifetime
requested_lifetime cfg msg = elim (lifetime msg) [
  | none ↦ cfg.lifetime
  | some s ↦ if ltb 0 s then s else cfg.lifetime
]

-- The user that the session is bound to, if this request may go on.
unfoldable pub bind_user : Option (List ℕ) → List ℕ → Bool
bind_user none username = true
bind_user (some u) username = u == username

unfoldable pub allocated : TurnServerConfig → Env → Incoming → List ℕ → Session → Session
unfolding requested_lifetime
allocated cfg env msg username session = record session {
  username = some username;
  allocations =
      insert (49152 + env.random % 16384)
        (record {
          permissions = [];
          connections = [];
          deadline = env.now + requested_lifetime cfg msg;
        })
        session.allocations;
}

unfoldable pub username_of : Crypto → Incoming → List ℕ
unfolding string_attr
username_of crypto msg = elim (string_attr crypto.utf8_lossy Attr.username msg) [
  | none ↦ []
  | some u ↦ u
]

unfoldable pub allocate :
    Crypto → TurnServerConfig → Env → List ℕ → Incoming → Session → Result (Session × List ℕ)
unfolding wants_tcp verify_integrity username_of bind_user allocated
allocate crypto cfg env raw msg session =
    if wants_tcp msg
    then (do
      valid ← verify_integrity crypto cfg raw msg
      ok (
          if valid
          then (if bind_user session.username (username_of crypto msg)
              then (
                allocated cfg env msg (username_of crypto msg) session,
                allocate_resp crypto cfg (49152 + env.random % 16384) (requested_lifetime cfg msg)
                    msg,
              )
              else (session, error_resp crypto msg 441 (ascii "wrong credentials")))
          else (session, challenge crypto cfg session.nonce msg)))
    else ok (session, error_resp crypto msg 442 (ascii "TCP only"))

unfoldable pub refresh :
    Crypto → TurnServerConfig → Env → List ℕ → Incoming → Session → Result (Session × List ℕ)
unfolding verify_integrity requested_lifetime
refresh crypto cfg env raw msg session = do
  valid ← verify_integrity crypto cfg raw msg
  ok (
      if valid
      then (
        record session {
          allocations =
              map_entries
                (λ port (a : Allocation). record a {
                  deadline = env.now + requested_lifetime cfg msg;
                })
                session.allocations;
        },
        refresh_resp crypto (requested_lifetime cfg msg) msg,
      )
      else (session, error_resp crypto msg 401 (ascii "unauthorized")))

unfoldable pub permits : Ipv4Addr → Allocation → Bool
permits ip a = any (λ p. p == ip) a.permissions

unfoldable pub permit : TurnServerConfig → Env → Ipv4Addr → Allocation → Allocation
unfolding permits
permit cfg env ip a = record a {
  permissions = if permits ip a then a.permissions else a.permissions ++ ip ∷ [];
  deadline = env.now + cfg.lifetime;
}

unfoldable pub permission :
    Crypto → TurnServerConfig → Env → List ℕ → Incoming → Session → Result (Session × List ℕ)
unfolding verify_integrity xor_address permit
permission crypto cfg env raw msg session = do
  valid ← verify_integrity crypto cfg raw msg
  ok (
      if valid
      then (elim (xor_address Attr.xor_peer_address msg) [
        | none ↦ (session, error_resp crypto msg 400 (ascii "missing xor-peer-address"))
        | some (v6 octets port) ↦
            (session, error_resp crypto msg 443 (ascii "peer family mismatch"))
        | some (v4 ip port) ↦ (
          record session {
            allocations = map_entries (λ number. permit cfg env ip) session.allocations;
          },
          success crypto Method.create_permission msg,
        )
      ])
      else (session, error_resp crypto msg 401 (ascii "unauthorized")))
