-- ===== src/TurnServer/Refusals.antt =====
-- Peers that nobody was granted are out of reach: `connect` and `connection_bind` of
-- rust/core/src/relay/turn_server.rs.
use localsend_rs.Base.{ℕ, ◌≡◌, refl, inl, inr, true, some, List, Bool-cases, nat_eq}
use localsend_rs.Stun.Types.{Method, MessageClass, Attr, ok}
use localsend_rs.Stun.Codec.{Incoming, decode}
use localsend_rs.Stun.Fields.{Ipv4Addr, SocketAddr, v4, xor_address}
use localsend_rs.TurnServer.State.{Crypto, TurnServerConfig, Pending, Env, ascii}
use localsend_rs.TurnServer.Replies.{error_resp}
use localsend_rs.TurnServer.Connecting.{permitted, connect}
use localsend_rs.TurnServer.Connection.{
  Outcome, prune, handle_packet, handle_client, handle_request, handle_message, connect_answered,
  fresh,
}
use localsend_rs.TurnServer.Permissions.{Granted, permitted-prune}
use localsend_rs.TurnServer.Rounds.{handle_client-grants}

module _ (crypto : Crypto) (cfg : TurnServerConfig) where
  -- On a connection that began without allocations, whatever packets arrive, an address is
  -- permitted only if one of these packets was a CreatePermission request for it whose MAC
  -- verified.
  pub handle_client-Granted :
      (source : SocketAddr) (nonce : List ℕ) (pending : Pending) (ip : Ipv4Addr)
      (packets : List (Env × List ℕ))
      → permitted ip (handle_client crypto cfg source packets (fresh nonce pending)).session ≡ true
      → Granted crypto cfg ip packets
  unfolding fresh permitted
  handle_client-Granted source nonce pending ip packets h =
      elim (handle_client-grants crypto cfg ip source packets (fresh nonce pending) h) [
        | inl old ↦ cc old
        | inr given ↦ given
      ]

  -- A Connect request to an address that no packet before it on the connection was granted gets
  -- error 403, and the server neither connects to an address nor parks a socket.
  pub handle_packet-refused :
      (source : SocketAddr) (nonce : List ℕ) (pending : Pending) (ip : Ipv4Addr) (port : ℕ)
      (packets : List (Env × List ℕ)) (env : Env) (raw : List ℕ) (msg : Incoming)
      → ¬ Granted crypto cfg ip packets
      → decode raw ≡ ok msg
      → msg.class ≡ MessageClass.request
      → msg.method ≡ Method.connect
      → xor_address Attr.xor_peer_address msg ≡ some (v4 ip port)
      → let st = handle_client crypto cfg source packets (fresh nonce pending) in
        let next = record st { session = prune env.round_start st.session } in
        (handle_packet crypto cfg source env raw st
          ≡ ok (next, Outcome.replied (error_resp crypto msg 403 (ascii "no permission for peer"))))
        × (next.session.dialed ≡ st.session.dialed)
  unfolding prune handle_packet handle_message handle_request connect connect_answered
  handle_packet-refused source nonce pending ip port packets env raw msg never d c m peer =
      let st = handle_client crypto cfg source packets (fresh nonce pending) in
      let s = prune env.round_start st.session in
      elim (Bool-cases (permitted ip s)) [
        | inl reached ↦ absurd (
            never (
              handle_client-Granted source nonce pending ip packets
                (permitted-prune crypto cfg ip env.round_start st.session reached)))
        | inr out ↦ simp (d, c, handle_message, m, handle_request, peer, connect, out) (refl, refl)
      ]
