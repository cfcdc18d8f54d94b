-- ===== src/TurnServer/Replies.antt =====
-- The replies of rust/core/src/relay/turn_server.rs. They are not signed, so the MAC function of
-- `encode` is not called.
use localsend_rs.Base.{ℕ, ◌/◌, ◌%◌, ◌^◌, none, List, [], ◌∷◌}
use localsend_rs.Stun.Types.{Method, MessageClass, Attr}
use localsend_rs.Stun.Codec.{Message, Incoming, encode, new, push}
use localsend_rs.Stun.Fields.{SocketAddr, v4, push_xor_address, push_lifetime, push_connection_id}
use localsend_rs.TurnServer.State.{Crypto, TurnServerConfig}

unfoldable pub error_message : Incoming → ℕ → List ℕ → Message
unfolding new push
error_message req number reason =
    push Attr.error_code (0 ∷ 0 ∷ (number / 100 % 256) ∷ (number % 100 % 256) ∷ reason)
      (new req.method MessageClass.error_response req.tid)

unfoldable pub error_resp : Crypto → Incoming → ℕ → List ℕ → List ℕ
unfolding error_message encode
error_resp crypto req number reason = encode crypto.hmac_sha1 none (error_message req number reason)

unfoldable pub binding_resp : Crypto → SocketAddr → Incoming → List ℕ
unfolding new push_xor_address encode
binding_resp crypto peer msg = encode crypto.hmac_sha1 none (
    push_xor_address Attr.xor_peer_address peer (
      push_xor_address Attr.xor_mapped_address peer
        (new Method.binding MessageClass.success_response msg.tid)))

-- The challenge that `allocate` answers an unsigned request with.
unfoldable pub challenge_message : TurnServerConfig → List ℕ → Incoming → Message
unfolding new push
challenge_message cfg nonce msg = push Attr.nonce nonce (
    push Attr.realm cfg.realm (
      push Attr.error_code (0 ∷ 0 ∷ 4 ∷ 1 ∷ [])
        (new Method.allocate MessageClass.error_response msg.tid)))

unfoldable pub challenge : Crypto → TurnServerConfig → List ℕ → Incoming → List ℕ
unfolding challenge_message encode
challenge crypto cfg nonce msg = encode crypto.hmac_sha1 none (challenge_message cfg nonce msg)

unfoldable pub allocate_resp : Crypto → TurnServerConfig → ℕ → ℕ → Incoming → List ℕ
unfolding new push_xor_address push_lifetime encode
allocate_resp crypto cfg relayed_port lifetime msg = encode crypto.hmac_sha1 none (
    push_lifetime (lifetime % 2 ^ 32) (
      push_xor_address Attr.xor_relayed_address (v4 cfg.external relayed_port)
        (new Method.allocate MessageClass.success_response msg.tid)))

unfoldable pub refresh_resp : Crypto → ℕ → Incoming → List ℕ
unfolding new push_lifetime encode
refresh_resp crypto lifetime msg =
    encode crypto.hmac_sha1 none
      (push_lifetime (lifetime % 2 ^ 32) (new Method.refresh MessageClass.success_response msg.tid))

unfoldable pub connect_resp : Crypto → ℕ → Incoming → List ℕ
unfolding new push_connection_id encode
connect_resp crypto conn_id msg =
    encode crypto.hmac_sha1 none
      (push_connection_id conn_id (new Method.connect MessageClass.success_response msg.tid))

-- The bare success of CreatePermission and ConnectionBind.
unfoldable pub success : Crypto → Method → Incoming → List ℕ
unfolding new encode
success crypto method msg =
    encode crypto.hmac_sha1 none (new method MessageClass.success_response msg.tid)
