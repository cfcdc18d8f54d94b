-- ===== src/TurnServer/Examples.antt =====
-- The TURN server at concrete packets.
use localsend_rs.Base.{ℕ, ◌≡◌, refl, true, none, some, List, [], ◌∷◌, replicate, arith, length, ◌*◌}
use localsend_rs.HashMap.{get, insert, retain, map_entries}
use localsend_rs.Stun.Types.{Method, MessageClass, Attr, attr_code, ok}
use localsend_rs.Stun.Codec.{Message, Incoming, encode, decode, new, push}
use localsend_rs.Stun.Fields.{
  Ipv4Addr, v4, xor_address, xor_address_bytes, connection_id, push_xor_address, push_username,
  push_requested_transport,
}
use localsend_rs.Base.{zero, suc, All}
use localsend_rs.Base.Bytes.{IsByte}
use localsend_rs.Stun.Codec.{attrs_len}
use localsend_rs.Stun.Fields.{find_attr}
use localsend_rs.Stun.RoundTrip.{signed}
use localsend_rs.TurnServer.Auth.{verify_integrity}
use localsend_rs.TurnServer.SignedRequests.{client_key, verify_integrity-encode}
use localsend_rs.TurnServer.State.{Crypto, TurnServerConfig, Session, Env, ascii}
use localsend_rs.TurnServer.Replies.{error_resp}
use localsend_rs.TurnServer.Allocations.{allocate, permission}
use localsend_rs.TurnServer.Connecting.{permitted}
use localsend_rs.TurnServer.Connection.{State, Outcome, prune, handle_packet, handle_client, fresh}
use localsend_rs.TurnServer.Permissions.{Granted}
use localsend_rs.TurnServer.Refusals.{handle_client-Granted, handle_packet-refused}
use localsend_rs.TurnServer.Errors.{ErrorReply, decode-error_resp}
use localsend_rs.TurnServer.Binding.{BoundOnce, connection_bind-BoundOnce}

-- Stand-ins for the other crates: a MAC that depends on the key's length only.
abbrev crypto : Crypto
crypto = record {
  hmac_sha1 = λ key text. replicate 20 (length key);
  md5 = λ text. replicate 16 3;
  base64_encode = λ b. b;
  utf8_lossy = λ b. b;
}

abbrev localhost : Ipv4Addr
localhost = record { a = 127; b = 0; c = 0; d = 1 }

abbrev peer_ip : Ipv4Addr
peer_ip = record { a = 10; b = 0; c = 0; d = 7 }

abbrev cfg : TurnServerConfig
cfg = record { external = localhost; realm = 108 ∷ []; secret = 115 ∷ []; lifetime = 600 }

abbrev env : Env
env = record { round_start = 100; now = 100; random = 5 * 4294967296; dial = λ addr. some 77 }

abbrev tid : List ℕ
tid = replicate 12 9

abbrev signed_packet : Message → List ℕ
signed_packet m = encode crypto.hmac_sha1 (some (replicate 16 3)) m

abbrev packets : List (Env × List ℕ)
packets =
    (
      env,
      signed_packet (
          push_requested_transport 6
            (push_username (97 ∷ []) (new Method.allocate MessageClass.request tid))),
    )
    ∷ (
      env,
      signed_packet (
          push_xor_address Attr.xor_peer_address (v4 peer_ip 80)
            (push_username (97 ∷ []) (new Method.create_permission MessageClass.request tid))),
    )
    ∷ []

abbrev serve : List (Env × List ℕ) → State → State
serve = handle_client crypto cfg (v4 localhost 1)

reached : permitted peer_ip (serve packets (fresh [] [])).session ≡ true
unfolding permitted handle_client fresh encode decode new push push_xor_address push_username
    push_requested_transport allocate permission map_entries retain insert
reached = refl

handle_client-Granted_example : Granted crypto cfg peer_ip packets
handle_client-Granted_example =
    handle_client-Granted crypto cfg (v4 localhost 1) [] [] peer_ip packets reached

-- A Connect request for the peer.
abbrev connect_request : Message
connect_request = record {
  method = Method.connect;
  class = MessageClass.request;
  tid = tid;
  attrs = (attr_code Attr.xor_peer_address, xor_address_bytes (v4 peer_ip 80) tid) ∷ [];
}

abbrev connect_packet : List ℕ
connect_packet = encode crypto.hmac_sha1 none connect_request

abbrev connect_msg : Incoming
connect_msg = record {
  method = Method.connect;
  class = MessageClass.request;
  tid = tid;
  attrs = connect_request.attrs;
}

handle_packet-refused_example :
    (handle_packet crypto cfg (v4 localhost 1) env connect_packet (serve [] (fresh [] []))
      ≡ ok (
        record (serve [] (fresh [] [])) {
          session = prune env.round_start (serve [] (fresh [] [])).session;
        },
        Outcome.replied (error_resp crypto connect_msg 403 (ascii "no permission for peer")),
      ))
    × ((prune env.round_start (serve [] (fresh [] [])).session).dialed
        ≡ (serve [] (fresh [] [])).session.dialed)
unfolding Granted encode decode xor_address xor_address_bytes
handle_packet-refused_example =
    handle_packet-refused crypto cfg (v4 localhost 1) [] [] peer_ip 80 [] env connect_packet
      connect_msg (λ g. g) refl refl refl refl

decode-error_resp_example :
    (m : Incoming) × (decode (error_resp crypto connect_msg 403 (ascii "no")) ≡ ok m)
    × ErrorReply crypto connect_msg 403 (ascii "no") m
decode-error_resp_example =
    decode-error_resp crypto connect_msg 403 (ascii "no") refl (omega arith) (omega arith)

abbrev bind_msg : Incoming
bind_msg = record {
  method = Method.connection_bind;
  class = MessageClass.request;
  tid = tid;
  attrs = (attr_code Attr.connection_id, 0 ∷ 0 ∷ 0 ∷ 5 ∷ []) ∷ [];
}

connection_bind-BoundOnce_example : BoundOnce crypto ((5, 77) ∷ []) 5 77 bind_msg bind_msg
unfolding connection_id get
connection_bind-BoundOnce_example =
    connection_bind-BoundOnce crypto ((5, 77) ∷ []) 5 77 bind_msg bind_msg refl refl refl

abbrev peer_allowed : Session
peer_allowed = record {
  nonce = [];
  username = some (97 ∷ []);
  allocations =
      (49152, record { permissions = peer_ip ∷ []; connections = []; deadline = 700 }) ∷ [];
  dialed = [];
}

-- A MAC that is always the same 20 bytes.
abbrev fixed : Crypto
fixed = record crypto { hmac_sha1 = λ key text. replicate 20 5 }

abbrev allocate_request : Message
allocate_request = record {
  method = Method.allocate;
  class = MessageClass.request;
  tid = tid;
  attrs = (attr_code Attr.username, 97 ∷ []) ∷ [];
}

fixed_bytes : (n : ℕ) → All IsByte (replicate n 5)
fixed_bytes zero = tt
fixed_bytes (suc n) = (omega arith, fixed_bytes n)

verify_integrity-encode_example :
    verify_integrity fixed cfg
      (encode fixed.hmac_sha1 (some (client_key fixed cfg (97 ∷ []))) allocate_request)
      (record {
        method = Method.allocate;
        class = MessageClass.request;
        tid = tid;
        attrs = signed fixed.hmac_sha1 (client_key fixed cfg (97 ∷ [])) allocate_request;
      })
    ≡ ok true
unfolding attrs_len find_attr
verify_integrity-encode_example =
    verify_integrity-encode fixed cfg allocate_request (97 ∷ []) (λ k b. refl)
      (λ k b. fixed_bytes 20) refl (record { number = omega arith; size = omega arith }, tt)
      (omega arith) refl
