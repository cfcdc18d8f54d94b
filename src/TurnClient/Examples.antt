-- ===== src/TurnClient/Examples.antt =====
-- The 401 exchange at a concrete request.
use localsend_rs.Base.{◌≡◌, refl, [], replicate, arith}
use localsend_rs.Stun.Types.{Method, MessageClass}
use localsend_rs.Stun.Codec.{Incoming}
use localsend_rs.TurnServer.State.{Crypto, TurnServerConfig, ascii}
use localsend_rs.TurnServer.Replies.{challenge}
use localsend_rs.TurnClient.Requests.{done, CredentialState, read_reply, read_challenge}
use localsend_rs.TurnClient.Challenge.{read_challenge-challenge}

abbrev crypto : Crypto
crypto = record {
  hmac_sha1 = λ key text. [];
  md5 = λ text. [];
  base64_encode = λ b. b;
  utf8_lossy = λ b. b;
}

abbrev cfg : TurnServerConfig
cfg = record {
  external = record { a = 127; b = 0; c = 0; d = 1 };
  realm = ascii "localsend";
  secret = [];
  lifetime = 600;
}

abbrev probe : Incoming
probe = record {
  method = Method.allocate;
  class = MessageClass.request;
  tid = replicate 12 1;
  attrs = [];
}

abbrev cred : CredentialState
cred = record { username = ascii "u"; password = ascii "p"; realm = []; nonce = [] }

read_challenge-challenge_example :
    (resp : Incoming) × (read_reply probe.tid (challenge crypto cfg (ascii "n1") probe) ≡ done resp)
    × (read_challenge crypto resp cred
        ≡ done (record cred { realm = cfg.realm; nonce = ascii "n1" }))
read_challenge-challenge_example =
    read_challenge-challenge crypto cfg (ascii "n1") probe cred refl (omega arith) (omega arith)
      refl refl
