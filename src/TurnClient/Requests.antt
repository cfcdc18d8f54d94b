-- ===== src/TurnClient/Requests.antt =====
-- The requests and the reading of replies of rust/core/src/relay/turn.rs. Texts are byte strings;
-- transaction ids are arguments. A reply is what one read gives.
use localsend_rs.Base.{
  ℕ, ◌+◌, ◌*◌, none, some, List, ◌++◌, ◌==◌, bytes_eq, if◌then◌else◌, ltb, nat_beq, length,
}
use localsend_rs.Stun.Types.{Method, MessageClass, Attr, ok}
use localsend_rs.Stun.Codec.{Message, Incoming, new, decode, header_len}
use localsend_rs.Stun.Fields.{
  error_code, string_attr, push_requested_transport, push_lifetime, push_username, push_realm,
  push_nonce,
}
use localsend_rs.TurnServer.State.{Crypto, ascii}
use localsend_rs.TurnServer.Auth.{long_term_key}

pub data RelayError : Type 0 where
  protocol : List ℕ → RelayError
  server : ℕ → List ℕ → RelayError

pub data Outcome {ℓ} (A : Type ℓ) : Type ℓ where
  done : A → Outcome A
  failed : RelayError → Outcome A

pub record CredentialState : Type 0 where
  pub username : List ℕ
  pub password : List ℕ
  pub realm : List ℕ
  pub nonce : List ℕ

unfoldable pub key : Crypto → CredentialState → List ℕ
unfolding long_term_key
key crypto cred = long_term_key crypto cred.username cred.realm cred.password

unfoldable pub sign : CredentialState → Message → Message
unfolding push_username push_realm push_nonce
sign cred msg = push_nonce cred.nonce (push_realm cred.realm (push_username cred.username msg))

-- The probe of `challenge`, which is also what the closure of the signed Allocate builds.
unfoldable pub allocate_request : ℕ → List ℕ → Message
unfolding new push_requested_transport push_lifetime
allocate_request lifetime_seconds tid =
    let probe = push_requested_transport 6 (new Method.allocate MessageClass.request tid) in
    if ltb 0 lifetime_seconds then push_lifetime lifetime_seconds probe else probe

-- The reading half of `transact`. A panic of `decode` would end the task; there is none.
unfoldable pub read_reply : List ℕ → List ℕ → Outcome Incoming
read_reply tid bytes =
    if ltb (length bytes) header_len
    then failed (protocol (ascii "short STUN response"))
    else elim (decode bytes) [
      | ok incoming ↦
          if incoming.tid == tid
          then done incoming
          else failed (protocol (ascii "transaction id mismatch"))
      | _ ↦ failed (protocol (ascii "undecodable STUN response from relay"))
    ]

unfoldable pub code_of : ℕ × ℕ × List ℕ → ℕ
code_of (class, num, reason) = class * 100 + num

-- The realm and the nonce of a 401.
unfoldable pub harvest : Crypto → Incoming → CredentialState → Outcome CredentialState
unfolding string_attr
harvest crypto resp cred = elim (string_attr crypto.utf8_lossy Attr.realm resp) [
  | none ↦ failed (protocol (ascii "401 without REALM"))
  | some realm ↦ elim (string_attr crypto.utf8_lossy Attr.nonce resp) [
    | none ↦ failed (protocol (ascii "401 without NONCE"))
    | some nonce ↦ done (record cred { realm = realm; nonce = nonce })
  ]
]

-- `challenge`, from the reply on.
unfoldable pub read_challenge : Crypto → Incoming → CredentialState → Outcome CredentialState
unfolding error_code code_of harvest
read_challenge crypto resp cred = elim resp.class [
  | MessageClass.error_response ↦ elim (error_code crypto.utf8_lossy resp) [
    | none ↦ failed (protocol (ascii "error response without ERROR-CODE"))
    | some (class, num, reason) ↦
        if nat_beq (code_of (class, num, reason)) 401
        then harvest crypto resp cred
        else failed (server (code_of (class, num, reason)) reason)
  ]
  | _ ↦ failed (protocol (ascii "relay accepted allocate without a challenge"))
]

unfoldable pub expect_success : Crypto → Incoming → List ℕ → Outcome (Unit {0})
unfolding error_code code_of
expect_success crypto msg step = elim msg.class [
  | MessageClass.success_response ↦ done tt
  | MessageClass.error_response ↦ elim (error_code crypto.utf8_lossy msg) [
    | none ↦ failed (server 400 (step ++ ascii " failed"))
    | some (class, num, reason) ↦ failed (server (code_of (class, num, reason)) reason)
  ]
  | _ ↦ failed (protocol (ascii "unexpected response class"))
]
