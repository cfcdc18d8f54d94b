-- ===== src/TurnClient/Challenge.antt =====
-- The 401 exchange between rust/core/src/relay/turn.rs and rust/core/src/relay/turn_server.rs.
use localsend_rs.Base.{
  ℕ, ◌<◌, ◌≡◌, refl, sym, List, [], append-nil, length, ==_refl, bytes_eq, arith, false, ltb,
  Bool-cases, inl, inr,
}
use localsend_rs.Stun.Types.{ok}
use localsend_rs.Stun.Codec.{Incoming, decode, attrs_len, header_len}
use localsend_rs.Stun.Fields.{error_code, string_attr}
use localsend_rs.Stun.Parts.{padding-lt}
use localsend_rs.Stun.RoundTrip.{decode-encode}
use localsend_rs.TurnServer.State.{Crypto, TurnServerConfig}
use localsend_rs.TurnServer.Replies.{challenge, challenge_message}
use localsend_rs.TurnClient.Requests.{done, CredentialState, read_reply, read_challenge, harvest}

decode-long :
    (bytes : List ℕ) (m : Incoming) → decode bytes ≡ ok m → ltb (length bytes) header_len ≡ false
unfolding decode
decode-long bytes m h = elim (Bool-cases (ltb (length bytes) header_len)) [
  | inl short ↦ cc (rw (short, decode) at h)
  | inr long ↦ long
]

read_reply-decode :
    (bytes : List ℕ) (m : Incoming) (tid : List ℕ)
    → decode bytes ≡ ok m
    → m.tid ≡ tid
    → read_reply tid bytes ≡ done m
unfolding read_reply
read_reply-decode bytes m tid h same = rw (decode-long bytes m h, h, sym same, ==_refl m.tid) refl

module _ (crypto : Crypto) (cfg : TurnServerConfig) where
  -- What the client reads in the server's challenge.
  challenged : List ℕ → Incoming → Incoming
  challenged nonce req =
      let m = challenge_message cfg nonce req in
      record { method = m.method; class = m.class; tid = m.tid; attrs = m.attrs }

  decode-challenge :
      (nonce : List ℕ) (req : Incoming)
      → length req.tid ≡ 12
      → length cfg.realm < 1000
      → length nonce < 1000
      → decode (challenge crypto cfg nonce req) ≡ ok (challenged nonce req)
  unfolding challenge challenged challenge_message attrs_len
  decode-challenge nonce req twelve small_realm small_nonce = rw (append-nil) at (
      decode-encode crypto.hmac_sha1 (challenge_message cfg nonce req) [] twelve
        (
          record { number = omega arith; size = omega arith },
          (
            record { number = omega arith; size = omega arith },
            (record { number = omega arith; size = omega arith }, tt),
          ),
        )
        (omega (arith, padding-lt (length cfg.realm), padding-lt (length nonce), padding-lt 4)))

  -- The client takes the server's realm and nonce from the challenge that the server answers its
  -- unsigned Allocate with. The transaction id has 12 bytes, realm and nonce are shorter than
  -- 1000 bytes, and as texts they are not changed by the lossy reading.
  pub read_challenge-challenge :
      (nonce : List ℕ) (req : Incoming) (cred : CredentialState)
      → length req.tid ≡ 12
      → length cfg.realm < 1000
      → length nonce < 1000
      → crypto.utf8_lossy cfg.realm ≡ cfg.realm
      → crypto.utf8_lossy nonce ≡ nonce
      → (resp : Incoming) × (read_reply req.tid (challenge crypto cfg nonce req) ≡ done resp)
        × (read_challenge crypto resp cred
            ≡ done (record cred { realm = cfg.realm; nonce = nonce }))
  unfolding challenged challenge_message read_challenge harvest string_attr error_code
  read_challenge-challenge nonce req cred twelve small_realm small_nonce realm_text nonce_text = (
    challenged nonce req,
    read_reply-decode (challenge crypto cfg nonce req) (challenged nonce req) req.tid
        (decode-challenge nonce req twelve small_realm small_nonce) refl,
    rw (realm_text, nonce_text) refl,
  )
