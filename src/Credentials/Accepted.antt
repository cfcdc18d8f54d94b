-- ===== src/Credentials/Accepted.antt =====
-- Generated credentials at the discovery server.
use localsend_rs.Base.{ℕ, ◌+◌, ◌^◌, ◌<◌, ◌%◌, ◌≡◌, ◌∙◌, true, [], ◌∷◌, All, arith, ltb}
use localsend_rs.Base.Bytes.{IsByte}
use localsend_rs.Base.Decimal.{decimal}
use localsend_rs.TurnServer.Accepting.{constant_time_eq-same}
use localsend_rs.DiscoveryServer.Registry.{Crates, Text, before_colon, is_expired, verify}
use localsend_rs.Credentials.{username_of, generate_credentials, endpoint_from_secret}
use localsend_rs.Credentials.Printing.{digits-append, before_colon-digits, parse_u64-decimal}

-- The part of the user name before its first colon is the expiry time.
pub before_colon-username_of :
    (expiry : ℕ) (suffix : Text) → before_colon (username_of expiry suffix) ≡ decimal expiry
unfolding username_of decimal
before_colon-username_of expiry [] = unfold before_colon in before_colon-digits 20 expiry []
before_colon-username_of expiry (c ∷ suffix) =
    rw (digits-append 20 expiry [] (58 ∷ c ∷ suffix))
      (unfold before_colon in before_colon-digits 20 expiry (58 ∷ c ∷ suffix))

-- The text of a password, as base64 prints it, is bytes.
abbrev pub PrintsBytes : Crates → Type 0
PrintsBytes crates = (mac : Text) → All IsByte (crates.base64_encode mac)

-- Credentials made from the server's secret are accepted exactly until the time they were made
-- for, whatever suffix the user name has. The time is a u64, and base64 prints bytes.
pub verify-generate_credentials :
    (crates : Crates) (secret suffix : Text) (expiry unix_now : ℕ)
    → PrintsBytes crates
    → expiry < 2 ^ 64
    → verify crates unix_now secret
        (generate_credentials crates secret expiry suffix).0
        (generate_credentials crates secret expiry suffix).1
      ≡ ltb unix_now expiry
unfolding verify is_expired generate_credentials
verify-generate_credentials crates secret suffix expiry unix_now prints word = ground (
  arith,
  before_colon-username_of expiry suffix,
  parse_u64-decimal expiry word,
  constant_time_eq-same (crates.base64_encode (crates.hmac_sha1 secret (username_of expiry suffix)))
      (prints (crates.hmac_sha1 secret (username_of expiry suffix))),
)

-- An endpoint that is made from the secret with a positive life time is accepted by the server of
-- the same clock; the expiry time is below 2 ^ 64, and base64 prints bytes.
pub verify-endpoint_from_secret :
    (crates : Crates) (secret suffix addr realm : Text) (ttl unix_now : ℕ)
    → PrintsBytes crates
    → unix_now + ttl < 2 ^ 64
    → 0 < ttl
    → verify crates unix_now secret
        (endpoint_from_secret crates unix_now addr secret ttl suffix realm).username
        (endpoint_from_secret crates unix_now addr secret ttl suffix realm).password
      ≡ true
unfolding endpoint_from_secret
verify-endpoint_from_secret crates secret suffix addr realm ttl unix_now prints word lives =
    verify-generate_credentials crates secret suffix ((unix_now + ttl) % 2 ^ 64) unix_now prints
      (omega arith)
    ∙ ground arith
