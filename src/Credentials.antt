-- ===== src/Credentials.antt =====
-- rust/core/src/relay/credentials.rs: user names that carry their expiry time, and their
-- passwords. Texts are lists of characters.
pub mod Printing
pub mod Accepted
mod Examples
use localsend_rs.Base.{ℕ, ◌+◌, ◌%◌, ◌^◌, List, [], ◌∷◌, ◌++◌}
use localsend_rs.Base.Decimal.{decimal}
use localsend_rs.DiscoveryServer.Registry.{Crates, Text}

unfoldable pub username_of : ℕ → Text → Text
unfolding decimal
username_of expiry_unix [] = decimal expiry_unix
username_of expiry_unix (c ∷ suffix) = decimal expiry_unix ++ 58 ∷ c ∷ suffix

unfoldable pub generate_credentials : Crates → Text → ℕ → Text → Text × Text
unfolding username_of
generate_credentials crates secret expiry_unix suffix =
    let username = username_of expiry_unix suffix in
    (username, crates.base64_encode (crates.hmac_sha1 secret username))

pub record RelayEndpoint : Type 0 where
  pub addr : Text
  pub username : Text
  pub password : Text
  pub realm : Text
  pub lifetime_seconds : ℕ

-- The sum is a u64, which wraps in a build without overflow checks.
unfoldable pub endpoint_from_secret : Crates → ℕ → Text → Text → ℕ → Text → Text → RelayEndpoint
unfolding generate_credentials
endpoint_from_secret crates unix_now addr secret ttl_seconds suffix realm =
    let credentials =
      generate_credentials crates secret ((unix_now + ttl_seconds) % 2 ^ 64) suffix in
    record {
      addr = addr;
      username = credentials.0;
      password = credentials.1;
      realm = realm;
      lifetime_seconds = 3600;
    }
