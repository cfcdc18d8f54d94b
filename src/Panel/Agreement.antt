-- ===== src/Panel/Agreement.antt =====
-- The panel and the relay check credentials alike.
use localsend_rs.Base.{ℕ, ◌≡◌, arith}
use localsend_rs.DiscoveryServer.Registry as Relay
use localsend_rs.DiscoveryServer.Registry.{Crates, Text, before_colon, parse_u64, is_expired}
use localsend_rs.Panel.Discovery.{is_current, verify}

-- The two checks of a credential, written once for the panel and once for the relay, agree on
-- every user name, password, secret and time.
pub verify-agrees :
    (crates : Crates) (unix_now : ℕ) (secret username password : Text)
    → verify crates unix_now secret username password
      ≡ Relay.verify crates unix_now secret username password
unfolding verify Relay.verify is_current is_expired
verify-agrees crates unix_now secret username password = ground arith
