-- ===== src/Panel/Discovery.antt =====
-- The registry of rust/relay-panel/src/discovery.rs, a second one beside that of
-- rust/core/src/relay/discovery_server.rs, with the same types and credentials. Texts are byte
-- strings and times are seconds.
use localsend_rs.Base.{
  ℕ, ◌-◌, Bool, true, false, ◌&&◌, Option, none, some, List, map, bytes_eq, ltb, if◌then◌else◌,
}
use localsend_rs.HashMap.{insert, retain, values}
use localsend_rs.TurnServer.State.{ascii}
use localsend_rs.TurnServer.Auth.{constant_time_eq}
use localsend_rs.DiscoveryServer.Registry.{
  ttl, Text, DeviceRegistration, DeviceEntry, Registry, Crates, before_colon, parse_u64, entry_of,
  bearer_of,
}

unfoldable pub prune : ℕ → Registry → Registry
prune now = retain (λ fp (e : DeviceEntry × ℕ). ltb (now - e.1) ttl)

unfoldable pub register : ℕ → DeviceRegistration → Text → Registry → Registry
unfolding prune entry_of
register now reg source_ip m = insert reg.fingerprint (entry_of reg source_ip, now) (prune now m)

unfoldable pub list : ℕ → Registry → Registry × List DeviceEntry
unfolding prune
list now m = (prune now m, map (λ (e : DeviceEntry × ℕ). e.0) (values (prune now m)))

-- `exp > now`, and true where the user name has no time.
unfoldable pub is_current : ℕ → Text → Bool
unfolding before_colon parse_u64
is_current unix_now username = elim (parse_u64 (before_colon username)) [
  | none ↦ true
  | some exp ↦ ltb unix_now exp
]

unfoldable pub verify : Crates → ℕ → Text → Text → Text → Bool
unfolding is_current constant_time_eq
verify crates unix_now secret username password =
    is_current unix_now username
    && constant_time_eq (crates.base64_encode (crates.hmac_sha1 secret username)) password

unfoldable pub check_auth : Crates → ℕ → Text → Text → Option Text → Bool
unfolding verify bearer_of
check_auth crates unix_now secret username header = elim (bearer_of header) [
  | none ↦ false
  | some bearer ↦ verify crates unix_now secret username bearer
]

pub data Response : Type 0 where
  devices : List DeviceEntry → Response
  unauthorized : Text → Response

unfoldable pub register_device :
    Crates → ℕ → ℕ → Text → DeviceRegistration → Text → Option Text → Registry → Registry × Response
unfolding check_auth register list
register_device crates unix_now now secret reg source_ip header m =
    if check_auth crates unix_now secret reg.username header
    then (
      (list now (register now reg source_ip m)).0,
      Response.devices (list now (register now reg source_ip m)).1,
    )
    else (m, Response.unauthorized (ascii "bad credentials"))

-- The credential is not looked at.
unfoldable pub verify_any : Text → Bool
verify_any password = true

unfoldable pub list_devices : ℕ → Option Text → Registry → Registry × Response
unfolding bearer_of verify_any list
list_devices now header m = elim (bearer_of header) [
  | none ↦ (m, Response.unauthorized (ascii "missing bearer"))
  | some bearer ↦
      if verify_any bearer
      then ((list now m).0, Response.devices (list now m).1)
      else (m, Response.unauthorized (ascii "bad credentials"))
]
