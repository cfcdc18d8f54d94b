-- ===== src/DiscoveryServer/Examples.antt =====
-- The discovery registry at concrete requests.
use localsend_rs.Base.{ℕ, ◌≡◌, refl, ◌≢◌, ◌⊎◌, some, List, [], ◌∷◌, bytes_eq}
use localsend_rs.HashMap.{get, insert, remove, retain}
use localsend_rs.TurnServer.State.{ascii}
use localsend_rs.DiscoveryServer.Registry.{
  Text, DeviceRegistration, DeviceEntry, Crates, Clock, Request, register_device, list_devices,
  handle_register, run,
}
use localsend_rs.DiscoveryServer.OnePerAddress.{run-alone}
use localsend_rs.DiscoveryServer.Outcomes.{Authorised, handle_register-Authorised}

abbrev device : Text → DeviceRegistration
device fp = record {
  fingerprint = fp;
  alias = [];
  device_model = [];
  device_type = [];
  protocol = [];
  port = 53317;
  username = ascii "2000:u";
  candidates = [];
}

-- Stand-ins for the other crates: the body is the fingerprint, and the password is "x".
abbrev crates : Crates
crates = record {
  from_json = λ body. some (device body);
  to_json = λ list. [];
  hmac_sha1 = λ key text. key;
  base64_encode = λ text. ascii "x";
}

abbrev old : Text
old = 1 ∷ []

abbrev fresh : Text
fresh = 2 ∷ []

abbrev clock : Clock
clock = record { now = 100; unix_now = 1000 }

abbrev auth : Text
auth = ascii "Bearer x"

abbrev ip : Text
ip = ascii "10.0.0.2"

-- Before and after a certificate rotation, from one address.
abbrev requests : List (Clock × Request)
requests =
    (clock, register_device old (some auth) ip)
    ∷ (clock, register_device fresh (some auth) ip)
    ∷ (clock, list_devices)
    ∷ []

abbrev entry : Text → DeviceEntry × ℕ
entry fp = (
  record {
    fingerprint = fp;
    alias = [];
    device_model = [];
    device_type = [];
    protocol = [];
    address = ip;
    port = 53317;
    candidates = [];
  },
  100,
)

found : get fresh (run crates [] requests []) ≡ some (entry fresh)
unfolding run get retain insert remove
found = refl

run-alone_example : fresh ≡ fresh
run-alone_example =
    run-alone crates [] requests fresh fresh (entry fresh) (entry fresh) found found refl

handle_register-Authorised_example :
    (((handle_register crates clock [] old (some auth) ip []).1.0 ≡ 200)
      × Authorised crates clock [] old
          (some auth)
          ip
          (handle_register crates clock [] old (some auth) ip []).0)
    ⊎ (((handle_register crates clock [] old (some auth) ip []).1.0 ≢ 200)
        × ((handle_register crates clock [] old (some auth) ip []).0 ≡ []))
handle_register-Authorised_example =
    handle_register-Authorised crates clock [] old (some auth) ip []
