-- ===== src/Heartbeat/Examples.antt =====
-- A peer that is known from the local network and that the relay lists too.
use localsend_rs.Base.{string_eq, ◌≡◌, refl, String, true, false, List, [], ◌∷◌, some, none}
use localsend_rs.HashMap.{get, insert}
use localsend_rs.Model.{NodeDevice}
use localsend_rs.Device.Actor.{Actor, Message, new, run}
use localsend_rs.Heartbeat.Merge.{Listed, is_private_or_lan, merge}
use localsend_rs.Heartbeat.LanPeers.{Knows, merge-Knows}

abbrev own : NodeDevice
own = record {
  alias = "laptop";
  version = "2.2";
  device_model = "m";
  device_type = "desktop";
  fingerprint = "own";
  address = "10.0.0.3";
  port = 53317;
  protocol = "https";
  download = true;
  announcement = true;
  announce = true;
  discovery_source = "lan";
}

abbrev phone : NodeDevice
phone = record own { alias = "phone"; fingerprint = "fp"; address = "172.20.0.2" }

abbrev listed : String → Listed
listed fp = record {
  fingerprint = some fp;
  alias = none;
  device_model = none;
  device_type = none;
  address = some "203.0.113.7";
  protocol = none;
  port = some 70000;
}

abbrev answer : List (Listed × List Message)
answer = (listed "fp", Message.get_all ∷ []) ∷ (listed "far", []) ∷ (listed "own", []) ∷ []

abbrev known : Actor
known = run (Message.add phone ∷ []) (new own)

test_private : is_private_or_lan "172.20.0.2" ≡ true
unfolding is_private_or_lan
test_private = refl

test_public : is_private_or_lan "172.32.0.2" ≡ false
unfolding is_private_or_lan
test_public = refl

test_added :
    get "far" (merge own answer known).device_map
    ≡ some (record own {
      alias = "?";
      device_model = "";
      device_type = "";
      fingerprint = "far";
      address = "203.0.113.7";
      port = 4464;
      discovery_source = "relay";
    })
unfolding merge run new get insert
test_added = refl

known-Knows : Knows "fp" phone known
unfolding run new get insert
known-Knows = record { known = refl; other = refl }

merge-Knows_example : Knows "fp" phone (merge own answer known)
merge-Knows_example =
    merge-Knows own "fp" phone answer known refl test_private ((tt, tt), (tt, (tt, tt))) known-Knows

-- A peer of the local network with an IPv6 address is not recognised as one, and is overwritten.
abbrev phone6 : NodeDevice
phone6 = record phone { address = "fe80::2" }

test_overwritten :
    get "fp" (merge own answer (run (Message.add phone6 ∷ []) (new own))).device_map
    ≡ some (record phone {
      alias = "?";
      device_model = "";
      device_type = "";
      address = "203.0.113.7";
      port = 4464;
      discovery_source = "relay";
    })
unfolding merge run new get insert
test_overwritten = refl
