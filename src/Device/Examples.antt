-- ===== src/Device/Examples.antt =====
-- The device actor at concrete messages.
use localsend_rs.Base.{◌≡◌, true, false, List, [], ◌∷◌, map}
use localsend_rs.HashMap.{values}
use localsend_rs.Model.{NodeDevice}
use localsend_rs.Device.Actor.{Message, new, run}
use localsend_rs.Device.Rendering.{rendered, seen, run-IsFresh}

abbrev phone : NodeDevice
phone = record {
  alias = "phone";
  version = "2.2";
  device_model = "m";
  device_type = "mobile";
  fingerprint = "fp";
  address = "10.0.0.2";
  port = 53317;
  protocol = "http";
  download = true;
  announcement = true;
  announce = true;
  discovery_source = "lan";
}

abbrev quiet_phone : NodeDevice
quiet_phone = record phone { announce = false; announcement = false }

abbrev messages : List Message
messages = Message.add phone ∷ Message.add quiet_phone ∷ Message.get_all ∷ []

run-IsFresh_example :
    map rendered (seen (run messages (new phone)).notified)
    ≡ map rendered (values (run messages (new phone)).device_map)
run-IsFresh_example = run-IsFresh phone messages
