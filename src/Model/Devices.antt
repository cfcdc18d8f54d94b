-- ===== src/Model/Devices.antt =====
-- The conversions between a device, its announcement and the sender's part of a request, of
-- rust/core/src/model.rs.
use localsend_rs.Base.{ℕ, ◌%◌, String, false}
use localsend_rs.Base.Int.{ℤ, pos, negsuc}
use localsend_rs.Model.{NodeDevice, NodeAnnounce, SenderInfo}

abbrev pub default_discovery_source : String
default_discovery_source = "lan"

unfoldable pub from_announce : NodeAnnounce → String → NodeDevice
from_announce announce address = record {
  alias = announce.alias;
  version = announce.version;
  device_model = announce.device_model;
  device_type = announce.device_type;
  fingerprint = announce.fingerprint;
  address = address;
  port = announce.port;
  protocol = announce.protocol;
  download = announce.download;
  announcement = announce.announcement;
  announce = announce.announce;
  discovery_source = default_discovery_source;
}

unfoldable pub to_announce : NodeDevice → NodeAnnounce
to_announce d = record {
  alias = d.alias;
  version = d.version;
  device_model = d.device_model;
  device_type = d.device_type;
  fingerprint = d.fingerprint;
  port = d.port;
  protocol = d.protocol;
  download = d.download;
  announcement = d.announcement;
  announce = d.announce;
}

unfoldable pub from_device : NodeDevice → SenderInfo
from_device d = record {
  alias = d.alias;
  version = d.version;
  device_model = d.device_model;
  device_type = d.device_type;
  fingerprint = d.fingerprint;
  port = pos d.port;
  protocol = d.protocol;
  download = d.download;
}

-- `port.max(0) as u16`
unfoldable pub port_of : ℤ → ℕ
port_of (pos n) = n % 65536
port_of (negsuc n) = 0

unfoldable pub to_device : SenderInfo → String → NodeDevice
unfolding port_of
to_device sender address = record {
  alias = sender.alias;
  version = sender.version;
  device_model = sender.device_model;
  device_type = sender.device_type;
  fingerprint = sender.fingerprint;
  address = address;
  port = port_of sender.port;
  protocol = sender.protocol;
  download = sender.download;
  announcement = false;
  announce = false;
  discovery_source = default_discovery_source;
}
