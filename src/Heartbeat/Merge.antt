-- ===== src/Heartbeat/Merge.antt =====
-- `relay_discovery` of rust/core/src/handle.rs, from the list of devices that the relay answers
-- with. A listed device has its fields as `serde_json` reads them, `none` where one is missing or
-- of another type. Other messages may reach the device actor between the two that are sent for
-- a listed device: they are listed with it.
use localsend_rs.Base.{
  ℕ, ◌%◌, String, string_eq, Bool, true, false, not, ◌&&◌, ◌||◌, Option, none, some, List, [], ◌∷◌,
  ◌==◌, leb, if◌then◌else◌,
}
use localsend_rs.Base.Text.{split_on}
use localsend_rs.TurnServer.State.{ascii}
use localsend_rs.DiscoveryServer.Registry.{parse_u64, strip_prefix}
use localsend_rs.Model.{NodeDevice}
use localsend_rs.Device.Actor.{Actor, Message, handle_get, handle_add, run}

pub record Listed : Type 0 where
  pub fingerprint : Option String
  pub alias : Option String
  pub device_model : Option String
  pub device_type : Option String
  pub address : Option String
  pub protocol : Option String
  pub port : Option ℕ

abbrev unwrap_or {ℓ} : {A : Type ℓ} → A → Option A → A
unwrap_or default none = default
unwrap_or default (some x) = x

unfoldable starts_with : List ℕ → List ℕ → Bool
unfolding strip_prefix
starts_with prefix text = elim (strip_prefix prefix text) [ none ↦ false | some _ ↦ true ]

-- `parse::<u8>` gives a number between 16 and 31.
unfoldable is_private_octet : List ℕ → Bool
unfolding parse_u64
is_private_octet octet = elim (parse_u64 octet) [ none ↦ false | some n ↦ leb 16 n && leb n 31 ]

unfoldable is_private_172 : List (List ℕ) → Bool
unfolding is_private_octet
is_private_172 [] = false
is_private_172 (first ∷ []) = false
is_private_172 (first ∷ second ∷ rest) = is_private_octet second

unfoldable pub is_private_or_lan : String → Bool
unfolding starts_with is_private_172 split_on
is_private_or_lan address =
    let addr = ascii address in
    starts_with (ascii "127.") addr
    || starts_with (ascii "10.") addr
    || starts_with (ascii "192.168.") addr
    || starts_with (ascii "169.254.") addr
    || starts_with (ascii "0.0.0.0") addr
    || (starts_with (ascii "172.") addr && is_private_172 (split_on 46 addr))

-- The listed device is skipped as ourselves.
unfoldable pub is_self : NodeDevice → Listed → Bool
is_self current dev =
    unwrap_or "" dev.fingerprint == ""
    || unwrap_or "" dev.fingerprint == current.fingerprint
    || (not (unwrap_or "" dev.alias == "") && unwrap_or "" dev.alias == current.alias)

unfoldable pub peer_of : Listed → NodeDevice
peer_of dev = record {
  alias = unwrap_or "?" dev.alias;
  version = "2.2";
  device_model = unwrap_or "" dev.device_model;
  device_type = unwrap_or "" dev.device_type;
  fingerprint = unwrap_or "" dev.fingerprint;
  address = unwrap_or "" dev.address;
  port = unwrap_or 53317 dev.port % 65536;
  protocol = unwrap_or "https" dev.protocol;
  download = true;
  announcement = true;
  announce = true;
  discovery_source = "relay";
}

unfoldable pub is_lan : NodeDevice → Bool
unfolding is_private_or_lan
is_lan d = d.discovery_source == "lan" && is_private_or_lan d.address

unfoldable pub is_lan_peer : Option NodeDevice → Bool
unfolding is_lan
is_lan_peer none = false
is_lan_peer (some d) = is_lan d

unfoldable pub merge_one : NodeDevice → Listed × List Message → Actor → Actor
unfolding is_self peer_of is_lan_peer
merge_one current (dev, meanwhile) a =
    let known = handle_get (peer_of dev).fingerprint a in
    if is_self current dev
    then run meanwhile a
    else if is_lan_peer known
    then run meanwhile a
    else handle_add (peer_of dev) (run meanwhile a)

unfoldable pub merge : NodeDevice → List (Listed × List Message) → Actor → Actor
unfolding merge_one
merge current [] a = a
merge current (dev ∷ list) a = merge current list (merge_one current dev a)
