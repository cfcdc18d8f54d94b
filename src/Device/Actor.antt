-- ===== src/Device/Actor.antt =====
-- The messages of the device actor of rust/core/src/device.rs. `notified` lists the values sent
-- on the `watch` channel, newest first: its head is what a listener sees.
use localsend_rs.Base.{
  String, Bool, false, ◌&&◌, ◌||◌, Option, none, some, List, [], ◌∷◌, ◌==◌, string_eq, nat_eq,
  if◌then◌else◌,
}
use localsend_rs.HashMap.{HashMap, get, insert, contains_key, values}
use localsend_rs.Model.{NodeDevice}

pub record Actor : Type 0 where
  pub current : NodeDevice
  pub device_map : HashMap String NodeDevice
  pub notified : List (List NodeDevice)

pub data Message : Type 0 where
  listen get_all clear get_current : Message
  add : NodeDevice → Message
  get_device : String → Message
  check_exist : String → Message
  set_current : NodeDevice → Message

pub data Reply : Type 0 where
  done : Reply
  listener : List (List NodeDevice) → Reply
  devices : HashMap String NodeDevice → Reply
  device : Option NodeDevice → Reply
  exists : Bool → Reply

unfoldable pub new : NodeDevice → Actor
new current = record { current = current; device_map = []; notified = [] ∷ [] }

unfoldable pub notify_change : Actor → Actor
notify_change a = record a { notified = values a.device_map ∷ a.notified }

unfoldable pub same_rendered_device : NodeDevice → NodeDevice → Bool
same_rendered_device a b =
    a.fingerprint == b.fingerprint
    && a.alias == b.alias
    && a.address == b.address
    && a.port == b.port
    && a.protocol == b.protocol
    && a.device_model == b.device_model
    && a.device_type == b.device_type

unfoldable pub is_unchanged : NodeDevice → Actor → Bool
unfolding same_rendered_device
is_unchanged d a = elim (get d.fingerprint a.device_map) [
  | none ↦ false
  | some old ↦ same_rendered_device old d
]

unfoldable pub handle_add : NodeDevice → Actor → Actor
unfolding is_unchanged notify_change
handle_add d a =
    let added = record a { device_map = insert d.fingerprint d a.device_map } in
    if is_unchanged d a then added else notify_change added

unfoldable pub handle_get : String → Actor → Option NodeDevice
handle_get fingerprint a =
    if a.current.fingerprint == fingerprint then some a.current else get fingerprint a.device_map

unfoldable pub handle_check_exist : String → Actor → Bool
handle_check_exist fingerprint a =
    a.current.fingerprint == fingerprint || contains_key fingerprint a.device_map

unfoldable pub handle_message : Message → Actor → Actor × Reply
unfolding handle_add handle_get handle_check_exist notify_change
handle_message (Message.add d) a = (handle_add d a, Reply.done)
handle_message (Message.get_device fingerprint) a = (a, Reply.device (handle_get fingerprint a))
handle_message Message.get_all a = (a, Reply.devices a.device_map)
handle_message (Message.check_exist fingerprint) a =
    (a, Reply.exists (handle_check_exist fingerprint a))
handle_message Message.get_current a = (a, Reply.device (some a.current))
handle_message (Message.set_current d) a = (record a { current = d }, Reply.done)
handle_message Message.listen a = (a, Reply.listener a.notified)
handle_message Message.clear a = (notify_change (record a { device_map = [] }), Reply.done)

-- `run_device_actor`
unfoldable pub run : List Message → Actor → Actor
unfolding handle_message
run [] a = a
run (msg ∷ msgs) a = run msgs (handle_message msg a).0
