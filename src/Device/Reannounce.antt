-- ===== src/Device/Reannounce.antt =====
-- One peer heard of twice, by its announcement and by its registration: rust/core/src/device.rs
-- with the conversions of rust/core/src/model.rs.
use localsend_rs.Base.{
  ◌%◌, ◌≡◌, refl, String, true, some, ==_refl, string_eq, nat_eq, if_elim, arith,
}
use localsend_rs.Base.Bytes.{IsU16}
use localsend_rs.HashMap.{get}
use localsend_rs.HashMap.Laws.{get-insert}
use localsend_rs.Model.{NodeDevice}
use localsend_rs.Model.Devices.{from_announce, to_announce, from_device, to_device}
use localsend_rs.Device.Actor.{Actor, same_rendered_device, is_unchanged, handle_add, notify_change}

same_rendered-to_device :
    (d : NodeDevice) (address : String)
    → IsU16 d.port
    → same_rendered_device
        (from_announce (to_announce d) address)
        (to_device (from_device d) address)
      ≡ true
unfolding same_rendered_device from_announce to_announce to_device from_device
same_rendered-to_device d address small =
    let port : d.port % 65536 ≡ d.port = omega arith in
    ground (
      arith,
      port,
      ==_refl d.fingerprint,
      ==_refl d.alias,
      ==_refl address,
      ==_refl d.port,
      ==_refl d.protocol,
      ==_refl d.device_model,
      ==_refl d.device_type,
    )

get-handle_add :
    (d : NodeDevice) (a : Actor) → get d.fingerprint (handle_add d a).device_map ≡ some d
unfolding handle_add notify_change
get-handle_add d a =
    if_elim (λ (b : Actor). get d.fingerprint b.device_map ≡ some d) (is_unchanged d a) _ _
      (λ _. rw (get-insert d.fingerprint d.fingerprint d a.device_map, ==_refl d.fingerprint) refl)
      (λ _. rw (get-insert d.fingerprint d.fingerprint d a.device_map, ==_refl d.fingerprint) refl)

handle_add-unchanged :
    (old d : NodeDevice) (a : Actor)
    → get d.fingerprint a.device_map ≡ some old
    → same_rendered_device old d ≡ true
    → (handle_add d a).notified ≡ a.notified
unfolding handle_add is_unchanged
handle_add-unchanged old d a known same = rw (known, handle_add, is_unchanged, same) refl

-- A device that was added from its announcement and then registers from the same address with
-- the same port (of 16 bits) and fields gives the listeners no second notice.
handle_add-reannounced :
    (d : NodeDevice) (address : String) (a : Actor)
    → IsU16 d.port
    → (handle_add
        (to_device (from_device d) address)
        (handle_add (from_announce (to_announce d) address) a)).notified
      ≡ (handle_add (from_announce (to_announce d) address) a).notified
unfolding from_announce to_announce to_device from_device
handle_add-reannounced d address a small =
    let first = from_announce (to_announce d) address in
    handle_add-unchanged first (to_device (from_device d) address) (handle_add first a)
      (get-handle_add first a) (same_rendered-to_device d address small)
