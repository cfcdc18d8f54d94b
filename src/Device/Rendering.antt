-- ===== src/Device/Rendering.antt =====
-- What the listeners of the device actor of rust/core/src/device.rs see.
use localsend_rs.Base.{
  ℕ, ◌≡◌, refl, sym, ◌∙◌, String, true, some, List, [], ◌∷◌, ==_iff, string_eq, nat_eq, if_elim,
  map, arith, Option-cases, inl, inr,
}
use localsend_rs.HashMap.{HashMap, get, insert, values}
use localsend_rs.Model.{NodeDevice}
use localsend_rs.Device.Actor.{
  Actor, Message, new, notify_change, same_rendered_device, is_unchanged, handle_add,
  handle_message, run,
}

-- The fields of a device that the list shows.
pub record Rendered : Type 0 where
  pub fingerprint : String
  pub alias : String
  pub address : String
  pub port : ℕ
  pub protocol : String
  pub device_model : String
  pub device_type : String

unfoldable pub rendered : NodeDevice → Rendered
rendered d = record {
  fingerprint = d.fingerprint;
  alias = d.alias;
  address = d.address;
  port = d.port;
  protocol = d.protocol;
  device_model = d.device_model;
  device_type = d.device_type;
}

rendered-same : (a b : NodeDevice) → same_rendered_device a b ≡ true → rendered a ≡ rendered b
unfolding same_rendered_device rendered
rendered-same a b h = ground (
  arith,
  ==_iff a.fingerprint b.fingerprint,
  ==_iff a.alias b.alias,
  ==_iff a.address b.address,
  ==_iff a.port b.port,
  ==_iff a.protocol b.protocol,
  ==_iff a.device_model b.device_model,
  ==_iff a.device_type b.device_type,
)

-- What a listener sees: the value sent last.
unfoldable pub seen : List (List NodeDevice) → List NodeDevice
seen [] = []
seen (l ∷ older) = l

-- The listeners see what the table renders to.
pub record IsFresh (a : Actor) : Type 0 where
  pub fresh : map rendered (seen a.notified) ≡ map rendered (values a.device_map)

rendered-insert :
    (k : String) (old d : NodeDevice) (m : HashMap String NodeDevice)
    → get k m ≡ some old
    → rendered old ≡ rendered d
    → map rendered (values (insert k d m)) ≡ map rendered (values m)
unfolding get insert
rendered-insert k old d [] g same = cc g
rendered-insert k old d ((j, e) ∷ m) g same = ground (arith, rendered-insert k old d m, same)

handle_add-IsFresh : (d : NodeDevice) (a : Actor) → IsFresh a → IsFresh (handle_add d a)
unfolding handle_add notify_change seen
handle_add-IsFresh d a f =
    if_elim IsFresh (is_unchanged d a) _ _
      (λ u. elim (Option-cases (get d.fingerprint a.device_map)) [
        | inl missing ↦ cc (rw (missing, is_unchanged) at u)
        | inr (old, known) ↦ record {
          fresh =
              f.fresh
              ∙ sym (
                  rendered-insert d.fingerprint old d a.device_map known
                    (rendered-same old d (rw (known, is_unchanged) at u)));
        }
      ])
      (λ _. record { fresh = refl })

handle_message-IsFresh : (msg : Message) (a : Actor) → IsFresh a → IsFresh (handle_message msg a).0
unfolding handle_message notify_change seen
handle_message-IsFresh (Message.add d) a f = handle_add-IsFresh d a f
handle_message-IsFresh (Message.get_device fingerprint) a f = f
handle_message-IsFresh Message.get_all a f = f
handle_message-IsFresh (Message.check_exist fingerprint) a f = f
handle_message-IsFresh Message.get_current a f = f
handle_message-IsFresh (Message.set_current d) a f = record { fresh = f.fresh }
handle_message-IsFresh Message.listen a f = f
handle_message-IsFresh Message.clear a f = record { fresh = refl }

run_from-IsFresh : (msgs : List Message) (a : Actor) → IsFresh a → IsFresh (run msgs a)
unfolding run
run_from-IsFresh [] a f = f
run_from-IsFresh (msg ∷ msgs) a f =
    run_from-IsFresh msgs (handle_message msg a).0 (handle_message-IsFresh msg a f)

-- After any messages, the list that the listeners were sent last shows what the device table
-- holds: the two agree on every field that is rendered, although an `Add` that changes none of
-- these fields is not announced.
pub run-IsFresh :
    (current : NodeDevice) (msgs : List Message)
    → map rendered (seen (run msgs (new current)).notified)
      ≡ map rendered (values (run msgs (new current)).device_map)
unfolding new seen
run-IsFresh current msgs = (run_from-IsFresh msgs (new current) (record { fresh = refl })).fresh
