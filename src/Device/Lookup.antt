-- ===== src/Device/Lookup.antt =====
-- What the device actor of rust/core/src/device.rs answers about a fingerprint.
use localsend_rs.Base.{
  ◌≡◌, String, true, false, none, some, List, [], ◌∷◌, ◌==◌, ==_iff, string_eq, if_elim, arith,
  Bool-cases, inl, inr,
}
use localsend_rs.HashMap.{HashMap, get, insert}
use localsend_rs.HashMap.Laws.{get-insert, contains_key-get}
use localsend_rs.Model.{NodeDevice}
use localsend_rs.Device.Actor.{
  Actor, Message, new, notify_change, handle_add, handle_get, handle_check_exist, handle_message,
  is_unchanged, run,
}

-- Each device is filed under its own fingerprint.
unfoldable pub Filed : HashMap String NodeDevice → Type 0
Filed m = (k : String) (d : NodeDevice) → get k m ≡ some d → d.fingerprint ≡ k

Filed-insert :
    (d : NodeDevice) (m : HashMap String NodeDevice) → Filed m → Filed (insert d.fingerprint d m)
unfolding Filed
Filed-insert d m f k e g = elim (Bool-cases (d.fingerprint == k)) [
  | inl here ↦ ground (arith, get-insert d.fingerprint k d m, here, ==_iff d.fingerprint k, g)
  | inr other ↦ f k e (ground (arith, get-insert d.fingerprint k d m, other, g))
]

handle_message-Filed :
    (msg : Message) (a : Actor) → Filed a.device_map → Filed (handle_message msg a).0.device_map
unfolding handle_message handle_add notify_change Filed get
handle_message-Filed (Message.add d) a f =
    if_elim (λ (b : Actor). Filed b.device_map) (is_unchanged d a) _ _
      (λ _. Filed-insert d a.device_map f) (λ _. Filed-insert d a.device_map f)
handle_message-Filed (Message.get_device fingerprint) a f = f
handle_message-Filed Message.get_all a f = f
handle_message-Filed (Message.check_exist fingerprint) a f = f
handle_message-Filed Message.get_current a f = f
handle_message-Filed (Message.set_current d) a f = f
handle_message-Filed Message.listen a f = f
handle_message-Filed Message.clear a f = λ k d g. cc g

new-Filed : (current : NodeDevice) → Filed (new current).device_map
unfolding new get Filed
new-Filed current k d g = cc g

run_from-Filed :
    (msgs : List Message) (a : Actor) → Filed a.device_map → Filed (run msgs a).device_map
unfolding run
run_from-Filed [] a f = f
run_from-Filed (msg ∷ msgs) a f =
    run_from-Filed msgs (handle_message msg a).0 (handle_message-Filed msg a f)

-- What the actor answers about the fingerprint `fp`: `CheckExist` says whether `Get` finds a
-- device, and a device that `Get` finds has that fingerprint.
pub record Answers (fp : String) (a : Actor) : Type 0 where
  pub exist : handle_check_exist fp a ≡ elim (handle_get fp a) [ none ↦ false | some d ↦ true ]
  pub same : (d : NodeDevice) → handle_get fp a ≡ some d → d.fingerprint ≡ fp

-- After any messages, `CheckExist` says of each fingerprint whether `Get` finds a device, and the
-- device that `Get` finds has the fingerprint that was asked for.
pub run-Answers :
    (current : NodeDevice) (msgs : List Message) (fp : String) → Answers fp (run msgs (new current))
unfolding handle_check_exist handle_get Filed
run-Answers current msgs fp =
    let a = run msgs (new current) in
    let filed = run_from-Filed msgs (new current) (new-Filed current) in
    record {
      exist = ground (arith, contains_key-get fp a.device_map);
      same = λ d g. elim (Bool-cases (a.current.fingerprint == fp)) [
        | inl own ↦ ground (arith, g, own, ==_iff a.current.fingerprint fp)
        | inr other ↦ filed fp d (rw (other) at g)
      ];
    }
