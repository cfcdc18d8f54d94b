-- ===== src/Heartbeat/LanPeers.antt =====
-- A peer of the local network, against what the relay lists: `relay_discovery` of
-- rust/core/src/handle.rs.
use localsend_rs.Base.{
  string_eq, ◌≡◌, String, true, false, List, [], ◌∷◌, some, ◌==◌, All, Bool-cases, if_elim, ==_iff,
  inl, inr, arith,
}
use localsend_rs.HashMap.{get}
use localsend_rs.HashMap.Laws.{get-insert}
use localsend_rs.Model.{NodeDevice}
use localsend_rs.Device.Actor.{
  Actor, Message, handle_add, handle_get, handle_message, notify_change, run,
}
use localsend_rs.Heartbeat.Merge.{
  Listed, is_self, is_lan, is_private_or_lan, is_lan_peer, peer_of, merge_one, merge,
}

-- The message neither adds a device under this fingerprint nor forgets the devices.
abbrev pub Spares : String → Message → Type 0
Spares fp (Message.add d) = (d.fingerprint == fp) ≡ false
Spares fp (Message.set_current d) = (d.fingerprint == fp) ≡ false
Spares fp Message.clear = ⊥
Spares fp Message.listen = Unit
Spares fp Message.get_all = Unit
Spares fp Message.get_current = Unit
Spares fp (Message.get_device _) = Unit
Spares fp (Message.check_exist _) = Unit

-- The device is known under this fingerprint, which is not that of the actor itself.
pub record Knows (fp : String) (d : NodeDevice) (a : Actor) : Type 0 where
  pub known : get fp a.device_map ≡ some d
  pub other : (a.current.fingerprint == fp) ≡ false

handle_add-Knows :
    (fp : String) (d new : NodeDevice) (a : Actor)
    → (new.fingerprint == fp) ≡ false
    → Knows fp d a
    → Knows fp d (handle_add new a)
unfolding handle_add notify_change
handle_add-Knows fp d new a other h = record {
  known = ground (arith, get-insert new.fingerprint fp new a.device_map, h.known);
  other = ground (arith, h.other);
}

handle_message-Knows :
    (fp : String) (d : NodeDevice) (msg : Message) (a : Actor)
    → Spares fp msg
    → Knows fp d a
    → Knows fp d (handle_message msg a).0
unfolding handle_message
handle_message-Knows fp d (Message.add new) a spares h = handle_add-Knows fp d new a spares h
handle_message-Knows fp d (Message.set_current new) a spares h = record {
  known = h.known;
  other = spares;
}
handle_message-Knows fp d Message.clear a spares h = absurd spares
handle_message-Knows fp d Message.listen a spares h = h
handle_message-Knows fp d Message.get_all a spares h = h
handle_message-Knows fp d Message.get_current a spares h = h
handle_message-Knows fp d (Message.get_device j) a spares h = h
handle_message-Knows fp d (Message.check_exist j) a spares h = h

run-Knows :
    (fp : String) (d : NodeDevice) (msgs : List Message) (a : Actor)
    → All (Spares fp) msgs
    → Knows fp d a
    → Knows fp d (run msgs a)
unfolding run
run-Knows fp d [] a all h = h
run-Knows fp d (msg ∷ msgs) a (spares, all) h =
    run-Knows fp d msgs _ all (handle_message-Knows fp d msg a spares h)

-- What is asked of the actor under the fingerprint of the peer.
found_lan :
    (fp j : String) (d : NodeDevice) (a : Actor)
    → Knows fp d a
    → is_lan d ≡ true
    → (j == fp) ≡ true
    → is_lan_peer (handle_get j a) ≡ true
unfolding handle_get is_lan_peer
found_lan fp j d a h lan same = rw ((==_iff j fp).0 same, h.other, h.known) lan

merge_one-Knows :
    (current : NodeDevice) (fp : String) (d : NodeDevice) (dev : Listed) (meanwhile : List Message)
    (a : Actor)
    → is_lan d ≡ true
    → All (Spares fp) meanwhile
    → Knows fp d a
    → Knows fp d (merge_one current (dev, meanwhile) a)
unfolding merge_one
merge_one-Knows current fp d dev meanwhile a lan spared h =
    let quiet = run-Knows fp d meanwhile a spared h in
    let j = (peer_of dev).fingerprint in
    if_elim (Knows fp d) (is_self current dev) _ _ (λ _. quiet)
      (λ _.
        if_elim (Knows fp d) (is_lan_peer (handle_get j a)) _ _ (λ _. quiet)
          (λ unknown. elim (Bool-cases (j == fp)) [
            | inl same ↦ cc (found_lan fp j d a h lan same, unknown)
            | inr other ↦ handle_add-Knows fp d (peer_of dev) (run meanwhile a) other quiet
          ]))

list-Knows :
    (current : NodeDevice) (fp : String) (d : NodeDevice) (list : List (Listed × List Message))
    (a : Actor)
    → is_lan d ≡ true
    → All (λ (e : Listed × List Message). All (Spares fp) e.1) list
    → Knows fp d a
    → Knows fp d (merge current list a)
unfolding merge
list-Knows current fp d [] a lan spared h = h
list-Knows current fp d ((dev, meanwhile) ∷ list) a lan (now, later) h =
    list-Knows current fp d list _ lan later
      (merge_one-Knows current fp d dev meanwhile a lan now h)

-- A known peer that was discovered on the local network and whose address is a private IPv4
-- address, in the sense of `is_private_or_lan`, stays as it is whatever the relay lists, under the
-- fingerprint of the peer too. The fingerprint is not that of the device actor's own device. The
-- messages that reach the device actor meanwhile neither add a device or make one the current one
-- under this fingerprint, nor forget the devices.
pub merge-Knows :
    (current : NodeDevice) (fp : String) (d : NodeDevice) (list : List (Listed × List Message))
    (a : Actor)
    → d.discovery_source ≡ "lan"
    → is_private_or_lan d.address ≡ true
    → All (λ (e : Listed × List Message). All (Spares fp) e.1) list
    → Knows fp d a
    → Knows fp d (merge current list a)
unfolding is_lan
merge-Knows current fp d list a source private =
    list-Knows current fp d list a (ground (arith, (==_iff d.discovery_source "lan").1 source))
