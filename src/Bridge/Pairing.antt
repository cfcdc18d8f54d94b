-- ===== src/Bridge/Pairing.antt =====
-- The registry of waiting listeners in `handle_bridge`. A connection is a number. A listener's
-- channel is a number too; `waiting` holds the tasks that wait on one, `handed` the connections
-- that were sent and not received yet. A channel has room for one connection; a second one that
-- is sent before the task has run is dropped when the task ends, and so is one that is sent to a
-- task that is gone.
use localsend_rs.Base.{
  ℕ, suc, any, nat_eq, bytes_eq, Bool, none, some, List, [], ◌∷◌, ◌==◌, if◌then◌else◌,
}
use localsend_rs.HashMap.{HashMap, get, contains_key, insert, remove}
use localsend_rs.Bridge.Commands.{ok_answer, not_found_answer}

pub record Waiting : Type 0 where
  pub fingerprint : List ℕ
  pub stream : ℕ

pub record Relay : Type 0 where
  pub listeners : HashMap (List ℕ) ℕ
  pub waiting : HashMap ℕ Waiting
  pub handed : HashMap ℕ ℕ
  pub next_channel : ℕ
  pub spliced : List (ℕ × ℕ)

unfoldable pub new : Relay
new = record { listeners = []; waiting = []; handed = []; next_channel = 0; spliced = [] }

unfoldable pub listen : ℕ → List ℕ → Relay → Relay
listen stream fingerprint r = record r {
  listeners = insert fingerprint r.next_channel r.listeners;
  waiting = insert r.next_channel (record { fingerprint = fingerprint; stream = stream }) r.waiting;
  next_channel = suc r.next_channel;
}

-- `tx.send`
unfoldable pub hand : ℕ → ℕ → Relay → Relay
hand channel stream r = elim (get channel r.waiting) [
  | none ↦ r
  | some task ↦
      if contains_key channel r.handed
      then r
      else record r { handed = insert channel stream r.handed }
]

-- The new registry, and the answer to the client.
unfoldable pub connect : ℕ → List ℕ → Relay → Relay × List ℕ
unfolding hand
connect stream target r = elim (get target r.listeners) [
  | none ↦ (r, not_found_answer)
  | some channel ↦ (hand channel stream r, ok_answer)
]

-- The sender of the channel is in the registry.
unfoldable pub is_open : ℕ → Relay → Bool
is_open channel r = any (λ (e : List ℕ × ℕ). e.1 == channel) r.listeners

-- The task on `channel` goes on: with the connection that it was handed, or, when the channel was
-- closed, without one. It takes its fingerprint out of the registry either way. The entry that it
-- takes out may be another task's: the only sender of that task's channel is dropped with it, so
-- that the task ends when it goes on.
unfoldable pub wake : ℕ → Relay → Relay
unfolding is_open
wake channel r = elim (get channel r.waiting) [
  | none ↦ r
  | some task ↦ elim (get channel r.handed) [
    | some stream ↦ record r {
      listeners = remove task.fingerprint r.listeners;
      waiting = remove channel r.waiting;
      handed = remove channel r.handed;
      spliced = (task.stream, stream) ∷ r.spliced;
    }
    | none ↦ if is_open channel r then r else record r {
      listeners = remove task.fingerprint r.listeners;
      waiting = remove channel r.waiting;
    }
  ]
]

-- What may happen at the relay, in any order.
pub data Event : Type 0 where
  listens connects : ℕ → List ℕ → Event
  wakes : ℕ → Event

-- What an event makes of the registry.
unfoldable pub happen : Event → Relay → Relay
unfolding listen connect wake
happen (listens stream fp) r = listen stream fp r
happen (connects stream fp) r = (connect stream fp r).0
happen (wakes channel) r = wake channel r

-- Events in their order.
unfoldable pub run : List Event → Relay → Relay
unfolding happen
run [] r = r
run (e ∷ es) r = run es (happen e r)

pub data Step : Event → Relay → Relay → Type 0 where
  step_listen :
      (stream : ℕ) (fp : List ℕ) (r : Relay) → Step (listens stream fp) r (listen stream fp r)
  step_connect :
      (stream : ℕ) (fp : List ℕ) (r : Relay) → Step (connects stream fp) r (connect stream fp r).0
  step_wake : (channel : ℕ) (r : Relay) → Step (wakes channel) r (wake channel r)

-- The events of a run, the latest first.
pub data Reaches : List Event → Relay → Type 0 where
  start : Reaches [] new
  next :
      {es : List Event} {e : Event} {r s : Relay} → Reaches es r → Step e r s → Reaches (e ∷ es) s
