-- ===== src/Tofu/Store.antt =====
-- `TofuStore` and the check of a peer's certificate of rust/core/src/relay/tls.rs. Texts are byte
-- strings, and the parameter `sha256` is the hash of the crate sha2. The file that the pins are
-- written to is not modelled; a failed write is ignored by the code.
use localsend_rs.Base.{
  ℕ, ◌+◌, ◌/◌, ◌%◌, Option, none, some, List, [], ◌∷◌, ◌==◌, bytes_eq, nat_eq, if◌then◌else◌, ltb,
}
use localsend_rs.HashMap.{HashMap, get, insert, remove}

abbrev pub Text : Type 0
Text = List ℕ

-- The map behind the lock.
abbrev pub TofuStore : Type 0
TofuStore = HashMap Text Text

pub record TofuVerifier : Type 0 where
  pub peer_id : Text
  pub expected : Option Text

pub data Verdict : Type 0 where
  assertion : Verdict
  changed : Text → Text → Verdict
  mismatch : Text → Text → Verdict

-- One digit of `{b:02X}`.
abbrev pub hex_digit : ℕ → ℕ
hex_digit d = if ltb d 10 then 48 + d else 55 + d

unfoldable pub hex : List ℕ → Text
hex [] = []
hex (b ∷ bs) = hex_digit (b / 16) ∷ hex_digit (b % 16) ∷ hex bs

unfoldable pub fingerprint_of : (List ℕ → List ℕ) → List ℕ → Text
unfolding hex
fingerprint_of sha256 cert = hex (sha256 cert)

unfoldable pub pinned_fingerprint : Text → TofuStore → Option Text
pinned_fingerprint peer store = get peer store

unfoldable pub pin : Text → Text → TofuStore → TofuStore
pin peer fingerprint store = insert peer fingerprint store

-- How a handshake stands after its look at the store: decided, or accepted but for its pin, which
-- it writes under the lock a second time.
pub data Looked : Type 0 where
  decided : Verdict → Looked
  unpinned : Text → Looked

-- No pin yet: the check against a fingerprint that the caller knows.
unfoldable pub first_contact : TofuVerifier → Text → Looked
first_contact v fingerprint = elim v.expected [
  | none ↦ unpinned fingerprint
  | some expected ↦
      if expected == fingerprint
      then unpinned fingerprint
      else decided (mismatch expected fingerprint)
]

-- `verify_server_cert` up to its call of `pin`.
unfoldable pub look_up : (List ℕ → List ℕ) → TofuVerifier → List ℕ → TofuStore → Looked
unfolding fingerprint_of pinned_fingerprint first_contact
look_up sha256 v cert store = elim (pinned_fingerprint v.peer_id store) [
  | none ↦ first_contact v (fingerprint_of sha256 cert)
  | some pinned ↦
      if pinned == fingerprint_of sha256 cert
      then decided assertion
      else decided (changed pinned (fingerprint_of sha256 cert))
]

-- A certificate, by its fingerprint, for a peer.
pub record Contact : Type 0 where
  pub peer_id : Text
  pub fingerprint : Text

-- The store, which all handshakes share, and the handshakes that are about to pin.
pub record Shared : Type 0 where
  pub store : TofuStore
  pub in_flight : HashMap ℕ Contact

-- What the handshakes do, each under its number, in the order in which they take the lock.
pub data Event : Type 0 where
  looks : ℕ → TofuVerifier → List ℕ → Event
  pins : ℕ → Event

-- What a look at the store leads to: the new state, and the contact that was accepted, if any.
unfoldable pub looked : ℕ → Contact → Looked → Shared → Shared × Option Contact
looked n c (decided assertion) s = (s, some c)
looked n c (decided (changed pinned presented)) s = (s, none)
looked n c (decided (mismatch expected presented)) s = (s, none)
looked n c (unpinned fp) s =
    (record s { in_flight = insert n (record c { fingerprint = fp }) s.in_flight }, none)

unfoldable pub step : (List ℕ → List ℕ) → Event → Shared → Shared × Option Contact
unfolding look_up looked pin
step sha256 (looks n v cert) s =
    looked n (record { peer_id = v.peer_id; fingerprint = fingerprint_of sha256 cert })
      (look_up sha256 v cert s.store) s
step sha256 (pins n) s = elim (get n s.in_flight) [
  | none ↦ (s, none)
  | some c ↦ (
    record { store = pin c.peer_id c.fingerprint s.store; in_flight = remove n s.in_flight },
    some c,
  )
]

abbrev add_accepted : Option Contact → List Contact → List Contact
add_accepted none cs = cs
add_accepted (some c) cs = c ∷ cs

-- The contacts that were accepted, in their order.
unfoldable pub run : (List ℕ → List ℕ) → List Event → Shared → List Contact
unfolding step
run sha256 [] s = []
run sha256 (e ∷ es) s =
    let (next, accepted) = step sha256 e s in add_accepted accepted (run sha256 es next)
