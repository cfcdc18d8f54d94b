-- ===== src/DiscoveryServer/Registry.antt =====
-- The registry of rust/core/src/relay/discovery_server.rs and its two requests. Texts are byte
-- strings, times are numbers of seconds, and `REGISTRY` is passed in and out. The parameters are
-- the functions of other crates: the JSON of serde, the MAC and base64.
use localsend_rs.Base.{
  ℕ, ◌+◌, ◌-◌, ◌*◌, ◌^◌, Bool, false, not, ◌&&◌, Option, none, some, List, [], ◌∷◌, map, ◌==◌,
  bytes_eq, if◌then◌else◌, ltb, leb, nat_beq,
}
use localsend_rs.HashMap.{HashMap, insert, remove, retain, values}
use localsend_rs.TurnServer.State.{ascii}
use localsend_rs.TurnServer.Auth.{constant_time_eq}

abbrev pub ttl : ℕ
ttl = 75

abbrev pub Text : Type 0
Text = List ℕ

pub record DeviceRegistration : Type 0 where
  pub fingerprint : Text
  pub alias : Text
  pub device_model : Text
  pub device_type : Text
  pub protocol : Text
  pub port : ℕ
  pub username : Text
  pub candidates : List Text

pub record DeviceEntry : Type 0 where
  pub fingerprint : Text
  pub alias : Text
  pub device_model : Text
  pub device_type : Text
  pub protocol : Text
  pub address : Text
  pub port : ℕ
  pub candidates : List Text

abbrev pub Registry : Type 0
Registry = HashMap Text (DeviceEntry × ℕ)

pub record Crates : Type 0 where
  pub from_json : Text → Option DeviceRegistration
  pub to_json : List DeviceEntry → Text
  pub hmac_sha1 : Text → Text → Text
  pub base64_encode : Text → Text

-- What `with_registry` does before its function: entries of `ttl` seconds and older are dropped.
unfoldable pub prune : ℕ → Registry → Registry
prune now = retain (λ fp (e : DeviceEntry × ℕ). ltb (now - e.1) ttl)

-- `username.split(':').next()`
unfoldable pub before_colon : Text → Text
before_colon [] = []
before_colon (c ∷ cs) = let rest = before_colon cs in if nat_beq c 58 then [] else c ∷ rest

-- `parse::<u64>()`: digits, after one plus sign perhaps, and no overflow.
unfoldable pub parse_digits : ℕ → Text → Option ℕ
parse_digits acc [] = some acc
parse_digits acc (c ∷ cs) =
    let rest = parse_digits (acc * 10 + (c - 48)) cs in
    if leb 48 c && leb c 57 && ltb (acc * 10 + (c - 48)) (2 ^ 64) then rest else none

unfoldable pub parse_u64 : Text → Option ℕ
unfolding parse_digits
parse_u64 [] = none
parse_u64 (c ∷ []) = parse_digits 0 (c ∷ [])
parse_u64 (c ∷ d ∷ cs) =
    if nat_beq c 43 then parse_digits 0 (d ∷ cs) else parse_digits 0 (c ∷ d ∷ cs)

unfoldable pub is_expired : ℕ → Text → Bool
unfolding before_colon parse_u64
is_expired unix_now username = elim (parse_u64 (before_colon username)) [
  | none ↦ false
  | some exp ↦ leb exp unix_now
]

unfoldable pub verify : Crates → ℕ → Text → Text → Text → Bool
unfolding is_expired constant_time_eq
verify crates unix_now secret username password =
    not (is_expired unix_now username)
    && constant_time_eq (crates.base64_encode (crates.hmac_sha1 secret username)) password

-- `strip_prefix`
unfoldable pub strip_prefix : Text → Text → Option Text
strip_prefix [] t = some t
strip_prefix (p ∷ ps) [] = none
strip_prefix (p ∷ ps) (c ∷ cs) = let rest = strip_prefix ps cs in if nat_beq p c then rest else none

unfoldable pub bearer_of : Option Text → Option Text
unfolding strip_prefix
bearer_of none = none
bearer_of (some h) = strip_prefix (ascii "Bearer ") h

unfoldable pub entry_of : DeviceRegistration → Text → DeviceEntry
entry_of reg source_ip = record {
  fingerprint = reg.fingerprint;
  alias = reg.alias;
  device_model = reg.device_model;
  device_type = reg.device_type;
  protocol = reg.protocol;
  address = source_ip;
  port = reg.port;
  candidates = reg.candidates;
}

-- The older entries of the same address under another fingerprint.
unfoldable pub stale : Text → Text → Registry → List Text
stale source_ip fingerprint [] = []
stale source_ip fingerprint ((fp, (e, at)) ∷ m) =
    let rest = stale source_ip fingerprint m in
    if e.address == source_ip && not (fp == fingerprint) then fp ∷ rest else rest

unfoldable pub remove_all : List Text → Registry → Registry
remove_all [] m = m
remove_all (fp ∷ fps) m = remove_all fps (remove fp m)

unfoldable pub register : ℕ → DeviceRegistration → Text → Registry → Registry
unfolding prune entry_of stale remove_all
register now reg source_ip m =
    let live = prune now m in
    insert reg.fingerprint (entry_of reg source_ip, now)
      (remove_all (stale source_ip reg.fingerprint live) live)

abbrev pub entries : Registry → List DeviceEntry
entries m = map (λ (e : DeviceEntry × ℕ). e.0) (values m)

-- The clocks of a request: the one of `Instant` and the one of `SystemTime`.
pub record Clock : Type 0 where
  pub now : ℕ
  pub unix_now : ℕ

unfoldable pub handle_register :
    Crates → Clock → Text → Text → Option Text → Text → Registry → Registry × (ℕ × Text)
unfolding bearer_of verify register
handle_register crates clock secret body auth source_ip m = elim (crates.from_json body) [
  | none ↦ (m, (400, ascii "{\"error\":\"bad json\"}"))
  | some reg ↦ elim (bearer_of auth) [
    | none ↦ (m, (401, ascii "{\"error\":\"missing auth\"}"))
    | some password ↦
        if verify crates clock.unix_now secret reg.username password
        then (let list = register clock.now reg source_ip m in
            (list, (200, crates.to_json (entries list))))
        else (m, (401, ascii "{\"error\":\"bad credentials\"}"))
  ]
]

unfoldable pub handle_list : Crates → Clock → Registry → Registry × (ℕ × Text)
unfolding prune
handle_list crates clock m =
    let live = prune clock.now m in (live, (200, crates.to_json (entries live)))

pub data Request : Type 0 where
  register_device : Text → Option Text → Text → Request
  list_devices : Request

unfoldable pub handle : Crates → Text → Clock → Request → Registry → Registry
unfolding handle_register handle_list
handle crates secret clock (Request.register_device body auth source_ip) m =
    (handle_register crates clock secret body auth source_ip m).0
handle crates secret clock Request.list_devices m = (handle_list crates clock m).0

-- The requests in the order in which they take the lock.
unfoldable pub run : Crates → Text → List (Clock × Request) → Registry → Registry
unfolding handle
run crates secret [] m = m
run crates secret ((clock, request) ∷ requests) m =
    run crates secret requests (handle crates secret clock request m)
