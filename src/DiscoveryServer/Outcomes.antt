-- ===== src/DiscoveryServer/Outcomes.antt =====
-- What one registration request does to the registry of
-- rust/core/src/relay/discovery_server.rs.
use localsend_rs.Base.{
  ℕ, ◌-◌, ◌≡◌, refl, sym, ap, ◌∙◌, ◌<◌, ◌^◌, ◌++◌, [], ◌∷◌, leb, nat_beq_iff, ==_refl, ◌≢◌, ◌⊎◌,
  Bool, true, false, not, ◌&&◌, Option, none, some, ◌==◌, ==_iff, bytes_eq, if◌then◌else◌, ltb,
  arith, Bool-cases, Option-cases, inl, inr,
}
use localsend_rs.HashMap.{get}
use localsend_rs.HashMap.Laws.{get-insert}
use localsend_rs.TurnServer.State.{ascii}
use localsend_rs.TurnServer.Secrets.{constant_time_eq-true}
use localsend_rs.Credentials.{username_of}
use localsend_rs.Credentials.Printing.{parse_u64-decimal}
use localsend_rs.Credentials.Accepted.{before_colon-username_of}
use localsend_rs.HashMap.Unique.{Unique, get-retain}
use localsend_rs.DiscoveryServer.Registry.{
  ttl, Text, DeviceRegistration, DeviceEntry, Registry, Crates, Clock, prune, entry_of, register,
  is_expired, verify, strip_prefix, bearer_of, handle_register,
}
use localsend_rs.DiscoveryServer.Ghosts.{is_stale}
use localsend_rs.DiscoveryServer.OnePerAddress.{get-register}

-- A request that parses, with a bearer password that is the MAC of its user name under the secret.
-- If the user name is one that the credentials of the relay have, its time has not come. The
-- device is in the registry afterwards, under the address that the request came from.
pub record Authorised (crates : Crates) (clock : Clock) (secret body : Text) (auth : Option Text)
    (ip : Text) (after : Registry) : Type 0 where
  pub reg : DeviceRegistration
  pub password : Text
  pub parsed : crates.from_json body ≡ some reg
  pub given : auth ≡ some (ascii "Bearer " ++ password)
  pub signed : password ≡ crates.base64_encode (crates.hmac_sha1 secret reg.username)
  pub unexpired :
      (exp : ℕ) (suffix : Text)
      → exp < 2 ^ 64
      → reg.username ≡ username_of exp suffix
      → clock.unix_now < exp
  pub stored :
      get reg.fingerprint after
      ≡ some (
        record {
          fingerprint = reg.fingerprint;
          alias = reg.alias;
          device_model = reg.device_model;
          device_type = reg.device_type;
          protocol = reg.protocol;
          address = ip;
          port = reg.port;
          candidates = reg.candidates;
        },
        clock.now,
      )

strip_prefix-some : (p t rest : Text) → strip_prefix p t ≡ some rest → t ≡ p ++ rest
unfolding strip_prefix
strip_prefix-some [] t rest h = cc h
strip_prefix-some (c ∷ p) [] rest h = cc h
strip_prefix-some (c ∷ p) (d ∷ t) rest h =
    ground (arith, nat_beq_iff c d, strip_prefix-some p t rest)

bearer_of-some :
    (auth : Option Text) (password : Text)
    → bearer_of auth ≡ some password
    → auth ≡ some (ascii "Bearer " ++ password)
unfolding bearer_of
bearer_of-some none password h = cc h
bearer_of-some (some header) password h =
    ap some (strip_prefix-some (ascii "Bearer ") header password h)

is_expired-username_of :
    (unix_now exp : ℕ) (suffix : Text)
    → exp < 2 ^ 64
    → is_expired unix_now (username_of exp suffix) ≡ leb exp unix_now
unfolding is_expired
is_expired-username_of unix_now exp suffix word =
    ground (arith, before_colon-username_of exp suffix, parse_u64-decimal exp word)

verify-parts :
    (crates : Crates) (unix_now : ℕ) (secret username password : Text)
    → verify crates unix_now secret username password ≡ true
    → (is_expired unix_now username ≡ false)
      × (crates.base64_encode (crates.hmac_sha1 secret username) ≡ password)
unfolding verify
verify-parts crates unix_now secret username password h = (
  ground arith,
  constant_time_eq-true (crates.base64_encode (crates.hmac_sha1 secret username)) password
      (ground arith),
)

get-register_own :
    (now : ℕ) (reg : DeviceRegistration) (ip : Text) (m : Registry)
    → get reg.fingerprint (register now reg ip m) ≡ some (entry_of reg ip, now)
unfolding register
get-register_own now reg ip m =
    rw (get-insert reg.fingerprint reg.fingerprint _ _, ==_refl reg.fingerprint) refl

verified-Authorised :
    (crates : Crates) (clock : Clock) (secret body : Text) (auth : Option Text) (ip : Text)
    (m : Registry) (reg : DeviceRegistration) (password : Text)
    → crates.from_json body ≡ some reg
    → bearer_of auth ≡ some password
    → verify crates clock.unix_now secret reg.username password ≡ true
    → Authorised crates clock secret body auth ip (register clock.now reg ip m)
unfolding entry_of
verified-Authorised crates clock secret body auth ip m reg password parsed given valid =
    let (fresh, signed) = verify-parts crates clock.unix_now secret reg.username password valid in
    record {
      reg = reg;
      password = password;
      parsed = parsed;
      given = bearer_of-some auth password given;
      signed = sym signed;
      unexpired = λ exp suffix word named.
          let late : leb exp clock.unix_now ≡ false =
            sym (is_expired-username_of clock.unix_now exp suffix word)
            ∙ ap (is_expired clock.unix_now) (sym named)
            ∙ fresh in
          ground arith;
      stored = get-register_own clock.now reg ip m;
    }

-- A registration request is answered with 200, and then its bearer password is the MAC of its user
-- name under the secret, the expiry time of a user name such as the credentials of the relay have
-- is later than now, and its device is in the registry under the address that the request came
-- from; or it gets another status, and the registry is as it was.
pub handle_register-Authorised :
    (crates : Crates) (clock : Clock) (secret body : Text) (auth : Option Text) (ip : Text)
    (m : Registry)
    → (((handle_register crates clock secret body auth ip m).1.0 ≡ 200)
        × Authorised crates clock secret body auth ip
            (handle_register crates clock secret body auth ip m).0)
      ⊎ (((handle_register crates clock secret body auth ip m).1.0 ≢ 200)
          × ((handle_register crates clock secret body auth ip m).0 ≡ m))
unfolding handle_register
handle_register-Authorised crates clock secret body auth ip m =
    elim (Option-cases (crates.from_json body)) [
      | inl bad ↦ rw (bad, handle_register) (inr ((λ e. absurd (omega arith)), refl))
      | inr (reg, parsed) ↦ elim (Option-cases (bearer_of auth)) [
        | inl missing ↦
            rw (parsed, handle_register, missing) (inr ((λ e. absurd (omega arith)), refl))
        | inr (password, given) ↦
            elim (Bool-cases (verify crates clock.unix_now secret reg.username password)) [
              | inl valid ↦
                  rw (parsed, handle_register, given, valid)
                    (inl (
                      refl,
                      verified-Authorised crates clock secret body auth ip m reg password parsed
                          given valid,
                    ))
              | inr invalid ↦
                  rw (parsed, handle_register, given, invalid)
                    (inr ((λ e. absurd (omega arith)), refl))
            ]
      ]
    ]

-- The entry that stays under `k`: it is young enough and of another address.
unfoldable stays : ℕ → Text → DeviceEntry × ℕ → Bool
stays now ip e = ltb (now - e.1) ttl && not (e.0.address == ip)

-- The registry `m` after a registration: the new entry under its fingerprint, and under any other
-- what was there, if it is younger than the time to live and of another address. The registry has
-- one entry to a key.
register-get :
    (now : ℕ) (reg : DeviceRegistration) (ip k : Text) (m : Registry)
    → Unique m
    → get k (register now reg ip m) ≡ (
        if reg.fingerprint == k
        then some (entry_of reg ip, now)
        else elim (get k m) [ none ↦ none | some e ↦ if stays now ip e then some e else none ])
unfolding is_stale stays prune
register-get now reg ip k m u = elim (Option-cases (get k m)) [
  | inl missing ↦ ground (
    arith,
    get-register now reg ip k m u,
    get-retain (λ fp (o : DeviceEntry × ℕ). ltb (now - o.1) ttl) k m u,
    missing,
  )
  | inr (e, known) ↦ ground (
    arith,
    get-register now reg ip k m u,
    get-retain (λ fp (o : DeviceEntry × ℕ). ltb (now - o.1) ttl) k m u,
    known,
    ==_iff k reg.fingerprint,
    ==_iff reg.fingerprint k,
  )
]
