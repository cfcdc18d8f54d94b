-- ===== src/DiscoveryServer/OnePerAddress.antt =====
-- What a registration makes of the registry of rust/core/src/relay/discovery_server.rs.
use localsend_rs.Base.{
  ℕ, ◌-◌, ◌<◌, ◌≡◌, refl, sym, ◌∙◌, true, false, Option, none, some, List, [], ◌∷◌, ◌==◌, ==_iff,
  bytes_eq, if◌then◌else◌, ltb, arith, Bool-cases, Option-cases, inl, inr,
}
use localsend_rs.HashMap.{get}
use localsend_rs.HashMap.Laws.{get-insert}
use localsend_rs.HashMap.Unique.{Unique, get-retain, Unique-retain, Unique-insert}
use localsend_rs.DiscoveryServer.Registry.{
  ttl, Text, DeviceRegistration, DeviceEntry, Registry, Crates, Clock, Request, register_device,
  list_devices, prune, entry_of, stale, remove_all, register, verify, bearer_of, handle_register,
  handle_list, handle, run,
}
use localsend_rs.DiscoveryServer.Ghosts.{get-remove_all, Unique-remove_all, any-stale, is_stale}

pub get-register :
    (now : ℕ) (reg : DeviceRegistration) (ip k : Text) (m : Registry)
    → Unique m
    → get k (register now reg ip m) ≡ (
        if reg.fingerprint == k
        then some (entry_of reg ip, now)
        else if is_stale ip reg.fingerprint k (get k (prune now m))
        then none
        else get k (prune now m))
unfolding register prune
get-register now reg ip k m u =
    let live = prune now m in
    rw
      (
        get-insert reg.fingerprint k (entry_of reg ip, now)
            (remove_all (stale ip reg.fingerprint live) live),
        get-remove_all (stale ip reg.fingerprint live) k live,
        any-stale ip reg.fingerprint k live (Unique-retain _ m u),
      )
      refl

-- Entries that the registration left: they are live, and of other addresses.
old_entry :
    (now : ℕ) (reg : DeviceRegistration) (ip k : Text) (y : DeviceEntry × ℕ) (m : Registry)
    → Unique m
    → (reg.fingerprint == k) ≡ false
    → get k (register now reg ip m) ≡ some y
    → (get k (prune now m) ≡ some y) × ((y.0.address == ip) ≡ false)
unfolding is_stale
old_entry now reg ip k y m u other g = elim (Option-cases (get k (prune now m))) [
  | inl missing ↦ ground (arith, get-register now reg ip k m u, other, missing, g)
  | inr (o, known) ↦ ground (
    arith,
    get-register now reg ip k m u,
    other,
    known,
    g,
    ==_iff k reg.fingerprint,
    ==_iff reg.fingerprint k,
  )
]

pruned_entry :
    (now : ℕ) (k : Text) (y : DeviceEntry × ℕ) (m : Registry)
    → Unique m
    → get k (prune now m) ≡ some y
    → (get k m ≡ some y) × (now - y.1 < ttl)
unfolding prune
pruned_entry now k y m u g = elim (Option-cases (get k m)) [
  | inl missing ↦
      ground (arith, get-retain (λ fp (e : DeviceEntry × ℕ). ltb (now - e.1) ttl) k m u, missing, g)
  | inr (o, known) ↦
      ground (arith, get-retain (λ fp (e : DeviceEntry × ℕ). ltb (now - e.1) ttl) k m u, known, g)
]

-- One entry to a fingerprint, and one to an address.
pub record IsRegistry (m : Registry) : Type 0 where
  pub unique : Unique m
  pub alone :
      (j k : Text) (x y : DeviceEntry × ℕ)
      → get j m ≡ some x
      → get k m ≡ some y
      → x.0.address ≡ y.0.address
      → j ≡ k

prune-IsRegistry : (now : ℕ) (m : Registry) → IsRegistry m → IsRegistry (prune now m)
unfolding prune
prune-IsRegistry now m r = record {
  unique = Unique-retain _ m r.unique;
  alone = λ j k x y gj gk same.
      r.alone j k x y (pruned_entry now j x m r.unique gj).0 (pruned_entry now k y m r.unique gk).0
        same;
}

new_entry :
    (now : ℕ) (reg : DeviceRegistration) (ip k : Text) (x : DeviceEntry × ℕ) (m : Registry)
    → Unique m
    → (reg.fingerprint == k) ≡ true
    → get k (register now reg ip m) ≡ some x
    → x.0.address ≡ ip
unfolding entry_of
new_entry now reg ip k x m u own g = ground (arith, get-register now reg ip k m u, own, g)

register-alone :
    (now : ℕ) (reg : DeviceRegistration) (ip : Text) (m : Registry)
    → IsRegistry m
    → (j k : Text) (x y : DeviceEntry × ℕ) → get j (register now reg ip m) ≡ some x
    → get k (register now reg ip m) ≡ some y
    → x.0.address ≡ y.0.address
    → j ≡ k
register-alone now reg ip m r j k x y gj gk same = elim (Bool-cases (reg.fingerprint == j)) [
  | inl own_j ↦ elim (Bool-cases (reg.fingerprint == k)) [
    | inl own_k ↦ sym ((==_iff reg.fingerprint j).0 own_j) ∙ (==_iff reg.fingerprint k).0 own_k
    | inr other_k ↦ absurd (
        ground (
          arith,
          new_entry now reg ip j x m r.unique own_j gj,
          old_entry now reg ip k y m r.unique other_k gk,
          same,
          ==_iff y.0.address ip,
        ))
  ]
  | inr other_j ↦ elim (Bool-cases (reg.fingerprint == k)) [
    | inl own_k ↦ absurd (
        ground (
          arith,
          new_entry now reg ip k y m r.unique own_k gk,
          old_entry now reg ip j x m r.unique other_j gj,
          same,
          ==_iff x.0.address ip,
        ))
    | inr other_k ↦
        (prune-IsRegistry now m r).alone j k x y (old_entry now reg ip j x m r.unique other_j gj).0
          (old_entry now reg ip k y m r.unique other_k gk).0 same
  ]
]

register-IsRegistry :
    (now : ℕ) (reg : DeviceRegistration) (ip : Text) (m : Registry)
    → IsRegistry m
    → IsRegistry (register now reg ip m)
unfolding register
register-IsRegistry now reg ip m r =
    let live = prune-IsRegistry now m r in
    record {
      unique =
          Unique-insert _ _ _
            (Unique-remove_all (stale ip reg.fingerprint (prune now m)) (prune now m) live.unique);
      alone = λ j k x y gj gk same. register-alone now reg ip m r j k x y gj gk same;
    }

handle_register-IsRegistry :
    (crates : Crates) (clock : Clock) (secret body : Text) (auth : Option Text) (ip : Text)
    (m : Registry)
    → IsRegistry m
    → IsRegistry (handle_register crates clock secret body auth ip m).0
unfolding handle_register
handle_register-IsRegistry crates clock secret body auth ip m r =
    elim (Option-cases (crates.from_json body)) [
      | inl bad ↦ rw (bad, handle_register) r
      | inr (reg, parsed) ↦ elim (Option-cases (bearer_of auth)) [
        | inl missing ↦ rw (parsed, handle_register, missing) r
        | inr (password, given) ↦
            elim (Bool-cases (verify crates clock.unix_now secret reg.username password)) [
              | inl valid ↦
                  rw (parsed, handle_register, given, valid)
                    (register-IsRegistry clock.now reg ip m r)
              | inr invalid ↦ rw (parsed, handle_register, given, invalid) r
            ]
      ]
    ]

handle-IsRegistry :
    (crates : Crates) (secret : Text) (clock : Clock) (request : Request) (m : Registry)
    → IsRegistry m
    → IsRegistry (handle crates secret clock request m)
unfolding handle handle_list
handle-IsRegistry crates secret clock (register_device body auth ip) m r =
    handle_register-IsRegistry crates clock secret body auth ip m r
handle-IsRegistry crates secret clock list_devices m r = prune-IsRegistry clock.now m r

run_from-IsRegistry :
    (crates : Crates) (secret : Text) (requests : List (Clock × Request)) (m : Registry)
    → IsRegistry m
    → IsRegistry (run crates secret requests m)
unfolding run
run_from-IsRegistry crates secret [] m r = r
run_from-IsRegistry crates secret ((clock, request) ∷ requests) m r =
    run_from-IsRegistry crates secret requests (handle crates secret clock request m)
      (handle-IsRegistry crates secret clock request m r)

-- Whatever requests the server handles from its start, no two fingerprints are registered with
-- the same address.
pub run-alone :
    (crates : Crates) (secret : Text) (requests : List (Clock × Request)) (j k : Text)
    (x y : DeviceEntry × ℕ)
    → get j (run crates secret requests []) ≡ some x
    → get k (run crates secret requests []) ≡ some y
    → x.0.address ≡ y.0.address
    → j ≡ k
run-alone crates secret requests =
    (run_from-IsRegistry crates secret requests [] (record { unique = tt; alone = nothing })).alone
  where
    nothing :
        (j k : Text) (x y : DeviceEntry × ℕ)
        → get j [] ≡ some x
        → get k [] ≡ some y
        → x.0.address ≡ y.0.address
        → j ≡ k
    nothing j k x y gj gk same = unfold get in cc gj
