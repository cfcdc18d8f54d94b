-- ===== src/DiscoveryServer/Ghosts.antt =====
-- The registry of rust/core/src/relay/discovery_server.rs holds one entry to an address.
use localsend_rs.Base.{
  ℕ, ◌≡◌, refl, ◌∙◌, Bool, false, not, ◌&&◌, Option, none, some, List, [], ◌∷◌, ◌==◌, ==_iff,
  bytes_eq, if◌then◌else◌, any, arith, Bool-cases, inl, inr,
}
use localsend_rs.HashMap.{get, remove}
use localsend_rs.HashMap.Laws.{get-remove}
use localsend_rs.HashMap.Unique.{Unique, Unique-remove}
use localsend_rs.DiscoveryServer.Registry.{Text, DeviceEntry, Registry, stale, remove_all}

get-remove_all_missing :
    (fps : List Text) (k : Text) (m : Registry) → get k m ≡ none → get k (remove_all fps m) ≡ none
unfolding remove_all
get-remove_all_missing [] k m h = h
get-remove_all_missing (fp ∷ fps) k m h =
    get-remove_all_missing fps k (remove fp m) (ground (arith, get-remove fp k m, h))

pub get-remove_all :
    (fps : List Text) (k : Text) (m : Registry)
    → get k (remove_all fps m) ≡ (if any (λ fp. fp == k) fps then none else get k m)
unfolding remove_all
get-remove_all [] k m = refl
get-remove_all (fp ∷ fps) k m = elim (Bool-cases (fp == k)) [
  | inl here ↦
      get-remove_all_missing fps k (remove fp m) (ground (arith, get-remove fp k m, here))
      ∙ rw (here) refl
  | inr other ↦ ground (arith, get-remove_all fps k (remove fp m), get-remove fp k m, other)
]

pub Unique-remove_all : (fps : List Text) (m : Registry) → Unique m → Unique (remove_all fps m)
unfolding remove_all
Unique-remove_all [] m u = u
Unique-remove_all (fp ∷ fps) m u = Unique-remove_all fps (remove fp m) (Unique-remove fp m u)

-- Is the entry `o` a ghost of `fingerprint` at `ip`, when it stands under `k`?
unfoldable pub is_stale : Text → Text → Text → Option (DeviceEntry × ℕ) → Bool
is_stale ip fingerprint k none = false
is_stale ip fingerprint k (some e) = e.0.address == ip && not (k == fingerprint)

none-not_stale :
    (ip fingerprint k : Text) (m : Registry)
    → get k m ≡ none
    → any (λ fp. fp == k) (stale ip fingerprint m) ≡ false
unfolding stale get
none-not_stale ip fingerprint k [] h = refl
none-not_stale ip fingerprint k ((fp, e) ∷ m) h = ground (arith, none-not_stale ip fingerprint k m)

pub any-stale :
    (ip fingerprint k : Text) (m : Registry)
    → Unique m
    → any (λ fp. fp == k) (stale ip fingerprint m) ≡ is_stale ip fingerprint k (get k m)
unfolding stale get is_stale
any-stale ip fingerprint k [] u = refl
any-stale ip fingerprint k ((fp, e) ∷ m) (fresh, u) =
    ground
      (arith, ==_iff fp k, any-stale ip fingerprint k m u, none-not_stale ip fingerprint fp m fresh)
