-- ===== src/HashMap/Counts.antt =====
-- How an insertion moves the number of values that pass a test.
use localsend_rs.Base.{
  ◌+◌, ◌≡◌, Bool, Option, none, some, [], ◌∷◌, Eq, if◌then◌else◌, arith, count, ℕ, false,
}
use localsend_rs.HashMap.{HashMap, values, get, insert}

-- 1 for a value that passes the test, 0 for one that fails it and for no value.
abbrev pub tally {ℓ} : {V : Type ℓ} → (V → Bool) → Option V → ℕ
tally p none = 0
tally p (some v) = if p v then 1 else 0

module _ {ℓ κ} {K : Type ℓ} {V : Type κ} ⦃e : Eq K⦄ (p : V → Bool) where
  -- The old value at the key goes, the new one comes.
  pub count-insert :
      (k : K) (v : V) (m : HashMap K V)
      → count p (values (insert k v m)) + tally p (get k m) ≡ count p (values m) + tally p (some v)
  unfolding insert get
  count-insert k v [] = ground arith
  count-insert k v ((i, w) ∷ m) = ground (arith, count-insert k v m)

  -- What a test finds nowhere, no lookup finds.
  pub get-count_zero :
      (k : K) (v : V) (m : HashMap K V) → count p (values m) ≡ 0 → get k m ≡ some v → p v ≡ false
  unfolding get
  get-count_zero k v [] h g = cc g
  get-count_zero k v ((j, w) ∷ m) h g = ground (arith, get-count_zero k v m)
