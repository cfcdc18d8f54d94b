-- ===== src/HashMap/Any.antt =====
-- A test on the values of a map, and what the map's operations do to its success.
use localsend_rs.Base.{◌≡◌, ◌⊎◌, inl, inr, Bool, true, [], ◌∷◌, Eq, any, arith, Bool-cases}
use localsend_rs.HashMap.{HashMap, values, insert, retain, map_entries}

module _ {ℓ κ} {K : Type ℓ} {V : Type κ} (q : V → Bool) where
  -- Some value of the map passes the test.
  unfoldable pub any_value : HashMap K V → Bool
  any_value m = any q (values m)

  pub any_value-retain :
      (p : K → V → Bool) (m : HashMap K V) → any_value (retain p m) ≡ true → any_value m ≡ true
  unfolding any_value retain
  any_value-retain p [] h = h
  any_value-retain p ((k, v) ∷ m) h = ground (arith, any_value-retain p m)

  -- If the rewritten values pass the test only where the old ones did or where `C` holds.
  pub any_value-map_entries {μ} :
      (C : Type μ) (f : K → V → V) (m : HashMap K V)
      → ((k : K) (v : V) → q (f k v) ≡ true → (q v ≡ true) ⊎ C)
      → any_value (map_entries f m) ≡ true
      → (any_value m ≡ true) ⊎ C
  unfolding any_value map_entries
  any_value-map_entries C f [] step h = inl h
  any_value-map_entries C f ((k, v) ∷ m) step h = elim (Bool-cases (q (f k v))) [
    | inl here ↦ elim (step k v here) [ inl old ↦ inl (rw old) | inr c ↦ inr c ]
    | inr missing ↦ elim (any_value-map_entries C f m step (rw missing at h)) [
      | inl old ↦ inl (ground (arith, old))
      | inr c ↦ inr c
    ]
  ]

module _ {ℓ κ} {K : Type ℓ} {V : Type κ} ⦃e : Eq K⦄ (q : V → Bool) where
  pub any_value-insert :
      (k : K) (v : V) (m : HashMap K V)
      → any_value q (insert k v m) ≡ true
      → (q v ≡ true) ⊎ (any_value q m ≡ true)
  unfolding any_value insert
  any_value-insert k v [] h = ground arith
  any_value-insert k v ((j, w) ∷ m) h = ground (arith, any_value-insert k v m)
