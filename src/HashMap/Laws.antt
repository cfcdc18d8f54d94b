-- ===== src/HashMap/Laws.antt =====
-- Lookup after each operation of the map.
use mathlib.Core.Option
use localsend_rs.Base.{
  ◌≡◌, refl, true, false, none, some, [], ◌∷◌, Eq, ◌==◌, ==_iff, if◌then◌else◌, arith, length, ap,
  ◌⊎◌, inl, inr, Bool-cases,
}
use localsend_rs.HashMap.{HashMap, get, contains_key, insert, remove, map_entries, keys}

module _ {ℓ κ} {K : Type ℓ} {V : Type κ} ⦃e : Eq K⦄ where
  pub get-insert :
      (k j : K) (v : V) (m : HashMap K V)
      → get j (insert k v m) ≡ (if k == j then some v else get j m)
  unfolding get insert
  get-insert k j v [] = refl
  get-insert k j v ((i, w) ∷ m) =
      ground (arith, ==_iff k j, ==_iff i k, ==_iff i j, get-insert k j v m)

  pub get-remove :
      (k j : K) (m : HashMap K V) → get j (remove k m) ≡ (if k == j then none else get j m)
  unfolding get remove
  get-remove k j [] = ground arith
  get-remove k j ((i, w) ∷ m) = ground (arith, ==_iff k j, ==_iff i k, ==_iff i j, get-remove k j m)

  pub get-map_entries :
      (j : K) (f : K → V → V) (m : HashMap K V)
      → get j (map_entries f m) ≡ Option.map (f j) (get j m)
  unfolding get map_entries
  get-map_entries j f [] = refl
  get-map_entries j f ((i, w) ∷ m) = ground (arith, ==_iff i j, get-map_entries j f m)

  pub contains_key-get :
      (k : K) (m : HashMap K V) → contains_key k m ≡ elim (get k m) [ none ↦ false | some _ ↦ true ]
  unfolding get contains_key
  contains_key-get k [] = refl
  contains_key-get k ((i, w) ∷ m) = ground (arith, contains_key-get k m)

  -- Where a value that is found after a write comes from.
  pub get-insert_cases :
      (k j : K) (v w : V) (m : HashMap K V)
      → get j (insert k v m) ≡ some w
      → ((k ≡ j) × (v ≡ w)) ⊎ (get j m ≡ some w)
  get-insert_cases k j v w m h = elim (Bool-cases (k == j)) [
    | inl same ↦ inl ((==_iff k j).0 same, cc (h, get-insert k j v m, same))
    | inr other ↦ inr (cc (h, get-insert k j v m, other))
  ]

  pub get-remove_kept :
      (k j : K) (w : V) (m : HashMap K V)
      → get j (remove k m) ≡ some w
      → ((k == j) ≡ false) × (get j m ≡ some w)
  get-remove_kept k j w m h = elim (Bool-cases (k == j)) [
    | inl same ↦ cc (h, get-remove k j m, same)
    | inr other ↦ (other, cc (h, get-remove k j m, other))
  ]

  -- A write at a key that is there keeps the keys.
  pub keys-insert :
      (k : K) (v w : V) (m : HashMap K V) → get k m ≡ some w → keys (insert k v m) ≡ keys m
  unfolding get insert
  keys-insert k v w [] h = cc
  keys-insert k v w ((i, x) ∷ m) h = ground (arith, keys-insert k v w m)

  pub length-insert :
      (k : K) (v w : V) (m : HashMap K V) → get k m ≡ some w → length (insert k v m) ≡ length m
  unfolding get insert
  length-insert k v w [] h = cc
  length-insert k v w ((i, x) ∷ m) h = ground (arith, length-insert k v w m)

pub keys-map_entries {ℓ κ} :
    {K : Type ℓ} {V : Type κ} (f : K → V → V) (m : HashMap K V) → keys (map_entries f m) ≡ keys m
unfolding map_entries
keys-map_entries f [] = refl
keys-map_entries f ((j, w) ∷ m) = ap (λ l. j ∷ l) (keys-map_entries f m)
