-- ===== src/HashMap/Unique.antt =====
-- A map has one entry to a key; the operations keep that, and `retain` is then read by lookup.
use localsend_rs.Base.{◌≡◌, refl, Bool, none, some, [], ◌∷◌, Eq, ==_iff, if◌then◌else◌, arith}
use localsend_rs.HashMap.{HashMap, get, insert, remove, retain}
use localsend_rs.HashMap.Laws.{get-insert, get-remove}

module _ {ℓ κ} {K : Type ℓ} {V : Type κ} ⦃e : Eq K⦄ where
  abbrev pub Unique : HashMap K V → Type κ
  Unique [] = Unit
  Unique ((k, v) ∷ m) = (get k m ≡ none) × Unique m

  get-retain_missing :
      (p : K → V → Bool) (k : K) (m : HashMap K V) → get k m ≡ none → get k (retain p m) ≡ none
  unfolding get retain
  get-retain_missing p k [] h = refl
  get-retain_missing p k ((j, v) ∷ m) h = ground (arith, get-retain_missing p k m)

  pub get-retain :
      (p : K → V → Bool) (k : K) (m : HashMap K V)
      → Unique m
      → get k (retain p m)
        ≡ elim (get k m) [ none ↦ none | some v ↦ if p k v then some v else none ]
  unfolding get retain
  get-retain p k [] u = refl
  get-retain p k ((j, v) ∷ m) (fresh, u) =
      ground (arith, ==_iff j k, get-retain p k m u, get-retain_missing p j m fresh)

  pub Unique-retain : (p : K → V → Bool) (m : HashMap K V) → Unique m → Unique (retain p m)
  unfolding retain
  Unique-retain p [] u = tt
  Unique-retain p ((k, v) ∷ m) (fresh, u) =
      ground (arith, get-retain_missing p k m fresh, Unique-retain p m u)

  pub Unique-insert : (k : K) (v : V) (m : HashMap K V) → Unique m → Unique (insert k v m)
  unfolding insert get
  Unique-insert k v [] u = (refl, tt)
  Unique-insert k v ((j, w) ∷ m) (fresh, u) =
      ground (arith, ==_iff j k, ==_iff k j, get-insert k j v m, Unique-insert k v m u)

  pub Unique-remove : (k : K) (m : HashMap K V) → Unique m → Unique (remove k m)
  unfolding remove get
  Unique-remove k [] u = tt
  Unique-remove k ((j, w) ∷ m) (fresh, u) = ground (arith, get-remove k j m, Unique-remove k m u)
