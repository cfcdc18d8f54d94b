-- ===== src/HashMap.antt =====
-- `std::collections::HashMap`, as the program uses it: an association list with one entry to a
-- key. Rust leaves the order of iteration open; the model keeps the order of insertion, and the
-- theorems are about what does not depend on it.
pub mod Laws
pub mod Counts
pub mod Any
pub mod Unique
use localsend_rs.Base.{
  Bool, true, false, not, Option, none, some, List, [], ◌∷◌, map, Eq, ◌==◌, if◌then◌else◌,
}

abbrev pub HashMap {ℓ κ} : Type ℓ → Type κ → Type (ℓ ⊔ κ)
HashMap K V = List (K × V)

module _ {ℓ κ} {K : Type ℓ} {V : Type κ} ⦃e : Eq K⦄ where
  unfoldable pub get : K → HashMap K V → Option V
  get k [] = none
  get k ((j, v) ∷ m) = if j == k then some v else get k m

  unfoldable pub contains_key : K → HashMap K V → Bool
  contains_key k [] = false
  contains_key k ((j, v) ∷ m) = if j == k then true else contains_key k m

  unfoldable pub insert : K → V → HashMap K V → HashMap K V
  insert k v [] = (k, v) ∷ []
  insert k v ((j, w) ∷ m) = if j == k then (j, v) ∷ m else (j, w) ∷ insert k v m

  unfoldable pub remove : K → HashMap K V → HashMap K V
  remove k [] = []
  remove k ((j, w) ∷ m) = if j == k then remove k m else (j, w) ∷ remove k m

module _ {ℓ κ} {K : Type ℓ} {V : Type κ} where
  abbrev pub keys : HashMap K V → List K
  keys = map (λ e. e.0)

  abbrev pub values : HashMap K V → List V
  values = map (λ e. e.1)

  unfoldable pub retain : (K → V → Bool) → HashMap K V → HashMap K V
  retain p [] = []
  retain p ((j, w) ∷ m) = if p j w then (j, w) ∷ retain p m else retain p m

  -- `values_mut`, and `iter_mut` where the key is read
  unfoldable pub map_entries : (K → V → V) → HashMap K V → HashMap K V
  map_entries f [] = []
  map_entries f ((j, w) ∷ m) = (j, f j w) ∷ map_entries f m

module _ {ℓ κ} {K : Type ℓ} {V : Type κ} ⦃e : Eq K⦄ where
  -- `collect()` from an iterator of entries: each is inserted in turn.
  unfoldable pub collect_into : HashMap K V → List (K × V) → HashMap K V
  collect_into m [] = m
  collect_into m ((k, v) ∷ es) = collect_into (insert k v m) es

  unfoldable pub collect : List (K × V) → HashMap K V
  unfolding collect_into
  collect es = collect_into [] es
