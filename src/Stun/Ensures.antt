-- ===== src/Stun/Ensures.antt =====
-- What a result promises: that its value, where there is one, has a property.
use localsend_rs.Base.{◌≡◌, refl}
use localsend_rs.Stun.Types.{Result, ok, err, panic, stuck, ◌>>=◌}

module _ {ℓ μ} {A : Type ℓ} where
  unfoldable pub Ensures : (A → Type μ) → Result A → Type μ
  Ensures P (ok a) = P a
  Ensures P (err e) = Unit
  Ensures P panic = Unit
  Ensures P stuck = Unit

module _ {ℓ κ μ} {A : Type ℓ} {B : Type κ} where
  pub Ensures-bind :
      (P : B → Type μ) (r : Result A) (f : A → Result B)
      → ((a : A) → r ≡ ok a → Ensures P (f a))
      → Ensures P (r >>= f)
  unfolding Ensures
  Ensures-bind P (ok a) f h = h a refl
  Ensures-bind P (err e) f h = tt
  Ensures-bind P panic f h = tt
  Ensures-bind P stuck f h = tt

  pub Ensures-then {ν} :
      (P : A → Type ν) (Q : B → Type μ) (r : Result A) (f : A → Result B)
      → Ensures P r
      → ((a : A) → P a → Ensures Q (f a))
      → Ensures Q (r >>= f)
  unfolding Ensures
  Ensures-then P Q (ok a) f p h = h a p
  Ensures-then P Q (err e) f p h = tt
  Ensures-then P Q panic f p h = tt
  Ensures-then P Q stuck f p h = tt

module _ {ℓ μ ν} {A : Type ℓ} where
  pub Ensures-weaken :
      (P : A → Type μ) (Q : A → Type ν) (r : Result A)
      → ((a : A) → P a → Q a)
      → Ensures P r
      → Ensures Q r
  unfolding Ensures
  Ensures-weaken P Q (ok a) f p = f a p
  Ensures-weaken P Q (err e) f p = tt
  Ensures-weaken P Q panic f p = tt
  Ensures-weaken P Q stuck f p = tt
