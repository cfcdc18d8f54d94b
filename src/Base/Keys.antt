-- ===== src/Base/Keys.antt =====
-- Equality of keys as an interface, and its instances: numbers, texts and byte strings.
use Prim.Native.Nat.{ℕ}
use Prim.Native.String.{String}
use mathlib.Core.Path.{◌≡◌, refl}
use mathlib.Core.Logic.{◌↔◌}
use mathlib.Core.Bool.{Bool, true, false, ◌&&◌}
use mathlib.Core.List.{List, [], ◌∷◌}
use native.Mathlib.Omega.{arith}
use text.Mathlib.Text.{◌==◌ as str_eq}
use text.Mathlib.TextEquality.{eq_iff}
use localsend_rs.Base.Tests.{nat_beq, nat_beq_iff}

abbrev pub bytes_beq : List ℕ → List ℕ → Bool
bytes_beq [] [] = true
bytes_beq (x ∷ xs) (y ∷ ys) = nat_beq x y && bytes_beq xs ys
bytes_beq _ _ = false

pub bytes_beq_iff : (a b : List ℕ) → (bytes_beq a b ≡ true) ↔ (a ≡ b)
bytes_beq_iff [] [] = ground arith
bytes_beq_iff [] (y ∷ ys) = ground arith
bytes_beq_iff (x ∷ xs) [] = ground arith
bytes_beq_iff (x ∷ xs) (y ∷ ys) = ground (arith, bytes_beq_iff xs ys)

-- A test of equality that decides the paths.
pub record Eq {ℓ} (K : Type ℓ) : Type ℓ where
  pub test : K → K → Bool
  pub test_path : (j k : K) → (test j k ≡ true) ↔ (j ≡ k)

instance abbrev pub bytes_eq : Eq (List ℕ)
bytes_eq = record { test = bytes_beq; test_path = bytes_beq_iff }

instance abbrev pub string_eq : Eq String
string_eq = record { test_path = eq_iff; test = str_eq }

instance abbrev pub nat_eq : Eq ℕ
nat_eq = record { test_path = nat_beq_iff; test = nat_beq }

module _ {ℓ} {K : Type ℓ} ⦃keys : Eq K⦄ where
  infix 50 ◌==◌
  abbrev pub ◌==◌ : K → K → Bool
  j == k = keys.test j k

  pub ==_iff : (j k : K) → ((j == k) ≡ true) ↔ (j ≡ k)
  ==_iff j k = keys.test_path j k

  pub ==_refl : (k : K) → (k == k) ≡ true
  ==_refl k = (keys.test_path k k).1 refl
