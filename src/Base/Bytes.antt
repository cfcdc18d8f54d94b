-- ===== src/Base/Bytes.antt =====
-- Bytes and big-endian words: `to_be_bytes` and `from_be_bytes` of the standard library.
use Prim.Native.Nat.{ℕ, zero, suc, ◌+◌, ◌*◌, ◌/◌, ◌%◌, ◌^◌, ◌<◌}
use mathlib.Core.Path.{◌≡◌}
use mathlib.Core.Bool.{Bool, true, ◌&&◌}
use mathlib.Core.List.{List, [], ◌∷◌}
use native.Mathlib.Omega.{arith}

abbrev pub IsByte : ℕ → Type 0
IsByte b = b < 256

abbrev pub IsU16 : ℕ → Type 0
IsU16 n = n < 65536

abbrev pub IsU32 : ℕ → Type 0
IsU32 n = n < 2 ^ 32

abbrev pub be16 : ℕ → List ℕ
be16 n = (n / 256) ∷ (n % 256) ∷ []

abbrev pub be32 : ℕ → List ℕ
be32 n = (n / 2 ^ 24) ∷ (n / 2 ^ 16 % 256) ∷ (n / 256 % 256) ∷ (n % 256) ∷ []

abbrev pub from_be16 : ℕ → ℕ → ℕ
from_be16 a b = a * 256 + b

abbrev pub from_be32 : ℕ → ℕ → ℕ → ℕ → ℕ
from_be32 a b c d = a * 2 ^ 24 + b * 2 ^ 16 + c * 256 + d

pub from_be16-be16 : (n : ℕ) → from_be16 (n / 256) (n % 256) ≡ n
from_be16-be16 n = omega arith

pub from_be32-be32 :
    (n : ℕ) → from_be32 (n / 2 ^ 24) (n / 2 ^ 16 % 256) (n / 256 % 256) (n % 256) ≡ n
from_be32-be32 n = omega arith

-- A test that holds of each number below a bound; it is run, so a table is checked by `refl`.
unfoldable pub true_upto : (ℕ → Bool) → ℕ → Bool
true_upto test zero = true
true_upto test (suc bound) = true_upto test bound && test bound

pub true_upto_lem :
    (test : ℕ → Bool) (bound : ℕ)
    → true_upto test bound ≡ true
    → (k : ℕ) → k < bound
    → test k ≡ true
unfolding true_upto
true_upto_lem test zero table k below = absurd (omega arith)
true_upto_lem test (suc bound) table k below = ground (arith, true_upto_lem test bound _ k)
