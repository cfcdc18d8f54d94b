-- ===== src/Base/Decimal.antt =====
-- Numbers written in decimal, as `format!` and `to_string` of the standard library do: the codes
-- of the digits. A u64 has at most 20 digits.
use Prim.Native.Nat.{ℕ, zero, suc, ◌+◌, ◌/◌, ◌%◌}
use mathlib.Core.List.{List, [], ◌∷◌}
use localsend_rs.Base.Tests.{ltb, if◌then◌else◌}

unfoldable pub digits : ℕ → ℕ → List ℕ → List ℕ
digits zero n after = after
digits (suc k) n after =
    let longer = digits k (n / 10) ((48 + n % 10) ∷ after) in
    if ltb n 10 then (48 + n) ∷ after else longer

unfoldable pub decimal : ℕ → List ℕ
unfolding digits
decimal n = digits 20 n []
