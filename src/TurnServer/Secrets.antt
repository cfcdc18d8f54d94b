-- ===== src/TurnServer/Secrets.antt =====
-- The comparison of secrets without early exit is equality: `constant_time_eq` of
-- rust/core/src/relay/turn_server.rs.
use localsend_rs.Base.{
  ℕ, ◌≡◌, refl, true, List, [], ◌∷◌, nat_beq_iff, length, bit_or, bit_xor, arith,
}
use localsend_rs.Base.Bits.{bit_xor-zero, bit_or-zero}
use localsend_rs.TurnServer.Auth.{xor_fold, constant_time_eq}

pub xor_fold-zero :
    (acc : ℕ) (a b : List ℕ) → length a ≡ length b → xor_fold acc a b ≡ 0 → (acc ≡ 0) × (a ≡ b)
unfolding xor_fold
xor_fold-zero acc [] [] len h = (h, refl)
xor_fold-zero acc [] (y ∷ b) len h = absurd (omega arith)
xor_fold-zero acc (x ∷ a) [] len h = absurd (omega arith)
xor_fold-zero acc (x ∷ a) (y ∷ b) len h =
    let (both, rest) = xor_fold-zero (bit_or acc (bit_xor x y)) a b (omega arith) h in
    let (old, here) = bit_or-zero acc (bit_xor x y) both in
    let same = bit_xor-zero x y here in (old, rw (same, rest) refl)

pub constant_time_eq-true : (a b : List ℕ) → constant_time_eq a b ≡ true → a ≡ b
unfolding constant_time_eq
constant_time_eq-true a b h =
    let len : length a ≡ length b = ground (arith, nat_beq_iff (length a) (length b)) in
    (xor_fold-zero 0 a b len (ground (arith, nat_beq_iff (xor_fold 0 a b) 0))).1
