-- ===== src/Credentials/Printing.antt =====
-- Numbers printed in decimal are read back.
use localsend_rs.Base.{
  ℕ, zero, suc, ◌+◌, ◌-◌, ◌*◌, ◌/◌, ◌%◌, ◌^◌, ◌≤◌, ◌<◌, ◌≡◌, refl, ◌∙◌, inl, inr, [], ◌∷◌, ◌++◌,
  some, arith, ltb, ltb→lt, Bool-cases,
}
use localsend_rs.Base.Decimal.{digits, decimal}
use localsend_rs.DiscoveryServer.Registry.{Text, before_colon, parse_digits, parse_u64}

pub digits-append :
    (k n : ℕ) (after rest : Text) → digits k n after ++ rest ≡ digits k n (after ++ rest)
unfolding digits
digits-append zero n after rest = refl
digits-append (suc k) n after rest =
    ground (arith, digits-append k (n / 10) ((48 + n % 10) ∷ after) rest)

pub before_colon-digits :
    (k n : ℕ) (after : Text) → before_colon (digits k n after) ≡ digits k n (before_colon after)
unfolding digits before_colon
before_colon-digits zero n after = refl
before_colon-digits (suc k) n after = elim (Bool-cases (ltb n 10)) [
  | inl short ↦ ground (arith, short)
  | inr long ↦ ground (arith, long, before_colon-digits k (n / 10) ((48 + n % 10) ∷ after))
]

abbrev pow10 : ℕ → ℕ
pow10 zero = 1
pow10 (suc k) = 10 * pow10 k

parse_digit :
    (p d m : ℕ) (rest : Text)
    → d < 10
    → m ≡ p * 10 + d
    → m < 2 ^ 64
    → parse_digits p ((48 + d) ∷ rest) ≡ parse_digits m rest
unfolding parse_digits
parse_digit p d m rest digit e word =
    let same : m ≡ p * 10 + (48 + d - 48) = omega (arith, e) in rw same (ground (arith, same))

parse_digits-digits :
    (k n : ℕ) (after : Text)
    → n < pow10 k
    → n < 2 ^ 64
    → parse_digits 0 (digits k n after) ≡ parse_digits n after
unfolding digits
parse_digits-digits zero n after small word = let none_left : n ≡ 0 = omega arith in rw none_left
parse_digits-digits (suc k) n after small word = elim (Bool-cases (ltb n 10)) [
  | inl short ↦ rw short (parse_digit 0 n n after (ltb→lt n 10 short) (omega arith) word)
  | inr long ↦ rw long (
      parse_digits-digits k (n / 10) ((48 + n % 10) ∷ after) (omega (arith, small))
        (omega (arith, word))
      ∙ parse_digit (n / 10) (n % 10) n after (omega arith) (omega arith) word)
]

-- What is printed begins with a digit.
digits-first :
    (k n : ℕ) (after : Text) → (c : ℕ) × (cs : Text) × (digits (suc k) n after ≡ c ∷ cs) × (48 ≤ c)
unfolding digits
digits-first zero n after = elim (Bool-cases (ltb n 10)) [
  | inl short ↦ rw short (48 + n, after, refl, omega arith)
  | inr long ↦ rw long (48 + n % 10, after, refl, omega arith)
]
digits-first (suc k) n after = elim (Bool-cases (ltb n 10)) [
  | inl short ↦ rw short (48 + n, after, refl, omega arith)
  | inr long ↦ rw long (digits-first k (n / 10) ((48 + n % 10) ∷ after))
]

parse_u64-plain : (c : ℕ) (cs : Text) → 48 ≤ c → parse_u64 (c ∷ cs) ≡ parse_digits 0 (c ∷ cs)
unfolding parse_u64
parse_u64-plain c [] h = refl
parse_u64-plain c (d ∷ cs) h = ground arith

-- A number of 64 bits is read back from its decimal digits.
pub parse_u64-decimal : (n : ℕ) → n < 2 ^ 64 → parse_u64 (decimal n) ≡ some n
unfolding decimal parse_digits
parse_u64-decimal n word =
    let (c, cs, e, digit) = digits-first 19 n [] in
    let plain : parse_u64 (digits 20 n []) ≡ parse_digits 0 (digits 20 n []) =
      rw e (parse_u64-plain c cs digit) in
    plain ∙ parse_digits-digits 20 n [] (omega (arith, word)) word
