-- ===== src/TurnServer/Auth.antt =====
-- `verify_integrity` of rust/core/src/relay/turn_server.rs and `long_term_key` of
-- rust/core/src/relay/stun.rs. Subtraction on `usize` panics where it would go below zero, as in
-- a build with overflow checks.
use localsend_rs.Base.{
  ℕ, ◌+◌, ◌-◌, ◌%◌, bit_or, bit_xor, Bool, false, not, none, some, List, [], ◌∷◌, ◌++◌, ◌==◌,
  bytes_eq, if◌then◌else◌, ltb, nat_beq, length, take, drop,
}
use localsend_rs.Base.Bytes.{be16}
use localsend_rs.Stun.Types.{Attr, attr_code, Result, ok, panic, ◌>>=◌}
use localsend_rs.Stun.Codec.{Incoming, be16_at, slice, padding}
use localsend_rs.Stun.Fields.{find, string_attr}
use localsend_rs.TurnServer.State.{Crypto, TurnServerConfig}

unfoldable pub rest_password : Crypto → List ℕ → List ℕ → List ℕ
rest_password crypto secret username = crypto.base64_encode (crypto.hmac_sha1 secret username)

-- The colons of `format!("{username}:{realm}:{password}")` are byte 58.
unfoldable pub long_term_key : Crypto → List ℕ → List ℕ → List ℕ → List ℕ
long_term_key crypto username realm password = crypto.md5 (username ++ 58 ∷ realm ++ 58 ∷ password)

unfoldable pub xor_fold : ℕ → List ℕ → List ℕ → ℕ
xor_fold acc [] b = acc
xor_fold acc (x ∷ a) [] = acc
xor_fold acc (x ∷ a) (y ∷ b) = xor_fold (bit_or acc (bit_xor x y)) a b

unfoldable pub constant_time_eq : List ℕ → List ℕ → Bool
unfolding xor_fold
constant_time_eq a b =
    if not (nat_beq (length a) (length b)) then false else nat_beq (xor_fold 0 a b) 0

-- `a - b` on `usize`.
abbrev pub sub : ℕ → ℕ → Result ℕ
sub a b = if ltb a b then panic else ok (a - b)

-- The test on the length field: its two branches go on alike, and only its subtractions matter.
unfoldable pub check_length : List ℕ → ℕ → Result (Unit {0})
unfolding padding
check_length raw body_len = if nat_beq (20 + body_len) (length raw) then ok tt else do
  body ← sub (length raw) 20
  announced ← sub body_len 24
  rest ← sub body announced
  ok tt

-- The bytes that the MAC covers, with the length field patched.
unfoldable pub mac_input : List ℕ → ℕ → Result (List ℕ)
mac_input raw mac_off = do
  body ← sub mac_off 20
  ok (take 2 raw ++ be16 ((body + 24) % 65536) ++ drop 4 (take mac_off raw))

unfoldable pub verify_mac : Crypto → TurnServerConfig → List ℕ → List ℕ → ℕ → Result Bool
unfolding rest_password long_term_key mac_input constant_time_eq check_length be16_at
verify_mac crypto cfg username raw mac_off = do
  body_len ← be16_at raw 2
  checked ← check_length raw body_len
  input ← mac_input raw mac_off
  ok (
      constant_time_eq
        (crypto.hmac_sha1
          (long_term_key crypto username cfg.realm (rest_password crypto cfg.secret username))
          input)
        (drop (mac_off + 4) raw))

unfoldable pub verify_integrity : Crypto → TurnServerConfig → List ℕ → Incoming → Result Bool
unfolding string_attr find slice verify_mac
verify_integrity crypto cfg raw msg = elim (string_attr crypto.utf8_lossy Attr.username msg) [
  | none ↦ ok false
  | some username ↦ elim (find Attr.message_integrity msg) [
    | none ↦ ok false
    | some received ↦ if ltb (length raw) 24 then ok false else do
      field ← slice raw (length raw - 24) 2
      (if field == be16 (attr_code Attr.message_integrity)
          then verify_mac crypto cfg username raw (length raw - 24)
          else ok false)
  ]
]
