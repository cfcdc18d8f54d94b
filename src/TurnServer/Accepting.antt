-- ===== src/TurnServer/Accepting.antt =====
-- A client that signs with the password of its user name is let in: `Message::encode` of
-- rust/core/src/relay/stun.rs against `verify_integrity` of rust/core/src/relay/turn_server.rs.
use localsend_rs.Base.{
  ℕ, suc, ◌+◌, ◌-◌, ◌%◌, ◌<◌, ◌≤◌, ◌≡◌, refl, sym, bit_xor, bit_or, Bool, true, some, List, [], ◌∷◌,
  ◌++◌, nat_beq, nat_beq_iff, ge→ltb, length, drop, length-append, take-append, drop-append, All,
  arith, bytes_eq,
}
use localsend_rs.Base.Bytes.{be16, IsByte, true_upto, true_upto_lem}
use localsend_rs.Stun.Types.{ok, Attr}
use localsend_rs.Stun.Codec.{be16_at, slice, Incoming}
use localsend_rs.Stun.Fields.{find, string_attr}
use localsend_rs.Stun.Parts.{drop-to, mod_small}
use localsend_rs.Stun.Reads.{be16_at-lem, slice-lem}
use localsend_rs.TurnServer.State.{Crypto, TurnServerConfig}
use localsend_rs.TurnServer.Auth.{
  rest_password, long_term_key, xor_fold, constant_time_eq, check_length, mac_input, verify_mac,
  verify_integrity,
}

cancels : ℕ → Bool
cancels x = nat_beq (bit_or 0 (bit_xor x x)) 0

cancels_table : true_upto cancels 256 ≡ true
unfolding true_upto cancels
cancels_table = refl

xor_same : (x : ℕ) → IsByte x → bit_or 0 (bit_xor x x) ≡ 0
unfolding cancels
xor_same x h =
    (nat_beq_iff (bit_or 0 (bit_xor x x)) 0).0 (true_upto_lem cancels 256 cancels_table x h)

xor_fold-same : (a : List ℕ) → All IsByte a → xor_fold 0 a a ≡ 0
unfolding xor_fold
xor_fold-same [] h = refl
xor_fold-same (x ∷ a) (hx, h) = rw (xor_same x hx) (xor_fold-same a h)

pub constant_time_eq-same : (a : List ℕ) → All IsByte a → constant_time_eq a a ≡ true
unfolding constant_time_eq
constant_time_eq-same a h = ground (arith, xor_fold-same a h)

-- The bytes that a client signs: the type, the length field `n`, the rest.
unfoldable pub covered : ℕ → ℕ → List ℕ → List ℕ
covered t n body = be16 t ++ (be16 (n % 65536) ++ body)

-- These bytes, and MESSAGE-INTEGRITY with `mac`.
unfoldable pub sealed : ℕ → ℕ → List ℕ → List ℕ → List ℕ
unfolding covered
sealed t n body mac = covered t n body ++ (0 ∷ 8 ∷ 0 ∷ 20 ∷ mac)

module _ (t n : ℕ) (body mac : List ℕ) (short : n < 65536) (size : length body + 8 ≡ n)
    (long : 16 ≤ length body) (twenty : length mac ≡ 20) where
  length-sealed : length (sealed t n body mac) ≡ n + 20
  unfolding sealed covered
  length-sealed = omega (arith, length-append body (0 ∷ 8 ∷ 0 ∷ 20 ∷ mac), size, twenty)

  check-sealed : check_length (sealed t n body mac) n ≡ ok tt
  unfolding check_length
  check-sealed = ground (arith, length-sealed)

  patched : suc (suc (suc (suc (length body)))) - 20 + 24 ≡ n
  patched = omega (arith, size)

  input-sealed : mac_input (sealed t n body mac) (length (covered t n body)) ≡ ok (covered t n body)
  unfolding mac_input sealed covered
  input-sealed =
      rw
        (
          ge→ltb (length (covered t n body)) 20 (omega arith),
          take-append body (0 ∷ 8 ∷ 0 ∷ 20 ∷ mac),
          patched,
        )
        refl

  tail-sealed : drop (length (covered t n body) + 4) (sealed t n body mac) ≡ mac
  unfolding sealed covered
  tail-sealed =
      drop-to (length (covered t n body)) (length (covered t n body) + 4) (sealed t n body mac)
        (0 ∷ 8 ∷ 0 ∷ 20 ∷ []) mac (drop-append (covered t n body) (0 ∷ 8 ∷ 0 ∷ 20 ∷ mac)) refl

  field-sealed : be16_at (sealed t n body mac) 2 ≡ ok n
  unfolding sealed covered
  field-sealed =
      be16_at-lem (sealed t n body mac) (body ++ (0 ∷ 8 ∷ 0 ∷ 20 ∷ mac)) 2 n
        (rw (mod_small n short) refl)

  length-covered : length (covered t n body) ≡ length body + 4
  unfolding covered
  length-covered = omega arith

  verify_mac-sealed :
      (crypto : Crypto) (cfg : TurnServerConfig) (user : List ℕ)
      → All IsByte mac
      → mac
        ≡ crypto.hmac_sha1
            (long_term_key crypto user cfg.realm (rest_password crypto cfg.secret user))
            (covered t n body)
      → verify_mac crypto cfg user (sealed t n body mac) (length (covered t n body)) ≡ ok true
  unfolding verify_mac
  verify_mac-sealed crypto cfg user bytes same =
      rw
        (
          verify_mac,
          field-sealed,
          check-sealed,
          input-sealed,
          tail-sealed,
          sym same,
          constant_time_eq-same mac bytes,
        )
        refl

  mark-sealed : slice (sealed t n body mac) (length (covered t n body)) 2 ≡ ok (0 ∷ 8 ∷ [])
  unfolding sealed
  mark-sealed =
      slice-lem (sealed t n body mac) (0 ∷ 8 ∷ []) (0 ∷ 20 ∷ mac) (length (covered t n body))
        (drop-append (covered t n body) (0 ∷ 8 ∷ 0 ∷ 20 ∷ mac))
        (omega (arith, length-sealed, length-covered))

  pub verify_integrity-sealed :
      (crypto : Crypto) (cfg : TurnServerConfig) (msg : Incoming) (user found : List ℕ)
      → All IsByte mac
      → mac
        ≡ crypto.hmac_sha1
            (long_term_key crypto user cfg.realm (rest_password crypto cfg.secret user))
            (covered t n body)
      → string_attr crypto.utf8_lossy Attr.username msg ≡ some user
      → find Attr.message_integrity msg ≡ some found
      → verify_integrity crypto cfg (sealed t n body mac) msg ≡ ok true
  unfolding verify_integrity
  verify_integrity-sealed crypto cfg msg user found bytes same named carried =
      let place : length (sealed t n body mac) - 24 ≡ length (covered t n body) =
        omega (arith, length-sealed, length-covered) in
      rw
        (
          verify_integrity,
          named,
          carried,
          ge→ltb (length (sealed t n body mac)) 24 (omega (arith, length-sealed)),
          place,
          mark-sealed,
        )
        (verify_mac-sealed crypto cfg user bytes same)
