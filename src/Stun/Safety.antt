-- ===== src/Stun/Safety.antt =====
-- `Incoming::decode` of rust/core/src/relay/stun.rs on bytes from anywhere: its index expressions
-- stay in range and its loop ends.
use localsend_rs.Base.{
  ℕ, zero, suc, ◌+◌, ◌≤◌, ◌<◌, ◌≡◌, refl, Bool, true, false, List, [], ◌∷◌, ◌++◌, length, drop,
  length-drop, leb, ltb, leb→le, le→leb, if◌then◌else◌, nat_beq, not, arith,
}
use localsend_rs.Base.Bytes.{from_be16, from_be32}
use localsend_rs.Stun.Types.{Result, ok, err, panic, stuck, ◌>>=◌, decode_type}
use localsend_rs.Stun.Codec.{
  RawAttr, be16_at, be32_at, slice, decode_attrs, decode, padding, header_len, magic_cookie,
}

-- The program returns: a value or an error, no panic and no endless loop.
unfoldable pub Returns {ℓ} : {A : Type ℓ} → Result A → Type 0
Returns (ok a) = Unit
Returns (err e) = Unit
Returns panic = ⊥
Returns stuck = ⊥

Returns-bind {ℓ κ} :
    {A : Type ℓ} {B : Type κ} (r : Result A) (f : A → Result B)
    → Returns r
    → ((a : A) → r ≡ ok a → Returns (f a))
    → Returns (r >>= f)
unfolding Returns
Returns-bind (ok a) f h k = k a refl
Returns-bind (err e) f h k = tt
Returns-bind panic f h k = h
Returns-bind stuck f h k = h

Returns-if {ℓ} :
    {A : Type ℓ} (b : Bool) (x y : Result A)
    → (b ≡ true → Returns x)
    → (b ≡ false → Returns y)
    → Returns (if b then x else y)
Returns-if true x y hx hy = hx refl
Returns-if false x y hx hy = hy refl

be16_of :
    (xs : List ℕ)
    → 2 ≤ length xs
    → Returns (elim xs [ a ∷ b ∷ rest ↦ ok (from_be16 a b) | _ ↦ panic ])
unfolding Returns
be16_of [] h = absurd (omega arith)
be16_of (a ∷ []) h = absurd (omega arith)
be16_of (a ∷ b ∷ rest) h = tt

be16_at-Returns : (buf : List ℕ) (off : ℕ) → off + 2 ≤ length buf → Returns (be16_at buf off)
unfolding be16_at
be16_at-Returns buf off h = be16_of (drop off buf) (omega (arith, length-drop off buf))

be32_of :
    (xs : List ℕ)
    → 4 ≤ length xs
    → Returns (elim xs [ a ∷ b ∷ c ∷ d ∷ rest ↦ ok (from_be32 a b c d) | _ ↦ panic ])
unfolding Returns
be32_of [] h = absurd (omega arith)
be32_of (a ∷ []) h = absurd (omega arith)
be32_of (a ∷ b ∷ []) h = absurd (omega arith)
be32_of (a ∷ b ∷ c ∷ []) h = absurd (omega arith)
be32_of (a ∷ b ∷ c ∷ d ∷ rest) h = tt

be32_at-Returns : (buf : List ℕ) (off : ℕ) → off + 4 ≤ length buf → Returns (be32_at buf off)
unfolding be32_at
be32_at-Returns buf off h = be32_of (drop off buf) (omega (arith, length-drop off buf))

slice-Returns : (buf : List ℕ) (off len : ℕ) → off + len ≤ length buf → Returns (slice buf off len)
unfolding slice Returns
slice-Returns buf off len h = rw (le→leb (off + len) (length buf) h) tt

decode_type-Returns : (t : ℕ) → Returns (decode_type t)
unfolding decode_type Returns
decode_type-Returns t = ground arith

Returns-while {ℓ} :
    {A : Type ℓ} (b : Bool) (x y : Result A)
    → (b ≡ true → Returns x)
    → (b ≡ false → Returns y)
    → Returns (elim b [ false ↦ y | true ↦ x ])
Returns-while true x y hx hy = hx refl
Returns-while false x y hx hy = hy refl

ltb-ge : (a b : ℕ) → ltb a b ≡ false → b ≤ a
ltb-ge a b h = ground arith

decode_attrs-Returns :
    (fuel : ℕ) (buf : List ℕ) (end off : ℕ) (acc : List RawAttr)
    → end ≤ length buf
    → 0 < fuel
    → end < off + fuel
    → Returns (decode_attrs fuel buf end off acc)
unfolding decode_attrs Returns
decode_attrs-Returns zero buf end off acc inside some_fuel enough = absurd (omega arith)
decode_attrs-Returns (suc fuel) buf end off acc inside some_fuel enough =
    Returns-while (leb (off + 4) end) _ _
      (λ more.
        let room = leb→le (off + 4) end more in
        Returns-bind _ _ (be16_at-Returns buf off (omega arith)) λ t _.
          Returns-bind _ _ (be16_at-Returns buf (off + 2) (omega arith)) λ l _.
            Returns-if (ltb end (off + 4 + l)) _ _ (λ _. tt)
              λ fits.
                let within = ltb-ge end (off + 4 + l) fits in
                Returns-bind _ _ (slice-Returns buf (off + 4) l (omega arith)) λ v _.
                  decode_attrs-Returns fuel buf end (off + 4 + l + padding l) (acc ++ (t, v) ∷ [])
                    inside (omega arith) (omega arith))
      (λ _. tt)

-- `decode` returns on every list of bytes: each index it takes is in range, and its loop ends.
pub decode-Returns : (buf : List ℕ) → Returns (decode buf)
unfolding decode Returns
decode-Returns buf =
    Returns-if (ltb (length buf) header_len) _ _ (λ _. tt)
      λ long.
        let room = ltb-ge (length buf) header_len long in
        Returns-bind _ _ (be16_at-Returns buf 0 (omega arith)) λ t _.
          Returns-bind _ _ (be16_at-Returns buf 2 (omega arith)) λ len _.
            Returns-if (ltb (length buf) (header_len + len)) _ _ (λ _. tt)
              λ whole.
                let inside = ltb-ge (length buf) (header_len + len) whole in
                Returns-bind _ _ (be32_at-Returns buf 4 (omega arith)) λ cookie _.
                  Returns-if (not (nat_beq cookie magic_cookie)) _ _ (λ _. tt)
                    λ _. Returns-bind _ _ (decode_type-Returns t) λ mc _.
                      Returns-bind _ _ (slice-Returns buf 8 12 (omega arith)) λ tid _.
                        Returns-bind _ _
                          (decode_attrs-Returns (length buf) buf (header_len + len) header_len []
                            inside (omega arith) (omega arith))
                          λ attrs _. tt
