-- ===== src/Stun/Parts.antt =====
-- What is written into a buffer, as plain concatenation, and what the reads give in it.
use localsend_rs.Base.{
  ℕ, zero, suc, ◌+◌, ◌%◌, ◌<◌, ◌≡◌, refl, List, [], ◌∷◌, ◌++◌, append_assoc, length, drop,
  replicate, length-append, length-replicate, drop-append, arith,
}
use native.Mathlib.Nat.{zero-add, suc-add}
use native.Mathlib.Numerals.{unary_clauses}
use localsend_rs.Base.Bytes.{be16, IsU16}
use localsend_rs.Stun.Codec.{RawAttr, padding, attrs_len, write_attr}

pub padding-lt : (n : ℕ) → padding n < 4
unfolding padding
padding-lt n = omega arith

-- One attribute on the wire.
unfoldable pub attr_bytes : RawAttr → List ℕ
attr_bytes (t, v) = be16 t ++ (be16 (length v) ++ (v ++ replicate (padding (length v)) 0))

unfoldable pub attrs_bytes : List RawAttr → List ℕ
unfolding attr_bytes
attrs_bytes [] = []
attrs_bytes (x ∷ rest) = attr_bytes x ++ attrs_bytes rest

-- The sizes that the wire format can hold.
pub record IsAttr (x : RawAttr) : Type 0 where
  pub number : IsU16 x.0
  pub size : IsU16 (length x.1)

pub mod_small : (n : ℕ) → IsU16 n → n % 65536 ≡ n
mod_small n h = omega arith

pub write_attr-bytes :
    (buf : List ℕ) (t : ℕ) (v : List ℕ)
    → IsU16 (length v)
    → write_attr buf t v ≡ buf ++ attr_bytes (t, v)
unfolding write_attr attr_bytes
write_attr-bytes buf t v h =
    rw (mod_small (length v) h, append_assoc, append_assoc, append_assoc) refl

pub length-attrs_bytes : (attrs : List RawAttr) → length (attrs_bytes attrs) ≡ attrs_len attrs
unfolding attrs_bytes attrs_len attr_bytes
length-attrs_bytes [] = refl
length-attrs_bytes ((t, v) ∷ rest) = omega (
  arith,
  length-append v (replicate {A = ℕ} (padding (length v)) 0),
  length-replicate {A = ℕ} (padding (length v)) 0,
  length-append (attr_bytes (t, v)) (attrs_bytes rest),
  length-attrs_bytes rest,
)

module _ {ℓ} {A : Type ℓ} where
  -- The bytes from `off` on are `front ++ back`, so those after `front` are `back`.
  pub drop-more :
      (off : ℕ) (buf front back : List A)
      → drop off buf ≡ front ++ back
      → drop (off + length front) buf ≡ back
  drop-more zero buf front back h = rw (zero-add (length front), h) (drop-append front back)
  drop-more (suc off) [] [] back h = simp unary_clauses h
  drop-more (suc off) [] (y ∷ front) back h = absurd (cc h)
  drop-more (suc off) (x ∷ buf) front back h =
      rw (suc-add off (length front)) (drop-more off buf front back h)

  pub drop-to :
      (off next : ℕ) (buf front back : List A)
      → drop off buf ≡ front ++ back
      → next ≡ off + length front
      → drop next buf ≡ back
  drop-to off next buf front back h e = rw (e) (drop-more off buf front back h)
