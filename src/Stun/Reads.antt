-- ===== src/Stun/Reads.antt =====
-- The reads of `Incoming::decode` of rust/core/src/relay/stun.rs at bytes that `write_attr` wrote.
use localsend_rs.Base.{
  ℕ, zero, suc, ◌+◌, ◌≤◌, ◌<◌, ◌≡◌, refl, ap, ◌∙◌, List, [], ◌∷◌, ◌++◌, append_assoc, append-nil,
  length, All, drop, replicate, length-append, length-replicate, length-drop, take-append, arith,
  le→leb, ge→ltb,
}
use localsend_rs.Base.Bytes.{be16, from_be16-be16}
use localsend_rs.Stun.Types.{ok}
use localsend_rs.Stun.Codec.{RawAttr, padding, attrs_len, be16_at, slice, decode_attrs}
use localsend_rs.Stun.Parts.{attr_bytes, attrs_bytes, IsAttr, drop-to}

pub be16_at-lem :
    (buf rest : List ℕ) (off n : ℕ) → drop off buf ≡ be16 n ++ rest → be16_at buf off ≡ ok n
unfolding be16_at
be16_at-lem buf rest off n h = rw (be16_at, h, from_be16-be16 n) refl

pub slice-lem :
    (buf v rest : List ℕ) (off : ℕ)
    → drop off buf ≡ v ++ rest
    → off + length v ≤ length buf
    → slice buf off (length v) ≡ ok v
unfolding slice
slice-lem buf v rest off h room = rw (h, take-append v rest) (ground arith)

-- The five parts at `off`, when the first attribute of the list is there.
attr_at :
    (t : ℕ) (v tail : List ℕ) (rest : List RawAttr)
    → attrs_bytes ((t, v) ∷ rest) ++ tail
      ≡ be16 t
        ++ (be16 (length v)
            ++ (v ++ (replicate (padding (length v)) 0 ++ (attrs_bytes rest ++ tail))))
unfolding attrs_bytes attr_bytes
attr_at t v tail rest = rw (append_assoc, append_assoc, append_assoc, append_assoc) refl

room :
    (buf : List ℕ) (off : ℕ) (t : ℕ) (v more : List ℕ)
    → drop off buf ≡ be16 t ++ (be16 (length v) ++ (v ++ more))
    → off + 4 + length v + length more ≤ length buf
room buf off t v more h = omega (arith, length-drop off buf, ap length h, length-append v more)

pub decode_attrs-lem :
    (attrs : List RawAttr) (tail buf : List ℕ) (fuel end off : ℕ) (acc : List RawAttr)
    → drop off buf ≡ attrs_bytes attrs ++ tail
    → end ≡ off + attrs_len attrs
    → All IsAttr attrs
    → length attrs < fuel
    → decode_attrs fuel buf end off acc ≡ ok (acc ++ attrs)
unfolding decode_attrs attrs_len
decode_attrs-lem [] tail buf zero end off acc h e fits more = absurd (omega arith)
decode_attrs-lem [] tail buf (suc fuel) end off acc h e fits more = rw (append-nil) (ground arith)
decode_attrs-lem ((t, v) ∷ rest) tail buf zero end off acc h e fits more = absurd (omega arith)
decode_attrs-lem ((t, v) ∷ rest) tail buf (suc fuel) end off acc h e fits more =
    let h0 = h ∙ attr_at t v tail rest in
    let pad = replicate {A = ℕ} (padding (length v)) 0 in
    let more2 = v ++ (pad ++ (attrs_bytes rest ++ tail)) in
    let h1 = drop-to off (off + 2) buf (be16 t) (be16 (length v) ++ more2) h0 refl in
    let h2 = drop-to (off + 2) (off + 4) buf (be16 (length v)) more2 h1 (omega arith) in
    let h3 =
      drop-to (off + 4) (off + 4 + length v) buf v (pad ++ (attrs_bytes rest ++ tail)) h2 refl in
    let h4 =
      drop-to (off + 4 + length v) (off + 4 + length v + padding (length v)) buf pad
        (attrs_bytes rest ++ tail) h3
        (omega (arith, length-replicate {A = ℕ} (padding (length v)) 0)) in
    let fit = room buf off t v (pad ++ (attrs_bytes rest ++ tail)) h0 in
    let again =
      decode_attrs-lem rest tail buf fuel end (off + 4 + length v + padding (length v))
        (acc ++ (t, v) ∷ []) h4 (omega arith) fits.1 (omega arith) in
    rw
      (
        decode_attrs,
        le→leb (off + 4) end (omega arith),
        be16_at-lem buf _ off t h0,
        be16_at-lem buf _ (off + 2) (length v) h1,
        ge→ltb end (off + 4 + length v) (omega arith),
        slice-lem buf v _ (off + 4) h2 (omega arith),
        again,
      )
      (rw (append_assoc) refl)
