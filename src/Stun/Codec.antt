-- ===== src/Stun/Codec.antt =====
-- `Message::encode` and `Incoming::decode` of rust/core/src/relay/stun.rs. A byte string is a
-- list of numbers. The parameter `hmac_sha1` is the MAC of the crates `hmac` and `sha1`.
use localsend_rs.Base.{
  ℕ, zero, suc, ◌+◌, ◌-◌, ◌%◌, true, false, not, Option, none, some, List, [], ◌∷◌, ◌++◌,
  if◌then◌else◌, ltb, leb, nat_beq, length, take, drop, replicate,
}
use localsend_rs.Base.Bytes.{be16, be32, from_be16, from_be32}
use localsend_rs.Stun.Types.{
  Method, MessageClass, Attr, attr_code, Error, Result, ok, err, panic, stuck, ◌>>=◌, encode_type,
  decode_type,
}

abbrev pub magic_cookie : ℕ
magic_cookie = 0x2112_A442

abbrev pub header_len : ℕ
header_len = 20

-- A raw attribute: its type and its bytes.
abbrev pub RawAttr : Type 0
RawAttr = ℕ × List ℕ

pub record Message : Type 0 where
  pub method : Method
  pub class : MessageClass
  pub tid : List ℕ
  pub attrs : List RawAttr

pub record Incoming : Type 0 where
  pub method : Method
  pub class : MessageClass
  pub tid : List ℕ
  pub attrs : List RawAttr

unfoldable pub new : Method → MessageClass → List ℕ → Message
new method class tid = record { method = method; class = class; tid = tid; attrs = [] }

unfoldable pub push : Attr → List ℕ → Message → Message
push attr value m = record m { attrs = m.attrs ++ (attr_code attr, value) ∷ [] }

unfoldable pub padding : ℕ → ℕ
padding len = (4 - len % 4) % 4

-- `attrs_body_len`
unfoldable pub attrs_len : List RawAttr → ℕ
unfolding padding
attrs_len [] = 0
attrs_len ((t, v) ∷ rest) = 4 + length v + padding (length v) + attrs_len rest

unfoldable pub write_attr : List ℕ → ℕ → List ℕ → List ℕ
unfolding padding
write_attr buf t v =
    buf ++ be16 t ++ be16 (length v % 65536) ++ v ++ replicate (padding (length v)) 0

unfoldable pub write_attrs : List ℕ → List RawAttr → List ℕ
unfolding write_attr
write_attrs buf [] = buf
write_attrs buf ((t, v) ∷ rest) = write_attrs (write_attr buf t v) rest

unfoldable pub write_header : Message → ℕ → List ℕ
unfolding encode_type
write_header m body_len =
    be16 (encode_type m.method m.class) ++ be16 (body_len % 65536) ++ be32 magic_cookie ++ m.tid

unfoldable pub encode : (List ℕ → List ℕ → List ℕ) → Option (List ℕ) → Message → List ℕ
unfolding attrs_len write_attrs write_header
encode hmac_sha1 none m = write_attrs (write_header m (attrs_len m.attrs)) m.attrs
encode hmac_sha1 (some key) m =
    let buf = write_attrs (write_header m (attrs_len m.attrs + 24)) m.attrs in
    write_attr buf (attr_code Attr.message_integrity) (hmac_sha1 key buf)

-- `u16::from_be_bytes([buf[off], buf[off + 1]])`, and so with four bytes.
unfoldable pub be16_at : List ℕ → ℕ → Result ℕ
be16_at buf off = elim (drop off buf) [ a ∷ b ∷ rest ↦ ok (from_be16 a b) | _ ↦ panic ]

unfoldable pub be32_at : List ℕ → ℕ → Result ℕ
be32_at buf off = elim (drop off buf) [ a ∷ b ∷ c ∷ d ∷ rest ↦ ok (from_be32 a b c d) | _ ↦ panic ]

-- `buf[off..off + len]`
unfoldable pub slice : List ℕ → ℕ → ℕ → Result (List ℕ)
slice buf off len = if leb (off + len) (length buf) then ok (take len (drop off buf)) else panic

-- The attribute loop, on fuel.
unfoldable pub decode_attrs : ℕ → List ℕ → ℕ → ℕ → List RawAttr → Result (List RawAttr)
unfolding be16_at slice padding
decode_attrs zero buf end off attrs = stuck
decode_attrs (suc fuel) buf end off attrs = elim (leb (off + 4) end) [
  | false ↦ ok attrs
  | true ↦ do
    t ← be16_at buf off
    l ← be16_at buf (off + 2)
    if ltb end (off + 4 + l) then err Error.truncated_attribute else do
      v ← slice buf (off + 4) l
      decode_attrs fuel buf end (off + 4 + l + padding l) (attrs ++ (t, v) ∷ [])
]

-- Each round of the loop moves on by 4 bytes at least, so `length buf` rounds are enough.
unfoldable pub decode : List ℕ → Result Incoming
unfolding be16_at be32_at slice decode_type decode_attrs
decode buf = if ltb (length buf) header_len then err Error.short_header else do
  msg_type ← be16_at buf 0
  body_len ← be16_at buf 2
  if ltb (length buf) (header_len + body_len) then err Error.truncated_body else do
    cookie ← be32_at buf 4
    if not (nat_beq cookie magic_cookie) then err Error.bad_cookie else do
      (method, class) ← decode_type msg_type
      tid ← slice buf 8 12
      attrs ← decode_attrs (length buf) buf (header_len + body_len) header_len []
      ok (record { method = method; class = class; tid = tid; attrs = attrs })
