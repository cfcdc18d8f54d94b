-- ===== src/Stun/RoundTrip.antt =====
-- What `Incoming::decode` reads back of what `Message::encode` of
-- rust/core/src/relay/stun.rs writes.
use localsend_rs.Base.{
  none, some, ℕ, ◌+◌, ◌≤◌, ◌<◌, ◌≡◌, refl, sym, List, [], ◌∷◌, ◌++◌, append_assoc, append-nil,
  length, All, take, drop, length-append, arith, ge→ltb,
}
use localsend_rs.Stun.Types.{Attr, attr_code, Method, MessageClass, ok, encode_type, decode_type}
use localsend_rs.Stun.Codec.{
  RawAttr, attrs_len, write_attr, write_attrs, be16_at, be32_at, slice, decode_attrs, Message,
  header_len, magic_cookie, write_header, decode, encode,
}
use localsend_rs.Stun.Parts.{
  attr_bytes, attrs_bytes, IsAttr, length-attrs_bytes, drop-to, write_attr-bytes, mod_small,
}
use localsend_rs.Stun.TypeField.{decode_type-encode_type}
use localsend_rs.Stun.Reads.{be16_at-lem, slice-lem, decode_attrs-lem}

pub write_attrs-bytes :
    (buf : List ℕ) (attrs : List RawAttr)
    → All IsAttr attrs
    → write_attrs buf attrs ≡ buf ++ attrs_bytes attrs
unfolding write_attrs attrs_bytes
write_attrs-bytes buf [] fits = sym (append-nil buf)
write_attrs-bytes buf ((t, v) ∷ rest) fits =
    rw
      (
        write_attr-bytes buf t v fits.0.size,
        write_attrs-bytes (buf ++ attr_bytes (t, v)) rest fits.1,
        append_assoc,
      )
      refl

-- `decode`, given what its reads give.
decode-reads :
    (buf : List ℕ) (number len : ℕ) (method : Method) (class : MessageClass) (tid : List ℕ)
    (attrs : List RawAttr)
    → be16_at buf 0 ≡ ok number
    → be16_at buf 2 ≡ ok len
    → header_len + len ≤ length buf
    → be32_at buf 4 ≡ ok magic_cookie
    → decode_type number ≡ ok (method, class)
    → slice buf 8 12 ≡ ok tid
    → decode_attrs (length buf) buf (header_len + len) header_len [] ≡ ok attrs
    → decode buf ≡ ok (record { method = method; class = class; tid = tid; attrs = attrs })
unfolding decode
decode-reads buf number len method class tid attrs h0 h2 room h4 ht hs ha =
    rw
      (
        decode,
        ge→ltb (length buf) header_len (omega arith),
        h0,
        h2,
        ge→ltb (length buf) (header_len + len) room,
        h4,
        ht,
        hs,
        ha,
      )
      refl

-- A packet: the header that announces `attrs`, and their bytes.
packet : Message → List RawAttr → List ℕ
packet m attrs = write_header m (attrs_len attrs) ++ attrs_bytes attrs

length-attrs_len : (attrs : List RawAttr) → length attrs ≤ attrs_len attrs
unfolding attrs_len
length-attrs_len [] = omega arith
length-attrs_len ((t, v) ∷ rest) = omega (arith, length-attrs_len rest)

length-packet :
    (m : Message) (attrs : List RawAttr) (rest : List ℕ)
    → length m.tid ≡ 12
    → length (packet m attrs ++ rest) ≡ header_len + attrs_len attrs + length rest
unfolding packet write_header
length-packet m attrs rest twelve = omega (
  arith,
  twelve,
  length-append (packet m attrs) rest,
  length-append (write_header m (attrs_len attrs)) (attrs_bytes attrs),
  length-append (take 8 (write_header m (attrs_len attrs))) m.tid,
  length-attrs_bytes attrs,
)

decode-packet :
    (m : Message) (attrs : List RawAttr) (rest : List ℕ)
    → length m.tid ≡ 12
    → All IsAttr attrs
    → attrs_len attrs < 65536
    → decode (packet m attrs ++ rest)
      ≡ ok (record { method = m.method; class = m.class; tid = m.tid; attrs = attrs })
unfolding packet write_header be32_at
decode-packet m attrs rest twelve fits short =
    let buf = packet m attrs ++ rest in
    let len = attrs_len attrs in
    let after = append_assoc m.tid (attrs_bytes attrs) rest in
    let body = drop-to 8 20 buf m.tid (attrs_bytes attrs ++ rest) after (omega arith) in
    let size = length-packet m attrs rest twelve in
    decode-reads buf (encode_type m.method m.class) len m.method m.class m.tid attrs
      (be16_at-lem buf (drop 2 buf) 0 (encode_type m.method m.class) refl)
      (be16_at-lem buf (drop 4 buf) 2 len (rw (mod_small len short) refl)) (omega arith) refl
      (decode_type-encode_type m.method m.class)
      (rw (sym twelve) (slice-lem buf m.tid (attrs_bytes attrs ++ rest) 8 after (omega arith)))
      (decode_attrs-lem attrs rest buf (length buf) (20 + len) 20 [] body refl fits
        (omega (arith, length-attrs_len attrs)))

-- `decode` reads back the method, the class, the transaction id and the attributes of an unsigned
-- message that `encode` wrote, whatever bytes follow it. The transaction id has 12 bytes, each
-- attribute's number and length fit 16 bits, and so does the length of the whole body.
pub decode-encode :
    (hmac_sha1 : List ℕ → List ℕ → List ℕ) (m : Message) (rest : List ℕ)
    → length m.tid ≡ 12
    → All IsAttr m.attrs
    → attrs_len m.attrs < 65536
    → decode (encode hmac_sha1 none m ++ rest)
      ≡ ok (record { method = m.method; class = m.class; tid = m.tid; attrs = m.attrs })
unfolding encode packet
decode-encode hmac_sha1 m rest twelve fits short =
    rw (write_attrs-bytes (write_header m (attrs_len m.attrs)) m.attrs fits)
      (decode-packet m m.attrs rest twelve fits short)

-- The message's attributes with the MAC at the end.
unfoldable pub signed : (List ℕ → List ℕ → List ℕ) → List ℕ → Message → List RawAttr
signed hmac_sha1 key m =
    m.attrs
    ++ (
      attr_code Attr.message_integrity,
      hmac_sha1 key (write_attrs (write_header m (attrs_len m.attrs + 24)) m.attrs),
    )
      ∷ []

All-append : (xs ys : List RawAttr) → All IsAttr xs → All IsAttr ys → All IsAttr (xs ++ ys)
All-append [] ys hx hy = hy
All-append (x ∷ xs) ys hx hy = (hx.0, All-append xs ys hx.1 hy)

attrs_len-append : (xs ys : List RawAttr) → attrs_len (xs ++ ys) ≡ attrs_len xs + attrs_len ys
unfolding attrs_len
attrs_len-append [] ys = omega arith
attrs_len-append ((t, v) ∷ xs) ys = omega (arith, attrs_len-append xs ys)

attrs_bytes-append :
    (xs ys : List RawAttr) → attrs_bytes (xs ++ ys) ≡ attrs_bytes xs ++ attrs_bytes ys
unfolding attrs_bytes
attrs_bytes-append [] ys = refl
attrs_bytes-append (x ∷ xs) ys = rw (attrs_bytes-append xs ys, append_assoc) refl

one_attr : (x : RawAttr) → attrs_bytes (x ∷ []) ≡ attr_bytes x
unfolding attrs_bytes
one_attr x = append-nil (attr_bytes x)

mac_len :
    (attrs : List RawAttr) (t : ℕ) (mac : List ℕ)
    → length mac ≡ 20
    → attrs_len (attrs ++ (t, mac) ∷ []) ≡ attrs_len attrs + 24
unfolding attrs_len
mac_len attrs t mac twenty = rw (attrs_len-append attrs ((t, mac) ∷ []), twenty) (omega arith)

-- The signed bytes are the packet of the attributes with the MAC among them.
write_attr-packet :
    (m : Message) (attrs : List RawAttr) (t : ℕ) (mac : List ℕ)
    → All IsAttr attrs
    → length mac ≡ 20
    → write_attr (write_attrs (write_header m (attrs_len attrs + 24)) attrs) t mac
      ≡ packet m (attrs ++ (t, mac) ∷ [])
unfolding packet
write_attr-packet m attrs t mac fits twenty =
    let h = write_header m (attrs_len attrs + 24) in
    rw
      (
        write_attr-bytes (write_attrs h attrs) t mac (omega arith),
        write_attrs-bytes h attrs fits,
        mac_len attrs t mac twenty,
        attrs_bytes-append attrs ((t, mac) ∷ []),
        one_attr (t, mac),
        append_assoc,
      )
      refl

-- `decode` reads back a message that `encode` signed with a key: its own attributes and, after
-- them, MESSAGE-INTEGRITY with the MAC of the message up to there. Besides the sizes, the MAC
-- function gives 20 bytes.
pub decode-encode-signed :
    (hmac_sha1 : List ℕ → List ℕ → List ℕ) (key : List ℕ) (m : Message) (rest : List ℕ)
    → ((k b : List ℕ) → length (hmac_sha1 k b) ≡ 20)
    → length m.tid ≡ 12
    → All IsAttr m.attrs
    → attrs_len m.attrs + 24 < 65536
    → decode (encode hmac_sha1 (some key) m ++ rest)
      ≡ ok (record {
        method = m.method;
        class = m.class;
        tid = m.tid;
        attrs = signed hmac_sha1 key m;
      })
unfolding encode packet signed attrs_len
decode-encode-signed hmac_sha1 key m rest twenty twelve fits short =
    let mac = hmac_sha1 key (write_attrs (write_header m (attrs_len m.attrs + 24)) m.attrs) in
    let code = attr_code Attr.message_integrity in
    let twenty_mac = twenty key (write_attrs (write_header m (attrs_len m.attrs + 24)) m.attrs) in
    rw (write_attr-packet m m.attrs code mac fits twenty_mac) (
      decode-packet m (m.attrs ++ (code, mac) ∷ []) rest twelve
        (All-append m.attrs ((code, mac) ∷ []) fits
          (record { number = omega arith; size = omega arith }, tt))
        (omega (arith, mac_len m.attrs code mac twenty_mac)))
