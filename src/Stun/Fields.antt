-- ===== src/Stun/Fields.antt =====
-- The attributes of a STUN message: the `push_*` methods of `Message`, the readers of `Incoming`
-- and the XOR address code of rust/core/src/relay/stun.rs. Texts are byte strings here; the
-- parameter `utf8_lossy` is `String::from_utf8_lossy` as a function on bytes.
pub mod Addresses
use localsend_rs.Base.{
  ℕ, ◌+◌, ◌/◌, ◌%◌, ◌^◌, bit_and, bit_xor, Bool, true, false, Option, none, some, List, [], ◌∷◌,
  ◌++◌, if◌then◌else◌, nat_beq, ltb, length, drop,
}
use localsend_rs.Base.Bytes.{be16, be32, from_be16, from_be32}
use localsend_rs.Stun.Types.{Attr, attr_code}
use localsend_rs.Stun.Codec.{Message, Incoming, RawAttr, magic_cookie, push}

-- `std::net::SocketAddr`; the octets of an IPv6 address are a list.
pub record Ipv4Addr : Type 0 where
  pub a : ℕ
  pub b : ℕ
  pub c : ℕ
  pub d : ℕ

pub data SocketAddr : Type 0 where
  v4 : Ipv4Addr → ℕ → SocketAddr
  v6 : List ℕ → ℕ → SocketAddr

-- `push_username`, `push_realm` and `push_nonce`.
unfoldable pub push_username : List ℕ → Message → Message
unfolding push
push_username v = push Attr.username v

unfoldable pub push_realm : List ℕ → Message → Message
unfolding push
push_realm v = push Attr.realm v

unfoldable pub push_nonce : List ℕ → Message → Message
unfolding push
push_nonce v = push Attr.nonce v

unfoldable pub push_requested_transport : ℕ → Message → Message
unfolding push
push_requested_transport protocol = push Attr.requested_transport (protocol ∷ 0 ∷ 0 ∷ 0 ∷ [])

unfoldable pub push_lifetime : ℕ → Message → Message
unfolding push
push_lifetime seconds = push Attr.lifetime (be32 seconds)

unfoldable pub push_connection_id : ℕ → Message → Message
unfolding push
push_connection_id id = push Attr.connection_id (be32 id)

-- The two top bytes of the cookie, with which a port is xored.
abbrev pub cookie_port : ℕ
cookie_port = 0x2112

unfoldable pub xor_octets : List ℕ → List ℕ → List ℕ
xor_octets [] key = []
xor_octets (o ∷ os) [] = []
xor_octets (o ∷ os) (k ∷ key) = bit_xor o k ∷ xor_octets os key

unfoldable pub xor_address_bytes : SocketAddr → List ℕ → List ℕ
unfolding xor_octets
xor_address_bytes (v4 ip port) tid =
    (0x00 ∷ 0x01 ∷ be16 (bit_xor port cookie_port))
    ++ xor_octets (ip.a ∷ ip.b ∷ ip.c ∷ ip.d ∷ []) (be32 magic_cookie)
xor_address_bytes (v6 octets port) tid =
    (0x00 ∷ 0x02 ∷ be16 (bit_xor port cookie_port)) ++ xor_octets octets (be32 magic_cookie ++ tid)

unfoldable pub push_xor_address : Attr → SocketAddr → Message → Message
unfolding push xor_address_bytes
push_xor_address attr addr m = push attr (xor_address_bytes addr m.tid) m

-- Any length but 8 and any family but 1 give nothing.
unfoldable pub decode_xor_address : List ℕ → List ℕ → Option SocketAddr
decode_xor_address (r ∷ family ∷ p ∷ q ∷ a ∷ b ∷ c ∷ d ∷ []) tid =
    if nat_beq family 0x01
    then some (
        v4
          (record {
            a = bit_xor a 0x21;
            b = bit_xor b 0x12;
            c = bit_xor c 0xA4;
            d = bit_xor d 0x42;
          })
          (bit_xor (from_be16 p q) cookie_port))
    else none
decode_xor_address _ tid = none

-- `Incoming::find`: the first attribute of the type.
unfoldable pub find_attr : Attr → List RawAttr → Option (List ℕ)
find_attr attr [] = none
find_attr attr ((t, v) ∷ rest) = if nat_beq t (attr_code attr) then some v else find_attr attr rest

unfoldable pub find : Attr → Incoming → Option (List ℕ)
unfolding find_attr
find attr m = find_attr attr m.attrs

unfoldable pub xor_address : Attr → Incoming → Option SocketAddr
unfolding find decode_xor_address
xor_address attr m = elim (find attr m) [ none ↦ none | some v ↦ decode_xor_address v m.tid ]

unfoldable pub word_of : List ℕ → Option ℕ
word_of (a ∷ b ∷ c ∷ d ∷ []) = some (from_be32 a b c d)
word_of _ = none

unfoldable pub connection_id : Incoming → Option ℕ
unfolding find word_of
connection_id m = elim (find Attr.connection_id m) [ none ↦ none | some v ↦ word_of v ]

unfoldable pub lifetime : Incoming → Option ℕ
unfolding find word_of
lifetime m = elim (find Attr.lifetime m) [ none ↦ none | some v ↦ word_of v ]

unfoldable pub error_of : (List ℕ → List ℕ) → List ℕ → Option (ℕ × ℕ × List ℕ)
error_of utf8_lossy (r ∷ s ∷ class ∷ number ∷ reason) =
    some (bit_and class 0x07, number, utf8_lossy reason)
error_of utf8_lossy _ = none

-- `error_code`: the class, the number and the reason.
unfoldable pub error_code : (List ℕ → List ℕ) → Incoming → Option (ℕ × ℕ × List ℕ)
unfolding find error_of
error_code utf8_lossy m = elim (find Attr.error_code m) [
  | none ↦ none
  | some v ↦ error_of utf8_lossy v
]

unfoldable pub string_attr : (List ℕ → List ℕ) → Attr → Incoming → Option (List ℕ)
unfolding find
string_attr utf8_lossy attr m = elim (find attr m) [ none ↦ none | some v ↦ some (utf8_lossy v) ]
