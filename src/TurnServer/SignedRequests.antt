-- ===== src/TurnServer/SignedRequests.antt =====
-- Requests that the relay's client signs, as the relay's server checks them:
-- `Message::encode` of rust/core/src/relay/stun.rs against `verify_integrity` of
-- rust/core/src/relay/turn_server.rs.
use localsend_rs.Base.{
  ℕ, ◌+◌, ◌<◌, ◌≡◌, refl, ap, ◌∙◌, true, some, List, [], ◌∷◌, ◌++◌, append-nil, nat_beq, Bool-cases,
  inl, inr, length, length-append, All, arith,
}
use localsend_rs.Base.Bytes.{be32, IsByte}
use localsend_rs.Stun.Types.{ok, Attr, attr_code, encode_type}
use localsend_rs.Stun.Codec.{
  RawAttr, Message, Incoming, encode, write_attrs, write_header, attrs_len, padding, magic_cookie,
}
use localsend_rs.Stun.Fields.{find_attr, find, string_attr}
use localsend_rs.Stun.Parts.{IsAttr, attrs_bytes, attr_bytes, write_attr-bytes, length-attrs_bytes}
use localsend_rs.Stun.RoundTrip.{signed, write_attrs-bytes}
use localsend_rs.TurnServer.State.{Crypto, TurnServerConfig}
use localsend_rs.TurnServer.Auth.{rest_password, long_term_key, verify_integrity}
use localsend_rs.TurnServer.Accepting.{covered, sealed, verify_integrity-sealed}

find_attr-append :
    (attr : Attr) (xs ys : List RawAttr) (v : List ℕ)
    → find_attr attr xs ≡ some v
    → find_attr attr (xs ++ ys) ≡ some v
unfolding find_attr
find_attr-append attr [] ys v h = cc h
find_attr-append attr ((t, w) ∷ xs) ys v h = ground (arith, find_attr-append attr xs ys v)

-- The attribute at the end, or an earlier one of the same number, is found.
find_attr-last :
    (attr : Attr) (xs : List RawAttr) (w : List ℕ)
    → (v : List ℕ) × (find_attr attr (xs ++ (attr_code attr, w) ∷ []) ≡ some v)
unfolding find_attr
find_attr-last attr [] w = (w, ground arith)
find_attr-last attr ((t, u) ∷ xs) w =
    let (v, later) = find_attr-last attr xs w in
    elim (Bool-cases (nat_beq t (attr_code attr))) [
      | inl same ↦ (u, rw (same) refl)
      | inr other ↦ (v, rw (other) later)
    ]

string_attr-find :
    (utf8_lossy : List ℕ → List ℕ) (attr : Attr) (msg : Incoming) (v : List ℕ)
    → find attr msg ≡ some v
    → string_attr utf8_lossy attr msg ≡ some (utf8_lossy v)
unfolding string_attr
string_attr-find utf8_lossy attr msg v h = rw (string_attr, h) refl

attr_bytes-mac : (mac : List ℕ) → length mac ≡ 20 → attr_bytes (8, mac) ≡ 0 ∷ 8 ∷ 0 ∷ 20 ∷ mac
unfolding attr_bytes padding
attr_bytes-mac mac twenty = rw (twenty, append-nil) refl

-- What follows the length field.
rest_of : Message → List ℕ
rest_of m = be32 magic_cookie ++ (m.tid ++ attrs_bytes m.attrs)

covered-write_attrs :
    (m : Message)
    → All IsAttr m.attrs
    → write_attrs (write_header m (attrs_len m.attrs + 24)) m.attrs
      ≡ covered (encode_type m.method m.class) (attrs_len m.attrs + 24) (rest_of m)
unfolding write_header covered rest_of
covered-write_attrs m fits =
    write_attrs-bytes (write_header m (attrs_len m.attrs + 24)) m.attrs fits

module _ (crypto : Crypto) (cfg : TurnServerConfig) where
  -- The key of a client that has the password of the user name `name`.
  unfoldable pub client_key : List ℕ → List ℕ
  client_key name =
      long_term_key crypto (crypto.utf8_lossy name) cfg.realm
        (rest_password crypto cfg.secret (crypto.utf8_lossy name))

  encode-sealed :
      (m : Message) (key : List ℕ)
      → ((k b : List ℕ) → length (crypto.hmac_sha1 k b) ≡ 20)
      → All IsAttr m.attrs
      → encode crypto.hmac_sha1 (some key) m
        ≡ sealed (encode_type m.method m.class) (attrs_len m.attrs + 24) (rest_of m) (
            crypto.hmac_sha1 key
              (covered (encode_type m.method m.class) (attrs_len m.attrs + 24) (rest_of m)))
  unfolding encode sealed
  encode-sealed m key twenty fits =
      let buf = covered (encode_type m.method m.class) (attrs_len m.attrs + 24) (rest_of m) in
      let mac = crypto.hmac_sha1 key buf in
      rw (covered-write_attrs m fits) (
        write_attr-bytes buf 8 mac (omega (arith, twenty key buf))
        ∙ ap (λ b. buf ++ b) (attr_bytes-mac mac (twenty key buf)))

  -- A request that a client signs with the key of its user name verifies at the server that
  -- shares the realm and the secret. The MAC function gives 20 bytes, the transaction id has 12,
  -- the attributes fit the wire format, and the request carries the user name.
  pub verify_integrity-encode :
      (m : Message) (name : List ℕ)
      → ((k b : List ℕ) → length (crypto.hmac_sha1 k b) ≡ 20)
      → ((k b : List ℕ) → All IsByte (crypto.hmac_sha1 k b))
      → length m.tid ≡ 12
      → All IsAttr m.attrs
      → attrs_len m.attrs + 24 < 65536
      → find_attr Attr.username m.attrs ≡ some name
      → verify_integrity crypto cfg (encode crypto.hmac_sha1 (some (client_key name)) m) (record {
        method = m.method;
        class = m.class;
        tid = m.tid;
        attrs = signed crypto.hmac_sha1 (client_key name) m;
      })
        ≡ ok true
  unfolding signed find client_key rest_of
  verify_integrity-encode m name twenty bytes twelve fits short named =
      let key = client_key name in
      let buf = covered (encode_type m.method m.class) (attrs_len m.attrs + 24) (rest_of m) in
      let mac =
        crypto.hmac_sha1 key (write_attrs (write_header m (attrs_len m.attrs + 24)) m.attrs) in
      let (found, carried) = find_attr-last Attr.message_integrity m.attrs mac in
      let user =
        find_attr-append Attr.username m.attrs ((attr_code Attr.message_integrity, mac) ∷ []) name
          named in
      rw (encode-sealed m key twenty fits) (
        verify_integrity-sealed (encode_type m.method m.class) (attrs_len m.attrs + 24) (rest_of m)
          (crypto.hmac_sha1 key buf) short
          (omega
            (arith, twelve, length-append m.tid (attrs_bytes m.attrs), length-attrs_bytes m.attrs))
          (omega (arith, twelve, length-append m.tid (attrs_bytes m.attrs))) (twenty key buf) crypto
          cfg _ (crypto.utf8_lossy name) found (bytes key buf) refl
          (string_attr-find crypto.utf8_lossy Attr.username _ name user) carried)
