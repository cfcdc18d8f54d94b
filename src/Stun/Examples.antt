-- ===== src/Stun/Examples.antt =====
-- The STUN codec at concrete inputs.
use localsend_rs.Base.{ℕ, ◌≡◌, refl, none, some, List, [], ◌∷◌, ◌++◌, arith, replicate}
use localsend_rs.Stun.Types.{Method, MessageClass, Attr, attr_code, ok}
use localsend_rs.Stun.Codec.{Message, encode, decode, attrs_len}
use localsend_rs.Stun.Fields.{Ipv4Addr}
use localsend_rs.Stun.RoundTrip.{decode-encode, decode-encode-signed, signed}
use localsend_rs.Stun.Safety.{Returns, decode-Returns}

abbrev localhost : Ipv4Addr
localhost = record { a = 127; b = 0; c = 0; d = 1 }

-- A request with a user name of three bytes.
abbrev ask : Message
ask = record {
  method = Method.allocate;
  class = MessageClass.request;
  tid = replicate 12 7;
  attrs = (attr_code Attr.username, 97 ∷ 98 ∷ 99 ∷ []) ∷ [];
}

-- A MAC of the right length.
abbrev some_mac : List ℕ → List ℕ → List ℕ
some_mac key text = replicate 20 5

decode-encode_example :
    decode (encode some_mac none ask ++ 1 ∷ [])
    ≡ ok (record { method = ask.method; class = ask.class; tid = ask.tid; attrs = ask.attrs })
unfolding attrs_len
decode-encode_example =
    decode-encode some_mac ask (1 ∷ []) refl
      (record { number = omega arith; size = omega arith }, tt) (omega arith)

decode-encode-signed_example :
    decode (encode some_mac (some (1 ∷ [])) ask ++ [])
    ≡ ok (record {
      method = ask.method;
      class = ask.class;
      tid = ask.tid;
      attrs = signed some_mac (1 ∷ []) ask;
    })
unfolding attrs_len
decode-encode-signed_example =
    decode-encode-signed some_mac (1 ∷ []) ask [] (λ k b. refl) refl
      (record { number = omega arith; size = omega arith }, tt) (omega arith)

decode-Returns_example : Returns (decode (0 ∷ 3 ∷ 0 ∷ 8 ∷ []))
decode-Returns_example = decode-Returns (0 ∷ 3 ∷ 0 ∷ 8 ∷ [])
