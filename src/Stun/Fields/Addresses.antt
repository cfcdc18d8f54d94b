-- ===== src/Stun/Fields/Addresses.antt =====
-- Addresses survive the XOR coding.
use localsend_rs.Base.{
  ℕ, ◌<◌, ◌≡◌, refl, bit_xor, Bool, true, none, some, List, [], ◌∷◌, nat_beq, ◌&&◌, arith, ltb,
}
use localsend_rs.Base.Bytes.{IsByte, IsU16, true_upto, true_upto_lem, from_be16-be16}
use localsend_rs.Stun.Fields.{Ipv4Addr, v4, v6, xor_address_bytes, decode_xor_address}

-- Xoring twice by `k` gives the number back, and stays below the bound.
unxors : ℕ → ℕ → ℕ → Bool
unxors bound k x = nat_beq (bit_xor (bit_xor x k) k) x && ltb (bit_xor x k) bound

unxor :
    (bound k x : ℕ)
    → unxors bound k x ≡ true
    → (bit_xor (bit_xor x k) k ≡ x) × (bit_xor x k < bound)
unfolding unxors
unxor bound k x h = ground arith

module _ (bound k : ℕ) (table : true_upto (unxors bound k) bound ≡ true) where
  unxor_below : (x : ℕ) → x < bound → (bit_xor (bit_xor x k) k ≡ x) × (bit_xor x k < bound)
  unxor_below x h = unxor bound k x (true_upto_lem (unxors bound k) bound table x h)

table_a : true_upto (unxors 256 0x21) 256 ≡ true
unfolding true_upto unxors
table_a = refl

table_b : true_upto (unxors 256 0x12) 256 ≡ true
unfolding true_upto unxors
table_b = refl

table_c : true_upto (unxors 256 0xA4) 256 ≡ true
unfolding true_upto unxors
table_c = refl

table_d : true_upto (unxors 256 0x42) 256 ≡ true
unfolding true_upto unxors
table_d = refl

table_port : true_upto (unxors 65536 0x2112) 65536 ≡ true
unfolding true_upto unxors
table_port = refl

pub record IsIpv4 (ip : Ipv4Addr) : Type 0 where
  pub a : IsByte ip.a
  pub b : IsByte ip.b
  pub c : IsByte ip.c
  pub d : IsByte ip.d

-- An IPv4 address and port written as a XOR address are read back, whatever the transaction
-- ids on the two sides.
pub decode-xor_address_bytes :
    (ip : Ipv4Addr) (port : ℕ) (tid tid' : List ℕ)
    → IsIpv4 ip
    → IsU16 port
    → decode_xor_address (xor_address_bytes (v4 ip port) tid) tid' ≡ some (v4 ip port)
unfolding decode_xor_address xor_address_bytes
decode-xor_address_bytes ip port tid tid' h hp =
    let (ea, _) = unxor_below 256 0x21 table_a ip.a h.a in
    let (eb, _) = unxor_below 256 0x12 table_b ip.b h.b in
    let (ec, _) = unxor_below 256 0xA4 table_c ip.c h.c in
    let (ed, _) = unxor_below 256 0x42 table_d ip.d h.d in
    let (ep, _) = unxor_below 65536 0x2112 table_port port hp in
    rw (ea, eb, ec, ed, from_be16-be16 (bit_xor port 0x2112), ep)

-- An attribute of another family than IPv4 is not read.
other_family : (p q : ℕ) (l tid : List ℕ) → decode_xor_address (0x00 ∷ 0x02 ∷ p ∷ q ∷ l) tid ≡ none
unfolding decode_xor_address
other_family p q [] tid = refl
other_family p q (a ∷ []) tid = refl
other_family p q (a ∷ b ∷ []) tid = refl
other_family p q (a ∷ b ∷ c ∷ []) tid = refl
other_family p q (a ∷ b ∷ c ∷ d ∷ []) tid = refl
other_family p q (a ∷ b ∷ c ∷ d ∷ e ∷ l) tid = refl

-- An IPv6 address is written and never read back.
pub decode-xor_address_bytes_v6 :
    (octets : List ℕ) (port : ℕ) (tid tid' : List ℕ)
    → decode_xor_address (xor_address_bytes (v6 octets port) tid) tid' ≡ none
unfolding xor_address_bytes
decode-xor_address_bytes_v6 octets port tid tid' = other_family _ _ _ tid'
