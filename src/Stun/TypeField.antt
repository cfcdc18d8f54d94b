-- ===== src/Stun/TypeField.antt =====
-- The 16-bit message type: what is encoded is decoded, and the other way round.
use localsend_rs.Base.{ℕ, ◌<◌, ◌≡◌, refl, ◌^◌, Bool, true, nat_beq, nat_beq_iff, arith}
use localsend_rs.Base.Bytes.{true_upto, true_upto_lem, IsU16}
use localsend_rs.Stun.Types.{Method, MessageClass, ok, encode_type, decode_type}

-- `decode_type` reads back every method and class that `encode_type` wrote.
pub decode_type-encode_type :
    (m : Method) (c : MessageClass) → decode_type (encode_type m c) ≡ ok (m, c)
unfolding decode_type encode_type
decode_type-encode_type Method.binding MessageClass.request = refl
decode_type-encode_type Method.binding MessageClass.indication = refl
decode_type-encode_type Method.binding MessageClass.success_response = refl
decode_type-encode_type Method.binding MessageClass.error_response = refl
decode_type-encode_type Method.allocate MessageClass.request = refl
decode_type-encode_type Method.allocate MessageClass.indication = refl
decode_type-encode_type Method.allocate MessageClass.success_response = refl
decode_type-encode_type Method.allocate MessageClass.error_response = refl
decode_type-encode_type Method.refresh MessageClass.request = refl
decode_type-encode_type Method.refresh MessageClass.indication = refl
decode_type-encode_type Method.refresh MessageClass.success_response = refl
decode_type-encode_type Method.refresh MessageClass.error_response = refl
decode_type-encode_type Method.create_permission MessageClass.request = refl
decode_type-encode_type Method.create_permission MessageClass.indication = refl
decode_type-encode_type Method.create_permission MessageClass.success_response = refl
decode_type-encode_type Method.create_permission MessageClass.error_response = refl
decode_type-encode_type Method.connect MessageClass.request = refl
decode_type-encode_type Method.connect MessageClass.indication = refl
decode_type-encode_type Method.connect MessageClass.success_response = refl
decode_type-encode_type Method.connect MessageClass.error_response = refl
decode_type-encode_type Method.connection_bind MessageClass.request = refl
decode_type-encode_type Method.connection_bind MessageClass.indication = refl
decode_type-encode_type Method.connection_bind MessageClass.success_response = refl
decode_type-encode_type Method.connection_bind MessageClass.error_response = refl

pub encode_type-IsU16 : (m : Method) (c : MessageClass) → IsU16 (encode_type m c)
unfolding encode_type
encode_type-IsU16 Method.binding MessageClass.request = omega arith
encode_type-IsU16 Method.binding MessageClass.indication = omega arith
encode_type-IsU16 Method.binding MessageClass.success_response = omega arith
encode_type-IsU16 Method.binding MessageClass.error_response = omega arith
encode_type-IsU16 Method.allocate MessageClass.request = omega arith
encode_type-IsU16 Method.allocate MessageClass.indication = omega arith
encode_type-IsU16 Method.allocate MessageClass.success_response = omega arith
encode_type-IsU16 Method.allocate MessageClass.error_response = omega arith
encode_type-IsU16 Method.refresh MessageClass.request = omega arith
encode_type-IsU16 Method.refresh MessageClass.indication = omega arith
encode_type-IsU16 Method.refresh MessageClass.success_response = omega arith
encode_type-IsU16 Method.refresh MessageClass.error_response = omega arith
encode_type-IsU16 Method.create_permission MessageClass.request = omega arith
encode_type-IsU16 Method.create_permission MessageClass.indication = omega arith
encode_type-IsU16 Method.create_permission MessageClass.success_response = omega arith
encode_type-IsU16 Method.create_permission MessageClass.error_response = omega arith
encode_type-IsU16 Method.connect MessageClass.request = omega arith
encode_type-IsU16 Method.connect MessageClass.indication = omega arith
encode_type-IsU16 Method.connect MessageClass.success_response = omega arith
encode_type-IsU16 Method.connect MessageClass.error_response = omega arith
encode_type-IsU16 Method.connection_bind MessageClass.request = omega arith
encode_type-IsU16 Method.connection_bind MessageClass.indication = omega arith
encode_type-IsU16 Method.connection_bind MessageClass.success_response = omega arith
encode_type-IsU16 Method.connection_bind MessageClass.error_response = omega arith

-- A type field that decodes is the encoding of what it decodes to.
agrees : ℕ → Bool
unfolding encode_type decode_type
agrees t = elim (decode_type t) [ ok (m, c) ↦ nat_beq (encode_type m c) t | _ ↦ true ]

agrees_table : true_upto agrees (2 ^ 14) ≡ true
unfolding true_upto agrees
agrees_table = refl

agrees_eq :
    (t : ℕ) (m : Method) (c : MessageClass)
    → agrees t ≡ true
    → decode_type t ≡ ok (m, c)
    → encode_type m c ≡ t
unfolding agrees
agrees_eq t m c h e = (nat_beq_iff (encode_type m c) t).0 (rw (e, agrees) at h)

-- With the two top bits clear, as STUN has them, no two type fields decode alike: the field is
-- the encoding of the method and class that `decode_type` reads from it.
pub encode_type-decode_type :
    (t : ℕ) (m : Method) (c : MessageClass)
    → t < 2 ^ 14
    → decode_type t ≡ ok (m, c)
    → encode_type m c ≡ t
encode_type-decode_type t m c h e =
    agrees_eq t m c (true_upto_lem agrees (2 ^ 14) agrees_table t h) e
