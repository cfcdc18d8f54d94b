-- ===== src/Stun/Types.antt =====
-- The message type of rust/core/src/relay/stun.rs: methods, classes, attribute numbers, and the
-- 16-bit field in which a method and a class are interleaved.
use localsend_rs.Base.{ℕ, ◌*◌, ◌/◌, ◌%◌, ◌^◌, bit_and, bit_or, nat_beq, if◌then◌else◌}

pub data Method : Type 0 where
  binding allocate refresh create_permission connect connection_bind : Method

pub data MessageClass : Type 0 where
  request indication success_response error_response : MessageClass

abbrev pub method_code : Method → ℕ
method_code Method.binding = 0x001
method_code Method.allocate = 0x003
method_code Method.refresh = 0x004
method_code Method.create_permission = 0x008
method_code Method.connect = 0x00A
method_code Method.connection_bind = 0x00B

pub data Attr : Type 0 where
  username message_integrity error_code lifetime xor_peer_address realm nonce xor_relayed_address
        xor_mapped_address requested_transport dont_fragment connection_id :
      Attr

abbrev pub attr_code : Attr → ℕ
attr_code Attr.username = 0x0006
attr_code Attr.message_integrity = 0x0008
attr_code Attr.error_code = 0x0009
attr_code Attr.lifetime = 0x000D
attr_code Attr.xor_peer_address = 0x0012
attr_code Attr.realm = 0x0014
attr_code Attr.nonce = 0x0015
attr_code Attr.xor_relayed_address = 0x0016
attr_code Attr.xor_mapped_address = 0x0020
attr_code Attr.requested_transport = 0x0019
attr_code Attr.dont_fragment = 0x001A
attr_code Attr.connection_id = 0x002A

-- The errors of `Incoming::decode`. `panic` is an index out of range; `stuck` is no outcome of
-- the program: a loop of the model ran out of fuel.
pub data Error : Type 0 where
  short_header truncated_body bad_cookie unknown_method truncated_attribute : Error

pub data Result {ℓ} (A : Type ℓ) : Type ℓ where
  ok : A → Result A
  err : Error → Result A
  panic stuck : Result A

infixl 5 ◌>>=◌
abbrev pub ◌>>=◌ {ℓ κ} : {A : Type ℓ} {B : Type κ} → Result A → (A → Result B) → Result B
ok a >>= f = f a
err e >>= f = err e
panic >>= f = panic
stuck >>= f = stuck

abbrev pub class_code : MessageClass → ℕ
class_code MessageClass.request = 0b00
class_code MessageClass.indication = 0b01
class_code MessageClass.success_response = 0b10
class_code MessageClass.error_response = 0b11

unfoldable pub encode_type : Method → MessageClass → ℕ
encode_type method class =
    let m = method_code method in
    let c = class_code class in
    bit_or
      (bit_or
        (bit_or (bit_or (bit_and m 0x0F80 * 2 ^ 2 % 2 ^ 16) (bit_and m 0x0070 * 2 % 2 ^ 16))
          (bit_and m 0x000F))
        (bit_and c 0b10 * 2 ^ 7 % 2 ^ 16))
      (bit_and c 0b01 * 2 ^ 4 % 2 ^ 16)

abbrev decode_class : ℕ → ℕ → MessageClass
decode_class hi lo =
    if nat_beq hi 0
    then (if nat_beq lo 0 then MessageClass.request else MessageClass.indication)
    else (if nat_beq lo 0 then MessageClass.success_response else MessageClass.error_response)

abbrev decode_method : ℕ → Result Method
decode_method n =
    if nat_beq n 0x001
    then ok Method.binding
    else if nat_beq n 0x003
    then ok Method.allocate
    else if nat_beq n 0x004
    then ok Method.refresh
    else if nat_beq n 0x008
    then ok Method.create_permission
    else if nat_beq n 0x00A
    then ok Method.connect
    else if nat_beq n 0x00B
    then ok Method.connection_bind
    else err Error.unknown_method

unfoldable pub decode_type : ℕ → Result (Method × MessageClass)
decode_type msg_type =
    let number =
      bit_or (bit_or (bit_and msg_type 0x3E00 / 2 ^ 2) (bit_and msg_type 0x00E0 / 2))
        (bit_and msg_type 0x000F) in
    let class = decode_class (bit_and (msg_type / 2 ^ 8) 0x1) (bit_and (msg_type / 2 ^ 4) 0x1) in
    decode_method number >>= λ method. ok (method, class)
