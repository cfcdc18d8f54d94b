-- ===== src/TurnServer/Errors.antt =====
-- The error replies of rust/core/src/relay/turn_server.rs as the client of
-- rust/core/src/relay/turn.rs reads them.
use localsend_rs.Base.{
  ℕ, ◌+◌, ◌/◌, ◌%◌, ◌<◌, ◌≡◌, refl, bit_and, Bool, true, some, List, [], append-nil, nat_beq,
  nat_beq_iff, length, arith,
}
use localsend_rs.Base.Bytes.{true_upto, true_upto_lem}
use localsend_rs.Stun.Types.{MessageClass, ok}
use localsend_rs.Stun.Codec.{Incoming, decode, attrs_len}
use localsend_rs.Stun.Fields.{error_code}
use localsend_rs.Stun.Parts.{padding-lt}
use localsend_rs.Stun.RoundTrip.{decode-encode}
use localsend_rs.TurnServer.State.{Crypto}
use localsend_rs.TurnServer.Replies.{error_resp, error_message}

kept : ℕ → Bool
kept class = nat_beq (bit_and class 0x07) class

kept_table : true_upto kept 8 ≡ true
unfolding true_upto kept
kept_table = refl

class_kept : (class : ℕ) → class < 8 → bit_and class 0x07 ≡ class
unfolding kept
class_kept class h =
    (nat_beq_iff (bit_and class 0x07) class).0 (true_upto_lem kept 8 kept_table class h)

-- What the reader finds in an error reply: the request's method and transaction id, and the
-- error as a class and a number below 100.
pub record ErrorReply (crypto : Crypto) (req : Incoming) (number : ℕ) (reason : List ℕ)
    (m : Incoming) : Type 0 where
  pub method : m.method ≡ req.method
  pub class : m.class ≡ MessageClass.error_response
  pub tid : m.tid ≡ req.tid
  pub error :
      error_code crypto.utf8_lossy m ≡ some (number / 100, number % 100, crypto.utf8_lossy reason)

byte : (n : ℕ) → n < 256 → n % 256 ≡ n
byte n h = omega arith

body_short :
    (crypto : Crypto) (req : Incoming) (number : ℕ) (reason : List ℕ)
    → length reason < 65000
    → attrs_len (error_message req number reason).attrs < 65536
unfolding error_message attrs_len
body_short crypto req number reason short = omega (arith, padding-lt (length reason + 4))

-- An error reply with a number below 800 decodes, and the reader finds the request's method and
-- transaction id, the number and the reason in it. The transaction id has 12 bytes and the reason
-- is shorter than 65000 bytes.
pub decode-error_resp :
    (crypto : Crypto) (req : Incoming) (number : ℕ) (reason : List ℕ)
    → length req.tid ≡ 12
    → number < 800
    → length reason < 65000
    → (m : Incoming) × (decode (error_resp crypto req number reason) ≡ ok m)
      × ErrorReply crypto req number reason m
unfolding error_resp error_message error_code
decode-error_resp crypto req number reason twelve small short =
    let m = error_message req number reason in
    (
      record { method = m.method; class = m.class; tid = m.tid; attrs = m.attrs },
      rw (append-nil) at (
          decode-encode crypto.hmac_sha1 m [] twelve
            (record { number = omega arith; size = omega arith }, tt)
            (body_short crypto req number reason short)),
      record {
        method = refl;
        class = refl;
        tid = refl;
        error =
            rw
              (
                byte (number / 100) (omega arith),
                byte (number % 100) (omega arith),
                class_kept (number / 100) (omega arith),
              )
              refl;
      },
    )
