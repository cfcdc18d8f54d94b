-- ===== src/Credentials/Examples.antt =====
-- Generated credentials at concrete times. The stand-ins for the crates print their input modulo
-- 256, which is enough to run the code.
use localsend_rs.Base.{ℕ, ◌%◌, ◌≡◌, refl, true, [], ◌∷◌, none, map, All, arith}
use localsend_rs.Base.Bytes.{IsByte}
use localsend_rs.TurnServer.State.{ascii}
use localsend_rs.DiscoveryServer.Registry.{Crates, Text, verify}
use localsend_rs.Credentials.{generate_credentials}
use localsend_rs.Credentials.Accepted.{verify-generate_credentials}

abbrev low_byte : ℕ → ℕ
low_byte b = b % 256

abbrev crates : Crates
crates = record {
  from_json = λ body. none;
  to_json = λ entries. [];
  hmac_sha1 = λ secret text. text;
  base64_encode = map low_byte;
}

prints : (mac : Text) → All IsByte (map low_byte mac)
prints [] = tt
prints (b ∷ bs) = (omega arith, prints bs)

username : (generate_credentials crates [] 1731242457 (ascii "desk")).0 ≡ ascii "1731242457:desk"
unfolding generate_credentials
username = refl

verify-generate_credentials_example :
    verify crates 1731242456 []
      (generate_credentials crates [] 1731242457 (ascii "desk")).0
      (generate_credentials crates [] 1731242457 (ascii "desk")).1
    ≡ true
verify-generate_credentials_example =
    verify-generate_credentials crates [] (ascii "desk") 1731242457 1731242456 prints (omega arith)
