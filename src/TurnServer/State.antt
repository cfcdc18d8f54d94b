-- ===== src/TurnServer/State.antt =====
-- The data of rust/core/src/relay/turn_server.rs.
--
-- Texts are byte strings. Times are numbers of seconds, and a socket to a peer is a number. An
-- `Env` is what one request gets from the outside: the clock as the loop's round begins and as
-- the request is handled, a random number, and the outcome of `TcpStream::connect`. `dialed` lists
-- the addresses that `TcpStream::connect` was called with, the latest first. A `Crypto` holds the functions of other crates that the server calls.
use localsend_rs.Base.{ℕ, ◌≡◌, ◌↔◌, Bool, true, ◌&&◌, Option, List, [], ◌∷◌, nat_beq, arith, Eq}
use Prim.Native.Char.{code}
use Prim.Native.String.{String, [] as end_of_text, ◌∷◌ as char_and}
use localsend_rs.HashMap.{HashMap}
use localsend_rs.Stun.Fields.{Ipv4Addr, SocketAddr}

pub record Crypto : Type 0 where
  pub hmac_sha1 : List ℕ → List ℕ → List ℕ
  pub md5 : List ℕ → List ℕ
  pub base64_encode : List ℕ → List ℕ
  pub utf8_lossy : List ℕ → List ℕ

pub record TurnServerConfig : Type 0 where
  pub external : Ipv4Addr
  pub realm : List ℕ
  pub secret : List ℕ
  pub lifetime : ℕ

pub record Allocation : Type 0 where
  pub permissions : List Ipv4Addr
  pub connections : List ℕ
  pub deadline : ℕ

pub record Session : Type 0 where
  pub nonce : List ℕ
  pub username : Option (List ℕ)
  pub allocations : HashMap ℕ Allocation
  pub dialed : List SocketAddr

-- `PENDING`: the sockets that wait for their ConnectionBind.
abbrev pub Pending : Type 0
Pending = HashMap ℕ ℕ

pub record Env : Type 0 where
  pub round_start : ℕ
  pub now : ℕ
  pub random : ℕ
  pub dial : SocketAddr → Option ℕ

-- `bytes()` of an ASCII text.
abbrev pub ascii : String → List ℕ
ascii end_of_text = []
ascii (char_and c s) = code c ∷ ascii s

abbrev pub ipv4_beq : Ipv4Addr → Ipv4Addr → Bool
ipv4_beq x y = nat_beq x.a y.a && nat_beq x.b y.b && nat_beq x.c y.c && nat_beq x.d y.d

pub ipv4_beq_iff : (x y : Ipv4Addr) → (ipv4_beq x y ≡ true) ↔ (x ≡ y)
ipv4_beq_iff x y = ground arith

instance abbrev pub ipv4_eq : Eq Ipv4Addr
ipv4_eq = record { test = ipv4_beq; test_path = ipv4_beq_iff }
