-- ===== src/Server/Listener.antt =====
-- `DualProtocolListener::accept` of rust/core/src/server.rs. The connections come as a list: each
-- with the bytes that a peek of one byte finds, if it returns, and with what the TLS handshake of
-- the crate tokio_rustls would come to. Both are awaited inside the loop of `accept`.
use localsend_rs.Base.{
  ℕ, zero, suc, Bool, false, ◌&&◌, List, [], ◌∷◌, String, nat_beq, if◌then◌else◌,
}

pub data Handshake : Type 0 where
  succeeds fails stalls : Handshake

-- `silent` is a client that sends nothing and stays, so that the peek does not return.
pub data Incoming : Type 0 where
  arrived : (peeked : List ℕ) (handshake : Handshake) (addr : String) → Incoming
  silent failed : Incoming

pub data Conn : Type 0 where
  plain tls : String → Conn

-- `Ok(1) if first[0] == 0x16`
unfoldable pub is_tls : List ℕ → Bool
is_tls (b ∷ []) = nat_beq b 22
is_tls _ = false

-- How a call of `accept` ends, if it does: with a connection, and those that have not come yet;
-- it is `idle` while all that came were turned away, and `blocked` by a client that it waits for.
pub data Accepted : Type 0 where
  handed : Conn → List Incoming → Accepted
  idle blocked : Accepted

unfoldable pub accept : Bool → List Incoming → Accepted
unfolding is_tls
accept acceptor [] = Accepted.idle
accept acceptor (failed ∷ rest) = accept acceptor rest
accept acceptor (silent ∷ rest) = Accepted.blocked
accept acceptor (arrived peeked handshake addr ∷ rest) =
    let next = accept acceptor rest in
    if is_tls peeked && acceptor
    then (elim handshake [
      | Handshake.succeeds ↦ Accepted.handed (Conn.tls addr) rest
      | Handshake.fails ↦ next
      | Handshake.stalls ↦ Accepted.blocked
    ])
    else Accepted.handed (Conn.plain addr) rest

-- The connections that `axum::serve` gets by calling `accept` again and again.
unfoldable pub serve : Bool → ℕ → List Incoming → List Conn
unfolding accept
serve acceptor zero incoming = []
serve acceptor (suc calls) incoming = elim (accept acceptor incoming) [
  | Accepted.idle ↦ []
  | Accepted.blocked ↦ []
  | Accepted.handed conn rest ↦ conn ∷ serve acceptor calls rest
]
