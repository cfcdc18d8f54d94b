-- ===== src/Server/Serving.antt =====
-- Which connections the server serves.
use localsend_rs.Base.{
  ℕ, zero, suc, subst, ap, inl, inr, ◌≤◌, ◌≡◌, ◌⊎◌, refl, Bool, true, false, not, Bool-cases, ◌&&◌,
  arith, none, some, List, [], ◌∷◌, Option, length, if◌then◌else◌,
}
use localsend_rs.Server.Listener.{
  Handshake, Incoming, arrived, silent, failed, Conn, Accepted, is_tls, accept, serve,
}

-- How one connection is served, if it is: over TLS when the server has a certificate and the
-- first byte is that of a handshake, which then has to succeed, and else in plain text.
unfoldable pub served_as : Bool → Incoming → Option Conn
unfolding is_tls
served_as acceptor failed = none
served_as acceptor silent = none
served_as false (arrived peeked handshake addr) = some (Conn.plain addr)
served_as true (arrived peeked handshake addr) =
    if not (is_tls peeked)
    then some (Conn.plain addr)
    else elim handshake [ Handshake.succeeds ↦ some (Conn.tls addr) | _ ↦ none ]

unfoldable pub served : Bool → List Incoming → List Conn
unfolding served_as
served acceptor [] = []
served acceptor (i ∷ is) = elim (served_as acceptor i) [
  | none ↦ served acceptor is
  | some conn ↦ conn ∷ served acceptor is
]

-- The client keeps `accept` waiting: it sends nothing, or it begins a handshake and stops.
unfoldable pub blocks : Bool → Incoming → Bool
unfolding is_tls
blocks acceptor silent = true
blocks acceptor failed = false
blocks acceptor (arrived peeked Handshake.stalls addr) = acceptor && is_tls peeked
blocks acceptor (arrived peeked Handshake.succeeds addr) = false
blocks acceptor (arrived peeked Handshake.fails addr) = false

-- The connections before the first one that does.
unfoldable pub reached : Bool → List Incoming → List Incoming
unfolding blocks
reached acceptor [] = []
reached acceptor (i ∷ is) =
    let rest = reached acceptor is in if blocks acceptor i then [] else i ∷ rest

-- What a call of `accept` leaves to serve.
unfoldable Leaves : Bool → List Incoming → Accepted → Type 0
Leaves acceptor incoming Accepted.idle = served acceptor (reached acceptor incoming) ≡ []
Leaves acceptor incoming Accepted.blocked = served acceptor (reached acceptor incoming) ≡ []
Leaves acceptor incoming (Accepted.handed conn rest) =
    (served acceptor (reached acceptor incoming) ≡ conn ∷ served acceptor (reached acceptor rest))
    × (suc (length rest) ≤ length incoming)

accept-Leaves :
    (acceptor : Bool) (incoming : List Incoming)
    → Leaves acceptor incoming (accept acceptor incoming)
unfolding accept served served_as reached blocks Leaves
accept-Leaves acceptor [] = refl
accept-Leaves acceptor (silent ∷ rest) = refl
accept-Leaves acceptor (failed ∷ rest) = ground (arith, accept-Leaves acceptor rest)
accept-Leaves false (arrived peeked Handshake.succeeds addr ∷ rest) =
    elim (Bool-cases (is_tls peeked)) [
      | inl e ↦ ground (arith, e, accept-Leaves false rest)
      | inr e ↦ ground (arith, e, accept-Leaves false rest)
    ]
accept-Leaves false (arrived peeked Handshake.fails addr ∷ rest) =
    elim (Bool-cases (is_tls peeked)) [
      | inl e ↦ ground (arith, e, accept-Leaves false rest)
      | inr e ↦ ground (arith, e, accept-Leaves false rest)
    ]
accept-Leaves false (arrived peeked Handshake.stalls addr ∷ rest) =
    elim (Bool-cases (is_tls peeked)) [
      | inl e ↦ ground (arith, e, accept-Leaves false rest)
      | inr e ↦ ground (arith, e, accept-Leaves false rest)
    ]
accept-Leaves true (arrived peeked Handshake.succeeds addr ∷ rest) =
    elim (Bool-cases (is_tls peeked)) [
      | inl e ↦ ground (arith, e, accept-Leaves true rest)
      | inr e ↦ ground (arith, e, accept-Leaves true rest)
    ]
accept-Leaves true (arrived peeked Handshake.fails addr ∷ rest) =
    elim (Bool-cases (is_tls peeked)) [
      | inl e ↦ ground (arith, e, accept-Leaves true rest)
      | inr e ↦ ground (arith, e, accept-Leaves true rest)
    ]
accept-Leaves true (arrived peeked Handshake.stalls addr ∷ rest) =
    elim (Bool-cases (is_tls peeked)) [
      | inl e ↦ ground (arith, e, accept-Leaves true rest)
      | inr e ↦ ground (arith, e, accept-Leaves true rest)
    ]

Accepted-cases :
    (r : Accepted)
    → (r ≡ Accepted.idle)
      ⊎ ((r ≡ Accepted.blocked)
          ⊎ ((conn : Conn) × (rest : List Incoming) × (r ≡ Accepted.handed conn rest)))
Accepted-cases Accepted.idle = inl refl
Accepted-cases Accepted.blocked = inr (inl refl)
Accepted-cases (Accepted.handed conn rest) = inr (inr (conn, rest, refl))

-- The server serves the connections that can be served, in the order of arrival, up to the first
-- client that sends nothing or does not go on with its handshake, and none after it; no failed
-- accept and no failed handshake keeps the later ones from it. As many calls of `accept` as
-- connections are enough.
pub serve-served :
    (acceptor : Bool) (calls : ℕ) (incoming : List Incoming)
    → length incoming ≤ calls
    → serve acceptor calls incoming ≡ served acceptor (reached acceptor incoming)
unfolding serve Leaves
serve-served acceptor zero [] enough = unfold served reached in refl
serve-served acceptor zero (i ∷ is) enough = absurd (omega arith)
serve-served acceptor (suc calls) incoming enough =
    let left = accept-Leaves acceptor incoming in
    elim (Accepted-cases (accept acceptor incoming)) [
      | inl e ↦
          let empty : served acceptor (reached acceptor incoming) ≡ [] =
            unfold Leaves in subst (Leaves acceptor incoming) e left in
          ground (arith, e, empty)
      | inr (inl e) ↦
          let empty : served acceptor (reached acceptor incoming) ≡ [] =
            unfold Leaves in subst (Leaves acceptor incoming) e left in
          ground (arith, e, empty)
      | inr (inr (conn, rest, e)) ↦
          let (same, shorter) : Leaves acceptor incoming (Accepted.handed conn rest) =
            subst (Leaves acceptor incoming) e left in
          rw (e, serve, same) (ap (λ l. conn ∷ l) (serve-served acceptor calls rest (omega arith)))
    ]
