-- ===== src/TurnServer/Binding.antt =====
-- From Connect to ConnectionBind in rust/core/src/relay/turn_server.rs.
use localsend_rs.Base.{ℕ, ◌≡◌, refl, ap, ◌≢◌, true, none, some, ==_refl, ==_iff, nat_eq, arith}
use localsend_rs.HashMap.{get, insert, remove}
use localsend_rs.HashMap.Laws.{get-insert, get-remove}
use localsend_rs.Stun.Types.{Method, Attr}
use localsend_rs.Stun.Codec.{Incoming}
use localsend_rs.Stun.Fields.{Ipv4Addr, v4, xor_address, connection_id}
use localsend_rs.TurnServer.State.{Crypto, TurnServerConfig, Session, Pending, Env, ascii}
use localsend_rs.TurnServer.Replies.{error_resp, connect_resp, success}
use localsend_rs.TurnServer.Connecting.{
  permitted, connect, dial_peer, dialing, connected, conn_id_of, connection_bind, Bind,
}

-- What the binds `first` and `second` to the connection id `id` give.
pub record BoundOnce (crypto : Crypto) (pending : Pending) (id stream : ℕ) (first second : Incoming)
    : Type 0 where
  pub pipe :
      (connection_bind crypto first pending).1
      ≡ Bind.spliced (success crypto Method.connection_bind first) stream
  pub again :
      (connection_bind crypto second (connection_bind crypto first pending).0).1
      ≡ Bind.refused (error_resp crypto second 437 (ascii "allocation mismatch"))
  pub others :
      (other : ℕ)
      → other ≢ id
      → get other (connection_bind crypto first pending).0 ≡ get other pending

bind_parked :
    (crypto : Crypto) (pending : Pending) (id stream : ℕ) (msg : Incoming)
    → connection_id msg ≡ some id
    → get id pending ≡ some stream
    → connection_bind crypto msg pending
      ≡ (remove id pending, Bind.spliced (success crypto Method.connection_bind msg) stream)
unfolding connection_bind
bind_parked crypto pending id stream msg e parked = simp (e, connection_bind, parked) refl

bind_missing :
    (crypto : Crypto) (pending : Pending) (id : ℕ) (msg : Incoming)
    → connection_id msg ≡ some id
    → get id pending ≡ none
    → (connection_bind crypto msg pending).1
      ≡ Bind.refused (error_resp crypto msg 437 (ascii "allocation mismatch"))
unfolding connection_bind
bind_missing crypto pending id msg e missing = simp (e, connection_bind, missing) refl

connect_dialled :
    (crypto : Crypto) (cfg : TurnServerConfig) (env : Env) (msg : Incoming) (ip : Ipv4Addr)
    (port stream : ℕ) (session : Session) (pending : Pending)
    → xor_address Attr.xor_peer_address msg ≡ some (v4 ip port)
    → permitted ip session ≡ true
    → env.dial (v4 ip port) ≡ some stream
    → connect crypto cfg env msg session pending ≡ (
      (
        connected cfg env (conn_id_of env) (dialing (v4 ip port) session),
        insert (conn_id_of env) stream pending,
      ),
      connect_resp crypto (conn_id_of env) msg,
    )
unfolding connect dial_peer
connect_dialled crypto cfg env msg ip port stream session pending peer allowed dialled =
    simp (peer, connect, allowed, dialled, dial_peer) refl

module _ (crypto : Crypto) where
  -- A bind to a parked socket is joined to that socket and leaves the other parked sockets alone,
  -- and a second bind to the same connection id is refused with error 437.
  pub connection_bind-BoundOnce :
      (pending : Pending) (id stream : ℕ) (first second : Incoming)
      → connection_id first ≡ some id
      → connection_id second ≡ some id
      → get id pending ≡ some stream
      → BoundOnce crypto pending id stream first second
  unfolding connection_bind
  connection_bind-BoundOnce pending id stream first second e1 e2 parked = record {
    pipe = ap (λ r. r.1) (bind_parked crypto pending id stream first e1 parked);
    again = rw (bind_parked crypto pending id stream first e1 parked) (
        bind_missing crypto (remove id pending) id second e2
          (rw (get-remove id id pending, ==_refl id) refl));
    others = λ other differs.
        rw (bind_parked crypto pending id stream first e1 parked)
          (ground (arith, get-remove id other pending, ==_iff id other, differs));
  }

  -- After a Connect to a permitted peer that could be dialled, the reply carries the connection
  -- id, and a bind with this id on another connection is joined to the dialled socket.
  pub connection_bind-connect :
      (cfg : TurnServerConfig) (env : Env) (msg bind : Incoming) (ip : Ipv4Addr) (port stream : ℕ)
      (session : Session) (pending : Pending)
      → xor_address Attr.xor_peer_address msg ≡ some (v4 ip port)
      → permitted ip session ≡ true
      → env.dial (v4 ip port) ≡ some stream
      → connection_id bind ≡ some (conn_id_of env)
      → ((connect crypto cfg env msg session pending).1 ≡ connect_resp crypto (conn_id_of env) msg)
        × ((connection_bind crypto bind (connect crypto cfg env msg session pending).0.1).1
            ≡ Bind.spliced (success crypto Method.connection_bind bind) stream)
  connection_bind-connect cfg env msg bind ip port stream session pending peer allowed dialled e =
      let id = conn_id_of env in
      let done =
        connect_dialled crypto cfg env msg ip port stream session pending peer allowed dialled in
      (
        ap (λ r. r.1) done,
        rw (done) (
            ap (λ r. r.1)
              (bind_parked crypto (insert id stream pending) id stream bind e
                (rw (get-insert id id stream pending, ==_refl id) refl))),
      )
