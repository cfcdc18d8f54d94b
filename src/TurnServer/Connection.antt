-- ===== src/TurnServer/Connection.antt =====
-- The loop of `handle_client` in rust/core/src/relay/turn_server.rs over the packets of one STUN
-- connection. A packet is what one read gives. A write that fails is not modelled: it ends the
-- connection.
use localsend_rs.Base.{ℕ, none, List, [], ◌∷◌, ltb}
use localsend_rs.HashMap.{retain}
use localsend_rs.Stun.Types.{Method, MessageClass, Result, ok, err, panic, stuck, ◌>>=◌}
use localsend_rs.Stun.Codec.{Incoming, decode}
use localsend_rs.Stun.Fields.{SocketAddr}
use localsend_rs.TurnServer.State.{Crypto, TurnServerConfig, Allocation, Session, Pending, Env}
use localsend_rs.TurnServer.Replies.{binding_resp}
use localsend_rs.TurnServer.Allocations.{allocate, refresh, permission}
use localsend_rs.TurnServer.Connecting.{Bind, connect, connection_bind}

pub record State : Type 0 where
  pub session : Session
  pub pending : Pending

-- What one packet leads to: nothing, a reply, or the end of the loop in a bind.
pub data Outcome : Type 0 where
  skipped : Outcome
  replied : List ℕ → Outcome
  bound : Bind → Outcome

unfoldable pub prune : ℕ → Session → Session
prune now session = record session {
  allocations = retain (λ port (a : Allocation). ltb now a.deadline) session.allocations;
}

-- The session after a handler that leaves `PENDING` alone.
unfoldable pub answered : State → Session × List ℕ → State × Outcome
answered st (session, resp) = (record st { session = session }, Outcome.replied resp)

unfoldable pub connect_answered : (Session × Pending) × List ℕ → State × Outcome
connect_answered ((session, pending), resp) =
    (record { session = session; pending = pending }, Outcome.replied resp)

unfoldable pub bind_answered : State → Pending × Bind → State × Outcome
bind_answered st (pending, bind) = (record st { pending = pending }, Outcome.bound bind)

-- How the loop goes on after a round that began in `st`: a packet that does not decode, a bind and
-- a panic of the task end it.
unfoldable pub after : (State → State) → State → Result (State × Outcome) → State
after rest st (ok (next, Outcome.skipped)) = rest next
after rest st (ok (next, Outcome.replied resp)) = rest next
after rest st (ok (next, Outcome.bound bind)) = next
after rest st (err e) = st
after rest st panic = st
after rest st stuck = st

module _ (crypto : Crypto) (cfg : TurnServerConfig) (peer : SocketAddr) where
  -- A request of the given method.
  unfoldable pub handle_request :
      Method → Env → List ℕ → Incoming → State → Result (State × Outcome)
  unfolding answered connect_answered bind_answered
  handle_request Method.binding env raw msg st =
      ok (answered st (st.session, binding_resp crypto peer msg))
  handle_request Method.allocate env raw msg st = do
    r ← allocate crypto cfg env raw msg st.session
    ok (answered st r)
  handle_request Method.refresh env raw msg st = do
    r ← refresh crypto cfg env raw msg st.session
    ok (answered st r)
  handle_request Method.create_permission env raw msg st = do
    r ← permission crypto cfg env raw msg st.session
    ok (answered st r)
  handle_request Method.connect env raw msg st =
      ok (connect_answered (connect crypto cfg env msg st.session st.pending))
  handle_request Method.connection_bind env raw msg st =
      ok (bind_answered st (connection_bind crypto msg st.pending))

  unfoldable pub handle_message : Env → List ℕ → Incoming → State → Result (State × Outcome)
  unfolding handle_request
  handle_message env raw msg st = elim msg.class [
    | MessageClass.request ↦ handle_request msg.method env raw msg st
    | MessageClass.indication ↦ ok (st, Outcome.skipped)
    | MessageClass.success_response ↦ ok (st, Outcome.skipped)
    | MessageClass.error_response ↦ ok (st, Outcome.skipped)
  ]

  -- One round of the loop. Expired allocations are dropped before the packet is waited for.
  unfoldable pub handle_packet : Env → List ℕ → State → Result (State × Outcome)
  unfolding handle_message prune decode
  handle_packet env raw st = do
    msg ← decode raw
    handle_message env raw msg (record st { session = prune env.round_start st.session })

  unfoldable pub handle_client : List (Env × List ℕ) → State → State
  unfolding handle_packet after
  handle_client [] st = st
  handle_client ((env, raw) ∷ packets) st =
      after (handle_client packets) st (handle_packet env raw st)

-- The state of a new connection.
unfoldable pub fresh : List ℕ → Pending → State
fresh nonce pending = record {
  session = record { nonce = nonce; username = none; allocations = []; dialed = [] };
  pending = pending;
}
