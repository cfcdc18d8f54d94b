-- ===== src/TurnServer/Rounds.antt =====
-- The permissions of a TURN connection, packet by packet: the loop of `handle_client` in
-- rust/core/src/relay/turn_server.rs.
use localsend_rs.Base.{ℕ, ◌≡◌, refl, ◌⊎◌, inl, inr, true, List, [], ◌∷◌, nat_eq}
use localsend_rs.Stun.Types.{Method, MessageClass, Result, ok, err, panic, stuck}
use localsend_rs.Stun.Ensures.{Ensures, Ensures-bind, Ensures-then, Ensures-weaken}
use localsend_rs.Stun.Codec.{Incoming, decode}
use localsend_rs.Stun.Fields.{Ipv4Addr, SocketAddr}
use localsend_rs.TurnServer.State.{Crypto, TurnServerConfig, Env, ipv4_eq}
use localsend_rs.TurnServer.Allocations.{allocate, refresh, permission}
use localsend_rs.TurnServer.Connecting.{permitted}
use localsend_rs.TurnServer.Connection.{
  State, Outcome, prune, handle_packet, handle_client, handle_request, handle_message, answered,
  connect_answered, bind_answered, after,
}
use localsend_rs.TurnServer.Permissions.{
  allocate-OnlyOld, refresh-OnlyOld, permission-Asked, connect-permitted, permitted-prune, OnlyOld,
  Asked, Grants, Granted,
}

module _ (crypto : Crypto) (cfg : TurnServerConfig) (ip : Ipv4Addr) (source : SocketAddr) where
  -- After one packet, `ip` is permitted only if it was, or if the packet grants it.
  Justified : Env × List ℕ → State → State × Outcome → Type 0
  Justified packet st (next, outcome) =
      permitted ip next.session ≡ true
      → (permitted ip st.session ≡ true) ⊎ Grants crypto cfg ip packet

  handle_request-Justified :
      (env : Env) (raw : List ℕ) (msg : Incoming) (st : State)
      → decode raw ≡ ok msg
      → msg.class ≡ MessageClass.request
      → (m : Method) → msg.method ≡ m
      → Ensures (Justified (env, raw) st) (handle_request crypto cfg source m env raw msg st)
  unfolding handle_request Ensures Justified OnlyOld Asked answered connect_answered bind_answered
  handle_request-Justified env raw msg st d c Method.binding e = λ h. inl h
  handle_request-Justified env raw msg st d c Method.allocate e =
      Ensures-then (OnlyOld crypto cfg ip st.session) _ (allocate crypto cfg env raw msg st.session)
        _ (allocate-OnlyOld crypto cfg ip env raw msg st.session) λ r old h. inl (old h)
  handle_request-Justified env raw msg st d c Method.refresh e =
      Ensures-then (OnlyOld crypto cfg ip st.session) _ (refresh crypto cfg env raw msg st.session)
        _ (refresh-OnlyOld crypto cfg ip env raw msg st.session) λ r old h. inl (old h)
  handle_request-Justified env raw msg st d c Method.create_permission e =
      Ensures-then (Asked crypto cfg ip raw msg st.session) _
        (permission crypto cfg env raw msg st.session) _
        (permission-Asked crypto cfg ip env raw msg st.session)
        λ r asked h. elim (asked h) [
          | inl old ↦ inl old
          | inr (valid, (port, peer)) ↦ inr (record {
            msg = msg;
            port = port;
            decodes = d;
            request = c;
            method = e;
            valid = valid;
            peer = peer;
          })
        ]
  handle_request-Justified env raw msg st d c Method.connect e =
      λ h. inl (connect-permitted crypto cfg ip env msg st.session st.pending h)
  handle_request-Justified env raw msg st d c Method.connection_bind e = λ h. inl h

  handle_message-Justified :
      (env : Env) (raw : List ℕ) (msg : Incoming) (class : MessageClass) (st : State)
      → decode raw ≡ ok msg
      → msg.class ≡ class
      → Ensures (Justified (env, raw) st) (handle_message crypto cfg source env raw msg st)
  unfolding handle_message Ensures Justified
  handle_message-Justified env raw msg MessageClass.request st d c =
      rw (c, handle_message) (handle_request-Justified env raw msg st d c msg.method refl)
  handle_message-Justified env raw msg MessageClass.indication st d c =
      rw (c, handle_message) (λ h. inl h)
  handle_message-Justified env raw msg MessageClass.success_response st d c =
      rw (c, handle_message) (λ h. inl h)
  handle_message-Justified env raw msg MessageClass.error_response st d c =
      rw (c, handle_message) (λ h. inl h)

  handle_packet-Justified :
      (env : Env) (raw : List ℕ) (st : State)
      → Ensures (Justified (env, raw) st) (handle_packet crypto cfg source env raw st)
  unfolding handle_packet Justified
  handle_packet-Justified env raw st = Ensures-bind _ (decode raw) _ λ msg d.
      let pruned = record st { session = prune env.round_start st.session } in
      Ensures-weaken (Justified (env, raw) pruned) _
        (handle_message crypto cfg source env raw msg pruned)
        (λ r just h. elim (just h) [
          | inl old ↦ inl (permitted-prune crypto cfg ip env.round_start st.session old)
          | inr given ↦ inr given
        ])
        (handle_message-Justified env raw msg msg.class pruned d refl)

  first :
      {packet : Env × List ℕ} {A : Type 0} (packets : List (Env × List ℕ))
      → A ⊎ Grants crypto cfg ip packet
      → A ⊎ Granted crypto cfg ip (packet ∷ packets)
  unfolding Granted
  first packets (inl old) = inl old
  first packets (inr given) = inr (inl given)

  after-Granted :
      (packet : Env × List ℕ) (packets : List (Env × List ℕ)) (rest : State → State) (st : State)
      (r : Result (State × Outcome))
      → Ensures (Justified packet st) r
      → ((s : State)
          → permitted ip (rest s).session ≡ true
          → (permitted ip s.session ≡ true) ⊎ Granted crypto cfg ip packets)
      → permitted ip (after rest st r).session ≡ true
      → (permitted ip st.session ≡ true) ⊎ Granted crypto cfg ip (packet ∷ packets)
  unfolding after Ensures Justified Granted
  after-Granted packet packets rest st (ok (next, Outcome.skipped)) just step h =
      elim (step next h) [ inr later ↦ inr (inr later) | inl now ↦ first packets (just now) ]
  after-Granted packet packets rest st (ok (next, Outcome.replied resp)) just step h =
      elim (step next h) [ inr later ↦ inr (inr later) | inl now ↦ first packets (just now) ]
  after-Granted packet packets rest st (ok (next, Outcome.bound bind)) just step h =
      first packets (just h)
  after-Granted packet packets rest st (err e) just step h = inl h
  after-Granted packet packets rest st panic just step h = inl h
  after-Granted packet packets rest st stuck just step h = inl h

  pub handle_client-grants :
      (packets : List (Env × List ℕ)) (st : State)
      → permitted ip (handle_client crypto cfg source packets st).session ≡ true
      → (permitted ip st.session ≡ true) ⊎ Granted crypto cfg ip packets
  unfolding handle_client
  handle_client-grants [] st h = inl h
  handle_client-grants ((env, raw) ∷ packets) st h =
      after-Granted (env, raw) packets (handle_client crypto cfg source packets) st _
        (handle_packet-Justified env raw st) (handle_client-grants packets) h
