-- ===== src/TurnServer/Permissions.antt =====
-- Who may reach which peer through the server of rust/core/src/relay/turn_server.rs.
use localsend_rs.Base.{
  ℕ, ◌++◌, ◌≡◌, refl, ap, ◌∙◌, ◌⊎◌, inl, inr, true, some, List, [], ◌∷◌, ◌==◌, ==_iff, any, arith,
  Bool-cases, Option-cases, if_elim, nat_eq,
}
use localsend_rs.HashMap.{HashMap, map_entries}
use localsend_rs.HashMap.Any.{any_value, any_value-retain, any_value-map_entries, any_value-insert}
use localsend_rs.Stun.Types.{Method, MessageClass, Attr, ok}
use localsend_rs.Stun.Ensures.{Ensures, Ensures-bind}
use localsend_rs.Stun.Codec.{Incoming, decode}
use localsend_rs.Stun.Fields.{Ipv4Addr, SocketAddr, v4, v6, xor_address}
use localsend_rs.TurnServer.State.{
  Crypto, TurnServerConfig, Allocation, Session, Pending, Env, ipv4_eq,
}
use localsend_rs.TurnServer.Auth.{verify_integrity}
use localsend_rs.TurnServer.Allocations.{
  allocate, allocated, refresh, permission, permits, permit, wants_tcp, bind_user, username_of,
}
use localsend_rs.TurnServer.Connecting.{permitted, connect, dial_peer, connected}
use localsend_rs.TurnServer.Connection.{prune}

any_append-one :
    (ip x : Ipv4Addr) (l : List Ipv4Addr)
    → any (λ p. p == ip) (l ++ x ∷ []) ≡ true
    → (any (λ p. p == ip) l ≡ true) ⊎ (x ≡ ip)
any_append-one ip x [] h = inr ((==_iff x ip).0 (ground (arith, h)))
any_append-one ip x (y ∷ l) h = ground (arith, any_append-one ip x l)

permits-permit :
    (cfg : TurnServerConfig) (env : Env) (ip x : Ipv4Addr) (a : Allocation)
    → permits ip (permit cfg env x a) ≡ true
    → (permits ip a ≡ true) ⊎ (x ≡ ip)
unfolding permits permit
permits-permit cfg env ip x a h = elim (Bool-cases (permits x a)) [
  | inl there ↦ inl (rw (permits, there) at h)
  | inr new ↦ any_append-one ip x a.permissions (rw (permits, new) at h)
]

module _ (crypto : Crypto) (cfg : TurnServerConfig) (ip : Ipv4Addr) where
  -- A packet is a CreatePermission request for `ip`, and its MAC verifies.
  pub record Grants (packet : Env × List ℕ) : Type 0 where
    pub msg : Incoming
    pub port : ℕ
    pub decodes : decode packet.1 ≡ ok msg
    pub request : msg.class ≡ MessageClass.request
    pub method : msg.method ≡ Method.create_permission
    pub valid : verify_integrity crypto cfg packet.1 msg ≡ ok true
    pub peer : xor_address Attr.xor_peer_address msg ≡ some (v4 ip port)

  -- Some packet of the list is one.
  unfoldable pub Granted : List (Env × List ℕ) → Type 0
  Granted [] = ⊥
  Granted (packet ∷ packets) = Grants packet ⊎ Granted packets

  pub permitted-prune :
      (now : ℕ) (s : Session) → permitted ip (prune now s) ≡ true → permitted ip s ≡ true
  unfolding permitted prune any_value
  permitted-prune now s h = any_value-retain (permits ip) _ s.allocations h

  permitted-allocated :
      (env : Env) (msg : Incoming) (user : List ℕ) (s : Session)
      → permitted ip (allocated cfg env msg user s) ≡ true
      → permitted ip s ≡ true
  unfolding permitted allocated any_value permits
  permitted-allocated env msg user s h = elim (any_value-insert (permits ip) _ _ s.allocations h) [
    | inl new ↦ cc new
    | inr old ↦ old
  ]

  same_permissions :
      (f : ℕ → Allocation → Allocation) (m : HashMap ℕ Allocation)
      → ((k : ℕ) (a : Allocation) → (f k a).permissions ≡ a.permissions)
      → any_value (permits ip) (map_entries f m) ≡ true
      → any_value (permits ip) m ≡ true
  unfolding permits
  same_permissions f m same h =
      elim (any_value-map_entries (permits ip) ⊥ f m (λ k a p. inl (rw (same k a) at p)) h) [
        | inl old ↦ old
        | inr never ↦ absurd never
      ]

  -- The handlers give no new permission but `permission`, and it gives one where its packet
  -- grants it.
  unfoldable pub OnlyOld : Session → Session × List ℕ → Type 0
  OnlyOld s (next, resp) = permitted ip next ≡ true → permitted ip s ≡ true

  pub allocate-OnlyOld :
      (env : Env) (raw : List ℕ) (msg : Incoming) (s : Session)
      → Ensures (OnlyOld s) (allocate crypto cfg env raw msg s)
  unfolding allocate Ensures OnlyOld
  allocate-OnlyOld env raw msg s =
      if_elim (Ensures (OnlyOld s)) (wants_tcp msg) _ _
        (λ _. Ensures-bind _ (verify_integrity crypto cfg raw msg) _ λ valid _.
          if_elim (OnlyOld s) valid _ _
            (λ _.
              if_elim (OnlyOld s) (bind_user s.username (username_of crypto msg)) _ _
                (λ _. permitted-allocated env msg (username_of crypto msg) s) (λ _ h. h))
            (λ _ h. h))
        (λ _ h. h)

  pub refresh-OnlyOld :
      (env : Env) (raw : List ℕ) (msg : Incoming) (s : Session)
      → Ensures (OnlyOld s) (refresh crypto cfg env raw msg s)
  unfolding refresh Ensures OnlyOld permitted any_value permits
  refresh-OnlyOld env raw msg s = Ensures-bind _ (verify_integrity crypto cfg raw msg) _ λ valid _.
      if_elim (OnlyOld s) valid _ _ (λ _ h. same_permissions _ s.allocations (λ k a. refl) h)
        (λ _ h. h)

  -- `ip` is permitted after `permission` only if it was, or if the request is the one that asks
  -- for it and verifies.
  unfoldable pub Asked : List ℕ → Incoming → Session → Session × List ℕ → Type 0
  Asked raw msg s (next, resp) =
      permitted ip next ≡ true
      → (permitted ip s ≡ true)
        ⊎ ((verify_integrity crypto cfg raw msg ≡ ok true)
            × ((port : ℕ) × (xor_address Attr.xor_peer_address msg ≡ some (v4 ip port))))

  permitted-permit :
      (env : Env) (x : Ipv4Addr) (s : Session)
      → any_value (permits ip) (map_entries (λ number. permit cfg env x) s.allocations) ≡ true
      → (permitted ip s ≡ true) ⊎ (x ≡ ip)
  unfolding permitted any_value
  permitted-permit env x s h =
      any_value-map_entries (permits ip) (x ≡ ip) _ s.allocations
        (λ k a. permits-permit cfg env ip x a) h

  pub permission-Asked :
      (env : Env) (raw : List ℕ) (msg : Incoming) (s : Session)
      → Ensures (Asked raw msg s) (permission crypto cfg env raw msg s)
  unfolding permission Ensures Asked permitted any_value
  permission-Asked env raw msg s =
      Ensures-bind _ (verify_integrity crypto cfg raw msg) _ λ valid verdict.
        if_elim (Asked raw msg s) valid _ _
          (λ accepted. elim (Option-cases (xor_address Attr.xor_peer_address msg)) [
            | inl nowhere ↦ rw (nowhere) (λ h. inl h)
            | inr (v6 octets port, peer) ↦ rw (peer) (λ h. inl h)
            | inr (v4 x port, peer) ↦ rw (peer) (λ h. elim (permitted-permit env x s h) [
              | inl old ↦ inl old
              | inr same ↦ inr (verdict ∙ ap ok accepted, (port, ap (λ y. some (v4 y port)) same))
            ])
          ])
          (λ _ h. inl h)

  dial_peer-permitted :
      (env : Env) (msg : Incoming) (peer : SocketAddr) (s : Session) (pending : Pending)
      → permitted ip (dial_peer crypto cfg env msg peer s pending).0.0 ≡ true
      → permitted ip s ≡ true
  unfolding dial_peer connected permitted any_value permits
  dial_peer-permitted env msg peer s pending = elim (Option-cases (env.dial peer)) [
    | inl refused ↦ rw (refused, dial_peer) (λ h. h)
    | inr (stream, dialled) ↦
        rw (dialled, dial_peer) (λ h. same_permissions _ s.allocations (λ k a. refl) h)
  ]

  pub connect-permitted :
      (env : Env) (msg : Incoming) (s : Session) (pending : Pending)
      → permitted ip (connect crypto cfg env msg s pending).0.0 ≡ true
      → permitted ip s ≡ true
  unfolding connect
  connect-permitted env msg s pending =
      elim (Option-cases (xor_address Attr.xor_peer_address msg)) [
        | inl nowhere ↦ rw (nowhere, connect) (λ h. h)
        | inr (v6 octets port, peer) ↦ rw (peer, connect) (λ h. h)
        | inr (v4 x port, peer) ↦
            rw (peer, connect)
              (if_elim
                (λ (r : (Session × Pending) × List ℕ).
                  permitted ip r.0.0 ≡ true → permitted ip s ≡ true)
                (permitted x s) _ _ (λ _. dial_peer-permitted env msg (v4 x port) s pending)
                (λ _ h. h))
      ]
