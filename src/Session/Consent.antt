-- ===== src/Session/Consent.antt =====
-- Who can make a waiting request hear that its session was accepted.
use mathlib.Core.List.{Memᴰ}
use localsend_rs.Base.{
  string_eq, ℕ, ◌<◌, ◌≡◌, refl, sym, ap, ◌⊎◌, inl, inr, String, Bool, true, false, ◌&&◌, List, [],
  ◌∷◌, any, arith, nat_beq, nat_beq_iff, some, none, Option, Option-cases, Bool-cases, ==_iff, ◌==◌,
  if◌then◌else◌,
}
use localsend_rs.HashMap.{HashMap, get, insert}
use localsend_rs.HashMap.Laws.{get-insert}
use localsend_rs.Model.{NodeDevice, FileInfo, MissionState, FileState}
use localsend_rs.Session.State.{Session, Message, Actor, Decision}
use localsend_rs.Session.Transitions.{
  broadcast_index, store, answer, set_state, check_finish, fail_session, cancel_session,
  settle_file, set_file_state,
}
use localsend_rs.Session.Create.{handle_create_recv, handle_create_send}
use localsend_rs.Session.Decide.{
  handle_accept, handle_decline, is_decidable, accepted_ids, accepted_tokens, accepted_session,
}
use localsend_rs.Session.Actor.{
  handle_mark_via_relay, handle_mark_route, handle_start_file, handle_finish_file, file_of_token,
  handle_report_progress, handle_message, run,
}
use localsend_rs.Session.Finishing.{answers-check_finish}
use localsend_rs.Session.Move.{
  Move, keep, write, open_session, receiving, sending, Sent, nothing, nobody, decided,
  Moves-induction,
}
use localsend_rs.Session.Move.Messages.{handle_message-Moves}

abbrev pub is_accepted : Decision → Bool
is_accepted (Decision.accepted files) = true
is_accepted Decision.declined = false
is_accepted Decision.canceled = false

-- An acceptance was sent on channel `c`.
abbrev pub grants : ℕ → Actor → Bool
grants c a = any (λ (e : ℕ × Decision). nat_beq e.0 c && is_accepted e.1) a.answers

-- The channel `c` is given out, and only the session under `id` may hold it.
pub record HeldBy (c : ℕ) (id : String) (a : Actor) : Type 0 where
  pub given : c < a.next_channel
  pub holder : (k : String) (s : Session) → get k a.sessions ≡ some s → s.decision ≡ some c → k ≡ id

Sent-decision :
    (c : ℕ) (s t : Session) (before after : List (ℕ × Decision))
    → Sent s t before after
    → t.decision ≡ some c
    → s.decision ≡ some c
Sent-decision c s t before after (nothing same _) h = cc (same, h)
Sent-decision c s t before after (nobody _ gone _) h = cc (gone, h)
Sent-decision c s t before after (decided k d _ gone _) h = cc (gone, h)

-- The holders after a write under `j`, when what is written holds `c` only if `j` is `id`.
pub insert-holder :
    (c : ℕ) (id j : String) (t : Session) (a b : Actor)
    → b.sessions ≡ insert j t a.sessions
    → (t.decision ≡ some c → j ≡ id)
    → ((k : String) (s : Session) → get k a.sessions ≡ some s → s.decision ≡ some c → k ≡ id)
    → (k : String) (s : Session) → get k b.sessions ≡ some s
    → s.decision ≡ some c
    → k ≡ id
insert-holder c id j t a b u here old k s g held = elim (Bool-cases (j == k)) [
  | inl same ↦ cc ((==_iff j k).0 same, here (cc (g, found, same, held)))
  | inr other ↦ old k s (cc (g, found, other)) held
]
  where
    found : get k b.sessions ≡ (if j == k then some t else get k a.sessions)
    found = rw u (get-insert j k t a.sessions)

Move-HeldBy :
    (new_v4 : ℕ → String) (c : ℕ) (id : String) (a b : Actor)
    → Move new_v4 a b
    → HeldBy c id a
    → HeldBy c id b
Move-HeldBy new_v4 c id a b (keep e _ _ n _) h = record {
  given = rw n h.given;
  holder = rw e h.holder;
}
Move-HeldBy new_v4 c id a b (write j s t g _ sent u _ n _) h = record {
  given = rw n h.given;
  holder =
      insert-holder c id j t a b u
        (λ d. h.holder j s g (Sent-decision c s t a.answers b.answers sent d)) h.holder;
}
Move-HeldBy new_v4 c id a b (open_session s _ _ (receiving taken _) u _ _ _) h = record {
  given = ground (arith, h.given);
  holder =
      insert-holder c id (new_v4 a.minted) s a b u (λ d. ground (arith, h.given, taken, d))
        h.holder;
}
Move-HeldBy new_v4 c id a b (open_session s _ _ (sending free _) u _ _ _) h = record {
  given = h.given;
  holder = insert-holder c id (new_v4 a.minted) s a b u (λ d. cc (free, d)) h.holder;
}

-- An answer other than an acceptance.
answer-grants :
    (c : ℕ) (o : Option ℕ) (d : Decision) (a : Actor)
    → is_accepted d ≡ false
    → grants c (answer o d a) ≡ grants c a
unfolding answer
answer-grants c o d a h = ground arith

check_finish-grants : (c : ℕ) (id : String) (a : Actor) → grants c (check_finish id a) ≡ grants c a
check_finish-grants c id a = rw (answers-check_finish id a)

set_state-grants :
    (c : ℕ) (id : String) (state : MissionState) (a : Actor)
    → grants c (set_state id state a) ≡ grants c a
unfolding set_state broadcast_index store
set_state-grants c id state a = ground arith

cancel_session-grants :
    (c : ℕ) (id : String) (a : Actor) → grants c (cancel_session id a) ≡ grants c a
unfolding cancel_session broadcast_index store answer
cancel_session-grants c id a = ground arith

fail_session-grants :
    (c : ℕ) (id reason : String) (a : Actor) → grants c (fail_session id reason a) ≡ grants c a
unfolding fail_session broadcast_index store answer
fail_session-grants c id reason a = ground arith

settle_file-grants :
    (c : ℕ) (id : String) (state : FileState) (a : Actor)
    → grants c (settle_file id state a) ≡ grants c a
unfolding settle_file broadcast_index
settle_file-grants c id (FileState.fail msg) a = fail_session-grants c id msg a
settle_file-grants c id FileState.pending a = check_finish-grants c id a
settle_file-grants c id FileState.transfer a = check_finish-grants c id a
settle_file-grants c id FileState.finish a = check_finish-grants c id a
settle_file-grants c id FileState.skip a = check_finish-grants c id a

set_file_state-grants :
    (c : ℕ) (id fid : String) (state : FileState) (a : Actor)
    → grants c (set_file_state id fid state a) ≡ grants c a
unfolding set_file_state broadcast_index store
set_file_state-grants c id fid state a =
    ground (arith, check_finish-grants c id a, settle_file-grants c id state)

handle_decline-grants :
    (c : ℕ) (id : String) (a : Actor) → grants c (handle_decline id a).0 ≡ grants c a
unfolding handle_decline broadcast_index store answer
handle_decline-grants c id a = ground arith

-- The messages that write labels, events or files, and those that make sessions.
quiet-grants :
    (new_v4 : ℕ → String) (c : ℕ) (a : Actor)
    → ((id token : String) → grants c (handle_start_file id token a).0 ≡ grants c a)
      × ((id : String) → grants c (handle_mark_via_relay id a) ≡ grants c a)
      × ((id route : String) → grants c (handle_mark_route id route a) ≡ grants c a)
      × ((id fid : String) (n : ℕ) → grants c (handle_report_progress id fid n a) ≡ grants c a)
unfolding handle_start_file handle_mark_via_relay handle_mark_route handle_report_progress
    broadcast_index store
quiet-grants new_v4 c a = (
  λ id token. ground arith,
  λ id. ground arith,
  λ id route. ground arith,
  λ id fid n. ground arith,
)

create-grants :
    (new_v4 : ℕ → String) (c : ℕ) (sender : NodeDevice) (files : HashMap String FileInfo)
    (sent : List (String × FileInfo)) (a : Actor)
    → (grants c (handle_create_recv new_v4 sender files a).0 ≡ grants c a)
      × (grants c (handle_create_send new_v4 sender sent a).0 ≡ grants c a)
unfolding handle_create_recv handle_create_send broadcast_index store
create-grants new_v4 c sender files sent a = (ground arith, refl)

handle_finish_file-grants :
    (c : ℕ) (id token : String) (state : FileState) (a : Actor)
    → grants c (handle_finish_file id token state a) ≡ grants c a
unfolding handle_finish_file
handle_finish_file-grants c id token state a = elim (Option-cases (file_of_token id token a)) [
  | inl e ↦ rw (e, handle_finish_file)
  | inr (fid, e) ↦ rw (e, handle_finish_file) (set_file_state-grants c id fid state a)
]

answer-granted :
    (c : ℕ) (o : Option ℕ) (files : HashMap String String) (a : Actor)
    → grants c (answer o (Decision.accepted files) a) ≡ true
    → (grants c a ≡ true) ⊎ (o ≡ some c)
unfolding answer
answer-granted c none files a h = inl h
answer-granted c (some k) files a h = elim (Bool-cases (nat_beq k c)) [
  | inl same ↦ inr (ap some ((nat_beq_iff k c).0 same))
  | inr other ↦ inl (ground (arith, other))
]

-- An acceptance sends on the channel of the session that it names.
handle_accept-grants :
    (c : ℕ) (id : String) (ids : Option (List String)) (a : Actor)
    → grants c (handle_accept id ids a).0 ≡ true
    → (grants c a ≡ true) ⊎ ((s : Session) × (get id a.sessions ≡ some s) × (s.decision ≡ some c))
unfolding handle_accept broadcast_index store
handle_accept-grants c id ids a h = elim (Option-cases (get id a.sessions)) [
  | inl e ↦
      inl (ground (arith, rw (e, handle_accept) at h, answers-check_finish id (broadcast_index a)))
  | inr (s, e) ↦ elim (Bool-cases (is_decidable s)) [
    | inr closed ↦ inl (
        ground
          (arith, rw (e, handle_accept, closed) at h, answers-check_finish id (broadcast_index a)))
    | inl waiting ↦
        let acc = accepted_ids ids s.files in
        let files = accepted_tokens acc s.files in
        let b = store id (accepted_session acc s) a in
        let sent : grants c (answer s.decision (Decision.accepted files) b) ≡ true =
          rw
            (
              e,
              handle_accept,
              waiting,
              answers-check_finish id
                  (broadcast_index (answer s.decision (Decision.accepted files) b)),
            )
            at h in
        elim (answer-granted c s.decision files b sent) [
          | inl before ↦ inl before
          | inr held ↦ inr (s, e, held)
        ]
  ]
]

-- Any other message leaves the acceptances as they are.
handle_message-grants :
    (new_v4 : ℕ → String) (c : ℕ) (msg : Message) (id : String) (a : Actor)
    → HeldBy c id a
    → grants c a ≡ false
    → grants c (handle_message new_v4 msg a).0 ≡ true
    → (ids : Option (List String)) × (msg ≡ Message.accept id ids)
unfolding handle_message
handle_message-grants new_v4 c (Message.accept j ids) id a h before after =
    elim (handle_accept-grants c j ids a after) [
      | inl already ↦ cc (before, already)
      | inr (s, g, held) ↦ (ids, ap (λ k. Message.accept k ids) (h.holder j s g held))
    ]
handle_message-grants new_v4 c (Message.create_recv_session sender files) id a h before after =
    cc (before, after, (create-grants new_v4 c sender files [] a).0)
handle_message-grants new_v4 c (Message.create_send_session target files) id a h before after =
    cc (before, after, (create-grants new_v4 c target [] files a).1)
handle_message-grants new_v4 c (Message.decline j) id a h before after =
    cc (before, after, handle_decline-grants c j a)
handle_message-grants new_v4 c (Message.cancel j) id a h before after =
    cc (before, after, cancel_session-grants c j a)
handle_message-grants new_v4 c (Message.mark_via_relay j) id a h before after =
    cc (before, after, (quiet-grants new_v4 c a).1 j)
handle_message-grants new_v4 c (Message.mark_route j route) id a h before after =
    cc (before, after, (quiet-grants new_v4 c a).2 j route)
handle_message-grants new_v4 c (Message.start_file j token) id a h before after =
    cc (before, after, (quiet-grants new_v4 c a).0 j token)
handle_message-grants new_v4 c (Message.finish_file j token state) id a h before after =
    cc (before, after, handle_finish_file-grants c j token state a)
handle_message-grants new_v4 c (Message.report_progress j fid n) id a h before after =
    cc (before, after, (quiet-grants new_v4 c a).3 j fid n)
handle_message-grants new_v4 c (Message.report_file_state j fid state) id a h before after =
    cc (before, after, set_file_state-grants c j fid state a)
handle_message-grants new_v4 c (Message.report_state j state) id a h before after =
    cc (before, after, set_state-grants c j state a)
handle_message-grants new_v4 c (Message.fail j reason) id a h before after =
    cc (before, after, fail_session-grants c j reason a)
handle_message-grants new_v4 c (Message.session_events j) id a h before after = cc (before, after)
handle_message-grants new_v4 c (Message.cancel_token j) id a h before after = cc (before, after)
handle_message-grants new_v4 c (Message.get_session j) id a h before after = cc (before, after)
handle_message-grants new_v4 c Message.listen_index id a h before after = cc (before, after)

-- While only the session under `id` may hold the channel, an acceptance is sent on it only if
-- one of the messages is an `Accept` of that session.
pub run-grants :
    (new_v4 : ℕ → String) (c : ℕ) (id : String) (msgs : List Message) (a : Actor)
    → HeldBy c id a
    → grants c a ≡ false
    → grants c (run new_v4 msgs a) ≡ true
    → (ids : Option (List String)) × Memᴰ (Message.accept id ids) msgs
unfolding run
run-grants new_v4 c id [] a h before after = cc (before, after)
run-grants new_v4 c id (msg ∷ msgs) a h before after =
    let b = (handle_message new_v4 msg a).0 in
    elim (Bool-cases (grants c b)) [
      | inl now ↦
          let (ids, e) = handle_message-grants new_v4 c msg id a h before now in
          (ids, Memᴰ.head (sym e))
      | inr still ↦
          let (ids, m) =
            run-grants new_v4 c id msgs b
              (Moves-induction (HeldBy c id) (Move-HeldBy new_v4 c id)
                (handle_message-Moves new_v4 msg a) h)
              still after in
          (ids, Memᴰ.tail m)
    ]
