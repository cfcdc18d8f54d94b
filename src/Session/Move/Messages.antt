-- ===== src/Session/Move/Messages.antt =====
-- Every message of the session actor is a sequence of moves.
use localsend_rs.Base.{
  ℕ, String, true, Option, some, List, [], ◌∷◌, ◌≡◌, refl, inl, inr, string_eq, arith, Option-cases,
  Bool-cases, count, leb,
}
use localsend_rs.HashMap.{HashMap, get, values}
use localsend_rs.Model.{NodeDevice, FileInfo, FileState}
use localsend_rs.Session.State.{Session, FileEntry, Actor, Message, Result, ok, err, is_active}
use localsend_rs.Session.Transitions.{broadcast_index, store, check_finish}
use localsend_rs.Session.Create.{
  handle_create_recv, handle_create_send, is_active_recv, recv_session, send_session,
}
use localsend_rs.Session.Decide.{handle_accept, handle_decline, is_decidable, accepted_ids}
use localsend_rs.Session.Actor.{
  handle_message, handle_mark_via_relay, handle_mark_route, handle_start_file, handle_finish_file,
  handle_report_progress, startable_file, file_of_token, run,
}
use localsend_rs.Session.Step.{
  label-SessionStep, accepted_session-SessionStep, declined_session-SessionStep,
  file_write-SessionStep,
}
use localsend_rs.Session.Move.{
  open_session, receiving, sending, Moves, here, Moves-one, Moves-trans,
}
use localsend_rs.Session.Move.Writes.{
  broadcast_index-Move, quiet-Move, answered-Move, stored-Moves, set_state-Moves,
  check_finish-Moves, fail_session-Moves, cancel_session-Moves, set_file_state-Moves,
}

-- A session that can be decided is active.
pub is_decidable-is_active : (s : Session) → is_decidable s ≡ true → is_active s ≡ true
unfolding is_decidable is_active
is_decidable-is_active s h = ground arith

-- What `StartFile` lets through: the token's file, in an active session, not yet terminal.
pub startable_file_ok :
    (token : String) (s : Session) (fid : String) (f : FileEntry)
    → startable_file token s ≡ ok (fid, f)
    → (is_active s ≡ true) × (get token s.token_index ≡ some fid) × (get fid s.files ≡ some f)
unfolding startable_file is_active
startable_file_ok token s fid f h = ground arith

module _ (new_v4 : ℕ → String) where
  handle_create_recv-Moves :
      (sender : NodeDevice) (files : HashMap String FileInfo) (a : Actor)
      → Moves new_v4 a (handle_create_recv new_v4 sender files a).0
  unfolding handle_create_recv broadcast_index store
  handle_create_recv-Moves sender files a =
      elim (Bool-cases (leb a.max_recv_sessions (count is_active_recv (values a.sessions)))) [
        | inl full ↦ rw (full, handle_create_recv) here
        | inr room ↦
            rw (room, handle_create_recv)
              (Moves-one (
                open_session (recv_session new_v4 sender files a) refl refl
                  (receiving refl (ground arith)) refl refl refl (omega arith)))
      ]

  handle_create_send-Moves :
      (target : NodeDevice) (files : List (String × FileInfo)) (a : Actor)
      → Moves new_v4 a (handle_create_send new_v4 target files a).0
  unfolding handle_create_send broadcast_index store is_active_recv
  handle_create_send-Moves target files a = Moves-one (
      open_session (send_session new_v4 target files a) refl refl (sending refl refl) refl refl refl
        (omega arith))

  finished-Moves :
      (id : String) {a b : Actor} → Moves new_v4 a b → Moves new_v4 a (check_finish id b)
  finished-Moves id {b} ms = Moves-trans ms (check_finish-Moves id b)

  handle_accept-Moves :
      (id : String) (ids : Option (List String)) (a : Actor)
      → Moves new_v4 a (handle_accept id ids a).0
  unfolding handle_accept
  handle_accept-Moves id ids a = elim (Option-cases (get id a.sessions)) [
    | inl e ↦ rw (e, handle_accept) (finished-Moves id (Moves-one (broadcast_index-Move a)))
    | inr (s, e) ↦ elim (Bool-cases (is_decidable s)) [
      | inl waiting ↦
          rw (e, handle_accept, waiting)
            (finished-Moves id (
              Moves-one (
                answered-Move id _ _ a e
                  (accepted_session-SessionStep (accepted_ids ids s.files) s
                    (is_decidable-is_active s waiting))
                  refl)))
      | inr past ↦
          rw (e, handle_accept, past) (finished-Moves id (Moves-one (broadcast_index-Move a)))
    ]
  ]

  handle_decline-Moves : (id : String) (a : Actor) → Moves new_v4 a (handle_decline id a).0
  unfolding handle_decline
  handle_decline-Moves id a = elim (Option-cases (get id a.sessions)) [
    | inl e ↦ rw (e, handle_decline) (Moves-one (broadcast_index-Move a))
    | inr (s, e) ↦ elim (Bool-cases (is_decidable s)) [
      | inl waiting ↦
          rw (e, handle_decline, waiting)
            (Moves-one (
              answered-Move id _ _ a e
                (declined_session-SessionStep s (is_decidable-is_active s waiting)) refl))
      | inr past ↦ rw (e, handle_decline, past) (Moves-one (broadcast_index-Move a))
    ]
  ]

  handle_mark_via_relay-Moves :
      (id : String) (a : Actor) → Moves new_v4 a (handle_mark_via_relay id a)
  unfolding handle_mark_via_relay
  handle_mark_via_relay-Moves id a = elim (Option-cases (get id a.sessions)) [
    | inl e ↦ rw (e, handle_mark_via_relay) (Moves-one (broadcast_index-Move a))
    | inr (s, e) ↦
        rw (e, handle_mark_via_relay) (stored-Moves id _ a e (label-SessionStep s _ _ _) refl)
  ]

  handle_mark_route-Moves :
      (id route : String) (a : Actor) → Moves new_v4 a (handle_mark_route id route a)
  unfolding handle_mark_route
  handle_mark_route-Moves id route a = elim (Option-cases (get id a.sessions)) [
    | inl e ↦ rw (e, handle_mark_route) (Moves-one (broadcast_index-Move a))
    | inr (s, e) ↦
        rw (e, handle_mark_route) (stored-Moves id _ a e (label-SessionStep s _ _ _) refl)
  ]

  handle_report_progress-Moves :
      (id fid : String) (bytes : ℕ) (a : Actor)
      → Moves new_v4 a (handle_report_progress id fid bytes a)
  unfolding handle_report_progress
  handle_report_progress-Moves id fid bytes a = elim (Option-cases (get id a.sessions)) [
    | inl e ↦ rw (e, handle_report_progress) here
    | inr (s, e) ↦
        rw (e, handle_report_progress)
          (Moves-one (quiet-Move id _ a e (label-SessionStep s _ _ _) refl))
  ]

  start-Moves :
      (id token : String) (s : Session) (a : Actor)
      → get id a.sessions ≡ some s
      → (r : Result (String × FileEntry)) → startable_file token s ≡ r
      → Moves new_v4 a (handle_start_file id token a).0
  unfolding handle_start_file
  start-Moves id token s a e (err x) r =
      rw (e, handle_start_file, r) (Moves-one (broadcast_index-Move a))
  start-Moves id token s a e (ok (fid, f)) r =
      let (live, _, found) = startable_file_ok token s fid f r in
      rw (e, handle_start_file, r)
        (stored-Moves id _ a e (file_write-SessionStep fid _ s _ found live) refl)

  handle_start_file-Moves :
      (id token : String) (a : Actor) → Moves new_v4 a (handle_start_file id token a).0
  unfolding handle_start_file
  handle_start_file-Moves id token a = elim (Option-cases (get id a.sessions)) [
    | inl e ↦ rw (e, handle_start_file) (Moves-one (broadcast_index-Move a))
    | inr (s, e) ↦ start-Moves id token s a e (startable_file token s) refl
  ]

  handle_finish_file-Moves :
      (id token : String) (state : FileState) (a : Actor)
      → Moves new_v4 a (handle_finish_file id token state a)
  unfolding handle_finish_file
  handle_finish_file-Moves id token state a = elim (Option-cases (file_of_token id token a)) [
    | inl e ↦ rw (e, handle_finish_file) here
    | inr (fid, e) ↦ rw (e, handle_finish_file) (set_file_state-Moves id fid state a)
  ]

  pub handle_message-Moves :
      (msg : Message) (a : Actor) → Moves new_v4 a (handle_message new_v4 msg a).0
  unfolding handle_message
  handle_message-Moves (Message.create_recv_session sender files) a =
      handle_create_recv-Moves sender files a
  handle_message-Moves (Message.create_send_session target files) a =
      handle_create_send-Moves target files a
  handle_message-Moves (Message.accept id ids) a = handle_accept-Moves id ids a
  handle_message-Moves (Message.decline id) a = handle_decline-Moves id a
  handle_message-Moves (Message.cancel id) a = cancel_session-Moves id a
  handle_message-Moves (Message.mark_via_relay id) a = handle_mark_via_relay-Moves id a
  handle_message-Moves (Message.mark_route id route) a = handle_mark_route-Moves id route a
  handle_message-Moves (Message.start_file id token) a = handle_start_file-Moves id token a
  handle_message-Moves (Message.finish_file id token state) a =
      handle_finish_file-Moves id token state a
  handle_message-Moves (Message.report_progress id fid bytes) a =
      handle_report_progress-Moves id fid bytes a
  handle_message-Moves (Message.report_file_state id fid state) a =
      set_file_state-Moves id fid state a
  handle_message-Moves (Message.report_state id state) a = set_state-Moves id state a
  handle_message-Moves (Message.fail id reason) a = fail_session-Moves id reason a
  handle_message-Moves (Message.session_events id) a = here
  handle_message-Moves (Message.cancel_token id) a = here
  handle_message-Moves (Message.get_session id) a = here
  handle_message-Moves Message.listen_index a = here

  pub run-Moves : (msgs : List Message) (a : Actor) → Moves new_v4 a (run new_v4 msgs a)
  unfolding run
  run-Moves [] a = here
  run-Moves (msg ∷ msgs) a =
      Moves-trans (handle_message-Moves msg a) (run-Moves msgs (handle_message new_v4 msg a).0)
