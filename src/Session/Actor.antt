-- ===== src/Session/Actor.antt =====
-- The rest of `Actor::handle_message` of rust/core/src/session.rs, and the actor's loop.
use mathlib.Core.Option
use localsend_rs.Base.{
  ℕ, String, true, ◌&&◌, Option, none, some, List, [], ◌∷◌, ◌==◌, string_eq, if◌then◌else◌,
}
use localsend_rs.HashMap.{get, insert}
use localsend_rs.Model.{FileState, is_terminal, file_state_changed, progress}
use localsend_rs.Session.State.{
  SessionError, Result, ok, err, FileEntry, Session, Message, Reply, Actor, summary, is_receive,
  is_transfering,
}
use localsend_rs.Session.Transitions.{
  broadcast_index, store, set_state, fail_session, cancel_session, set_file_state,
}
use localsend_rs.Session.Create.{handle_create_recv, handle_create_send}
use localsend_rs.Session.Decide.{handle_accept, handle_decline}

unfoldable pub handle_mark_via_relay : String → Actor → Actor
handle_mark_via_relay id a = elim (get id a.sessions) [
  | none ↦ broadcast_index a
  | some s ↦ broadcast_index (
      store id
        (record s { via_relay = true; route = if s.route == "local" then "turn" else s.route }) a)
]

unfoldable pub handle_mark_route : String → String → Actor → Actor
handle_mark_route id route a = elim (get id a.sessions) [
  | none ↦ broadcast_index a
  | some s ↦ broadcast_index (store id (record s { route = route }) a)
]

-- The checks of `StartFile` on the session: the file id that the token names and its entry.
unfoldable pub startable_file : String → Session → Result (String × FileEntry)
startable_file token s =
    if is_receive s.direction && is_transfering s.state
    then (elim (get token s.token_index) [
      | none ↦ err SessionError.unknown_file
      | some fid ↦ elim (get fid s.files) [
        | none ↦ err SessionError.unknown_file
        | some f ↦ if is_terminal f.state then err SessionError.invalid_state else ok (fid, f)
      ]
    ])
    else err SessionError.invalid_state

unfoldable pub started_session : String → FileEntry → Session → Session
started_session fid f s = record s {
  files = insert fid (record f { state = FileState.transfer }) s.files;
  events = file_state_changed fid FileState.transfer ∷ s.events;
}

-- The task that forwards the progress of the file sends `ReportProgress` messages later on.
unfoldable pub handle_start_file : String → String → Actor → Actor × Reply
unfolding startable_file started_session is_terminal
handle_start_file id token a = elim (get id a.sessions) [
  | none ↦ (broadcast_index a, Reply.file_task (err SessionError.not_found))
  | some s ↦ elim (startable_file token s) [
    | err e ↦ (broadcast_index a, Reply.file_task (err e))
    | ok (fid, f) ↦ (
      broadcast_index (store id (started_session fid f s) a),
      Reply.file_task (ok (record { file_id = fid; info = f.info; cancel = id })),
    )
  ]
]

-- The file id behind `sessions.get(&id).and_then(|s| s.token_index.get(&token))`.
unfoldable pub file_of_token : String → String → Actor → Option String
file_of_token id token a = elim (get id a.sessions) [
  | none ↦ none
  | some s ↦ get token s.token_index
]

unfoldable pub handle_finish_file : String → String → FileState → Actor → Actor
unfolding file_of_token set_file_state
handle_finish_file id token state a = elim (file_of_token id token a) [
  | none ↦ a
  | some fid ↦ set_file_state id fid state a
]

unfoldable pub handle_report_progress : String → String → ℕ → Actor → Actor
handle_report_progress id fid bytes a = elim (get id a.sessions) [
  | none ↦ a
  | some s ↦ store id (record s { events = progress fid bytes ∷ s.events }) a
]

unfoldable pub handle_message : (ℕ → String) → Message → Actor → Actor × Reply
handle_message new_v4 (Message.create_recv_session sender files) a =
    handle_create_recv new_v4 sender files a
handle_message new_v4 (Message.create_send_session target files) a =
    handle_create_send new_v4 target files a
handle_message new_v4 (Message.accept id file_ids) a = handle_accept id file_ids a
handle_message new_v4 (Message.decline id) a = handle_decline id a
handle_message new_v4 (Message.cancel id) a = (cancel_session id a, Reply.done)
handle_message new_v4 (Message.mark_via_relay id) a = (handle_mark_via_relay id a, Reply.silent)
handle_message new_v4 (Message.mark_route id route) a = (handle_mark_route id route a, Reply.silent)
handle_message new_v4 (Message.start_file id token) a = handle_start_file id token a
handle_message new_v4 (Message.finish_file id token state) a =
    (handle_finish_file id token state a, Reply.done)
handle_message new_v4 (Message.report_progress id fid bytes) a =
    (handle_report_progress id fid bytes a, Reply.silent)
handle_message new_v4 (Message.report_file_state id fid state) a =
    (set_file_state id fid state a, Reply.done)
handle_message new_v4 (Message.report_state id state) a = (set_state id state a, Reply.done)
handle_message new_v4 (Message.fail id reason) a = (fail_session id reason a, Reply.done)
handle_message new_v4 (Message.session_events id) a =
    (a, Reply.events (Option.map (λ (s : Session). s.events) (get id a.sessions)))
handle_message new_v4 (Message.cancel_token id) a =
    (a, Reply.token (Option.map (λ (s : Session). s.id) (get id a.sessions)))
handle_message new_v4 (Message.get_session id) a =
    (a, Reply.session (Option.map summary (get id a.sessions)))
handle_message new_v4 Message.listen_index a = (a, Reply.index a.index)

-- `run_session_actor`: the messages in the order in which the channel hands them out.
unfoldable pub run : (ℕ → String) → List Message → Actor → Actor
run new_v4 [] a = a
run new_v4 (msg ∷ msgs) a = run new_v4 msgs (handle_message new_v4 msg a).0
