-- ===== src/Session/Decide.antt =====
-- `Accept` and `Decline` of `Actor::handle_message` in rust/core/src/session.rs.
use localsend_rs.Base.{
  String, Bool, true, ◌&&◌, Option, none, some, List, [], ◌∷◌, ◌++◌, ◌==◌, string_eq, if◌then◌else◌,
  any, filterb,
}
use localsend_rs.HashMap.{HashMap, get, insert, contains_key, keys, map_entries}
use localsend_rs.Model.{MissionState, FileState, SessionEvent, state_changed, file_state_changed}
use localsend_rs.Session.State.{
  SessionError, ok, err, Decision, FileEntry, Session, Reply, Actor, is_receive, is_pending,
}
use localsend_rs.Session.Transitions.{broadcast_index, store, answer, check_finish}

unfoldable pub accepted_ids : Option (List String) → HashMap String FileEntry → List String
accepted_ids none files = keys files
accepted_ids (some ids) files = filterb (λ fid. contains_key fid files) ids

unfoldable pub contains : List String → String → Bool
contains ids fid = any (λ i. i == fid) ids

-- The loop over `session.files`: tokens of the accepted files, and the others skipped.
unfoldable pub accepted_tokens : List String → HashMap String FileEntry → HashMap String String
unfolding contains
accepted_tokens ids [] = []
accepted_tokens ids ((fid, f) ∷ rest) =
    let tokens = accepted_tokens ids rest in
    if contains ids fid
    then (elim f.token [ none ↦ tokens | some t ↦ insert fid t tokens ])
    else tokens

unfoldable pub skip_unless : List String → String → FileEntry → FileEntry
unfolding contains
skip_unless ids fid f = if contains ids fid then f else record f { state = FileState.skip }

-- The events of the skipped files, newest first.
unfoldable pub skip_events : List String → HashMap String FileEntry → List SessionEvent
unfolding contains
skip_events ids [] = []
skip_events ids ((fid, f) ∷ rest) =
    if contains ids fid
    then skip_events ids rest
    else skip_events ids rest ++ file_state_changed fid FileState.skip ∷ []

unfoldable pub accepted_session : List String → Session → Session
unfolding skip_unless skip_events
accepted_session ids s = record s {
  files = map_entries (skip_unless ids) s.files;
  state = MissionState.transfering;
  events = state_changed MissionState.transfering ∷ skip_events ids s.files ++ s.events;
  decision = none;
}

-- The guard of `Accept` and `Decline`.
unfoldable pub is_decidable : Session → Bool
is_decidable s = is_receive s.direction && is_pending s.state

unfoldable pub handle_accept : String → Option (List String) → Actor → Actor × Reply
unfolding is_decidable accepted_ids accepted_session accepted_tokens answer check_finish
handle_accept id file_ids a = elim (get id a.sessions) [
  | none ↦ (check_finish id (broadcast_index a), Reply.outcome (err SessionError.not_found))
  | some s ↦
      if is_decidable s
      then (
        check_finish id (
            broadcast_index (
              answer s.decision
                (Decision.accepted (accepted_tokens (accepted_ids file_ids s.files) s.files))
                (store id (accepted_session (accepted_ids file_ids s.files) s) a))),
        Reply.outcome (ok tt),
      )
      else (check_finish id (broadcast_index a), Reply.outcome (err SessionError.invalid_state))
]

unfoldable pub declined_session : Session → Session
declined_session s = record s {
  state = MissionState.canceled;
  cancelled = true;
  events = state_changed MissionState.canceled ∷ s.events;
  decision = none;
}

unfoldable pub handle_decline : String → Actor → Actor × Reply
unfolding is_decidable declined_session answer
handle_decline id a = elim (get id a.sessions) [
  | none ↦ (broadcast_index a, Reply.outcome (err SessionError.not_found))
  | some s ↦
      if is_decidable s
      then (
        broadcast_index (answer s.decision Decision.declined (store id (declined_session s) a)),
        Reply.outcome (ok tt),
      )
      else (broadcast_index a, Reply.outcome (err SessionError.invalid_state))
]
