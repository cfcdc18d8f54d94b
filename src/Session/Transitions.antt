-- ===== src/Session/Transitions.antt =====
-- The methods of the session actor that move one session: `set_state`, `set_file_state`,
-- `check_finish`, `fail_session` and `cancel_session` of rust/core/src/session.rs.
use localsend_rs.Base.{
  ℕ, String, Bool, true, false, not, ◌&&◌, Option, none, some, List, [], ◌∷◌, map, string_eq,
  if◌then◌else◌, all,
}
use localsend_rs.Base.Order.{sort_by}
use localsend_rs.HashMap.{get, insert, values}
use localsend_rs.Model.{
  MissionState, FileState, SessionSummary, SessionEvent, state_changed, file_state_changed,
}
use localsend_rs.Session.State.{Session, FileEntry, Decision, Actor, summary, is_active}

unfoldable pub new : ℕ → Actor
new max = record {
  sessions = [];
  max_recv_sessions = max;
  index = [];
  answers = [];
  next_channel = 0;
  minted = 0;
}

unfoldable pub broadcast_index : Actor → Actor
broadcast_index a = record a {
  index = sort_by (λ (s : SessionSummary). s.id) (map summary (values a.sessions));
}

-- A write through `sessions.get_mut(id)`.
unfoldable pub store : String → Session → Actor → Actor
store id s a = record a { sessions = insert id s a.sessions }

-- `decision.take()`, and the send on the channel that was taken.
unfoldable pub answer : Option ℕ → Decision → Actor → Actor
answer none d a = a
answer (some c) d a = record a { answers = (c, d) ∷ a.answers }

unfoldable pub set_state : String → MissionState → Actor → Actor
unfolding is_active
set_state id state a = elim (get id a.sessions) [
  | none ↦ broadcast_index a
  | some s ↦
      if is_active s
      then broadcast_index
          (store id (record s { state = state; events = state_changed state ∷ s.events }) a)
      else a
]

unfoldable pub is_settled : FileEntry → Bool
is_settled f = elim f.state [ FileState.finish ↦ true | FileState.skip ↦ true | _ ↦ false ]

abbrev pub is_empty {ℓ} : {A : Type ℓ} → List A → Bool
is_empty [] = true
is_empty (x ∷ xs) = false

unfoldable pub is_complete : Session → Bool
unfolding is_active is_settled
is_complete s = is_active s && not (is_empty s.files) && all is_settled (values s.files)

unfoldable pub check_finish : String → Actor → Actor
unfolding is_complete set_state
check_finish id a = elim (get id a.sessions) [
  | none ↦ a
  | some s ↦ if is_complete s then set_state id MissionState.finished a else a
]

unfoldable pub failed_session : String → Session → Session
failed_session reason s = record s {
  state = MissionState.failed;
  cancelled = true;
  events = SessionEvent.failed reason ∷ state_changed MissionState.failed ∷ s.events;
  decision = none;
}

unfoldable pub fail_session : String → String → Actor → Actor
unfolding is_active failed_session answer
fail_session id reason a = elim (get id a.sessions) [
  | none ↦ broadcast_index a
  | some s ↦
      if is_active s
      then broadcast_index
          (answer s.decision Decision.canceled (store id (failed_session reason s) a))
      else a
]

unfoldable pub canceled_session : Session → Session
canceled_session s = record s {
  state = MissionState.canceled;
  cancelled = true;
  events = state_changed MissionState.canceled ∷ s.events;
  decision = none;
}

unfoldable pub cancel_session : String → Actor → Actor
unfolding is_active canceled_session answer
cancel_session id a = elim (get id a.sessions) [
  | none ↦ broadcast_index a
  | some s ↦
      if is_active s
      then broadcast_index (answer s.decision Decision.canceled (store id (canceled_session s) a))
      else a
]

-- The write to `session.files` and its event; an unknown file changes nothing.
unfoldable pub write_file_state : String → FileState → Session → Session
write_file_state fid state s = elim (get fid s.files) [
  | none ↦ s
  | some f ↦ record s {
    files = insert fid (record f { state = state }) s.files;
    events = file_state_changed fid state ∷ s.events;
  }
]

-- What follows the write: a failed file fails its session, any other may finish it.
unfoldable pub settle_file : String → FileState → Actor → Actor
unfolding fail_session check_finish
settle_file id (FileState.fail msg) a = fail_session id msg a
settle_file id FileState.pending a = broadcast_index (check_finish id a)
settle_file id FileState.transfer a = broadcast_index (check_finish id a)
settle_file id FileState.finish a = broadcast_index (check_finish id a)
settle_file id FileState.skip a = broadcast_index (check_finish id a)

unfoldable pub set_file_state : String → String → FileState → Actor → Actor
unfolding is_active write_file_state settle_file
set_file_state id fid state a = elim (get id a.sessions) [
  | none ↦ broadcast_index (check_finish id a)
  | some s ↦
      if is_active s then settle_file id state (store id (write_file_state fid state s) a) else a
]
