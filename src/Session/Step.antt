-- ===== src/Session/Step.antt =====
-- What one call may do to one session. Every function of the actor that rewrites a session
-- takes such a step.
use localsend_rs.Base.{
  String, Bool, true, false, some, List, ◌≡◌, ◌⊎◌, inl, inr, string_eq, arith, Option-cases,
}
use localsend_rs.HashMap.{keys, get, insert}
use localsend_rs.HashMap.Laws.{keys-insert, keys-map_entries}
use localsend_rs.Model.{MissionState, FileState, SessionEvent}
use localsend_rs.Session.State.{Session, FileEntry, is_active}
use localsend_rs.Session.Transitions.{failed_session, canceled_session, write_file_state}
use localsend_rs.Session.Decide.{accepted_session, declined_session, skip_unless}

pub record SessionStep (s t : Session) : Type 0 where
  pub same_id : t.id ≡ s.id
  pub same_direction : t.direction ≡ s.direction
  pub same_tokens : t.token_index ≡ s.token_index
  pub same_keys : keys t.files ≡ keys s.files
  pub frozen_state : is_active s ≡ false → t.state ≡ s.state
  pub frozen_files : is_active s ≡ false → t.files ≡ s.files
  pub frozen_decision : is_active s ≡ false → t.decision ≡ s.decision
  pub aborted : t.cancelled ≡ true → (s.cancelled ≡ true) ⊎ (is_active t ≡ false)

pub state_write-SessionStep :
    (s : Session) (state : MissionState) (es : List SessionEvent)
    → is_active s ≡ true
    → SessionStep s (record s { state = state; events = es })
unfolding is_active
state_write-SessionStep s state es h = ground arith

pub label-SessionStep :
    (s : Session) (relayed : Bool) (route : String) (es : List SessionEvent)
    → SessionStep s (record s { via_relay = relayed; route = route; events = es })
label-SessionStep s relayed route es = ground arith

pub failed_session-SessionStep :
    (reason : String) (s : Session) → is_active s ≡ true → SessionStep s (failed_session reason s)
unfolding is_active failed_session
failed_session-SessionStep reason s h = ground arith

pub canceled_session-SessionStep :
    (s : Session) → is_active s ≡ true → SessionStep s (canceled_session s)
unfolding is_active canceled_session
canceled_session-SessionStep s h = ground arith

pub declined_session-SessionStep :
    (s : Session) → is_active s ≡ true → SessionStep s (declined_session s)
unfolding is_active declined_session
declined_session-SessionStep s h = ground arith

pub accepted_session-SessionStep :
    (ids : List String) (s : Session) → is_active s ≡ true → SessionStep s (accepted_session ids s)
unfolding accepted_session
accepted_session-SessionStep ids s h = ground (arith, keys-map_entries (skip_unless ids) s.files)

-- A session with one file rewritten.
pub file_write-SessionStep :
    (fid : String) {f : FileEntry} (g : FileEntry) (s : Session) (es : List SessionEvent)
    → get fid s.files ≡ some f
    → is_active s ≡ true
    → SessionStep s (record s { files = insert fid g s.files; events = es })
unfolding is_active
file_write-SessionStep fid {f} g s es e h = ground (arith, keys-insert fid g f s.files e)

pub write_file_state-SessionStep :
    (fid : String) (state : FileState) (s : Session)
    → is_active s ≡ true
    → SessionStep s (write_file_state fid state s)
unfolding write_file_state
write_file_state-SessionStep fid state s h = elim (Option-cases (get fid s.files)) [
  | inl e ↦ rw (e, write_file_state) (label-SessionStep s s.via_relay s.route s.events)
  | inr (f, e) ↦ rw (e, write_file_state) (file_write-SessionStep fid _ s _ e h)
]
