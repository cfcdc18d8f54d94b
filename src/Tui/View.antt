-- ===== src/Tui/View.antt =====
-- One session on the screen: `FileView` and `SessionView` of rust/cli/src/state.rs. The text
-- `peer_addr` is the pair that is printed into it.
use localsend_rs.Base.{
  ℕ, String, string_eq, Bool, true, false, ◌&&◌, Option, none, some, List, [], ◌∷◌, ◌++◌, map, any,
  ◌==◌, if◌then◌else◌,
}
use localsend_rs.Base.Int.{ℤ}
use localsend_rs.Model.{
  FileState, MissionState, MissionFileInfo, SessionDirection, SessionEvent, SessionSummary,
}
use localsend_rs.Session.State.{is_receive, is_pending}

pub record FileView : Type 0 where
  pub id : String
  pub name : String
  pub size : ℤ
  pub transferred : ℕ
  pub state : FileState

pub record SessionView : Type 0 where
  pub id : String
  pub direction : SessionDirection
  pub peer_alias : String
  pub peer_addr : String × ℕ
  pub state : MissionState
  pub files : List FileView
  pub fail_reason : Option String

unfoldable pub is_pending_receive : SessionView → Bool
is_pending_receive v = is_receive v.direction && is_pending v.state

unfoldable pub is_terminal_state : MissionState → Bool
is_terminal_state MissionState.finished = true
is_terminal_state MissionState.failed = true
is_terminal_state MissionState.canceled = true
is_terminal_state MissionState.idle = false
is_terminal_state MissionState.pending = false
is_terminal_state MissionState.transfering = false
is_terminal_state MissionState.busy = false

unfoldable pub is_terminal : SessionView → Bool
unfolding is_terminal_state
is_terminal v = is_terminal_state v.state

unfoldable pub file_view : MissionFileInfo → FileView
file_view f = record {
  id = f.info.id;
  name = f.info.file_name;
  size = f.info.size;
  transferred = 0;
  state = f.state;
}

unfoldable pub from_summary : SessionSummary → SessionView
unfolding file_view
from_summary s = record {
  id = s.id;
  direction = s.direction;
  peer_alias = s.peer.alias;
  peer_addr = (s.peer.address, s.peer.port);
  state = s.state;
  files = map file_view s.files;
  fail_reason = none;
}

-- A write to the first element that passes the test, through `iter_mut().find`.
unfoldable pub modify {ℓ} : {A : Type ℓ} → (A → Bool) → (A → A) → List A → List A
modify p f [] = []
modify p f (x ∷ xs) = if p x then f x ∷ xs else x ∷ modify p f xs

-- The same, and a new element at the end where none passes.
unfoldable pub modify_or_push {ℓ} : {A : Type ℓ} → (A → Bool) → (A → A) → A → List A → List A
unfolding modify
modify_or_push p f new xs = if any p xs then modify p f xs else xs ++ new ∷ []

abbrev pub has_file_id : String → FileView → Bool
has_file_id id v = v.id == id

unfoldable pub update_files : List MissionFileInfo → List FileView → List FileView
unfolding modify_or_push file_view
update_files [] views = views
update_files (f ∷ fs) views =
    update_files fs (
      modify_or_push (has_file_id f.info.id) (λ v. record v { state = f.state }) (file_view f)
        views)

unfoldable pub update_from_summary : SessionSummary → SessionView → SessionView
unfolding update_files
update_from_summary s v = record v { state = s.state; files = update_files s.files v.files }

unfoldable pub reason_of : FileState → Option String → Option String
reason_of (FileState.fail msg) old = some msg
reason_of FileState.pending old = old
reason_of FileState.transfer old = old
reason_of FileState.finish old = old
reason_of FileState.skip old = old

unfoldable pub apply_event : SessionEvent → SessionView → SessionView
unfolding modify reason_of
apply_event (SessionEvent.state_changed state) v = record v { state = state }
apply_event (SessionEvent.file_state_changed fid state) v = record v {
  files = modify (has_file_id fid) (λ f. record f { state = state }) v.files;
  fail_reason = reason_of state v.fail_reason;
}
apply_event (SessionEvent.progress fid bytes) v = record v {
  files = modify (has_file_id fid) (λ f. record f { transferred = bytes }) v.files;
}
apply_event (SessionEvent.failed reason) v = record v {
  state = MissionState.failed;
  fail_reason = some reason;
}
