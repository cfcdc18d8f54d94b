-- ===== src/Session/State.antt =====
-- The data of rust/core/src/session.rs: sessions, messages, replies and the actor's own state.
--
-- A `watch::Sender` is the list of the values sent on it, newest first. A oneshot channel is a
-- number, given out by `next_channel`; `answers` lists what was sent on such channels. A
-- `CancellationToken` is the flag `cancelled` of its session, and a clone of it is the session's
-- id. `minted` counts the calls of `Uuid::new_v4`.
use localsend_rs.Base.{ℕ, String, Bool, true, false, Option, List, map, length}
use localsend_rs.Base.Order.{sort_by}
use localsend_rs.HashMap.{HashMap, values}
use localsend_rs.Model.{
  NodeDevice, FileInfo, MissionState, FileState, MissionFileInfo, SessionDirection, SessionSummary,
  SessionEvent,
}

pub data SessionError : Type 0 where
  busy not_found invalid_state unknown_file : SessionError

pub data Result {ℓ} (A : Type ℓ) : Type ℓ where
  ok : A → Result A
  err : SessionError → Result A

pub data Decision : Type 0 where
  accepted : HashMap String String → Decision
  declined canceled : Decision

pub record FileTask : Type 0 where
  pub file_id : String
  pub info : FileInfo
  pub cancel : String

pub record RecvPending : Type 0 where
  pub session_id : String
  pub decision : ℕ

pub record FileEntry : Type 0 where
  pub token : Option String
  pub info : FileInfo
  pub state : FileState

pub record Session : Type 0 where
  pub id : String
  pub direction : SessionDirection
  pub peer : NodeDevice
  pub state : MissionState
  pub via_relay : Bool
  pub route : String
  pub speed_bps : ℕ
  pub last_progress_at : Option ℕ
  pub last_total_bytes : ℕ
  pub files : HashMap String FileEntry
  pub token_index : HashMap String String
  pub decision : Option ℕ
  pub events : List SessionEvent
  pub cancelled : Bool

unfoldable pub file_infos : Session → List MissionFileInfo
file_infos s =
    sort_by (λ (f : MissionFileInfo). f.info.file_name)
      (map (λ f. record { info = f.info; state = f.state }) (values s.files))

unfoldable pub summary : Session → SessionSummary
summary s = record {
  id = s.id;
  direction = s.direction;
  peer = s.peer;
  file_count = length s.files;
  state = s.state;
  via_relay = s.via_relay;
  route = s.route;
  speed_bps = s.speed_bps;
  files = file_infos s;
}

abbrev pub is_active_state : MissionState → Bool
is_active_state MissionState.pending = true
is_active_state MissionState.transfering = true
is_active_state MissionState.idle = false
is_active_state MissionState.finished = false
is_active_state MissionState.failed = false
is_active_state MissionState.canceled = false
is_active_state MissionState.busy = false

unfoldable pub is_active : Session → Bool
is_active s = is_active_state s.state

abbrev pub is_receive : SessionDirection → Bool
is_receive SessionDirection.receive = true
is_receive SessionDirection.send = false

abbrev pub is_pending : MissionState → Bool
is_pending MissionState.pending = true
is_pending MissionState.transfering = false
is_pending MissionState.idle = false
is_pending MissionState.finished = false
is_pending MissionState.failed = false
is_pending MissionState.canceled = false
is_pending MissionState.busy = false

abbrev pub is_transfering : MissionState → Bool
is_transfering MissionState.transfering = true
is_transfering MissionState.pending = false
is_transfering MissionState.idle = false
is_transfering MissionState.finished = false
is_transfering MissionState.failed = false
is_transfering MissionState.canceled = false
is_transfering MissionState.busy = false

-- The fields named `respond_to` are the reply that `handle_message` returns.
pub data Message : Type 0 where
  create_recv_session : NodeDevice → HashMap String FileInfo → Message
  create_send_session : NodeDevice → List (String × FileInfo) → Message
  accept : String → Option (List String) → Message
  decline : String → Message
  cancel : String → Message
  mark_via_relay : String → Message
  mark_route : String → String → Message
  start_file : String → String → Message
  finish_file : String → String → FileState → Message
  report_progress : String → String → ℕ → Message
  report_file_state : String → String → FileState → Message
  report_state : String → MissionState → Message
  fail : String → String → Message
  session_events : String → Message
  cancel_token : String → Message
  get_session : String → Message
  listen_index : Message

-- What a message's `respond_to` receives; `silent` where the message has none.
pub data Reply : Type 0 where
  recv_pending : Result RecvPending → Reply
  session_id : String → Reply
  outcome : Result (Unit {0}) → Reply
  file_task : Result FileTask → Reply
  done silent : Reply
  events : Option (List SessionEvent) → Reply
  token : Option String → Reply
  session : Option SessionSummary → Reply
  index : List SessionSummary → Reply

pub record Actor : Type 0 where
  pub sessions : HashMap String Session
  pub max_recv_sessions : ℕ
  pub index : List SessionSummary
  pub answers : List (ℕ × Decision)
  pub next_channel : ℕ
  pub minted : ℕ
