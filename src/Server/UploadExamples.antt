-- ===== src/Server/UploadExamples.antt =====
-- The server's theorems on sessions at concrete requests.
use mathlib.Core.List.{Memᴰ}
use localsend_rs.Base.{
  string_eq, nat_eq, bytes_eq, ℕ, zero, suc, ◌≡◌, refl, String, true, false, List, [], ◌∷◌, Option,
  some, none,
}
use localsend_rs.Base.Int.{pos}
use localsend_rs.HashMap.{get, insert, collect, contains_key, map_entries}
use localsend_rs.Model.{
  NodeDevice, SenderInfo, FileInfo, FileRequest, FileResponse, MissionState, FileState, UploadTask,
  is_terminal, SessionDirection, state_changed,
}
use localsend_rs.Session.State.{Session, FileEntry, Message}
use localsend_rs.Session.Transitions.{new, broadcast_index, store, is_settled}
use localsend_rs.Session.Decide.{handle_accept}
use localsend_rs.Session.Create.{handle_create_recv}
use localsend_rs.Session.Actor.{run, handle_message}
use localsend_rs.Server.Stored.{intact}
use localsend_rs.Server.Routes.{Core, Prepared, prepare_upload}
use localsend_rs.Server.Upload.{Transfer, Arm}
use localsend_rs.Session.Unsettled.{unsettled}
use localsend_rs.Server.Step.{GoesThrough}
use localsend_rs.Server.Completion.{IsFeasible, upload_all, upload_all-finishes}
use localsend_rs.Server.Consent.{prepare_upload-consent}
use localsend_rs.Server.Examples.{inbox, disk, no_faults, body}

abbrev uuid : ℕ → String
uuid zero = "s"
uuid (suc zero) = "ta"
uuid (suc (suc zero)) = "tb"
uuid (suc (suc (suc n))) = "later"

abbrev sender : SenderInfo
sender = record {
  alias = "phone";
  version = "2.2";
  device_model = "m";
  device_type = "mobile";
  fingerprint = "fp";
  port = pos 53317;
  protocol = "http";
  download = true;
}

abbrev phone : NodeDevice
phone = record {
  alias = "phone";
  version = "2.2";
  device_model = "m";
  device_type = "mobile";
  fingerprint = "fp";
  address = "10.0.0.2";
  port = 53317;
  protocol = "http";
  download = true;
  announcement = false;
  announce = false;
  discovery_source = "lan";
}

abbrev info : String → FileInfo
info name = record {
  id = name;
  file_name = name;
  size = pos 3;
  file_type = "txt";
  sha256 = none;
  preview = none;
}

abbrev request : FileRequest
request = record { info = sender; files = ("a", info "a") ∷ ("b", info "b") ∷ [] }

abbrev idle_core : Core
idle_core = record {
  device = record { current = phone; device_map = []; notified = [] ∷ [] };
  sessions = new 1;
  store_path = inbox;
  disk = disk;
}

abbrev consent : List Message
consent = Message.accept "s" (some ("a" ∷ [])) ∷ []

abbrev answer : FileResponse
answer = record { session_id = "s"; files = ("a", "ta") ∷ [] }

granted : (prepare_upload uuid "10.0.0.2" request consent idle_core).1 ≡ Prepared.granted answer
unfolding prepare_upload new get run handle_message handle_accept broadcast_index store insert
    map_entries collect contains_key
granted = refl

prepare_upload-consent_example :
    (ids : Option (List String)) × Memᴰ (Message.accept "s" ids) consent
unfolding run
prepare_upload-consent_example =
    prepare_upload-consent uuid 1 [] consent "10.0.0.2" request idle_core answer refl granted

abbrev entry : String → String → FileEntry
entry name token = record { token = some token; info = info name; state = FileState.pending }

abbrev accepted_core : Core
accepted_core = record idle_core {
  sessions =
      run uuid (Message.create_recv_session phone request.files ∷ Message.accept "s" none ∷ [])
        (new 1);
}

abbrev session : Session
session = record {
  id = "s";
  direction = SessionDirection.receive;
  peer = phone;
  state = MissionState.transfering;
  via_relay = false;
  route = "local";
  speed_bps = 0;
  last_progress_at = none;
  last_total_bytes = 0;
  files = ("a", entry "a" "ta") ∷ ("b", entry "b" "tb") ∷ [];
  token_index = ("ta", "a") ∷ ("tb", "b") ∷ [];
  decision = none;
  events = state_changed MissionState.transfering ∷ state_changed MissionState.pending ∷ [];
  cancelled = false;
}

session_filed : get "s" accepted_core.sessions.sessions ≡ some session
unfolding run get handle_message handle_accept handle_create_recv new broadcast_index store insert
    map_entries collect
session_filed = refl

abbrev transfer : Transfer
transfer = record {
  pieces = body;
  faults = no_faults;
  meanwhile = Message.report_progress "s" "a" 2 ∷ [];
  arm = Arm.copy_ended;
}

abbrev through : GoesThrough transfer
through = record {
  ended = refl;
  whole = unfold intact in refl;
  faultless = record { makes_dir = refl; creates = λ path. refl; closes = refl };
  reports = (("s", "a", 2, refl), tt);
}

abbrev upload : String → String → UploadTask × Transfer
upload fid token = (record { session_id = "s"; file_id = fid; token = token }, transfer)

IsFeasible-a : IsFeasible "s" session (upload "a" "ta")
unfolding get is_terminal
IsFeasible-a = record {
  here = refl;
  ready = record { entry = entry "a" "ta"; named = refl; known = refl; unfinished = refl };
  through = through;
}

IsFeasible-b : IsFeasible "s" session (upload "b" "tb")
unfolding get is_terminal
IsFeasible-b = record {
  here = refl;
  ready = record { entry = entry "b" "tb"; named = refl; known = refl; unfinished = refl };
  through = through;
}

upload_all-finishes_example :
    (now : Session) × (get "s"
        (upload_all uuid (upload "b" "tb" ∷ upload "a" "ta" ∷ []) accepted_core).sessions.sessions
      ≡ some now)
    × (now.state ≡ MissionState.finished)
unfolding unsettled is_settled
upload_all-finishes_example =
    upload_all-finishes uuid "s" (upload "b" "tb") (upload "a" "ta" ∷ []) accepted_core session
      session_filed (record { receives = refl; running = refl }) (IsFeasible-b, (IsFeasible-a, tt))
      ((refl, tt), (tt, tt)) refl
