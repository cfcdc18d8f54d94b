-- ===== src/Sender/Examples.antt =====
-- A sending session of two files at concrete inputs.
use localsend_rs.Base.{
  All, string_eq, ℕ, ◌≡◌, refl, ◌≢◌, String, List, [], ◌∷◌, true, false, some, none, Option,
}
use localsend_rs.Base.Int.{pos}
use localsend_rs.HashMap.{get, insert, collect}
use localsend_rs.Model.{NodeDevice, FileInfo, FileResponse, FileState, MissionState, is_terminal}
use localsend_rs.Session.State.{Session, FileEntry, Actor, Message, is_active}
use localsend_rs.Session.Transitions.{new, is_settled, set_file_state, broadcast_index, store}
use localsend_rs.Session.Actor.{handle_message, handle_report_progress, run}
use localsend_rs.Session.Create.{send_session, handle_create_send}
use localsend_rs.Sender.Driver.{
  Answer, Upload, World, Entries, is_entry, run_send_driver, send_accepted,
}
use localsend_rs.Sender.Waiting.{Waits}
use localsend_rs.Session.Unsettled.{unsettled}
use localsend_rs.Sender.Completion.{Arrives, send_accepted-finishes}
use localsend_rs.Sender.LeftOut.{send_accepted-Waits}

abbrev uuid : ℕ → String
uuid n = "s"

abbrev laptop : NodeDevice
laptop = record {
  alias = "laptop";
  version = "2.2";
  device_model = "m";
  device_type = "desktop";
  fingerprint = "fp";
  address = "10.0.0.3";
  port = 53317;
  protocol = "http";
  download = true;
  announcement = false;
  announce = false;
  discovery_source = "lan";
}

abbrev info : String → FileInfo
info name = record {
  id = name;
  file_name = name;
  size = pos 3;
  file_type = "txt";
  sha256 = none;
  preview = none;
}

abbrev two_files : Entries
two_files = ("a", info "a") ∷ ("b", info "b") ∷ []

abbrev accepting : List (String × String) → FileResponse
accepting files = record { session_id = "remote"; files = files }

-- The peer answers with these files, and every upload arrives.
abbrev answering : Answer → World
answering answer = record {
  relay_configured = false;
  tls_on = false;
  target_is_lan = true;
  route = λ via target. record { marks = []; view = some target; reason = "" };
  route_is_stun = false;
  prepare = λ attempt target. answer;
  prepare_failed = λ failure. "prepare-upload failed";
  upload = λ target remote fid token. Upload.sent;
  progress = λ fid. 1 ∷ 3 ∷ [];
}

abbrev only_a : FileResponse
only_a = accepting (("a", "ta") ∷ [])

abbrev created : Actor
created = run uuid (Message.create_send_session laptop two_files ∷ []) (new 1)

abbrev driven : Answer → Actor
driven answer = run uuid (run_send_driver (answering answer) "s" laptop two_files false) created

abbrev state_of : Option Session → MissionState
state_of none = MissionState.idle
state_of (some s) = s.state

abbrev everything : Answer
everything = Answer.answered (accepting (("a", "ta") ∷ ("b", "tb") ∷ []))

test_everything : state_of (get "s" (driven everything).sessions) ≡ MissionState.finished
unfolding run_send_driver run get handle_message set_file_state handle_report_progress
    handle_create_send broadcast_index store insert new collect
test_everything = refl

test_nothing :
    state_of (get "s" (driven (Answer.answered (accepting []))).sessions) ≡ MissionState.finished
unfolding run_send_driver run get handle_message set_file_state handle_create_send broadcast_index
    store insert new collect
test_nothing = refl

test_refused :
    run_send_driver (answering (Answer.status 403 "")) "s" laptop two_files false
    ≡ Message.fail "s" "declined by receiver" ∷ []
unfolding run_send_driver
test_refused = refl

abbrev waiting_b : FileEntry
waiting_b = record { token = none; info = info "b"; state = FileState.pending }

created-Waits : Waits "s" "b" waiting_b created
unfolding run handle_message handle_create_send send_session broadcast_index store get insert new
    collect
created-Waits = record {
  now = send_session uuid laptop two_files (new 1);
  filed = refl;
  waits = refl;
  unfinished = λ e. cc e;
}

b_absent : get "b" only_a.files ≡ none
unfolding get
b_absent = refl

b_waiting : is_settled waiting_b ≡ false
unfolding is_settled
b_waiting = refl

some_file : only_a.files ≢ []
some_file e = cc e

send_accepted-Waits_example :
    Waits "s" "b" waiting_b
      (run uuid (send_accepted (answering everything) "s" laptop two_files only_a) created)
send_accepted-Waits_example =
    send_accepted-Waits uuid (answering everything) "s" "b" waiting_b laptop two_files only_a
      created b_waiting some_file b_absent created-Waits

abbrev both : FileResponse
both = accepting (("a", "ta") ∷ ("b", "tb") ∷ [])

abbrev sending : Session
sending = send_session uuid laptop two_files (new 1)

sending_filed : get "s" created.sessions ≡ some sending
unfolding run handle_message handle_create_send send_session broadcast_index store get insert new
    collect
sending_filed = refl

sending_active : is_active sending ≡ true
unfolding is_active send_session
sending_active = refl

both_due : All (Arrives (answering everything) laptop "remote" two_files sending.files) both.files
unfolding send_session get insert collect is_entry is_terminal
both_due = (
  record {
    entry = record { token = none; info = info "a"; state = FileState.pending };
    known = refl;
    unfinished = refl;
    offered = refl;
    sent = refl;
  },
  (record { entry = waiting_b; known = refl; unfinished = refl; offered = refl; sent = refl }, tt),
)

two_unsettled : 2 ≡ unsettled sending
unfolding unsettled send_session collect insert is_settled
two_unsettled = refl

some_files : both.files ≢ []
some_files e = cc e

send_accepted-finishes_example :
    (now : Session) × (get "s"
        (run uuid (send_accepted (answering everything) "s" laptop two_files both) created).sessions
      ≡ some now)
    × (now.state ≡ MissionState.finished)
send_accepted-finishes_example =
    send_accepted-finishes uuid (answering everything) "s" laptop two_files both sending created
      sending_filed sending_active some_files both_due ((refl, tt), (tt, tt)) two_unsettled
