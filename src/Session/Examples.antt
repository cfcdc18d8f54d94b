-- ===== src/Session/Examples.antt =====
-- Runs of the session actor at concrete inputs, and its theorems there.
use localsend_rs.Base.{
  string_eq, ℕ, zero, suc, ◌≤◌, ◌≡◌, refl, ◌≢◌, String, List, [], ◌∷◌, true, false, arith, some,
  none, ==_iff,
}
use localsend_rs.Base.Int.{pos}
use localsend_rs.HashMap.{get, insert, collect}
use localsend_rs.Model.{
  NodeDevice, FileInfo, MissionState, FileState, SessionDirection, state_changed,
}
use localsend_rs.Session.State.{
  Session, FileEntry, Actor, Message, Reply, SessionError, ok, err, is_active,
}
use localsend_rs.Session.Transitions.{new, set_file_state, cancel_session, broadcast_index, store}
use localsend_rs.Session.Decide.{handle_accept, is_decidable, contains}
use localsend_rs.Session.Create.{handle_create_recv}
use localsend_rs.Session.Actor.{handle_message, handle_start_file, run}
use localsend_rs.Session.Capacity.{active_recvs, run-capacity}
use localsend_rs.Session.Answers.{uses, run-answers}
use localsend_rs.Session.Lifecycle.{Ended, run-Ended, IsFiled, run-AllFiled}
use localsend_rs.Session.Accepting.{
  AcceptOutcome, handle_accept-AcceptOutcome, handle_start_file-skipped,
}
use localsend_rs.Session.Finishing.{
  FileOutcome, set_file_state-FileOutcome, FailOutcome, set_file_state-FailOutcome,
}

abbrev uuid : ℕ → String
uuid zero = "s"
uuid (suc zero) = "ta"
uuid (suc (suc zero)) = "tb"
uuid (suc (suc (suc n))) = "later"

abbrev phone : NodeDevice
phone = record {
  alias = "phone";
  version = "2.2";
  device_model = "m";
  device_type = "mobile";
  fingerprint = "fp";
  address = "10.0.0.2";
  port = 53317;
  protocol = "http";
  download = true;
  announcement = false;
  announce = false;
  discovery_source = "lan";
}

abbrev info : String → FileInfo
info name = record {
  id = name;
  file_name = name;
  size = pos 3;
  file_type = "txt";
  sha256 = none;
  preview = none;
}

abbrev offer : Message
offer = Message.create_recv_session phone (("a", info "a") ∷ ("b", info "b") ∷ [])

abbrev offered : Actor
offered = run uuid (offer ∷ []) (new 1)

abbrev entry : String → String → FileEntry
entry name token = record { token = some token; info = info name; state = FileState.pending }

-- The session that `offer` makes.
abbrev pending_session : Session
pending_session = record {
  id = "s";
  direction = SessionDirection.receive;
  peer = phone;
  state = MissionState.pending;
  via_relay = false;
  route = "local";
  speed_bps = 0;
  last_progress_at = none;
  last_total_bytes = 0;
  files = ("a", entry "a" "ta") ∷ ("b", entry "b" "tb") ∷ [];
  token_index = ("ta", "a") ∷ ("tb", "b") ∷ [];
  decision = some 0;
  events = state_changed MissionState.pending ∷ [];
  cancelled = false;
}

offered_filed : get "s" offered.sessions ≡ some pending_session
unfolding run handle_message handle_create_recv new broadcast_index store get insert collect
offered_filed = refl

-- The second offer is refused: one session is the limit.
second_offer_busy :
    (handle_message uuid offer offered).1 ≡ Reply.recv_pending (err SessionError.busy)
unfolding run handle_message handle_create_recv new broadcast_index store get insert collect
second_offer_busy = refl

run-capacity_example : active_recvs (run uuid (offer ∷ offer ∷ []) (new 1)) ≤ 1
run-capacity_example = run-capacity uuid 1 (offer ∷ offer ∷ [])

abbrev decide_twice : List Message
decide_twice = offer ∷ Message.accept "s" none ∷ Message.cancel "s" ∷ []

run-answers_example : uses 0 (run uuid decide_twice (new 1)) ≤ 1
run-answers_example = run-answers uuid 1 decide_twice 0

abbrev canceled_actor : Actor
canceled_actor = run uuid (offer ∷ Message.cancel "s" ∷ []) (new 1)

abbrev ended_session : Session
ended_session = record pending_session {
  state = MissionState.canceled;
  events = state_changed MissionState.canceled ∷ state_changed MissionState.pending ∷ [];
  decision = none;
  cancelled = true;
}

canceled_filed : get "s" canceled_actor.sessions ≡ some ended_session
unfolding run handle_message handle_create_recv new broadcast_index store get insert collect
    cancel_session
canceled_filed = refl

later_uuids : (n : ℕ) → 3 ≤ n → uuid n ≢ "s"
later_uuids zero h = absurd (omega arith)
later_uuids (suc zero) h = absurd (omega arith)
later_uuids (suc (suc zero)) h = absurd (omega arith)
later_uuids (suc (suc (suc n))) h = λ e. cc ((==_iff {K = String} "later" "s").1 e)

run-Ended_example : Ended uuid "s" ended_session (
    run uuid
      (Message.accept "s" none ∷ Message.report_state "s" MissionState.pending ∷ [])
      canceled_actor)
unfolding run handle_message handle_create_recv new broadcast_index store cancel_session get insert
    collect is_active
run-Ended_example =
    run-Ended uuid "s" ended_session canceled_actor
      (Message.accept "s" none ∷ Message.report_state "s" MissionState.pending ∷ []) canceled_filed
      refl later_uuids

run-AllFiled_example : IsFiled "s" ended_session
run-AllFiled_example =
    run-AllFiled uuid 1 (offer ∷ Message.cancel "s" ∷ []) "s" ended_session canceled_filed

handle_accept-AcceptOutcome_example :
    ((handle_accept "s" (some ("a" ∷ [])) offered).1 ≡ Reply.outcome (ok tt))
    × AcceptOutcome "s"
        (some ("a" ∷ []))
        pending_session
        offered
        (handle_accept "s" (some ("a" ∷ [])) offered).0
unfolding is_decidable
handle_accept-AcceptOutcome_example =
    handle_accept-AcceptOutcome "s" (some ("a" ∷ [])) pending_session offered offered_filed refl

handle_start_file-skipped_example :
    (handle_start_file "s" "tb" (handle_accept "s" (some ("a" ∷ [])) offered).0).1
    ≡ Reply.file_task (err SessionError.invalid_state)
unfolding is_decidable get contains
handle_start_file-skipped_example =
    handle_start_file-skipped "s" "tb" "b" (some ("a" ∷ [])) pending_session (entry "b" "tb")
      offered offered_filed refl refl refl refl

set_file_state-FileOutcome_example :
    FileOutcome "s" "a" FileState.finish pending_session
      (entry "a" "ta")
      (set_file_state "s" "a" FileState.finish offered)
unfolding is_active get
set_file_state-FileOutcome_example =
    set_file_state-FileOutcome "s" "a" FileState.finish pending_session (entry "a" "ta") offered
      offered_filed refl refl (λ p. cc (p.1))

set_file_state-FailOutcome_example :
    FailOutcome "s" "disk full" (set_file_state "s" "zz" (FileState.fail "disk full") offered)
unfolding is_active
set_file_state-FailOutcome_example =
    set_file_state-FailOutcome "s" "zz" "disk full" pending_session offered offered_filed refl
