-- ===== src/Sender/Driver.antt =====
-- `run_send_driver` of rust/core/src/handle.rs, from the point where it holds the lock of its
-- target: the messages that it sends to the session actor. The answers of the peer and of the
-- network are the fields of a world.
use localsend_rs.Base.{
  ℕ, String, string_eq, Bool, true, false, not, ◌&&◌, Option, none, some, List, [], ◌∷◌, ◌++◌, map,
  any, ◌==◌, nat_beq, if◌then◌else◌,
}
use localsend_rs.Model.{NodeDevice, FileInfo, FileResponse, FileState, MissionState}
use localsend_rs.Session.State.{Message}

-- What `prepare_upload` of the client gives.
pub data Answer : Type 0 where
  answered : FileResponse → Answer
  status : ℕ → String → Answer
  unreachable : String → Answer
  cancelled : Answer

-- What `upload_file` of the client gives, or the cancellation before it.
pub data Upload : Type 0 where
  sent : Upload
  failed : String → Upload
  cancelled : Upload

-- What `route_transport` gives, and the messages that it sends itself.
pub record Route : Type 0 where
  pub marks : List Message
  pub view : Option NodeDevice
  pub reason : String

pub record World : Type 0 where
  pub relay_configured : Bool
  pub tls_on : Bool
  pub target_is_lan : Bool
  pub route : Bool → NodeDevice → Route
  pub route_is_stun : Bool
  pub prepare : ℕ → NodeDevice → Answer
  pub prepare_failed : Answer → String
  pub upload : NodeDevice → String → String → String → Upload
  pub progress : String → List ℕ

abbrev pub Entries : Type 0
Entries = List (String × FileInfo)

-- `paths.get(file_id)` finds a path.
unfoldable pub is_entry : String → Entries → Bool
is_entry fid entries = any (λ (e : String × FileInfo). e.0 == fid) entries

-- The reports about one file.
unfoldable pub progress_reports : World → String → String → List Message
progress_reports w id fid = map (λ n. Message.report_progress id fid n) (w.progress fid)

-- The messages about one upload, before those about the rest, which come only after a success.
unfoldable pub upload_one : World → String → String → Upload → List Message → List Message
unfolding progress_reports
upload_one w id fid sent rest =
    Message.report_file_state id fid FileState.transfer
    ∷ (progress_reports w id fid ++ Message.report_file_state id fid FileState.finish ∷ rest)
upload_one w id fid (failed msg) rest =
    Message.report_file_state id fid FileState.transfer
    ∷ (progress_reports w id fid ++ Message.report_file_state id fid (FileState.fail msg) ∷ [])
upload_one w id fid cancelled rest =
    Message.report_file_state id fid FileState.transfer ∷ progress_reports w id fid

unfoldable pub upload_files :
    World → String → NodeDevice → String → Entries → List (String × String) → List Message
unfolding is_entry upload_one
upload_files w id target remote entries [] = []
upload_files w id target remote entries ((fid, token) ∷ files) =
    let rest = upload_files w id target remote entries files in
    if is_entry fid entries
    then upload_one w id fid (w.upload target remote fid token) rest
    else rest

unfoldable skip_all : String → Entries → List Message
skip_all id entries =
    map (λ (e : String × FileInfo). Message.report_file_state id e.0 FileState.skip) entries

-- What follows the receiver's consent to these files.
unfoldable pub send_files :
    World → String → NodeDevice → String → Entries → List (String × String) → List Message
unfolding skip_all upload_files
send_files w id target remote entries [] = skip_all id entries
send_files w id target remote entries (file ∷ files) =
    Message.report_state id MissionState.transfering
    ∷ upload_files w id target remote entries (file ∷ files)

unfoldable pub send_accepted : World → String → NodeDevice → Entries → FileResponse → List Message
unfolding send_files
send_accepted w id target entries response =
    send_files w id target response.session_id entries response.files

unfoldable refusal : World → ℕ → String → String
refusal w code body =
    if nat_beq code 403
    then "declined by receiver"
    else if nat_beq code 409
    then "receiver busy"
    else w.prepare_failed (Answer.status code body)

unfoldable conclude : World → String → NodeDevice → Entries → Answer → List Message
unfolding send_accepted refusal
conclude w id target entries (answered response) = send_accepted w id target entries response
conclude w id target entries (status code body) = Message.fail id (refusal w code body) ∷ []
conclude w id target entries (unreachable reason) =
    Message.fail id (w.prepare_failed (Answer.unreachable reason)) ∷ []
conclude w id target entries cancelled = []

-- The route through the relay, tried with `attempt`; `marked` is what marks it.
unfoldable via_relay : World → String → NodeDevice → Entries → ℕ → List Message → List Message
unfolding conclude
via_relay w id target entries attempt marked =
    let routed = w.route true target in
    elim routed.view [
      | none ↦ routed.marks ++ Message.fail id routed.reason ∷ []
      | some bridged ↦
          routed.marks ++ marked ++ conclude w id bridged entries (w.prepare attempt bridged)
    ]

-- The direct attempt, with its fallback for a peer that cannot be reached.
unfoldable direct : World → String → NodeDevice → NodeDevice → Entries → List Message
unfolding conclude via_relay
direct w id target pristine entries = elim (w.prepare 0 target) [
  | answered response ↦ conclude w id target entries (answered response)
  | status code body ↦ conclude w id target entries (status code body)
  | unreachable reason ↦
      if w.relay_configured
      then via_relay w id pristine entries 1 (Message.mark_via_relay id ∷ [])
      else conclude w id target entries (unreachable reason)
  | cancelled ↦ []
]

unfoldable pub run_send_driver : World → String → NodeDevice → Entries → Bool → List Message
unfolding via_relay direct
run_send_driver w id target entries force_relay =
    if force_relay
    then (if w.relay_configured
        then via_relay w id target entries 0
            (if w.route_is_stun then [] else Message.mark_via_relay id ∷ [])
        else Message.fail id "via-relay requested but no relay is configured" ∷ [])
    else if w.tls_on && not (w.relay_configured && not w.target_is_lan)
    then (let routed = w.route false target in
        elim routed.view [
          | none ↦ routed.marks ++ Message.fail id routed.reason ∷ []
          | some bridged ↦ routed.marks ++ direct w id bridged target entries
        ])
    else direct w id target target entries
