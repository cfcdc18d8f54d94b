-- ===== src/Sender/Completion.antt =====
-- A consent to every file, and uploads that all arrive.
use localsend_rs.Base.{
  string_eq, ℕ, ◌≡◌, refl, ◌∙◌, ◌≢◌, String, true, false, List, [], ◌∷◌, arith, some, ◌==◌, ==_refl,
  All, length,
}
use localsend_rs.HashMap.{HashMap, get}
use localsend_rs.HashMap.Laws.{get-insert}
use localsend_rs.Model.{NodeDevice, FileResponse, MissionState, is_terminal, state_changed}
use localsend_rs.Session.State.{Session, FileEntry, Actor, is_active}
use localsend_rs.Session.Transitions.{broadcast_index, store, set_state}
use localsend_rs.Session.Actor.{handle_message, run}
use localsend_rs.Session.Unsettled.{unsettled}
use localsend_rs.Session.Uploading.{UploadStep}
use localsend_rs.Sender.Driver.{
  World, Upload, Entries, is_entry, upload_files, send_files, send_accepted,
}
use localsend_rs.Sender.Sending.{after_sent, run-upload_one, after_sent-UploadStep}

-- The accepted file is one of the sender's, was not settled, and arrives.
pub record Arrives (w : World) (target : NodeDevice) (remote : String) (entries : Entries)
    (m : HashMap String FileEntry) (file : String × String) : Type 0 where
  pub entry : FileEntry
  pub known : get file.0 m ≡ some entry
  pub unfinished : is_terminal entry.state ≡ false
  pub offered : is_entry file.0 entries ≡ true
  pub sent : w.upload target remote file.0 file.1 ≡ Upload.sent

-- No file is accepted twice.
abbrev pub Distinct : List (String × String) → Type 0
Distinct [] = Unit
Distinct (u ∷ us) = All (λ v. (u.0 == v.0) ≡ false) us × Distinct us

Arrives-UploadStep :
    (w : World) (target : NodeDevice) (remote : String) (entries : Entries) (fid : String)
    (s now : Session) (files : List (String × String))
    → UploadStep fid s now
    → All (λ v. (fid == v.0) ≡ false) files
    → All (Arrives w target remote entries s.files) files
    → All (Arrives w target remote entries now.files) files
Arrives-UploadStep w target remote entries fid s now [] step others all = tt
Arrives-UploadStep w target remote entries fid s now (file ∷ files) step (other, others) (h, all) =
    (
      record {
        entry = h.entry;
        known = step.others file.0 other ∙ h.known;
        unfinished = h.unfinished;
        offered = h.offered;
        sent = h.sent;
      },
      Arrives-UploadStep w target remote entries fid s now files step others all,
    )

set_state-get :
    (id : String) (state : MissionState) (s : Session) (a : Actor)
    → get id a.sessions ≡ some s
    → is_active s ≡ true
    → get id (set_state id state a).sessions
      ≡ some (record s { state = state; events = state_changed state ∷ s.events })
unfolding set_state broadcast_index store
set_state-get id state s a filed live =
    let new = record s { state = state; events = state_changed state ∷ s.events } in
    rw (filed, set_state, live) (rw (get-insert id id new a.sessions, ==_refl id))

run-upload_files :
    (new_v4 : ℕ → String) (w : World) (id : String) (target : NodeDevice) (remote : String)
    (entries : Entries) (file : String × String) (files : List (String × String)) (s : Session)
    (a : Actor)
    → Arrives w target remote entries s.files file
    → run new_v4 (upload_files w id target remote entries (file ∷ files)) a
      ≡ run new_v4 (upload_files w id target remote entries files) (after_sent new_v4 w id file.0 a)
unfolding upload_files
run-upload_files new_v4 w id target remote entries (fid, token) files s a h =
    rw (h.offered, h.sent)
      (run-upload_one new_v4 w id fid (upload_files w id target remote entries files) a)

upload_files-finishes :
    (new_v4 : ℕ → String) (w : World) (id : String) (target : NodeDevice) (remote : String)
    (entries : Entries) (file : String × String) (files : List (String × String)) (s : Session)
    (a : Actor)
    → get id a.sessions ≡ some s
    → s.state ≡ MissionState.transfering
    → All (Arrives w target remote entries s.files) (file ∷ files)
    → Distinct (file ∷ files)
    → length (file ∷ files) ≡ unsettled s
    → (now : Session) × (get id
          (run new_v4 (upload_files w id target remote entries (file ∷ files)) a).sessions
        ≡ some now)
      × (now.state ≡ MissionState.finished)
upload_files-finishes new_v4 w id target remote entries (fid, token) [] s a filed running (h, _) _
      total =
    let (now, found, step) =
      after_sent-UploadStep new_v4 w id fid h.entry s a running filed h.known h.unfinished in
    (
      now,
      rw (run-upload_files new_v4 w id target remote entries (fid, token) [] s a h)
          (unfold upload_files run in found),
      step.finishes.1 (ground (arith, step.fewer)),
    )
upload_files-finishes new_v4 w id target remote entries (fid, token) (next ∷ files) s a filed
      running (h, all) (others, distinct) total =
    let (now, found, step) =
      after_sent-UploadStep new_v4 w id fid h.entry s a running filed h.known h.unfinished in
    rw (run-upload_files new_v4 w id target remote entries (fid, token) (next ∷ files) s a h) (
      upload_files-finishes new_v4 w id target remote entries next files now
        (after_sent new_v4 w id fid a) found
        (step.else_runs (λ e. ground (arith, step.finishes.0 e, step.fewer)))
        (Arrives-UploadStep w target remote entries fid s now (next ∷ files) step others all)
        distinct (omega (arith, step.fewer)))

send_files-finishes :
    (new_v4 : ℕ → String) (w : World) (id : String) (target : NodeDevice) (remote : String)
    (entries : Entries) (files : List (String × String)) (s : Session) (a : Actor)
    → get id a.sessions ≡ some s
    → is_active s ≡ true
    → files ≢ []
    → All (Arrives w target remote entries s.files) files
    → Distinct files
    → length files ≡ unsettled s
    → (now : Session) × (get id
          (run new_v4 (send_files w id target remote entries files) a).sessions
        ≡ some now)
      × (now.state ≡ MissionState.finished)
unfolding send_files run handle_message unsettled
send_files-finishes new_v4 w id target remote entries [] s a filed live some_file all distinct
      total =
    absurd (some_file refl)
send_files-finishes new_v4 w id target remote entries (file ∷ files) s a filed live some_file all
      distinct total =
    upload_files-finishes new_v4 w id target remote entries file files _
      (set_state id MissionState.transfering a)
      (set_state-get id MissionState.transfering s a filed live) refl all distinct total

-- When the receiver accepts every file that is not settled, each once, and every upload arrives,
-- the sender's session, which was active, ends as finished.
pub send_accepted-finishes :
    (new_v4 : ℕ → String) (w : World) (id : String) (target : NodeDevice) (entries : Entries)
    (response : FileResponse) (s : Session) (a : Actor)
    → get id a.sessions ≡ some s
    → is_active s ≡ true
    → response.files ≢ []
    → All (Arrives w target response.session_id entries s.files) response.files
    → Distinct response.files
    → length response.files ≡ unsettled s
    → (now : Session) × (get id (run new_v4 (send_accepted w id target entries response) a).sessions
        ≡ some now)
      × (now.state ≡ MissionState.finished)
unfolding send_accepted
send_accepted-finishes new_v4 w id target entries response =
    send_files-finishes new_v4 w id target response.session_id entries response.files
