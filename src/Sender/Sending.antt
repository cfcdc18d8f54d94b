-- ===== src/Sender/Sending.antt =====
-- One file that arrives, as the sender's session sees it.
use localsend_rs.Base.{
  string_eq, ℕ, ◌≡◌, refl, ◌∙◌, String, List, [], ◌∷◌, map, false, some, All, ==_refl, inl, inr,
}
use localsend_rs.HashMap.{get, insert}
use localsend_rs.HashMap.Laws.{get-insert}
use localsend_rs.Model.{MissionState, FileState, is_terminal}
use localsend_rs.Session.State.{Session, FileEntry, Actor, Message, is_active}
use localsend_rs.Session.Transitions.{set_file_state}
use localsend_rs.Session.Actor.{handle_message, run}
use localsend_rs.Session.Finishing.{set_file_state-FileOutcome}
use localsend_rs.Session.Unsettled.{IsSettled-get}
use localsend_rs.Session.Progress.{IsProgress, IsSame, run-SameAt, run-append}
use localsend_rs.Session.Uploading.{Receiving, UploadStep, finish-UploadStep}
use localsend_rs.Sender.Driver.{World, Upload, progress_reports, upload_one}

reports-IsProgress :
    (id fid : String) (ns : List ℕ)
    → All IsProgress (map (λ n. Message.report_progress id fid n) ns)
reports-IsProgress id fid [] = tt
reports-IsProgress id fid (n ∷ ns) = ((id, fid, n, refl), reports-IsProgress id fid ns)

-- A session with a file in transfer.
transfer-Receiving :
    (id fid : String) (f : FileEntry) (s : Session) (a : Actor)
    → s.state ≡ MissionState.transfering
    → get id a.sessions ≡ some s
    → get fid s.files ≡ some f
    → (now : Session) × (get id (set_file_state id fid FileState.transfer a).sessions ≡ some now)
      × Receiving fid f s now
transfer-Receiving id fid f s a running filed known =
    let during = record f { state = FileState.transfer } in
    let o =
      set_file_state-FileOutcome id fid FileState.transfer s f a filed
        (unfold is_active in rw running) known (λ p. cc (p.1)) in
    let written : o.now.files ≡ insert fid during s.files = o.files in
    let there : get fid o.now.files ≡ some during =
      rw (written, get-insert fid fid during s.files, ==_refl fid) in
    (
      o.now,
      o.filed,
      record {
        state = o.else_same (λ h.
            elim (IsSettled-get fid during o.now.files there (o.finishes.0 h)) [
              | inl e ↦ cc e
              | inr e ↦ cc e
            ]);
        direction = o.same_direction;
        files = written;
        token_index = o.same_tokens;
      },
    )

Receiving-IsSame :
    (fid : String) (f : FileEntry) (s t u : Session)
    → Receiving fid f s t
    → IsSame t u
    → Receiving fid f s u
Receiving-IsSame fid f s t u r h = record {
  state = h.state ∙ r.state;
  direction = h.direction ∙ r.direction;
  files = h.files ∙ r.files;
  token_index = h.token_index ∙ r.token_index;
}

-- The actor after the messages about one file that arrives.
abbrev pub after_sent : (ℕ → String) → World → String → String → Actor → Actor
after_sent new_v4 w id fid a =
    set_file_state id fid FileState.finish
      (run new_v4 (progress_reports w id fid) (set_file_state id fid FileState.transfer a))

pub run-upload_one :
    (new_v4 : ℕ → String) (w : World) (id fid : String) (rest : List Message) (a : Actor)
    → run new_v4 (upload_one w id fid Upload.sent rest) a
      ≡ run new_v4 rest (after_sent new_v4 w id fid a)
unfolding upload_one run handle_message
run-upload_one new_v4 w id fid rest a = run-append new_v4 (progress_reports w id fid) _ _

pub after_sent-UploadStep :
    (new_v4 : ℕ → String) (w : World) (id fid : String) (f : FileEntry) (s : Session) (a : Actor)
    → s.state ≡ MissionState.transfering
    → get id a.sessions ≡ some s
    → get fid s.files ≡ some f
    → is_terminal f.state ≡ false
    → (now : Session) × (get id (after_sent new_v4 w id fid a).sessions ≡ some now)
      × UploadStep fid s now
unfolding progress_reports
after_sent-UploadStep new_v4 w id fid f s a running filed known unfinished =
    let (t, found, r) = transfer-Receiving id fid f s a running filed known in
    let during =
      run-SameAt new_v4 id t (progress_reports w id fid) _
        (reports-IsProgress id fid (w.progress fid))
        (record {
          now = t;
          filed = found;
          same = record { state = refl; direction = refl; files = refl; token_index = refl };
        }) in
    finish-UploadStep id fid f s during.now _ running known unfinished
      (Receiving-IsSame fid f s t during.now r during.same) during.filed
