-- ===== src/Server/Step.antt =====
-- One upload that goes through, and what it does to the session.
use localsend_rs.Base.{string_eq, ℕ, ◌≡◌, refl, String, true, false, arith, some, ==_refl, All}
use localsend_rs.HashMap.{get}
use localsend_rs.HashMap.Laws.{get-insert}
use localsend_rs.TurnServer.State.{ascii}
use localsend_rs.Model.{MissionState, FileState, UploadTask, is_terminal}
use localsend_rs.Session.State.{Session, FileEntry, Actor, Reply, ok, is_receive}
use localsend_rs.Session.Transitions.{broadcast_index, store, set_file_state}
use localsend_rs.Session.Actor.{
  startable_file, started_session, handle_start_file, handle_finish_file, file_of_token, run,
}
use localsend_rs.Server.Stored.{intact, Faultless, stream_to_file-copied}
use localsend_rs.Server.Routes.{Core}
use localsend_rs.Server.Upload.{Transfer, Arm, UploadResult, started_of, upload_end, handle_upload}
use localsend_rs.Session.Progress.{IsProgress, IsSame, SameAt, run-SameAt}
use localsend_rs.Session.Uploading.{Receiving, UploadStep, finish-UploadStep}

-- The session takes an upload with this token, for the file `fid`.
pub record IsReady (s : Session) (token fid : String) : Type 0 where
  pub entry : FileEntry
  pub named : get token s.token_index ≡ some fid
  pub known : get fid s.files ≡ some entry
  pub unfinished : is_terminal entry.state ≡ false

-- A receive session that was accepted and has not ended.
pub record IsOpen (s : Session) : Type 0 where
  pub receives : is_receive s.direction ≡ true
  pub running : s.state ≡ MissionState.transfering

pub record GoesThrough (t : Transfer) : Type 0 where
  pub ended : t.arm ≡ Arm.copy_ended
  pub whole : intact t.pieces ≡ true
  pub faultless : Faultless t.faults
  pub reports : All IsProgress t.meanwhile

startable :
    (s : Session) (token fid : String)
    → IsOpen s
    → (ready : IsReady s token fid) → startable_file token s ≡ ok (fid, ready.entry)
unfolding startable_file is_terminal
startable s token fid live ready =
    ground (arith, live.receives, live.running, ready.named, ready.known, ready.unfinished)

file_of_token-named :
    (id token fid : String) (s : Session) (a : Actor)
    → get id a.sessions ≡ some s
    → get token s.token_index ≡ some fid
    → file_of_token id token a ≡ some fid
unfolding file_of_token
file_of_token-named id token fid s a filed named = rw (filed, file_of_token) named

finish_file-named :
    (id token fid : String) (state : FileState) (s : Session) (a : Actor)
    → get id a.sessions ≡ some s
    → get token s.token_index ≡ some fid
    → handle_finish_file id token state a ≡ set_file_state id fid state a
unfolding handle_finish_file
finish_file-named id token fid state s a filed named =
    rw (file_of_token-named id token fid s a filed named, handle_finish_file)

finish_file-UploadStep :
    (id token fid : String) (f : FileEntry) (s t : Session) (a : Actor)
    → IsOpen s
    → get fid s.files ≡ some f
    → is_terminal f.state ≡ false
    → get token s.token_index ≡ some fid
    → Receiving fid f s t
    → get id a.sessions ≡ some t
    → (now : Session) × (get id (handle_finish_file id token FileState.finish a).sessions
        ≡ some now)
      × UploadStep fid s now
finish_file-UploadStep id token fid f s t a live known unfinished named r filed =
    rw (finish_file-named id token fid FileState.finish t a filed (rw r.token_index named))
      (finish-UploadStep id fid f s t a live.running known unfinished r filed)

-- The actor once the upload has begun.
abbrev begun : String → String → FileEntry → Session → Actor → Actor
begun id fid f s a = broadcast_index (store id (started_session fid f s) a)

handle_start_file-begun :
    (id token fid : String) (f : FileEntry) (s : Session) (a : Actor)
    → get id a.sessions ≡ some s
    → startable_file token s ≡ ok (fid, f)
    → handle_start_file id token a ≡ (
      begun id fid f s a,
      Reply.file_task (ok (record { file_id = fid; info = f.info; cancel = id })),
    )
unfolding handle_start_file
handle_start_file-begun id token fid f s a filed took = rw (filed, handle_start_file, took)

begun-SameAt :
    (id fid : String) (f : FileEntry) (s : Session) (a : Actor)
    → SameAt id (started_session fid f s) (begun id fid f s a)
unfolding broadcast_index store
begun-SameAt id fid f s a = record {
  now = started_session fid f s;
  filed = rw (get-insert id id (started_session fid f s) a.sessions, ==_refl id);
  same = record { state = refl; direction = refl; files = refl; token_index = refl };
}

begun-Receiving :
    (fid : String) (f : FileEntry) (s t : Session)
    → IsSame (started_session fid f s) t
    → Receiving fid f s t
unfolding started_session
begun-Receiving fid f s t h = record {
  state = h.state;
  direction = h.direction;
  files = h.files;
  token_index = h.token_index;
}

-- The sessions after an upload that goes through.
abbrev finished_upload :
    (ℕ → String) → UploadTask → Transfer → String → FileEntry → Session → Actor → Actor
finished_upload new_v4 task transfer fid f s a =
    handle_finish_file task.session_id task.token FileState.finish
      (run new_v4 transfer.meanwhile (begun task.session_id fid f s a))

handle_upload-through :
    (new_v4 : ℕ → String) (task : UploadTask) (transfer : Transfer) (core : Core) (s : Session)
    (fid : String) (f : FileEntry)
    → get task.session_id core.sessions.sessions ≡ some s
    → startable_file task.token s ≡ ok (fid, f)
    → GoesThrough transfer
    → ((handle_upload new_v4 task transfer core).1 ≡ UploadResult.uploaded)
      × ((handle_upload new_v4 task transfer core).0.sessions
          ≡ finished_upload new_v4 task transfer fid f s core.sessions)
unfolding handle_upload started_of upload_end
handle_upload-through new_v4 task transfer core s fid f filed took through =
    let stored =
      stream_to_file-copied transfer.faults core.store_path (ascii f.info.file_name) transfer.pieces
        core.disk through.faultless through.whole in
    ground (
      arith,
      handle_start_file-begun task.session_id task.token fid f s core.sessions filed took,
      stored,
      through.ended,
    )

-- An upload that goes through is answered with success, and marks its file as finished: no other
-- file changes, and the session is finished exactly when no file is left.
pub handle_upload-UploadStep :
    (new_v4 : ℕ → String) (task : UploadTask) (transfer : Transfer) (core : Core) (s : Session)
    (fid : String)
    → get task.session_id core.sessions.sessions ≡ some s
    → IsOpen s
    → IsReady s task.token fid
    → GoesThrough transfer
    → ((handle_upload new_v4 task transfer core).1 ≡ UploadResult.uploaded)
      × ((now : Session) × (get task.session_id
              (handle_upload new_v4 task transfer core).0.sessions.sessions
            ≡ some now)
          × UploadStep fid s now)
handle_upload-UploadStep new_v4 task transfer core s fid filed live ready through =
    let f = ready.entry in
    let (won, left) =
      handle_upload-through new_v4 task transfer core s fid f filed
        (startable s task.token fid live ready) through in
    let during =
      run-SameAt new_v4 task.session_id (started_session fid f s) transfer.meanwhile _
        through.reports (begun-SameAt task.session_id fid f s core.sessions) in
    (
      won,
      rw left (
          finish_file-UploadStep task.session_id task.token fid f s during.now _ live ready.known
            ready.unfinished ready.named (begun-Receiving fid f s during.now during.same)
            during.filed),
    )
