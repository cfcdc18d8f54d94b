-- ===== src/Session/Uploading.antt =====
-- A file of a session from the start of its transfer to its end.
use localsend_rs.Base.{string_eq, suc, ◌≡◌, ◌∙◌, ◌≢◌, ◌↔◌, String, false, some, ◌==◌, ==_refl}
use localsend_rs.HashMap.{get, insert}
use localsend_rs.HashMap.Laws.{get-insert}
use localsend_rs.Model.{MissionState, FileState, is_terminal}
use localsend_rs.Session.State.{Session, FileEntry, Actor, is_active}
use localsend_rs.Session.Transitions.{set_file_state}
use localsend_rs.Session.Finishing.{set_file_state-FileOutcome}
use localsend_rs.Session.Unsettled.{unsettled, unsettled_iff, fewer_unsettled}

-- What one transfer of the file `fid` does to the session.
pub record UploadStep (fid : String) (s now : Session) : Type 0 where
  pub direction : now.direction ≡ s.direction
  pub token_index : now.token_index ≡ s.token_index
  pub others : (j : String) → (fid == j) ≡ false → get j now.files ≡ get j s.files
  pub fewer : suc (unsettled now) ≡ unsettled s
  pub finishes : (now.state ≡ MissionState.finished) ↔ (unsettled now ≡ 0)
  pub else_runs : now.state ≢ MissionState.finished → now.state ≡ MissionState.transfering

-- The session as it is while the file is received.
pub record Receiving (fid : String) (f : FileEntry) (s t : Session) : Type 0 where
  pub state : t.state ≡ s.state
  pub direction : t.direction ≡ s.direction
  pub files : t.files ≡ insert fid (record f { state = FileState.transfer }) s.files
  pub token_index : t.token_index ≡ s.token_index

-- The file has been received or sent.
pub finish-UploadStep :
    (id fid : String) (f : FileEntry) (s t : Session) (a : Actor)
    → s.state ≡ MissionState.transfering
    → get fid s.files ≡ some f
    → is_terminal f.state ≡ false
    → Receiving fid f s t
    → get id a.sessions ≡ some t
    → (now : Session) × (get id (set_file_state id fid FileState.finish a).sessions ≡ some now)
      × UploadStep fid s now
unfolding unsettled
finish-UploadStep id fid f s t a running known unfinished r filed =
    let during = record f { state = FileState.transfer } in
    let there : get fid t.files ≡ some during =
      rw (r.files, get-insert fid fid during s.files, ==_refl fid) in
    let o =
      set_file_state-FileOutcome id fid FileState.finish t during a filed
        (unfold is_active in rw (r.state, running)) there (λ p. cc (p.1)) in
    let written : o.now.files
        ≡ insert fid (record f { state = FileState.finish }) (insert fid during s.files) =
      o.files ∙ rw r.files in
    (
      o.now,
      o.filed,
      record {
        direction = o.same_direction ∙ r.direction;
        token_index = o.same_tokens ∙ r.token_index;
        others = λ j other. rw (
          written,
          get-insert fid j (record f { state = FileState.finish }) (insert fid during s.files),
          get-insert fid j during s.files,
          other,
        );
        fewer = rw written (fewer_unsettled fid f s.files known unfinished);
        finishes = (
          λ h. (unsettled_iff o.now.files).1 (o.finishes.0 h),
          λ h. o.finishes.1 ((unsettled_iff o.now.files).0 h),
        );
        else_runs = λ h. o.else_same h ∙ r.state ∙ running;
      },
    )
