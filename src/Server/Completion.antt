-- ===== src/Server/Completion.antt =====
-- Uploading every file of a session finishes it.
use localsend_rs.Base.{
  string_eq, ℕ, suc, ◌≡◌, ◌∙◌, String, List, [], ◌∷◌, false, arith, some, ◌==◌, All, length,
}
use localsend_rs.HashMap.{get}
use localsend_rs.Model.{MissionState, UploadTask}
use localsend_rs.Session.State.{Session}
use localsend_rs.Server.Routes.{Core}
use localsend_rs.Server.Upload.{Transfer, handle_upload}
use localsend_rs.Session.Unsettled.{unsettled}
use localsend_rs.Session.Uploading.{UploadStep}
use localsend_rs.Server.Step.{IsReady, IsOpen, GoesThrough, handle_upload-UploadStep}

-- One upload after the other.
unfoldable pub upload_all : (ℕ → String) → List (UploadTask × Transfer) → Core → Core
unfolding handle_upload
upload_all new_v4 [] core = core
upload_all new_v4 ((task, transfer) ∷ uploads) core =
    upload_all new_v4 uploads (handle_upload new_v4 task transfer core).0

-- The upload belongs to the session under `id` and can be carried out.
pub record IsFeasible (id : String) (s : Session) (u : UploadTask × Transfer) : Type 0 where
  pub here : u.0.session_id ≡ id
  pub ready : IsReady s u.0.token u.0.file_id
  pub through : GoesThrough u.1

-- No file is uploaded twice.
abbrev pub Distinct : List (UploadTask × Transfer) → Type 0
Distinct [] = Unit
Distinct (u ∷ us) = All (λ v. (u.0.file_id == v.0.file_id) ≡ false) us × Distinct us

IsFeasible-UploadStep :
    (id fid : String) (s now : Session) (us : List (UploadTask × Transfer))
    → UploadStep fid s now
    → All (λ v. (fid == v.0.file_id) ≡ false) us
    → All (IsFeasible id s) us
    → All (IsFeasible id now) us
IsFeasible-UploadStep id fid s now [] step others all = tt
IsFeasible-UploadStep id fid s now (u ∷ us) step (other, others) (h, all) = (
  record {
    here = h.here;
    ready = record {
      entry = h.ready.entry;
      named = rw step.token_index h.ready.named;
      known = step.others u.0.file_id other ∙ h.ready.known;
      unfinished = h.ready.unfinished;
    };
    through = h.through;
  },
  IsFeasible-UploadStep id fid s now us step others all,
)

IsOpen-UploadStep :
    (fid : String) (s now : Session) (n : ℕ)
    → UploadStep fid s now
    → IsOpen s
    → unsettled now ≡ suc n
    → IsOpen now
IsOpen-UploadStep fid s now n step live more = record {
  receives = rw step.direction live.receives;
  running = step.else_runs (λ h. ground (arith, step.finishes.0 h));
}

-- When each file of an accepted session that was neither received nor left out is uploaded once,
-- in any order, and the uploads go through, the session ends as finished. Progress reports of any
-- session may come in between.
pub upload_all-finishes :
    (new_v4 : ℕ → String) (id : String) (u : UploadTask × Transfer)
    (us : List (UploadTask × Transfer)) (core : Core) (s : Session)
    → get id core.sessions.sessions ≡ some s
    → IsOpen s
    → All (IsFeasible id s) (u ∷ us)
    → Distinct (u ∷ us)
    → length (u ∷ us) ≡ unsettled s
    → (now : Session) × (get id (upload_all new_v4 (u ∷ us) core).sessions.sessions ≡ some now)
      × (now.state ≡ MissionState.finished)
unfolding upload_all
upload_all-finishes new_v4 id (task, transfer) [] core s filed live (h, _) _ total =
    let (won, (now, found, step)) =
      handle_upload-UploadStep new_v4 task transfer core s task.file_id (rw h.here filed) live
        h.ready h.through in
    (now, rw (← h.here) found, step.finishes.1 (ground (arith, step.fewer)))
upload_all-finishes new_v4 id (task, transfer) (v ∷ us) core s filed live (h, all)
      (others, distinct) total =
    let (won, (now, found, step)) =
      handle_upload-UploadStep new_v4 task transfer core s task.file_id (rw h.here filed) live
        h.ready h.through in
    upload_all-finishes new_v4 id v us (handle_upload new_v4 task transfer core).0 now
      (rw (← h.here) found)
      (IsOpen-UploadStep task.file_id s now (length us) step live (omega (arith, step.fewer)))
      (IsFeasible-UploadStep id task.file_id s now (v ∷ us) step others all) distinct
      (omega (arith, step.fewer))
