-- ===== src/Sender/Waiting.antt =====
-- One message of the sending driver to the actor of Session, about another file than the one that
-- waits.
use localsend_rs.Base.{
  string_eq, ℕ, ◌≡◌, refl, ap, ◌∙◌, ◌≢◌, inl, inr, String, false, [], ◌∷◌, arith, some, ◌==◌,
  ==_refl, all, Option-cases, Bool-cases,
}
use localsend_rs.HashMap.{HashMap, get, values}
use localsend_rs.HashMap.Laws.{get-insert}
use localsend_rs.Model.{MissionState, FileState, state_changed, progress}
use localsend_rs.Session.State.{Session, FileEntry, Actor, is_active}
use localsend_rs.Session.Transitions.{
  broadcast_index, store, is_settled, is_complete, set_state, check_finish, fail_session,
  failed_session, settle_file, set_file_state, write_file_state,
}
use localsend_rs.Session.Actor.{handle_report_progress}
use localsend_rs.Session.Finishing.{finish_session, get-check_finish, get-fail_session}

-- The session under `id` is not finished, and the file `fid` waits as it did.
pub record Waits (id fid : String) (f : FileEntry) (a : Actor) : Type 0 where
  pub now : Session
  pub filed : get id a.sessions ≡ some now
  pub waits : get fid now.files ≡ some f
  pub unfinished : now.state ≢ MissionState.finished

all-is_settled-false :
    (fid : String) (f : FileEntry) (m : HashMap String FileEntry)
    → get fid m ≡ some f
    → is_settled f ≡ false
    → all is_settled (values m) ≡ false
unfolding get
all-is_settled-false fid f [] g waiting = cc g
all-is_settled-false fid f ((j, e) ∷ m) g waiting = ground (arith, all-is_settled-false fid f m)

finish_session_waiting :
    (fid : String) (f : FileEntry) (s : Session)
    → get fid s.files ≡ some f
    → is_settled f ≡ false
    → finish_session s ≡ s
unfolding finish_session is_complete
finish_session_waiting fid f s g waiting =
    ground (arith, all-is_settled-false fid f s.files g waiting)

store-get : (id : String) (s : Session) (a : Actor) → get id (store id s a).sessions ≡ some s
unfolding store
store-get id s a = rw (get-insert id id s a.sessions, ==_refl id)

write_file_state_others :
    (j fid : String) (state : FileState) (s : Session)
    → (j == fid) ≡ false
    → (get fid (write_file_state j state s).files ≡ get fid s.files)
      × ((write_file_state j state s).state ≡ s.state)
unfolding write_file_state
write_file_state_others j fid state s other = elim (Option-cases (get j s.files)) [
  | inl e ↦ rw (e, write_file_state) (refl, refl)
  | inr (f, e) ↦
      rw (e, write_file_state)
        (rw (get-insert j fid (record f { state = state }) s.files, other), refl)
]

check_finish-Waits :
    (id fid : String) (f : FileEntry) (s : Session) (a : Actor)
    → is_settled f ≡ false
    → get id a.sessions ≡ some s
    → get fid s.files ≡ some f
    → s.state ≢ MissionState.finished
    → Waits id fid f (broadcast_index (check_finish id a))
unfolding broadcast_index
check_finish-Waits id fid f s a waiting filed g unfinished = record {
  now = s;
  filed =
      get-check_finish id s a filed ∙ ap (λ t. some t) (finish_session_waiting fid f s g waiting);
  waits = g;
  unfinished = unfinished;
}

fail_session-Waits :
    (id fid : String) (f : FileEntry) (msg : String) (s : Session) (a : Actor)
    → get id a.sessions ≡ some s
    → get fid s.files ≡ some f
    → s.state ≢ MissionState.finished
    → Waits id fid f (fail_session id msg a)
unfolding fail_session failed_session
fail_session-Waits id fid f msg s a filed g unfinished = elim (Bool-cases (is_active s)) [
  | inr over ↦
      rw (filed, fail_session, over)
        (record { now = s; filed = filed; waits = g; unfinished = unfinished })
  | inl live ↦ record {
    now = failed_session msg s;
    filed = get-fail_session id msg s a filed live;
    waits = g;
    unfinished = λ e. cc e;
  }
]

settle_file-Waits :
    (id fid : String) (f : FileEntry) (state : FileState) (s : Session) (a : Actor)
    → is_settled f ≡ false
    → get id a.sessions ≡ some s
    → get fid s.files ≡ some f
    → s.state ≢ MissionState.finished
    → Waits id fid f (settle_file id state a)
unfolding settle_file
settle_file-Waits id fid f (FileState.fail msg) s a waiting filed g unfinished =
    fail_session-Waits id fid f msg s a filed g unfinished
settle_file-Waits id fid f FileState.pending s a waiting filed g unfinished =
    check_finish-Waits id fid f s a waiting filed g unfinished
settle_file-Waits id fid f FileState.transfer s a waiting filed g unfinished =
    check_finish-Waits id fid f s a waiting filed g unfinished
settle_file-Waits id fid f FileState.finish s a waiting filed g unfinished =
    check_finish-Waits id fid f s a waiting filed g unfinished
settle_file-Waits id fid f FileState.skip s a waiting filed g unfinished =
    check_finish-Waits id fid f s a waiting filed g unfinished

pub set_file_state-Waits :
    (id j fid : String) (f : FileEntry) (state : FileState) (a : Actor)
    → is_settled f ≡ false
    → (j == fid) ≡ false
    → Waits id fid f a
    → Waits id fid f (set_file_state id j state a)
unfolding set_file_state
set_file_state-Waits id j fid f state a waiting other h = elim (Bool-cases (is_active h.now)) [
  | inr over ↦ rw (h.filed, set_file_state, over) h
  | inl live ↦
      let w = write_file_state j state h.now in
      let (same, kept) = write_file_state_others j fid state h.now other in
      rw (h.filed, set_file_state, live)
        (settle_file-Waits id fid f state w (store id w a) waiting (store-get id w a)
          (same ∙ h.waits) (rw kept h.unfinished))
]

pub set_state-Waits :
    (id fid : String) (f : FileEntry) (a : Actor)
    → Waits id fid f a
    → Waits id fid f (set_state id MissionState.transfering a)
unfolding set_state broadcast_index
set_state-Waits id fid f a h = elim (Bool-cases (is_active h.now)) [
  | inr over ↦ rw (h.filed, set_state, over) h
  | inl live ↦
      rw (h.filed, set_state, live)
        (record {
          now = record h.now {
            state = MissionState.transfering;
            events = state_changed MissionState.transfering ∷ h.now.events;
          };
          filed = store-get id _ a;
          waits = h.waits;
          unfinished = λ e. cc e;
        })
]

pub report_progress-Waits :
    (id fid j : String) (f : FileEntry) (n : ℕ) (a : Actor)
    → Waits id fid f a
    → Waits id fid f (handle_report_progress id j n a)
unfolding handle_report_progress
report_progress-Waits id fid j f n a h =
    rw (h.filed, handle_report_progress)
      (record {
        now = record h.now { events = progress j n ∷ h.now.events };
        filed = store-get id _ a;
        waits = h.waits;
        unfinished = h.unfinished;
      })
