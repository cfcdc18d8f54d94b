-- ===== src/Session/Finishing.antt =====
-- When a session finishes or fails by its files.
use localsend_rs.Base.{
  string_eq, ◌==◌, ◌≡◌, refl, ◌∙◌, ◌↔◌, ◌⊎◌, String, List, [], ◌∷◌, true, false, arith, some, none,
  ==_refl, if◌then◌else◌, all, All, ◌≢◌,
}
use localsend_rs.HashMap.{HashMap, get, insert, values}
use localsend_rs.HashMap.Laws.{get-insert}
use localsend_rs.Model.{MissionState, FileState, state_changed, SessionEvent}
use localsend_rs.Session.State.{Session, FileEntry, Actor, is_active}
use localsend_rs.Session.Transitions.{
  broadcast_index, store, check_finish, is_complete, is_settled, is_empty, settle_file,
  set_file_state, write_file_state, fail_session, failed_session,
}

-- The session as `check_finish` leaves it.
unfoldable pub finish_session : Session → Session
unfolding is_complete
finish_session s =
    if is_complete s
    then record s {
      state = MissionState.finished;
      events = state_changed MissionState.finished ∷ s.events;
    }
    else s

pub get-check_finish :
    (id : String) (s : Session) (a : Actor)
    → get id a.sessions ≡ some s
    → get id (check_finish id a).sessions ≡ some (finish_session s)
unfolding check_finish finish_session broadcast_index store is_complete
get-check_finish id s a g =
    ground (arith, g, get-insert id id (finish_session s) a.sessions, ==_refl id)

pub answers-check_finish : (id : String) (a : Actor) → (check_finish id a).answers ≡ a.answers
unfolding check_finish broadcast_index store
answers-check_finish id a = ground arith

-- The file was received or left out.
abbrev pub IsSettled : FileEntry → Type 0
IsSettled f = (f.state ≡ FileState.finish) ⊎ (f.state ≡ FileState.skip)

pub is_settled_iff : (f : FileEntry) → (is_settled f ≡ true) ↔ IsSettled f
unfolding is_settled
is_settled_iff f = ground arith

all-is_settled :
    (files : HashMap String FileEntry)
    → (all is_settled (values files) ≡ true) ↔ All IsSettled (values files)
all-is_settled [] = (λ _. tt, λ _. refl)
all-is_settled ((j, f) ∷ m) = ground (arith, is_settled_iff f, all-is_settled m)

is_empty-false {ℓ} : {A : Type ℓ} (xs : List A) → xs ≢ [] → is_empty xs ≡ false
is_empty-false [] h = absurd (h refl)
is_empty-false (x ∷ xs) h = refl

finish_session_iff :
    (s : Session)
    → is_active s ≡ true
    → s.files ≢ []
    → ((finish_session s).state ≡ MissionState.finished) ↔ All IsSettled (values s.files)
unfolding finish_session is_active
finish_session_iff s live some_file =
    ground (arith, all-is_settled s.files, is_empty-false s.files some_file)

finish_session-files : (s : Session) → (finish_session s).files ≡ s.files
unfolding finish_session
finish_session-files s = ground arith

finish_session-state :
    (s : Session)
    → (finish_session s).state ≢ MissionState.finished
    → (finish_session s).state ≡ s.state
unfolding finish_session
finish_session-state s h = ground arith

finish_session-kept :
    (s : Session)
    → ((finish_session s).direction ≡ s.direction)
      × ((finish_session s).token_index ≡ s.token_index)
unfolding finish_session
finish_session-kept s = ground arith

write_file_state-kept :
    (fid : String) (state : FileState) (s : Session)
    → ((write_file_state fid state s).direction ≡ s.direction)
      × ((write_file_state fid state s).token_index ≡ s.token_index)
unfolding write_file_state
write_file_state-kept fid state s = ground arith

-- The file `fid`, whose entry was `f`, is in the new state, and every other file as it was.
pub record FileOutcome (id fid : String) (state : FileState) (s : Session) (f : FileEntry)
    (a : Actor) : Type 0 where
  pub now : Session
  pub filed : get id a.sessions ≡ some now
  pub files : now.files ≡ insert fid (record f { state = state }) s.files
  pub written : get fid now.files ≡ some (record f { state = state })
  pub others : (j : String) → (fid == j) ≡ false → get j now.files ≡ get j s.files
  pub finishes : (now.state ≡ MissionState.finished) ↔ All IsSettled (values now.files)
  pub else_same : now.state ≢ MissionState.finished → now.state ≡ s.state
  pub same_direction : now.direction ≡ s.direction
  pub same_tokens : now.token_index ≡ s.token_index

-- The states of a file other than a failure.
abbrev pub IsFailure : FileState → Type 0
IsFailure st = (msg : String) × (st ≡ FileState.fail msg)

settle_file-get :
    (id : String) (state : FileState) (s : Session) (a : Actor)
    → ¬ IsFailure state
    → get id a.sessions ≡ some s
    → get id (settle_file id state a).sessions ≡ some (finish_session s)
unfolding settle_file broadcast_index
settle_file-get id (FileState.fail msg) s a no_fail g = absurd (no_fail (msg, refl))
settle_file-get id FileState.pending s a no_fail g = get-check_finish id s a g
settle_file-get id FileState.transfer s a no_fail g = get-check_finish id s a g
settle_file-get id FileState.finish s a no_fail g = get-check_finish id s a g
settle_file-get id FileState.skip s a no_fail g = get-check_finish id s a g

write_file_state_active :
    (fid : String) (state : FileState) (s : Session)
    → is_active (write_file_state fid state s) ≡ is_active s
unfolding write_file_state is_active
write_file_state_active fid state s = ground arith

write_file_state-files :
    (fid : String) (state : FileState) (s : Session) (f : FileEntry)
    → get fid s.files ≡ some f
    → (write_file_state fid state s).files ≡ insert fid (record f { state = state }) s.files
unfolding write_file_state
write_file_state-files fid state s f known = rw (known, write_file_state)

write_file_state-state :
    (fid : String) (state : FileState) (s : Session)
    → (write_file_state fid state s).state ≡ s.state
unfolding write_file_state
write_file_state-state fid state s = ground arith

insert_nonempty :
    (fid : String) (f : FileEntry) (m : HashMap String FileEntry) → insert fid f m ≢ []
unfolding insert
insert_nonempty fid f [] = λ e. cc
insert_nonempty fid f ((j, g) ∷ m) = λ e. ground arith

-- A report on one file of an active session that is no failure puts that file into the reported
-- state and leaves every other file. Then the session is `Finished` exactly when every file is
-- finished or skipped; else its state is as before. The session's direction and tokens stay.
pub set_file_state-FileOutcome :
    (id fid : String) (state : FileState) (s : Session) (f : FileEntry) (a : Actor)
    → get id a.sessions ≡ some s
    → is_active s ≡ true
    → get fid s.files ≡ some f
    → ¬ IsFailure state
    → FileOutcome id fid state s f (set_file_state id fid state a)
unfolding set_file_state
set_file_state-FileOutcome id fid state s f a g live known no_fail =
    let w = write_file_state fid state s in
    let written : w.files ≡ insert fid (record f { state = state }) s.files =
      write_file_state-files fid state s f known in
    let same = finish_session-files w in
    record {
      now = finish_session w;
      filed =
          rw (g, set_file_state, live)
            (settle_file-get id state w (store id w a) no_fail
              (unfold store in rw (get-insert id id w a.sessions, ==_refl id)));
      files = same ∙ written;
      written =
          rw (same, written, get-insert fid fid (record f { state = state }) s.files, ==_refl fid);
      others = λ j other.
          rw (same, written, get-insert fid j (record f { state = state }) s.files, other);
      finishes = rw same (
          finish_session_iff w (rw (write_file_state_active fid state s) live)
            (rw written (insert_nonempty fid _ s.files)));
      else_same = λ h. finish_session-state w h ∙ write_file_state-state fid state s;
      same_direction = (finish_session-kept w).0 ∙ (write_file_state-kept fid state s).0;
      same_tokens = (finish_session-kept w).1 ∙ (write_file_state-kept fid state s).1;
    }

pub record FailOutcome (id msg : String) (b : Actor) : Type 0 where
  pub now : Session
  pub older : List SessionEvent
  pub filed : get id b.sessions ≡ some now
  pub state : now.state ≡ MissionState.failed
  pub cancelled : now.cancelled ≡ true
  pub released : now.decision ≡ none
  pub reason : now.events ≡ SessionEvent.failed msg ∷ older

pub get-fail_session :
    (id msg : String) (s : Session) (a : Actor)
    → get id a.sessions ≡ some s
    → is_active s ≡ true
    → get id (fail_session id msg a).sessions ≡ some (failed_session msg s)
unfolding fail_session broadcast_index store
get-fail_session id msg s a g live =
    ground (arith, g, get-insert id id (failed_session msg s) a.sessions, ==_refl id)

-- A failure of one file, known or not, fails an active session: its token is cancelled, its
-- decision channel is given up, and the latest event is the reason.
pub set_file_state-FailOutcome :
    (id fid msg : String) (s : Session) (a : Actor)
    → get id a.sessions ≡ some s
    → is_active s ≡ true
    → FailOutcome id msg (set_file_state id fid (FileState.fail msg) a)
unfolding set_file_state settle_file failed_session
set_file_state-FailOutcome id fid msg s a g live =
    let w = write_file_state fid (FileState.fail msg) s in
    record {
      now = failed_session msg w;
      older = state_changed MissionState.failed ∷ w.events;
      filed =
          rw (g, set_file_state, live)
            (get-fail_session id msg w (store id w a)
              (unfold store in rw (get-insert id id w a.sessions, ==_refl id))
              (rw (write_file_state_active fid (FileState.fail msg) s) live));
      state = refl;
      cancelled = refl;
      released = refl;
      reason = refl;
    }
