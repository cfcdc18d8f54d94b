-- ===== src/Session/Accepting.antt =====
-- What an acceptance does to the files of a session.
use localsend_rs.Base.{
  string_eq, ℕ, ◌≡◌, refl, ◌∙◌, ◌⊎◌, String, List, ◌∷◌, true, false, arith, some, none, Option,
  ==_refl, if◌then◌else◌,
}
use localsend_rs.HashMap.{HashMap, get, map_entries}
use localsend_rs.HashMap.Laws.{get-insert, get-map_entries}
use localsend_rs.Model.{MissionState, FileState, is_terminal}
use localsend_rs.Session.State.{
  Session, FileEntry, Actor, Decision, accepted, Reply, SessionError, ok, err,
}
use localsend_rs.Session.Transitions.{broadcast_index, store, answer}
use localsend_rs.Session.Decide.{
  handle_accept, is_decidable, accepted_ids, accepted_session, accepted_tokens, contains,
  skip_unless,
}
use localsend_rs.Session.Finishing.{finish_session, get-check_finish, answers-check_finish}
use localsend_rs.Session.Actor.{startable_file, handle_start_file}
use localsend_rs.Session.Tokens.{
  wants, contains-accepted_ids, get-accepted_tokens, get-accepted_tokens-none,
}

-- What an acceptance of the files `ids` makes of the session `s` filed under `id`.
pub record AcceptOutcome (id : String) (ids : Option (List String)) (s : Session) (a b : Actor)
    : Type 0 where
  pub now : Session
  pub tokens : HashMap String String
  pub filed : get id b.sessions ≡ some now
  pub released : now.decision ≡ none
  pub answered : (c : ℕ) → s.decision ≡ some c → b.answers ≡ (c, accepted tokens) ∷ a.answers
  pub started : (now.state ≡ MissionState.transfering) ⊎ (now.state ≡ MissionState.finished)
  pub kept :
      (fid : String) (f : FileEntry)
      → get fid s.files ≡ some f
      → wants ids fid ≡ true
      → get fid now.files ≡ some f
  pub skipped :
      (fid : String) (f : FileEntry)
      → get fid s.files ≡ some f
      → wants ids fid ≡ false
      → (get fid now.files ≡ some (record f { state = FileState.skip })) × (get fid tokens ≡ none)
  pub granted :
      (fid token : String) (f : FileEntry)
      → get fid s.files ≡ some f
      → f.token ≡ some token
      → wants ids fid ≡ true
      → get fid tokens ≡ some token

-- The actor just before the last check of `Accept`.
abbrev accepted_actor : String → List String → Session → Actor → Actor
accepted_actor id acc s a = broadcast_index (
    answer s.decision (Decision.accepted (accepted_tokens acc s.files))
      (store id (accepted_session acc s) a))

accepted_actor-filed :
    (id : String) (acc : List String) (s : Session) (a : Actor)
    → get id (accepted_actor id acc s a).sessions ≡ some (accepted_session acc s)
unfolding broadcast_index answer store
accepted_actor-filed id acc s a =
    ground (arith, get-insert id id (accepted_session acc s) a.sessions, ==_refl id)

accepted_actor-answers :
    (id : String) (acc : List String) (s : Session) (a : Actor) (c : ℕ)
    → s.decision ≡ some c
    → (accepted_actor id acc s a).answers ≡ (c, accepted (accepted_tokens acc s.files)) ∷ a.answers
unfolding broadcast_index answer store
accepted_actor-answers id acc s a c e = rw (e, answer)

accepted_session-state :
    (acc : List String) (s : Session)
    → ((finish_session (accepted_session acc s)).state ≡ MissionState.transfering)
      ⊎ ((finish_session (accepted_session acc s)).state ≡ MissionState.finished)
unfolding finish_session accepted_session
accepted_session-state acc s = ground arith

finished_accepted_session :
    (acc : List String) (s : Session)
    → ((finish_session (accepted_session acc s)).decision ≡ none)
      × ((finish_session (accepted_session acc s)).files ≡ map_entries (skip_unless acc) s.files)
unfolding finish_session accepted_session
finished_accepted_session acc s = ground arith

get-skipped :
    (acc : List String) (fid : String) (f : FileEntry) (files : HashMap String FileEntry)
    → get fid files ≡ some f
    → get fid (map_entries (skip_unless acc) files)
      ≡ some (if contains acc fid then f else record f { state = FileState.skip })
unfolding skip_unless
get-skipped acc fid f files g = get-map_entries fid (skip_unless acc) files ∙ rw g

-- Accepting a pending receive session succeeds and leaves it transferring or finished: the wanted
-- files stay as they were, the others are skipped, and the waiting request is answered with the
-- tokens of exactly the wanted files.
pub handle_accept-AcceptOutcome :
    (id : String) (ids : Option (List String)) (s : Session) (a : Actor)
    → get id a.sessions ≡ some s
    → is_decidable s ≡ true
    → ((handle_accept id ids a).1 ≡ Reply.outcome (ok tt))
      × AcceptOutcome id ids s a (handle_accept id ids a).0
unfolding handle_accept
handle_accept-AcceptOutcome id ids s a g waiting =
    let acc = accepted_ids ids s.files in
    let (freed, same) = finished_accepted_session acc s in
    rw (g, handle_accept, waiting)
      (
        refl,
        record {
          now = finish_session (accepted_session acc s);
          tokens = accepted_tokens acc s.files;
          filed = get-check_finish id _ _ (accepted_actor-filed id acc s a);
          released = freed;
          answered = λ c e.
              answers-check_finish id (accepted_actor id acc s a)
              ∙ accepted_actor-answers id acc s a c e;
          started = accepted_session-state acc s;
          kept = λ fid f h w.
              rw (
                same,
                get-skipped acc fid f s.files h,
                contains-accepted_ids fid ids f s.files h,
                w,
              );
          skipped = λ fid f h w. (
            rw (
              same,
              get-skipped acc fid f s.files h,
              contains-accepted_ids fid ids f s.files h,
              w,
            ),
            get-accepted_tokens-none acc fid s.files
                (contains-accepted_ids fid ids f s.files h ∙ w),
          );
          granted = λ fid token f h t w.
              get-accepted_tokens acc fid token f s.files h t
                (contains-accepted_ids fid ids f s.files h ∙ w);
        },
      )

accepted_filed :
    (id : String) (ids : Option (List String)) (s : Session) (a : Actor)
    → get id a.sessions ≡ some s
    → is_decidable s ≡ true
    → get id (handle_accept id ids a).0.sessions
      ≡ some (finish_session (accepted_session (accepted_ids ids s.files) s))
unfolding handle_accept
accepted_filed id ids s a g waiting =
    rw (g, handle_accept, waiting)
      (get-check_finish id _ _ (accepted_actor-filed id (accepted_ids ids s.files) s a))

startable_skipped :
    (token fid : String) (acc : List String) (s : Session) (f : FileEntry)
    → get token s.token_index ≡ some fid
    → get fid (map_entries (skip_unless acc) s.files) ≡ some (record f { state = FileState.skip })
    → startable_file token (finish_session (accepted_session acc s))
      ≡ err SessionError.invalid_state
unfolding startable_file finish_session accepted_session is_terminal
startable_skipped token fid acc s f tok skipped = ground (arith, tok, skipped)

-- A file that an acceptance left out cannot be uploaded: its token, sent with `StartFile`, gets
-- `InvalidState`.
pub handle_start_file-skipped :
    (id token fid : String) (ids : Option (List String)) (s : Session) (f : FileEntry) (a : Actor)
    → get id a.sessions ≡ some s
    → is_decidable s ≡ true
    → get token s.token_index ≡ some fid
    → get fid s.files ≡ some f
    → wants ids fid ≡ false
    → (handle_start_file id token (handle_accept id ids a).0).1
      ≡ Reply.file_task (err SessionError.invalid_state)
unfolding handle_start_file
handle_start_file-skipped id token fid ids s f a g waiting tok known unwanted =
    let acc = accepted_ids ids s.files in
    rw (accepted_filed id ids s a g waiting, handle_start_file)
      (rw (
        startable_skipped token fid acc s f tok (
          get-skipped acc fid f s.files known
          ∙ rw (contains-accepted_ids fid ids f s.files known, unwanted))))
