-- ===== src/Session/Move/Writes.antt =====
-- The methods that move one session, as moves.
use localsend_rs.Base.{
  ℕ, String, none, some, ◌≡◌, refl, inl, inr, string_eq, arith, Option-cases, Bool-cases,
}
use localsend_rs.HashMap.{get}
use localsend_rs.Model.{MissionState, FileState}
use localsend_rs.Session.State.{Session, Decision, Actor, is_active}
use localsend_rs.Session.Transitions.{
  broadcast_index, store, answer, set_state, is_complete, check_finish, failed_session,
  fail_session, canceled_session, cancel_session, write_file_state, set_file_state, settle_file,
}
use localsend_rs.Session.Step.{
  SessionStep, state_write-SessionStep, failed_session-SessionStep, canceled_session-SessionStep,
  write_file_state-SessionStep,
}
use localsend_rs.Session.Move.{
  Move, keep, write, Moves, here, next, Moves-one, Moves-trans, nothing, nobody, decided,
}

write_file_state_keeps :
    (fid : String) (state : FileState) (s : Session)
    → (write_file_state fid state s).decision ≡ s.decision
unfolding write_file_state
write_file_state_keeps fid state s = ground arith

module _ {new_v4 : ℕ → String} where
  pub broadcast_index-Move : (a : Actor) → Move new_v4 a (broadcast_index a)
  unfolding broadcast_index
  broadcast_index-Move a = keep refl refl refl refl refl

  -- A write that answers nobody.
  pub quiet-Move :
      (id : String) {s : Session} (t : Session) (a : Actor)
      → get id a.sessions ≡ some s
      → SessionStep s t
      → t.decision ≡ s.decision
      → Move new_v4 a (store id t a)
  unfolding store
  quiet-Move id {s} t a e st d = write id s t e st (nothing d refl) refl refl refl refl

  -- A write that takes the session's channel and answers on it.
  pub answered-Move :
      (id : String) {s : Session} (t : Session) (d : Decision) (a : Actor)
      → get id a.sessions ≡ some s
      → SessionStep s t
      → t.decision ≡ none
      → Move new_v4 a (broadcast_index (answer s.decision d (store id t a)))
  unfolding broadcast_index store answer
  answered-Move id {s} t d a e st taken = elim (Option-cases s.decision) [
    | inl p ↦ rw (p, answer) (write id s t e st (nobody p taken refl) refl refl refl refl)
    | inr (c, p) ↦ rw (p, answer) (write id s t e st (decided c d p taken refl) refl refl refl refl)
  ]

  -- The same write, followed by the broadcast of the index.
  pub stored-Moves :
      (id : String) {s : Session} (t : Session) (a : Actor)
      → get id a.sessions ≡ some s
      → SessionStep s t
      → t.decision ≡ s.decision
      → Moves new_v4 a (broadcast_index (store id t a))
  stored-Moves id t a e st d =
      next (Moves-one (quiet-Move id t a e st d)) (broadcast_index-Move (store id t a))

  pub set_state-Moves :
      (id : String) (state : MissionState) (a : Actor) → Moves new_v4 a (set_state id state a)
  unfolding set_state
  set_state-Moves id state a = elim (Option-cases (get id a.sessions)) [
    | inl e ↦ rw (e, set_state) (Moves-one (broadcast_index-Move a))
    | inr (s, e) ↦ elim (Bool-cases (is_active s)) [
      | inl live ↦
          rw (e, set_state, live)
            (stored-Moves id _ a e (state_write-SessionStep s state _ live) refl)
      | inr over ↦ rw (e, set_state, over) here
    ]
  ]

  pub check_finish-Moves : (id : String) (a : Actor) → Moves new_v4 a (check_finish id a)
  unfolding check_finish
  check_finish-Moves id a = elim (Option-cases (get id a.sessions)) [
    | inl e ↦ rw (e, check_finish) here
    | inr (s, e) ↦ elim (Bool-cases (is_complete s)) [
      | inl all_done ↦ rw (e, check_finish, all_done) (set_state-Moves id MissionState.finished a)
      | inr more ↦ rw (e, check_finish, more) here
    ]
  ]

  pub fail_session-Moves :
      (id reason : String) (a : Actor) → Moves new_v4 a (fail_session id reason a)
  unfolding fail_session
  fail_session-Moves id reason a = elim (Option-cases (get id a.sessions)) [
    | inl e ↦ rw (e, fail_session) (Moves-one (broadcast_index-Move a))
    | inr (s, e) ↦ elim (Bool-cases (is_active s)) [
      | inl live ↦
          rw (e, fail_session, live)
            (Moves-one (
              answered-Move id (failed_session reason s) Decision.canceled a e
                (failed_session-SessionStep reason s live) refl))
      | inr over ↦ rw (e, fail_session, over) here
    ]
  ]

  pub cancel_session-Moves : (id : String) (a : Actor) → Moves new_v4 a (cancel_session id a)
  unfolding cancel_session
  cancel_session-Moves id a = elim (Option-cases (get id a.sessions)) [
    | inl e ↦ rw (e, cancel_session) (Moves-one (broadcast_index-Move a))
    | inr (s, e) ↦ elim (Bool-cases (is_active s)) [
      | inl live ↦
          rw (e, cancel_session, live)
            (Moves-one (
              answered-Move id (canceled_session s) Decision.canceled a e
                (canceled_session-SessionStep s live) refl))
      | inr over ↦ rw (e, cancel_session, over) here
    ]
  ]

  finished-Moves : (id : String) (a : Actor) → Moves new_v4 a (broadcast_index (check_finish id a))
  finished-Moves id a = next (check_finish-Moves id a) (broadcast_index-Move (check_finish id a))

  settle_file-Moves :
      (id : String) (state : FileState) (a : Actor) → Moves new_v4 a (settle_file id state a)
  unfolding settle_file
  settle_file-Moves id (FileState.fail msg) a = fail_session-Moves id msg a
  settle_file-Moves id FileState.pending a = finished-Moves id a
  settle_file-Moves id FileState.transfer a = finished-Moves id a
  settle_file-Moves id FileState.finish a = finished-Moves id a
  settle_file-Moves id FileState.skip a = finished-Moves id a

  pub set_file_state-Moves :
      (id fid : String) (state : FileState) (a : Actor)
      → Moves new_v4 a (set_file_state id fid state a)
  unfolding set_file_state
  set_file_state-Moves id fid state a = elim (Option-cases (get id a.sessions)) [
    | inl e ↦ rw (e, set_file_state) (finished-Moves id a)
    | inr (s, e) ↦ elim (Bool-cases (is_active s)) [
      | inl live ↦
          rw (e, set_file_state, live)
            (Moves-trans
              (Moves-one (
                quiet-Move id (write_file_state fid state s) a e
                  (write_file_state-SessionStep fid state s live)
                  (write_file_state_keeps fid state s)))
              (settle_file-Moves id state _))
      | inr over ↦ rw (e, set_file_state, over) here
    ]
  ]
