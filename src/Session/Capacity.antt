-- ===== src/Session/Capacity.antt =====
-- The limit on concurrent receive sessions.
use localsend_rs.Base.{string_eq, ℕ, ◌≤◌, ◌≡◌, refl, ◌∙◌, String, List, true, count, arith}
use localsend_rs.HashMap.{values}
use localsend_rs.HashMap.Counts.{count-insert}
use localsend_rs.Session.State.{Session, Message, Actor, is_active}
use localsend_rs.Session.Transitions.{new}
use localsend_rs.Session.Create.{is_active_recv}
use localsend_rs.Session.Actor.{run}
use localsend_rs.Session.Step.{SessionStep}
use localsend_rs.Session.Move.{Move, keep, write, open_session, receiving, sending, Moves-induction}
use localsend_rs.Session.Move.Messages.{run-Moves}

abbrev pub active_recvs : Actor → ℕ
active_recvs a = count is_active_recv (values a.sessions)

-- No step makes an active receive session of one that was not.
is_active_recv-SessionStep :
    (s t : Session) → SessionStep s t → is_active_recv t ≡ true → is_active_recv s ≡ true
unfolding is_active_recv is_active
is_active_recv-SessionStep s t st h = ground arith

record Within (max : ℕ) (a : Actor) : Type 0 where
  limit : a.max_recv_sessions ≡ max
  within : active_recvs a ≤ a.max_recv_sessions

Move-Within :
    {new_v4 : ℕ → String} (max : ℕ) (a b : Actor) → Move new_v4 a b → Within max a → Within max b
Move-Within max a b (keep e m _ _ _) w = record { limit = m ∙ w.limit; within = rw (e, m) w.within }
Move-Within max a b (write id s t g st _ u m _ _) w = record {
  limit = m ∙ w.limit;
  within =
      rw (u, m)
        (ground (
          arith,
          w.within,
          count-insert is_active_recv id t a.sessions,
          is_active_recv-SessionStep s t st,
        ));
}
Move-Within {new_v4} max a b (open_session s _ _ (receiving _ room) u m _ _) w = record {
  limit = m ∙ w.limit;
  within =
      rw (u, m) (ground (arith, room, count-insert is_active_recv (new_v4 a.minted) s a.sessions));
}
Move-Within {new_v4} max a b (open_session s _ _ (sending _ sends) u m _ _) w = record {
  limit = m ∙ w.limit;
  within =
      rw (u, m)
        (ground (arith, w.within, count-insert is_active_recv (new_v4 a.minted) s a.sessions));
}

start : (max : ℕ) → Within max (new max)
unfolding new
start max = record { limit = refl; within = omega arith }

-- Whatever messages the actor handles, at most `max_recv_sessions` receive sessions are pending
-- or transferring.
pub run-capacity :
    (new_v4 : ℕ → String) (max : ℕ) (msgs : List Message)
    → active_recvs (run new_v4 msgs (new max)) ≤ max
unfolding new
run-capacity new_v4 max msgs =
    let w =
      Moves-induction (Within max) (Move-Within max) (run-Moves new_v4 msgs (new max))
        (start max) in
    omega (arith, w.within, w.limit)
