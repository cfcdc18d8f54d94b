-- ===== src/Session/Answers.antt =====
-- The oneshot channels on which a waiting `prepare-upload` gets its decision.
use localsend_rs.Base.{
  string_eq, ℕ, ◌+◌, ◌≤◌, ◌≡◌, refl, String, Bool, false, List, count, arith, nat_beq, none, some,
}
use localsend_rs.HashMap.{values, get, insert}
use localsend_rs.HashMap.Counts.{count-insert}
use localsend_rs.Session.State.{Session, Message, Actor, Decision}
use localsend_rs.Session.Transitions.{new}
use localsend_rs.Session.Actor.{run}
use localsend_rs.Session.Move.{
  Move, keep, write, open_session, receiving, sending, Sent, nothing, nobody, decided,
  Moves-induction,
}
use localsend_rs.Session.Move.Messages.{run-Moves}

-- The session still owes an answer on channel `c`.
abbrev pub holds : ℕ → Session → Bool
holds c s = elim s.decision [ none ↦ false | some k ↦ nat_beq k c ]

abbrev pub is_answer : ℕ → ℕ × Decision → Bool
is_answer c (k, d) = nat_beq k c

abbrev pub uses : ℕ → Actor → ℕ
uses c a = count (holds c) (values a.sessions) + count (is_answer c) a.answers

record Linear (a : Actor) : Type 0 where
  once : (c : ℕ) → uses c a ≤ 1
  unused : (c : ℕ) → a.next_channel ≤ c → uses c a ≡ 0

-- A write moves a channel from its session to the answers, or leaves it where it is.
write-uses :
    (a b : Actor) (id : String) (s t : Session) (c : ℕ)
    → get id a.sessions ≡ some s
    → b.sessions ≡ insert id t a.sessions
    → Sent s t a.answers b.answers
    → uses c b ≡ uses c a
write-uses a b id s t c e u (nothing d r) =
    rw (u, r) (ground (arith, count-insert (holds c) id t a.sessions))
write-uses a b id s t c e u (nobody p q r) =
    rw (u, r) (ground (arith, count-insert (holds c) id t a.sessions))
write-uses a b id s t c e u (decided k d p q r) =
    rw (u, r) (ground (arith, count-insert (holds c) id t a.sessions))

Move-Linear : {new_v4 : ℕ → String} (a b : Actor) → Move new_v4 a b → Linear a → Linear b
Move-Linear a b (keep e _ r n _) l = record {
  once = λ c. rw (e, r) (l.once c);
  unused = λ c h. rw (e, r) (l.unused c (omega arith));
}
Move-Linear a b (write id s t e st sent u _ n _) l = record {
  once = λ c. omega (arith, write-uses a b id s t c e u sent, l.once c);
  unused = λ c h. omega (arith, write-uses a b id s t c e u sent, l.unused c (omega arith));
}
Move-Linear {new_v4} a b (open_session s _ _ (receiving taken _) u _ r _) l = record {
  once = λ c.
      rw (u, r)
        (ground
          (arith, l.once c, l.unused c, count-insert (holds c) (new_v4 a.minted) s a.sessions));
  unused = λ c h.
      rw (u, r) (ground (arith, l.unused c, count-insert (holds c) (new_v4 a.minted) s a.sessions));
}
Move-Linear {new_v4} a b (open_session s _ _ (sending nobody_waits _) u _ r _) l = record {
  once = λ c.
      rw (u, r) (ground (arith, l.once c, count-insert (holds c) (new_v4 a.minted) s a.sessions));
  unused = λ c h.
      rw (u, r)
        (ground (arith, l.unused c h, count-insert (holds c) (new_v4 a.minted) s a.sessions));
}

run-Linear :
    (new_v4 : ℕ → String) (max : ℕ) (msgs : List Message) → Linear (run new_v4 msgs (new max))
unfolding new
run-Linear new_v4 max msgs =
    Moves-induction Linear Move-Linear (run-Moves new_v4 msgs (new max))
      (record { once = λ k. omega arith; unused = λ k h. refl })

-- A channel is held by one session at most, is answered once at most, and is not held any more
-- when it has been answered.
pub run-answers :
    (new_v4 : ℕ → String) (max : ℕ) (msgs : List Message) (c : ℕ)
    → uses c (run new_v4 msgs (new max)) ≤ 1
run-answers new_v4 max msgs c = (run-Linear new_v4 max msgs).once c

-- A channel that was not given out yet is nowhere.
pub run-unused :
    (new_v4 : ℕ → String) (max : ℕ) (msgs : List Message) (c : ℕ)
    → (run new_v4 msgs (new max)).next_channel ≤ c
    → uses c (run new_v4 msgs (new max)) ≡ 0
run-unused new_v4 max msgs c = (run-Linear new_v4 max msgs).unused c
