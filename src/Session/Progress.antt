-- ===== src/Session/Progress.antt =====
-- Lists of messages: one after the other, and those that only report progress, which change no
-- session but for its events.
use localsend_rs.Base.{
  refl, string_eq, ℕ, ◌≡◌, String, List, [], ◌∷◌, ◌++◌, some, ◌==◌, ==_iff, inl, inr, Option-cases,
  Bool-cases, All,
}
use localsend_rs.HashMap.{get}
use localsend_rs.HashMap.Laws.{get-insert}
use localsend_rs.Model.{SessionEvent, progress}
use localsend_rs.Session.State.{Session, Actor, Message}
use localsend_rs.Session.Transitions.{store}
use localsend_rs.Session.Actor.{handle_report_progress, handle_message, run}

abbrev pub IsProgress : Message → Type 0
IsProgress msg = (id : String) × (fid : String) × (n : ℕ) × (msg ≡ Message.report_progress id fid n)

-- The session but for its events.
pub record IsSame (s t : Session) : Type 0 where
  pub state : t.state ≡ s.state
  pub direction : t.direction ≡ s.direction
  pub files : t.files ≡ s.files
  pub token_index : t.token_index ≡ s.token_index

pub record SameAt (id : String) (s : Session) (a : Actor) : Type 0 where
  pub now : Session
  pub filed : get id a.sessions ≡ some now
  pub same : IsSame s now

record_progress :
    (id : String) (s : Session) (a : Actor) (j : String) (old : Session) (es : List SessionEvent)
    → get j a.sessions ≡ some old
    → SameAt id s a
    → SameAt id s (store j (record old { events = es }) a)
unfolding store
record_progress id s a j old es e h = elim (Bool-cases (j == id)) [
  | inl here ↦
      let same : h.now ≡ old = cc (h.filed, e, (==_iff j id).0 here) in
      record {
        now = record old { events = es };
        filed = rw (get-insert j id (record old { events = es }) a.sessions, here);
        same = record {
          state = rw (← same) h.same.state;
          direction = rw (← same) h.same.direction;
          files = rw (← same) h.same.files;
          token_index = rw (← same) h.same.token_index;
        };
      }
  | inr other ↦ record {
    now = h.now;
    filed = rw (get-insert j id (record old { events = es }) a.sessions, other) h.filed;
    same = h.same;
  }
]

pub report_progress-SameAt :
    (id : String) (s : Session) (a : Actor) (j fid : String) (n : ℕ)
    → SameAt id s a
    → SameAt id s (handle_report_progress j fid n a)
unfolding handle_report_progress store
report_progress-SameAt id s a j fid n h = elim (Option-cases (get j a.sessions)) [
  | inl e ↦ rw (e, handle_report_progress) h
  | inr (old, e) ↦
      rw (e, handle_report_progress)
        (record_progress id s a j old (progress fid n ∷ old.events) e h)
]

pub run-SameAt :
    (new_v4 : ℕ → String) (id : String) (s : Session) (msgs : List Message) (a : Actor)
    → All IsProgress msgs
    → SameAt id s a
    → SameAt id s (run new_v4 msgs a)
unfolding run handle_message
run-SameAt new_v4 id s [] a _ h = h
run-SameAt new_v4 id s (msg ∷ msgs) a ((j, fid, n, e), more) h =
    rw e (run-SameAt new_v4 id s msgs _ more (report_progress-SameAt id s a j fid n h))

pub run-append :
    (new_v4 : ℕ → String) (ms ns : List Message) (a : Actor)
    → run new_v4 (ms ++ ns) a ≡ run new_v4 ns (run new_v4 ms a)
unfolding run
run-append new_v4 [] ns a = refl
run-append new_v4 (m ∷ ms) ns a = run-append new_v4 ms ns (handle_message new_v4 m a).0
