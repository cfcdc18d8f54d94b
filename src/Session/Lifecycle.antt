-- ===== src/Session/Lifecycle.antt =====
-- Sessions over time: none is forgotten, one that has ended stays as it ended, and a cancelled
-- token belongs to a session that has ended.
use localsend_rs.Base.{
  string_eq, ℕ, ◌≤◌, ◌≡◌, refl, ◌∙◌, sym, ap, subst, ◌≢◌, inl, inr, String, List, true, false,
  arith, some, ◌==◌, ==_iff, Bool-cases, if◌then◌else◌,
}
use localsend_rs.HashMap.{get, insert}
use localsend_rs.HashMap.Laws.{get-insert}
use localsend_rs.Session.State.{Session, Message, Actor, is_active}
use localsend_rs.Session.Transitions.{new}
use localsend_rs.Session.Actor.{run}
use localsend_rs.Session.Step.{SessionStep}
use localsend_rs.Session.Move.{Move, keep, write, open_session, Moves-induction}
use localsend_rs.Session.Move.Messages.{run-Moves}

-- The session `s` has ended and is filed under `id` as it was, labels and events apart. No
-- later UUID is `id`.
pub record Ended (new_v4 : ℕ → String) (id : String) (s : Session) (a : Actor) : Type 0 where
  pub now : Session
  pub filed : get id a.sessions ≡ some now
  pub over : is_active now ≡ false
  pub state : now.state ≡ s.state
  pub files : now.files ≡ s.files
  pub decision : now.decision ≡ s.decision
  pub fresh : (n : ℕ) → a.minted ≤ n → new_v4 n ≢ id

-- The entry that a write at the same key replaces is the ended one.
Ended-entry :
    (new_v4 : ℕ → String) (id : String) (s0 : Session) (a : Actor) (j : String) (s : Session)
    → get j a.sessions ≡ some s
    → j ≡ id
    → (old : Ended new_v4 id s0 a) → old.now ≡ s
Ended-entry new_v4 id s0 a j s g e old = cc (old.filed, g, e)

Ended-write :
    (new_v4 : ℕ → String) (id : String) (s0 : Session) (a b : Actor) (j : String) (s t : Session)
    → get j a.sessions ≡ some s
    → SessionStep s t
    → b.sessions ≡ insert j t a.sessions
    → b.minted ≡ a.minted
    → Ended new_v4 id s0 a
    → Ended new_v4 id s0 b
unfolding is_active
Ended-write new_v4 id s0 a b j s t g st u m old = elim (Bool-cases (j == id)) [
  | inl same ↦
      let e = Ended-entry new_v4 id s0 a j s g ((==_iff j id).0 same) old in
      let over : is_active s ≡ false = subst (λ x. is_active x ≡ false) e old.over in
      record {
        now = t;
        filed = rw (u, get-insert j id t a.sessions, same);
        over = rw (st.frozen_state over) over;
        state = st.frozen_state over ∙ ap (λ (x : Session). x.state) (sym e) ∙ old.state;
        files = st.frozen_files over ∙ ap (λ (x : Session). x.files) (sym e) ∙ old.files;
        decision =
            st.frozen_decision over ∙ ap (λ (x : Session). x.decision) (sym e) ∙ old.decision;
        fresh = λ n h. old.fresh n (omega arith);
      }
  | inr other ↦ record {
    now = old.now;
    filed = rw (u, get-insert j id t a.sessions, other) old.filed;
    over = old.over;
    state = old.state;
    files = old.files;
    decision = old.decision;
    fresh = λ n h. old.fresh n (omega arith);
  }
]

Move-Ended :
    (new_v4 : ℕ → String) (id : String) (s0 : Session) (a b : Actor)
    → Move new_v4 a b
    → Ended new_v4 id s0 a
    → Ended new_v4 id s0 b
Move-Ended new_v4 id s0 a b (keep e _ _ _ m) old = record {
  now = old.now;
  filed = rw e old.filed;
  over = old.over;
  state = old.state;
  files = old.files;
  decision = old.decision;
  fresh = λ n h. old.fresh n (omega arith);
}
Move-Ended new_v4 id s0 a b (write j s t g st _ u _ _ m) old =
    Ended-write new_v4 id s0 a b j s t g st u m old
Move-Ended new_v4 id s0 a b (open_session t _ _ _ u _ _ m) old =
    elim (Bool-cases (new_v4 a.minted == id)) [
      | inl same ↦ absurd (old.fresh a.minted (omega arith) ((==_iff (new_v4 a.minted) id).0 same))
      | inr other ↦ record {
        now = old.now;
        filed = rw (u, get-insert (new_v4 a.minted) id t a.sessions, other) old.filed;
        over = old.over;
        state = old.state;
        files = old.files;
        decision = old.decision;
        fresh = λ n h. old.fresh n (omega arith);
      }
    ]

-- A session that is neither pending nor transferring stays in the table with its state, its
-- files and its decision channel as they are, whatever messages follow, as long as no later
-- UUID collides with its id.
pub run-Ended :
    (new_v4 : ℕ → String) (id : String) (s : Session) (a : Actor) (msgs : List Message)
    → get id a.sessions ≡ some s
    → is_active s ≡ false
    → ((n : ℕ) → a.minted ≤ n → new_v4 n ≢ id)
    → Ended new_v4 id s (run new_v4 msgs a)
run-Ended new_v4 id s a msgs g over fresh =
    Moves-induction (Ended new_v4 id s) (Move-Ended new_v4 id s) (run-Moves new_v4 msgs a) (record {
      now = s;
      filed = g;
      over = over;
      state = refl;
      files = refl;
      decision = refl;
      fresh = fresh;
    })

-- What holds of the session under each id.
pub record IsFiled (id : String) (s : Session) : Type 0 where
  pub named : s.id ≡ id
  pub stopped : s.cancelled ≡ true → is_active s ≡ false

abbrev pub AllFiled : Actor → Type 0
AllFiled a = (id : String) (s : Session) → get id a.sessions ≡ some s → IsFiled id s

IsFiled-SessionStep : (id : String) (s t : Session) → SessionStep s t → IsFiled id s → IsFiled id t
unfolding is_active
IsFiled-SessionStep id s t st f = ground (arith, f.stopped)

-- A table in which one entry is written.
AllFiled-insert :
    (a b : Actor) (j : String) (t : Session)
    → b.sessions ≡ insert j t a.sessions
    → IsFiled j t
    → AllFiled a
    → AllFiled b
AllFiled-insert a b j t u f all id s g = elim (Bool-cases (j == id)) [
  | inl same ↦ let e : s ≡ t = cc (g, found, same) in rw (e, ← (==_iff j id).0 same) f
  | inr other ↦ all id s (cc (g, found, other))
]
  where
    found : get id b.sessions ≡ (if j == id then some t else get id a.sessions)
    found = rw u (get-insert j id t a.sessions)

Move-AllFiled : {new_v4 : ℕ → String} (a b : Actor) → Move new_v4 a b → AllFiled a → AllFiled b
Move-AllFiled a b (keep e _ _ _ _) all = λ id s g. all id s (rw e at g)
Move-AllFiled a b (write j s t g st _ u _ _ _) all =
    AllFiled-insert a b j t u (IsFiled-SessionStep j s t st (all j s g)) all
Move-AllFiled {new_v4} a b (open_session t named calm _ u _ _ _) all =
    AllFiled-insert a b (new_v4 a.minted) t u
      (record { named = named; stopped = λ c. cc (c, calm) }) all

-- After any messages, each session is filed under its own id, and its cancellation token has
-- been cancelled only if the session is neither pending nor transferring.
pub run-AllFiled :
    (new_v4 : ℕ → String) (max : ℕ) (msgs : List Message) (id : String) (s : Session)
    → get id (run new_v4 msgs (new max)).sessions ≡ some s
    → IsFiled id s
run-AllFiled new_v4 max msgs =
    Moves-induction AllFiled Move-AllFiled (run-Moves new_v4 msgs (new max)) start
  where
    start : AllFiled (new max)
    start id s g = unfold new get in cc g
