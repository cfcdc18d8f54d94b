-- ===== src/Tui/Screen.antt =====
-- What holds of the screen at all times.
use native.Mathlib.Omega.{mod_fact}
use localsend_rs.Base.{
  string_eq, ℕ, suc, ◌+◌, ◌-◌, ◌%◌, ◌≤◌, ◌≡◌, refl, String, Bool, true, false, not, ◌&&◌, List, [],
  ◌∷◌, any, filterb, length, ◌==◌, arith,
}
use localsend_rs.Base.Int.{ℤ, pos, negsuc}
use localsend_rs.Model.{SessionSummary, SessionEvent}
use localsend_rs.Tui.View as View
use localsend_rs.Tui.View.{SessionView, modify, is_terminal}
use localsend_rs.Tui.App.{
  App, new, contains, has_id, rem_euclid, cycle_focus, cycled, clamped, clamp_focus, merge,
  is_shown, apply_index, apply_event, hide, terminal_ids, clear_terminal, apply_devices,
  stage_files, Input, devices, index, event, cycle, clear, stage, step, run,
}
use localsend_rs.Tui.Ids.{
  ids, Distinct, ids-modify, contains-filterb, Distinct-filterb, contains-merge, Distinct-merge,
}

-- No session is shown twice, no hidden one is shown, and the focus is on a session if there is
-- one, and at 0 if there is none.
pub record WellFormed (app : App) : Type 0 where
  pub distinct : Distinct (ids app.sessions)
  pub visible :
      (id : String) → contains id app.hidden ≡ true → contains id (ids app.sessions) ≡ false
  pub in_range : app.focus ≤ length app.sessions - 1

clamped_bound : (vs : List SessionView) (focus : ℕ) → clamped vs focus ≤ length vs - 1
unfolding clamped
clamped_bound [] focus = omega arith
clamped_bound (v ∷ vs) focus = ground arith

rem_euclid_bound : (focus : ℕ) (delta : ℤ) (n : ℕ) → rem_euclid focus delta (suc n) ≤ n
unfolding rem_euclid
rem_euclid_bound focus (pos k) n = omega (arith, mod_fact (focus + k) n)
rem_euclid_bound focus (negsuc k) n =
    ground (arith, mod_fact (focus - suc k) n, mod_fact (suc n - (suc k - focus) % suc n) n)

cycled_bound :
    (delta : ℤ) (vs : List SessionView) (focus : ℕ) → cycled delta vs focus ≤ length vs - 1
unfolding cycled
cycled_bound delta [] focus = omega arith
cycled_bound delta (v ∷ vs) focus = omega (arith, rem_euclid_bound focus delta (length vs))

apply_event-id : (ev : SessionEvent) (v : SessionView) → (View.apply_event ev v).id ≡ v.id
unfolding View.apply_event
apply_event-id ev v = ground arith

length-modify :
    (p : SessionView → Bool) (f : SessionView → SessionView) (vs : List SessionView)
    → length (modify p f vs) ≡ length vs
unfolding modify
length-modify p f [] = refl
length-modify p f (v ∷ vs) = ground (arith, length-modify p f vs)

-- The list keeps the sessions that pass the test, of which no hidden one does.
keep-WellFormed :
    (q : String → Bool) (vs : List SessionView) (app : App)
    → Distinct (ids vs)
    → ((id : String) → contains id app.hidden ≡ true → q id ≡ false)
    → WellFormed (clamp_focus (record app { sessions = filterb (λ v. q v.id) vs }))
unfolding clamp_focus
keep-WellFormed q vs app d hides = record {
  distinct = Distinct-filterb q vs d;
  visible = λ id h. ground (arith, contains-filterb q id vs, hides id h);
  in_range = clamped_bound (filterb (λ v. q v.id) vs) app.focus;
}

apply_index-WellFormed :
    (summaries : List SessionSummary) (app : App)
    → WellFormed app
    → WellFormed (apply_index summaries app)
unfolding apply_index is_shown
apply_index-WellFormed summaries app w =
    keep-WellFormed
      (λ id. not (contains id app.hidden) && any (λ (s : SessionSummary). s.id == id) summaries)
      (merge app.hidden summaries app.sessions) app
      (Distinct-merge app.hidden summaries app.sessions w.distinct) (λ id h. ground (arith, h))

clear_terminal-WellFormed : (app : App) → WellFormed app → WellFormed (clear_terminal app).0
unfolding clear_terminal
clear_terminal-WellFormed app w =
    keep-WellFormed (λ id. not (contains id (hide (terminal_ids app) app.hidden))) app.sessions
      (record app { hidden = hide (terminal_ids app) app.hidden }) w.distinct
      (λ id h. ground (arith, h))

apply_event-WellFormed :
    (id : String) (ev : SessionEvent) (app : App)
    → WellFormed app
    → WellFormed (apply_event id ev app)
unfolding apply_event
apply_event-WellFormed id ev app w =
    let same = ids-modify (has_id id) (View.apply_event ev) app.sessions (apply_event-id ev) in
    record {
      distinct = rw same w.distinct;
      visible = rw same w.visible;
      in_range =
          omega (arith, w.in_range, length-modify (has_id id) (View.apply_event ev) app.sessions);
    }

pub step-WellFormed :
    (exists : String → Bool) (i : Input) (app : App)
    → WellFormed app
    → WellFormed (step exists i app)
unfolding step apply_devices stage_files cycle_focus
step-WellFormed exists (devices ds) app w = record {
  distinct = w.distinct;
  visible = w.visible;
  in_range = w.in_range;
}
step-WellFormed exists (index summaries) app w = apply_index-WellFormed summaries app w
step-WellFormed exists (event id ev) app w = apply_event-WellFormed id ev app w
step-WellFormed exists (cycle delta) app w = record {
  distinct = w.distinct;
  visible = w.visible;
  in_range = cycled_bound delta app.sessions app.focus;
}
step-WellFormed exists clear app w = clear_terminal-WellFormed app w
step-WellFormed exists (stage paths) app w = record {
  distinct = w.distinct;
  visible = w.visible;
  in_range = w.in_range;
}

pub run-WellFormed_from :
    (exists : String → Bool) (is : List Input) (app : App)
    → WellFormed app
    → WellFormed (run exists is app)
unfolding run
run-WellFormed_from exists [] app w = w
run-WellFormed_from exists (i ∷ is) app w =
    run-WellFormed_from exists is (step exists i app) (step-WellFormed exists i app w)

-- Whatever comes in, no session is on the screen twice, none that was cleared is on it, and the
-- focus is the position of a session, or 0 on an empty screen.
pub run-WellFormed :
    (exists : String → Bool) (files : List String) (is : List Input)
    → WellFormed (run exists is (new files))
unfolding new contains
run-WellFormed exists files is =
    run-WellFormed_from exists is (new files)
      (record { distinct = tt; visible = λ id h. refl; in_range = omega arith })

-- A snapshot is shown as it is: after it, the sessions on the screen are those of the snapshot
-- that were not cleared.
pub apply_index-shows :
    (summaries : List SessionSummary) (app : App) (id : String)
    → contains id (ids (apply_index summaries app).sessions)
      ≡ not (contains id app.hidden) && any (λ (s : SessionSummary). s.id == id) summaries
unfolding apply_index is_shown clamp_focus
apply_index-shows summaries app id = ground (
  arith,
  contains-filterb
      (λ j. not (contains j app.hidden) && any (λ (s : SessionSummary). s.id == j) summaries) id
      (merge app.hidden summaries app.sessions),
  contains-merge app.hidden summaries id app.sessions,
)
