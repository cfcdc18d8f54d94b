-- ===== src/Tui/Cleared.antt =====
-- Sessions that the user cleared.
use localsend_rs.Base.{
  string_eq, ◌≡◌, refl, String, Bool, true, false, ◌||◌, List, [], ◌∷◌, ==_iff, arith,
  if◌then◌else◌,
}
use localsend_rs.Tui.App.{
  App, contains, clamp_focus, apply_index, apply_event, hide, terminal_ids, clear_terminal,
  apply_devices, stage_files, cycle_focus, Input, devices, index, event, cycle, clear, stage, step,
  run,
}
use localsend_rs.Tui.Ids.{ids}
use localsend_rs.Tui.Screen.{WellFormed, step-WellFormed, run-WellFormed_from}

contains-hide :
    (id : String) (gone hidden : List String)
    → contains id (hide gone hidden) ≡ contains id gone || contains id hidden
unfolding hide contains
contains-hide id [] hidden = refl
contains-hide id (g ∷ gone) hidden =
    ground
      (arith, ==_iff g id, contains-hide id gone (if contains g hidden then hidden else g ∷ hidden))

step-hidden :
    (exists : String → Bool) (i : Input) (app : App) (id : String)
    → contains id app.hidden ≡ true
    → contains id (step exists i app).hidden ≡ true
unfolding step apply_devices apply_index apply_event cycle_focus clear_terminal stage_files
    clamp_focus
step-hidden exists (devices ds) app id h = h
step-hidden exists (index summaries) app id h = h
step-hidden exists (event j ev) app id h = h
step-hidden exists (cycle delta) app id h = h
step-hidden exists clear app id h = ground (arith, contains-hide id (terminal_ids app) app.hidden)
step-hidden exists (stage paths) app id h = h

run-hidden :
    (exists : String → Bool) (is : List Input) (app : App) (id : String)
    → contains id app.hidden ≡ true
    → contains id (run exists is app).hidden ≡ true
unfolding run
run-hidden exists [] app id h = h
run-hidden exists (i ∷ is) app id h =
    run-hidden exists is (step exists i app) id (step-hidden exists i app id h)

-- A finished, failed or canceled session that was on the screen when the user cleared it never
-- comes back, whatever snapshots and events follow.
pub clear_terminal-forever :
    (exists : String → Bool) (is : List Input) (app : App) (id : String)
    → WellFormed app
    → contains id (terminal_ids app) ≡ true
    → contains id (ids (run exists is (clear_terminal app).0).sessions) ≡ false
clear_terminal-forever exists is app id w over =
    (run-WellFormed_from exists is (clear_terminal app).0 (cleared_well w)).visible id
      (run-hidden exists is (clear_terminal app).0 id hidden)
  where
    cleared_well : WellFormed app → WellFormed (clear_terminal app).0
    cleared_well w = unfold step in step-WellFormed exists clear app w

    hidden : contains id (clear_terminal app).0.hidden ≡ true
    hidden =
        unfold clear_terminal clamp_focus in
        ground (arith, contains-hide id (terminal_ids app) app.hidden)
