-- ===== src/Tui/App.antt =====
-- `App` of rust/cli/src/state.rs. A path is a text, and `exists` is the file system's answer. The
-- numbers stay far below the bounds of `isize`: the focus is an index, and a step is one.
use localsend_rs.Base.{
  ℕ, zero, suc, ◌+◌, ◌-◌, ◌%◌, String, string_eq, Bool, not, ◌&&◌, Option, none, some, List, [],
  ◌∷◌, ◌++◌, map, any, count, filterb, length, ◌==◌, leb, if◌then◌else◌,
}
use localsend_rs.Base.Int.{ℤ, pos, negsuc}
use localsend_rs.Model.{NodeDevice, SessionEvent, SessionSummary}
use localsend_rs.Tui.View.{
  SessionView, modify, modify_or_push, is_terminal, is_pending_receive, from_summary,
  update_from_summary,
}
use localsend_rs.Tui.View as View

pub data InputMode : Type 0 where
  normal : InputMode
  adding_file : String → InputMode

pub record App : Type 0 where
  pub devices : List NodeDevice
  pub sessions : List SessionView
  pub focus : ℕ
  pub pending_files : List String
  pub input : InputMode
  pub hidden : List String
  pub notice : Option String

unfoldable pub new : List String → App
new files = record {
  devices = [];
  sessions = [];
  focus = 0;
  pending_files = files;
  input = InputMode.normal;
  hidden = [];
  notice = none;
}

abbrev pub has_id : String → SessionView → Bool
has_id id v = v.id == id

-- `hidden.contains`
unfoldable pub contains : String → List String → Bool
contains id ids = any (λ j. j == id) ids

unfoldable pub apply_devices : List NodeDevice → App → App
apply_devices devices app = record app { devices = devices }

-- `rem_euclid` of `focus + delta`.
unfoldable pub rem_euclid : ℕ → ℤ → ℕ → ℕ
rem_euclid focus (pos n) len = (focus + n) % len
rem_euclid focus (negsuc n) len =
    if leb (suc n) focus then (focus - suc n) % len else (len - (suc n - focus) % len) % len

-- The new focus on a list of sessions.
unfoldable pub cycled : ℤ → List SessionView → ℕ → ℕ
unfolding rem_euclid
cycled delta [] focus = 0
cycled delta (v ∷ vs) focus = rem_euclid focus delta (length (v ∷ vs))

unfoldable pub cycle_focus : ℤ → App → App
unfolding cycled
cycle_focus delta app = record app { focus = cycled delta app.sessions app.focus }

unfoldable pub clamped : List SessionView → ℕ → ℕ
clamped [] focus = 0
clamped (v ∷ vs) focus = if leb (length (v ∷ vs)) focus then length (v ∷ vs) - 1 else focus

unfoldable pub clamp_focus : App → App
unfolding clamped
clamp_focus app = record app { focus = clamped app.sessions app.focus }

-- The loop of `apply_index` over the summaries.
unfoldable pub merge_one : List String → SessionSummary → List SessionView → List SessionView
unfolding contains modify_or_push from_summary update_from_summary
merge_one hidden s views =
    if contains s.id hidden
    then views
    else modify_or_push (has_id s.id) (update_from_summary s) (from_summary s) views

unfoldable pub merge : List String → List SessionSummary → List SessionView → List SessionView
unfolding merge_one
merge hidden [] views = views
merge hidden (s ∷ index) views = merge hidden index (merge_one hidden s views)

unfoldable pub is_shown : List String → List SessionSummary → SessionView → Bool
unfolding contains
is_shown hidden index v =
    not (contains v.id hidden) && any (λ (s : SessionSummary). s.id == v.id) index

unfoldable pub apply_index : List SessionSummary → App → App
unfolding merge is_shown clamp_focus
apply_index index app = clamp_focus (record app {
  sessions = filterb (is_shown app.hidden index) (merge app.hidden index app.sessions);
})

unfoldable pub apply_event : String → SessionEvent → App → App
unfolding modify View.apply_event
apply_event id event app = record app {
  sessions = modify (has_id id) (View.apply_event event) app.sessions;
}

unfoldable pub view_at : ℕ → List SessionView → Option SessionView
view_at i [] = none
view_at zero (v ∷ vs) = some v
view_at (suc i) (v ∷ vs) = view_at i vs

unfoldable pub focused : App → Option SessionView
unfolding view_at
focused app = view_at app.focus app.sessions

-- `HashSet::insert`
unfoldable pub hide : List String → List String → List String
unfolding contains
hide [] hidden = hidden
hide (id ∷ ids) hidden = hide ids (if contains id hidden then hidden else id ∷ hidden)

unfoldable pub terminal_ids : App → List String
terminal_ids app = map (λ (v : SessionView). v.id) (filterb is_terminal app.sessions)

unfoldable pub clear_terminal : App → App × ℕ
unfolding terminal_ids hide contains clamp_focus
clear_terminal app =
    let hidden = hide (terminal_ids app) app.hidden in
    (
      clamp_focus (record app {
        hidden = hidden;
        sessions = filterb (λ v. not (contains v.id hidden)) app.sessions;
      }),
      length (terminal_ids app),
    )

-- The new state, and the paths that do not exist.
unfoldable pub stage_files : (String → Bool) → List String → App → App × List String
stage_files exists paths app = (
  record app { pending_files = app.pending_files ++ filterb exists paths },
  filterb (λ p. not (exists p)) paths,
)

unfoldable pub pending_receive_count : App → ℕ
pending_receive_count app = count is_pending_receive app.sessions

-- What the event loop feeds into the state.
pub data Input : Type 0 where
  devices : List NodeDevice → Input
  index : List SessionSummary → Input
  event : String → SessionEvent → Input
  cycle : ℤ → Input
  clear : Input
  stage : List String → Input

unfoldable pub step : (String → Bool) → Input → App → App
unfolding apply_devices apply_index apply_event cycle_focus clear_terminal stage_files
step exists (devices ds) app = apply_devices ds app
step exists (index summaries) app = apply_index summaries app
step exists (event id ev) app = apply_event id ev app
step exists (cycle delta) app = cycle_focus delta app
step exists clear app = (clear_terminal app).0
step exists (stage paths) app = (stage_files exists paths app).0

unfoldable pub run : (String → Bool) → List Input → App → App
unfolding step
run exists [] app = app
run exists (i ∷ is) app = run exists is (step exists i app)
