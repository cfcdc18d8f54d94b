-- ===== src/Panel/Sessions.antt =====
-- The login sessions of rust/relay-panel/src/state.rs and its cache of the relay's sessions.
-- Times are seconds. `new_v4` gives the n-th UUID that the process makes; `CoturnSession` and the
-- calls of coturn are parameters.
use localsend_rs.Base.{
  ℕ, suc, ◌+◌, ◌-◌, ◌*◌, Bool, true, false, Option, none, some, List, [], ◌∷◌, ◌==◌, bytes_eq,
  length, nat_beq, ltb, if◌then◌else◌,
}
use localsend_rs.Base.Text.{split_on, split_once, trim}
use localsend_rs.HashMap.{HashMap, get, insert, remove}
use localsend_rs.TurnServer.State.{ascii}
use localsend_rs.TurnServer.Auth.{xor_fold}

abbrev pub session_ttl : ℕ
session_ttl = 12 * 3600

abbrev pub sessions_ttl : ℕ
sessions_ttl = 5

pub record AppState : Type 0 where
  pub admin_password : List ℕ
  pub sessions : HashMap (List ℕ) ℕ
  pub minted : ℕ

unfoldable pub same_str : List ℕ → List ℕ → Bool
unfolding xor_fold
same_str a b = if nat_beq (length a) (length b) then nat_beq (xor_fold 0 a b) 0 else false

unfoldable pub login : (ℕ → List ℕ) → ℕ → List ℕ → AppState → AppState × Option (List ℕ)
unfolding same_str
login new_v4 now password st =
    if same_str password st.admin_password
    then (
      record st {
        sessions = insert (new_v4 st.minted) (now + session_ttl) st.sessions;
        minted = suc st.minted;
      },
      some (new_v4 st.minted),
    )
    else (st, none)

-- `map.remove(token)` and the refusal.
abbrev forget : List ℕ → AppState → AppState × Bool
forget token st = (record st { sessions = remove token st.sessions }, false)

unfoldable pub check_session : ℕ → Option (List ℕ) → AppState → AppState × Bool
check_session now none st = (st, false)
check_session now (some token) st = elim (get token st.sessions) [
  | none ↦ forget token st
  | some expiry ↦ if ltb now expiry then (st, true) else forget token st
]

unfoldable pub logout : List ℕ → AppState → AppState
logout token st = record st { sessions = remove token st.sessions }

-- The value of one `name=value` pair, if the name is `panel_session`.
unfoldable pub session_value : List ℕ → Option (List ℕ)
unfolding split_once trim
session_value pair = elim (split_once 61 (trim pair)) [
  | none ↦ none
  | some (name, value) ↦ if name == ascii "panel_session" then some value else none
]

-- `find_map`
unfoldable pub find_map {ℓ κ} : {A : Type ℓ} {B : Type κ} → (A → Option B) → List A → Option B
find_map f [] = none
find_map f (x ∷ xs) = elim (f x) [ none ↦ find_map f xs | some y ↦ some y ]

unfoldable pub parse_session_cookie : List ℕ → Option (List ℕ)
unfolding session_value find_map split_on
parse_session_cookie header = find_map session_value (split_on 59 header)

-- The headers are the values of `Cookie` that are text.
unfoldable pub authed : ℕ → List (List ℕ) → AppState → AppState × Bool
unfolding check_session find_map parse_session_cookie
authed now headers st = check_session now (find_map parse_session_cookie headers) st

abbrev pub Cache {ℓ} : Type ℓ → Type ℓ
Cache A = Option (ℕ × List A)

-- `fetched` is the answer of coturn, the empty list if the call failed.
unfoldable pub coturn_sessions {ℓ} : {A : Type ℓ} → ℕ → List A → Cache A → Cache A × List A
coturn_sessions now fetched none = (some (now, fetched), fetched)
coturn_sessions now fetched (some (at, list)) =
    if ltb (now - at) sessions_ttl then (some (at, list), list) else (some (now, fetched), fetched)

-- The call of coturn that follows changes nothing here.
unfoldable pub kick_session {ℓ} : {A : Type ℓ} → Cache A → Cache A
kick_session cache = none

-- What the routes do with the sessions.
pub data Request : Type 0 where
  log_in : List ℕ → Request
  visit : List (List ℕ) → Request
  log_out : List ℕ → Request

unfoldable pub handle : (ℕ → List ℕ) → ℕ → Request → AppState → AppState
unfolding login authed logout
handle new_v4 now (log_in password) st = (login new_v4 now password st).0
handle new_v4 now (visit headers) st = (authed now headers st).0
handle new_v4 now (log_out token) st = logout token st

-- Requests with their times.
unfoldable pub run : (ℕ → List ℕ) → List (ℕ × Request) → AppState → AppState
unfolding handle
run new_v4 [] st = st
run new_v4 ((now, req) ∷ reqs) st = run new_v4 reqs (handle new_v4 now req st)
