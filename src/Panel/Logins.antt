-- ===== src/Panel/Logins.antt =====
-- Who is logged in to the panel.
use localsend_rs.Base.{
  ℕ, ◌+◌, ◌<◌, ◌≡◌, refl, sym, ap, ◌++◌, length, nat_beq_iff, ◌⊎◌, inl, inr, true, Option, none,
  some, List, [], ◌∷◌, bytes_eq, arith, Option-cases, Bool-cases,
}
use localsend_rs.HashMap.{get, insert}
use localsend_rs.HashMap.Laws.{get-insert_cases, get-remove}
use localsend_rs.TurnServer.Auth.{xor_fold}
use localsend_rs.TurnServer.Secrets.{xor_fold-zero}
use localsend_rs.Panel.Sessions.{
  AppState, session_ttl, same_str, login, check_session, logout, find_map, parse_session_cookie,
  authed, Request, log_in, visit, log_out, handle, run,
}

same_str-true : (a b : List ℕ) → same_str a b ≡ true → a ≡ b
unfolding same_str
same_str-true a b h =
    let len : length a ≡ length b = ground (arith, nat_beq_iff (length a) (length b)) in
    (xor_fold-zero 0 a b len (ground (arith, nat_beq_iff (xor_fold 0 a b) 0))).1

-- One of the requests was a login, with the admin's password, that was answered with `token` and
-- ends at `expiry`.
pub record LoggedIn (new_v4 : ℕ → List ℕ) (st : AppState) (token : List ℕ) (expiry : ℕ)
    (reqs : List (ℕ × Request)) : Type 0 where
  pub before : List (ℕ × Request)
  pub after : List (ℕ × Request)
  pub at : ℕ
  pub asked : reqs ≡ before ++ (at, Request.log_in st.admin_password) ∷ after
  pub issued : (login new_v4 at st.admin_password (run new_v4 before st)).1 ≡ some token
  pub ends : expiry ≡ at + session_ttl

login-get :
    (new_v4 : ℕ → List ℕ) (now : ℕ) (given : List ℕ) (st : AppState) (token : List ℕ) (expiry : ℕ)
    → get token (login new_v4 now given st).0.sessions ≡ some expiry
    → (get token st.sessions ≡ some expiry)
      ⊎ ((given ≡ st.admin_password)
          × ((login new_v4 now given st).1 ≡ some token)
          × (expiry ≡ now + session_ttl))
unfolding login
login-get new_v4 now given st token expiry h =
    elim (Bool-cases (same_str given st.admin_password)) [
      | inr wrong ↦ inl (rw (wrong, login) at h)
      | inl right ↦
          let inserted : get token (insert (new_v4 st.minted) (now + session_ttl) st.sessions)
              ≡ some expiry =
            rw (right, login) at h in
          elim (get-insert_cases (new_v4 st.minted) token (now + session_ttl) expiry st.sessions
            inserted) [
              | inl (new, ends) ↦ inr (
                same_str-true given st.admin_password right,
                rw (right, login, new) refl,
                sym ends,
              )
              | inr old ↦ inl old
            ]
    ]

check_session-get :
    (now : ℕ) (asked : Option (List ℕ)) (st : AppState) (token : List ℕ) (expiry : ℕ)
    → get token (check_session now asked st).0.sessions ≡ some expiry
    → get token st.sessions ≡ some expiry
unfolding check_session
check_session-get now none st token expiry h = h
check_session-get now (some t) st token expiry h = ground (arith, get-remove t token st.sessions)

handle-admin :
    (new_v4 : ℕ → List ℕ) (now : ℕ) (req : Request) (st : AppState)
    → (handle new_v4 now req st).admin_password ≡ st.admin_password
unfolding handle login authed logout check_session
handle-admin new_v4 now (log_in given) st = ground arith
handle-admin new_v4 now (visit headers) st = ground arith
handle-admin new_v4 now (log_out token) st = refl

handle-get :
    (new_v4 : ℕ → List ℕ) (now : ℕ) (req : Request) (reqs : List (ℕ × Request)) (st : AppState)
    (token : List ℕ) (expiry : ℕ)
    → get token (handle new_v4 now req st).sessions ≡ some expiry
    → (get token st.sessions ≡ some expiry) ⊎ LoggedIn new_v4 st token expiry ((now, req) ∷ reqs)
unfolding handle authed logout run
handle-get new_v4 now (log_in given) reqs st token expiry h =
    elim (login-get new_v4 now given st token expiry h) [
      | inl old ↦ inl old
      | inr (right, issued, ends) ↦ inr (record {
        before = [];
        after = reqs;
        at = now;
        asked = ap (λ p. (now, Request.log_in p) ∷ reqs) right;
        issued = rw right at issued;
        ends = ends;
      })
    ]
handle-get new_v4 now (visit headers) reqs st token expiry h =
    inl (check_session-get now (find_map parse_session_cookie headers) st token expiry h)
handle-get new_v4 now (log_out t) reqs st token expiry h =
    inl (ground (arith, get-remove t token st.sessions))

-- A login among the later requests.
LoggedIn-later :
    (new_v4 : ℕ → List ℕ) (now : ℕ) (req : Request) (reqs : List (ℕ × Request)) (st : AppState)
    (token : List ℕ) (expiry : ℕ)
    → LoggedIn new_v4 (handle new_v4 now req st) token expiry reqs
    → LoggedIn new_v4 st token expiry ((now, req) ∷ reqs)
unfolding run
LoggedIn-later new_v4 now req reqs st token expiry l =
    let same = handle-admin new_v4 now req st in
    record {
      before = (now, req) ∷ l.before;
      after = l.after;
      at = l.at;
      asked = ap (λ rs. (now, req) ∷ rs) (rw same at l.asked);
      issued = rw same at l.issued;
      ends = l.ends;
    }

run-get :
    (new_v4 : ℕ → List ℕ) (reqs : List (ℕ × Request)) (st : AppState) (token : List ℕ) (expiry : ℕ)
    → get token (run new_v4 reqs st).sessions ≡ some expiry
    → (get token st.sessions ≡ some expiry) ⊎ LoggedIn new_v4 st token expiry reqs
unfolding run
run-get new_v4 [] st token expiry h = inl h
run-get new_v4 ((now, req) ∷ reqs) st token expiry h =
    elim (run-get new_v4 reqs (handle new_v4 now req st) token expiry h) [
      | inl kept ↦ handle-get new_v4 now req reqs st token expiry kept
      | inr later ↦ inr (LoggedIn-later new_v4 now req reqs st token expiry later)
    ]

check_session-true :
    (now : ℕ) (asked : Option (List ℕ)) (st : AppState)
    → (check_session now asked st).1 ≡ true
    → (token : List ℕ) × (expiry : ℕ) × (asked ≡ some token)
      × (get token st.sessions ≡ some expiry)
      × (now < expiry)
unfolding check_session
check_session-true now none st h = cc h
check_session-true now (some token) st h = elim (Option-cases (get token st.sessions)) [
  | inl missing ↦ cc (rw (missing, check_session) at h)
  | inr (expiry, found) ↦
      (token, expiry, refl, found, ground (arith, rw (found, check_session) at h))
]

-- A panel that has just started.
abbrev pub started : List ℕ → AppState
started password = record { admin_password = password; sessions = []; minted = 0 }

-- A request counts as authenticated only if the token in its cookie was given out by an earlier
-- login, with exactly the admin's password and less than twelve hours before. The panel starts
-- without sessions.
pub run-authed :
    (new_v4 : ℕ → List ℕ) (reqs : List (ℕ × Request)) (password : List ℕ) (now : ℕ)
    (headers : List (List ℕ))
    → (authed now headers (run new_v4 reqs (started password))).1 ≡ true
    → (token : List ℕ) × (expiry : ℕ) × (find_map parse_session_cookie headers ≡ some token)
      × LoggedIn new_v4 (started password) token expiry reqs
      × (now < expiry)
unfolding authed
run-authed new_v4 reqs password now headers h =
    let (token, expiry, cookie, found, valid) =
      check_session-true now (find_map parse_session_cookie headers)
        (run new_v4 reqs (started password)) h in
    elim (run-get new_v4 reqs (started password) token expiry found) [
      | inl already ↦ unfold get in cc already
      | inr l ↦ (token, expiry, cookie, l, valid)
    ]
