-- ===== src/Panel/Examples.antt =====
-- The panel at concrete requests.
use localsend_rs.Base.{ℕ, ◌<◌, ◌≡◌, refl, true, List, [], ◌∷◌, none, some, bytes_eq}
use localsend_rs.HashMap.{get, insert}
use localsend_rs.TurnServer.State.{ascii}
use localsend_rs.DiscoveryServer.Registry as Relay
use localsend_rs.DiscoveryServer.Registry.{Crates}
use localsend_rs.Panel.Sessions.{Request, log_in, find_map, parse_session_cookie, authed, run}
use localsend_rs.Panel.Logins.{LoggedIn, started, run-authed}
use localsend_rs.Panel.Discovery.{verify}
use localsend_rs.Panel.Agreement.{verify-agrees}

abbrev cookie : List ℕ
cookie = ascii "theme=dark; panel_session=t0"

cookie_read : parse_session_cookie cookie ≡ some (ascii "t0")
unfolding parse_session_cookie
cookie_read = refl

abbrev uuid : ℕ → List ℕ
uuid n = ascii "t0"

abbrev logins : List (ℕ × Request)
logins = (100, log_in (ascii "pw")) ∷ []

visit_authed : (authed 43299 (cookie ∷ []) (run uuid logins (started (ascii "pw")))).1 ≡ true
unfolding authed run get insert
visit_authed = refl

run-authed_example :
    (token : List ℕ) × (expiry : ℕ) × (find_map parse_session_cookie (cookie ∷ []) ≡ some token)
    × LoggedIn uuid (started (ascii "pw")) token expiry logins
    × (43299 < expiry)
run-authed_example = run-authed uuid logins (ascii "pw") 43299 (cookie ∷ []) visit_authed

abbrev crates : Crates
crates = record {
  from_json = λ body. none;
  to_json = λ entries. [];
  hmac_sha1 = λ secret text. text;
  base64_encode = λ bytes. bytes;
}

verify-agrees_example :
    verify crates 5 [] (ascii "9:a") (ascii "9:a")
    ≡ Relay.verify crates 5 [] (ascii "9:a") (ascii "9:a")
verify-agrees_example = verify-agrees crates 5 [] (ascii "9:a") (ascii "9:a")
