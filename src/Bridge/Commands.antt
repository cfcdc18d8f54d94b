-- ===== src/Bridge/Commands.antt =====
-- The header lines of a bridge, and the relay's answers, on both sides.
use localsend_rs.Base.{ℕ, List, [], ◌∷◌, ◌++◌, ◌==◌, bytes_eq, take, if◌then◌else◌}
use localsend_rs.Base.Text.{split_whitespace, first_line}
use localsend_rs.TurnServer.State.{ascii}

pub data Command : Type 0 where
  listen connect : List ℕ → Command
  bad_header unknown_command : Command

unfoldable pub command_of : List (List ℕ) → Command
command_of (bridge ∷ command ∷ fingerprint ∷ more) =
    if bridge == ascii "BRIDGE"
    then (if command == ascii "LISTEN"
        then Command.listen fingerprint
        else if command == ascii "CONNECT"
        then Command.connect fingerprint
        else Command.unknown_command)
    else Command.bad_header
command_of _ = Command.bad_header

-- What the relay reads from the first 256 bytes of a connection.
unfoldable pub read_command : List ℕ → Command
unfolding command_of split_whitespace first_line
read_command sent = command_of (split_whitespace (first_line (take 256 sent)))

unfoldable pub listen_header : List ℕ → List ℕ
listen_header fingerprint = ascii "BRIDGE LISTEN " ++ fingerprint ++ 10 ∷ []

unfoldable pub connect_header : List ℕ → List ℕ
connect_header fingerprint = ascii "BRIDGE CONNECT " ++ fingerprint ++ 10 ∷ []

abbrev pub ok_answer : List ℕ
ok_answer = ascii "BRIDGE OK" ++ 10 ∷ []

abbrev pub not_found_answer : List ℕ
not_found_answer = ascii "BRIDGE NOT_FOUND" ++ 10 ∷ []

pub data Dialled : Type 0 where
  tunnel not_listening : Dialled
  unexpected : List ℕ → Dialled

-- What `dial_bridge` makes of the bytes that its one read gives.
unfoldable pub dialled : List ℕ → Dialled
dialled resp =
    if take 9 resp == ascii "BRIDGE OK"
    then Dialled.tunnel
    else if take 17 resp == ascii "BRIDGE NOT_FOUND"
    then Dialled.not_listening
    else Dialled.unexpected resp
