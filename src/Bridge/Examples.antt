-- ===== src/Bridge/Examples.antt =====
-- The bridge at concrete connections.
use mathlib.Core.List.{Memᴰ}
use localsend_rs.Base.{ℕ, ◌≡◌, refl, nat_eq, bytes_eq, List, [], ◌∷◌, arith}
use localsend_rs.Base.Text.{is_space}
use localsend_rs.HashMap.{get, insert, contains_key}
use localsend_rs.TurnServer.State.{ascii}
use localsend_rs.Bridge.Commands.{
  Command, listen_header, connect_header, read_command, dialled, Dialled, not_found_answer,
  ok_answer,
}
use localsend_rs.Bridge.Pairing as Pairing
use localsend_rs.Bridge.Pairing.{
  Waiting, Relay, new, connect, is_open, wake, Event, listens, connects, wakes, step_listen,
  step_connect, step_wake, Reaches, start, next, hand,
}
use localsend_rs.Bridge.Handshake.{read_command-headers}
use localsend_rs.Bridge.Spliced.{Reaches-joined}
use localsend_rs.Bridge.Evicted.{Evicted, wake-evicts}

-- The client does not recognise the answer that its target is not listening: it compares the
-- line feed too.
answer_unexpected : dialled not_found_answer ≡ Dialled.unexpected not_found_answer
unfolding dialled
answer_unexpected = refl

ok_recognised : dialled ok_answer ≡ Dialled.tunnel
unfolding dialled
ok_recognised = refl

read_command-headers_example :
    (read_command (connect_header (ascii "fp")) ≡ Command.connect (ascii "fp"))
    × (read_command (listen_header (ascii "fp")) ≡ Command.listen (ascii "fp"))
unfolding is_space
read_command-headers_example = read_command-headers 102 (112 ∷ []) (refl, (refl, tt)) (omega arith)

abbrev fp : List ℕ
fp = ascii "fp"

abbrev one_waits : Relay
one_waits = Pairing.listen 7 fp new

abbrev joined : Relay
joined = wake 0 (connect 9 fp one_waits).0

pair_joined : Memᴰ (7, 9) joined.spliced
unfolding Pairing.listen new connect hand wake get insert contains_key
pair_joined = Memᴰ.head refl

Reaches-joined_example :
    (f : List ℕ) × Memᴰ (listens 7 f) (wakes 0 ∷ connects 9 fp ∷ listens 7 fp ∷ [])
    × Memᴰ (connects 9 f) (wakes 0 ∷ connects 9 fp ∷ listens 7 fp ∷ [])
Reaches-joined_example =
    Reaches-joined (wakes 0 ∷ connects 9 fp ∷ listens 7 fp ∷ []) joined 7 9
      (next (next (next start (step_listen 7 fp new)) (step_connect 9 fp one_waits))
        (step_wake 0 (connect 9 fp one_waits).0))
      pair_joined

-- The same device listens twice.
abbrev two_wait : Relay
two_wait = Pairing.listen 8 fp one_waits

wake-evicts_example : Evicted fp (wake 0 two_wait)
unfolding Pairing.listen new get insert is_open
wake-evicts_example =
    wake-evicts (listens 8 fp ∷ listens 7 fp ∷ []) two_wait 0
      (record { fingerprint = fp; stream = 7 })
      (next (next start (step_listen 7 fp new)) (step_listen 8 fp one_waits)) refl refl refl
