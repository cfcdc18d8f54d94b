-- ===== src/Server/Examples.antt =====
-- The server's theorems at concrete requests.
use localsend_rs.Base.{
  string_eq, nat_eq, bytes_eq, ℕ, ◌≡◌, refl, inr, Bool, true, false, List, [], ◌∷◌, some, none,
  arith, nat_beq, ◌==◌,
}
use localsend_rs.Base.Decimal.{decimal, digits}
use localsend_rs.HashMap.{get, insert, contains_key}
use localsend_rs.TurnServer.State.{ascii}
use localsend_rs.Server.Ports.{bind_port, bound}
use localsend_rs.Server.PortSearch.{Explains, bind_port-Explains}
use localsend_rs.Server.Listener.{Handshake, Incoming, Conn, serve, is_tls, accept}
use localsend_rs.Server.Serving.{reached, served, serve-served}
use localsend_rs.Server.Paths.{PathBuf, join, numbered, stem_and_ext, dedup_path}
use localsend_rs.Server.Names.{dedup_path-free_iff}
use localsend_rs.Server.Inside.{IsInside, dedup_path-IsInside}
use localsend_rs.Server.Files.{Disk, Faults, Piece, bytes, stream_to_file, exists}
use localsend_rs.Server.Stored.{with_dir, stream_to_file-keeps, IsStored, stream_to_file-IsStored}

-- The first two attempts fail.
abbrev third : ℕ → ℕ → Bool
third try port = nat_beq try 2

third_port : bind_port third 53317 ≡ bound 53319
unfolding bind_port
third_port = refl

bind_port-Explains_example : Explains third 53317 (bind_port third 53317)
bind_port-Explains_example = bind_port-Explains third 53317

abbrev arrivals : List Incoming
arrivals =
    Incoming.arrived (22 ∷ []) Handshake.fails "a"
    ∷ Incoming.failed
    ∷ Incoming.arrived (71 ∷ []) Handshake.fails "b"
    ∷ Incoming.arrived (22 ∷ []) Handshake.succeeds "c"
    ∷ Incoming.silent
    ∷ Incoming.arrived (71 ∷ []) Handshake.fails "d"
    ∷ []

served_two : serve true 6 arrivals ≡ Conn.plain "b" ∷ Conn.tls "c" ∷ []
unfolding serve accept is_tls
served_two = refl

serve-served_example : serve true 6 arrivals ≡ served true (reached true arrivals)
serve-served_example = serve-served true 6 arrivals (omega arith)

abbrev pub inbox : PathBuf
inbox = ascii "in"

abbrev taken : PathBuf → Bool
taken path = path == ascii "in/a.txt"

renamed : dedup_path taken inbox (ascii "a.txt") ≡ ascii "in/a (1).txt"
unfolding dedup_path join stem_and_ext numbered decimal digits
renamed = refl

dedup_path-free_iff_example : taken (dedup_path taken inbox (ascii "a.txt")) ≡ false
unfolding join stem_and_ext numbered decimal digits
dedup_path-free_iff_example =
    (dedup_path-free_iff taken inbox (ascii "a.txt")).1 (inr (1, omega arith, omega arith, refl))

dedup_path-IsInside_example : IsInside inbox (ascii "a") (dedup_path taken inbox (ascii "a"))
dedup_path-IsInside_example = dedup_path-IsInside taken inbox (ascii "a") (λ e. omega arith, tt)

abbrev pub disk : Disk
disk = record { files = (ascii "in/a", 1 ∷ 2 ∷ []) ∷ []; dirs = inbox ∷ [] }

abbrev pub no_faults : Faults
no_faults = record { create_dir = none; create = λ path. none; shutdown = none }

abbrev pub body : List Piece
body = bytes (7 ∷ 8 ∷ []) true ∷ bytes (9 ∷ []) false ∷ []

stored_beside :
    (stream_to_file no_faults inbox (ascii "a") body disk).disk.files
    ≡ (ascii "in/a", 1 ∷ 2 ∷ []) ∷ (ascii "in/a (1)", 7 ∷ 8 ∷ 9 ∷ []) ∷ []
unfolding stream_to_file exists dedup_path contains_key insert join numbered stem_and_ext
stored_beside = refl

stream_to_file-keeps_example :
    get (ascii "in/a") (stream_to_file no_faults inbox (ascii "a") body disk).disk.files
    ≡ some (1 ∷ 2 ∷ [])
unfolding with_dir exists join stem_and_ext numbered decimal digits get contains_key
stream_to_file-keeps_example =
    stream_to_file-keeps no_faults inbox (ascii "a") body disk (ascii "in/a") (1 ∷ 2 ∷ [])
      (inr (1, omega arith, omega arith, refl)) refl

stream_to_file-IsStored_example :
    IsStored inbox (ascii "a") body disk (stream_to_file no_faults inbox (ascii "a") body disk)
unfolding stream_to_file exists dedup_path contains_key
stream_to_file-IsStored_example = stream_to_file-IsStored no_faults inbox (ascii "a") body disk refl
