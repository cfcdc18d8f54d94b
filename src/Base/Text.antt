-- ===== src/Base/Text.antt =====
-- What the program uses of `str`, on texts as lists of characters.
use Prim.Native.Nat.{ℕ}
use mathlib.Core.Bool.{Bool, false, ◌||◌}
use mathlib.Core.List.{List, [], ◌∷◌, ◌++◌}
use mathlib.Core.Option.{Option, none, some}
use localsend_rs.Base.Tests.{nat_beq, leb, if◌then◌else◌}

abbrev pub longer_head : ℕ → List (List ℕ) → List (List ℕ)
longer_head c [] = (c ∷ []) ∷ []
longer_head c (part ∷ parts) = (c ∷ part) ∷ parts

-- `split`
unfoldable pub split_on : ℕ → List ℕ → List (List ℕ)
split_on sep [] = [] ∷ []
split_on sep (c ∷ cs) =
    let rest = split_on sep cs in if nat_beq c sep then [] ∷ rest else longer_head c rest

-- `split_once`
unfoldable pub split_once : ℕ → List ℕ → Option (List ℕ × List ℕ)
split_once sep [] = none
split_once sep (c ∷ cs) =
    let rest = split_once sep cs in
    if nat_beq c sep
    then some ([], cs)
    else elim rest [ none ↦ none | some (before, after) ↦ some (c ∷ before, after) ]

-- White space among the ASCII characters.
unfoldable pub is_space : ℕ → Bool
is_space c = nat_beq c 32 || (if leb 9 c then leb c 13 else false)

unfoldable pub trim_start : List ℕ → List ℕ
unfolding is_space
trim_start [] = []
trim_start (c ∷ cs) = let rest = trim_start cs in if is_space c then rest else c ∷ cs

unfoldable pub trim_end : List ℕ → List ℕ
unfolding is_space
trim_end [] = []
trim_end (c ∷ cs) = elim (trim_end cs) [
  | [] ↦ if is_space c then [] else c ∷ []
  | d ∷ ds ↦ c ∷ d ∷ ds
]

unfoldable pub trim : List ℕ → List ℕ
unfolding trim_start trim_end
trim t = trim_end (trim_start t)

abbrev pub push_word : List ℕ → List (List ℕ) → List (List ℕ)
push_word [] words = words
push_word (c ∷ cs) words = (c ∷ cs) ∷ words

-- `split_whitespace`; `word` is the word that has been read so far.
unfoldable pub words_from : List ℕ → List ℕ → List (List ℕ)
unfolding is_space
words_from word [] = push_word word []
words_from word (c ∷ cs) =
    let ended = words_from [] cs in
    let longer = words_from (word ++ c ∷ []) cs in
    if is_space c then push_word word ended else longer

unfoldable pub split_whitespace : List ℕ → List (List ℕ)
unfolding words_from
split_whitespace text = words_from [] text

-- `lines().next().unwrap_or_default()`, but for a carriage return at its end.
unfoldable pub first_line : List ℕ → List ℕ
first_line [] = []
first_line (c ∷ cs) = let rest = first_line cs in if nat_beq c 10 then [] else c ∷ rest
