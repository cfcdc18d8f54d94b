-- ===== src/Server/Paths.antt =====
-- `dedup_path` of rust/core/src/server.rs, and what it uses of `std::path` on Unix. A path is the
-- list of its characters; `exists` is the file system's answer.
use localsend_rs.Base.{
  ℕ, zero, suc, Bool, true, false, ◌||◌, Option, none, some, List, [], ◌∷◌, ◌++◌, ◌==◌, bytes_eq,
  nat_beq, if◌then◌else◌,
}
use localsend_rs.Base.Decimal.{decimal}
use localsend_rs.Base.Text.{split_on}

abbrev pub PathBuf : Type 0
PathBuf = List ℕ

abbrev pub slash : ℕ
slash = 47

abbrev pub dot : ℕ
dot = 46

abbrev pub dotdot : PathBuf
dotdot = dot ∷ dot ∷ []

abbrev pub is_absolute : PathBuf → Bool
is_absolute [] = false
is_absolute (c ∷ cs) = nat_beq c slash

unfoldable pub ends_with_slash : PathBuf → Bool
ends_with_slash [] = false
ends_with_slash (c ∷ []) = nat_beq c slash
ends_with_slash (c ∷ d ∷ cs) = ends_with_slash (d ∷ cs)

abbrev pub is_nothing : PathBuf → Bool
is_nothing [] = true
is_nothing (c ∷ cs) = false

-- `Path::join`: an absolute path replaces the directory.
unfoldable pub join : PathBuf → PathBuf → PathBuf
unfolding ends_with_slash
join dir name =
    if is_absolute name
    then name
    else if is_nothing dir || ends_with_slash dir
    then dir ++ name
    else dir ++ slash ∷ name

-- The last component, as `components` reads the parts: empty ones and `.` do not count.
unfoldable pub last_component : Option PathBuf → List PathBuf → Option PathBuf
last_component found [] = found
last_component found (part ∷ parts) =
    last_component (if is_nothing part || part == dot ∷ [] then found else some part) parts

-- `Path::file_name`
unfoldable pub file_name : PathBuf → Option PathBuf
unfolding split_on last_component
file_name path = elim (last_component none (split_on slash path)) [
  | none ↦ none
  | some part ↦ if part == dotdot then none else some part
]

-- The text before the last dot and that after it.
unfoldable pub rsplit_dot : PathBuf → Option (PathBuf × PathBuf)
rsplit_dot [] = none
rsplit_dot (c ∷ cs) = elim (rsplit_dot cs) [
  | none ↦ if nat_beq c dot then some ([], cs) else none
  | some (before, after) ↦ some (c ∷ before, after)
]

-- `rsplit_file_at_dot` of `std::path`: the stem of a file name and its extension.
unfoldable pub split_name : PathBuf → PathBuf × Option PathBuf
unfolding rsplit_dot
split_name name = elim (rsplit_dot name) [
  | none ↦ (name, none)
  | some (before, after) ↦ if is_nothing before then (name, none) else (before, some after)
]

-- `stem` and `ext` of `dedup_path`.
unfoldable pub stem_and_ext : PathBuf → PathBuf × Option PathBuf
unfolding file_name split_name
stem_and_ext name = elim (file_name name) [ none ↦ (name, none) | some part ↦ split_name part ]

-- `{stem} ({n}).{ext}`, or `{stem} ({n})`.
unfoldable pub numbered : PathBuf × Option PathBuf → ℕ → PathBuf
unfolding decimal
numbered (stem, none) n = stem ++ (32 ∷ 40 ∷ (decimal n ++ 41 ∷ []))
numbered (stem, some ext) n = stem ++ (32 ∷ 40 ∷ (decimal n ++ 41 ∷ dot ∷ ext))

-- The loop over the numbers from `n` on, of which `left` are left.
unfoldable pub first_free :
    (PathBuf → Bool) → PathBuf → PathBuf × Option PathBuf → PathBuf → ℕ → ℕ → PathBuf
first_free exists dir name fallback zero n = fallback
first_free exists dir name fallback (suc left) n = elim (exists (join dir (numbered name n))) [
  | true ↦ first_free exists dir name fallback left (suc n)
  | false ↦ join dir (numbered name n)
]

unfoldable pub dedup_path : (PathBuf → Bool) → PathBuf → PathBuf → PathBuf
unfolding first_free
dedup_path exists dir name =
    if exists (join dir name)
    then first_free exists dir (stem_and_ext name) (join dir name) 999 1
    else join dir name
