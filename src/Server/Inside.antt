-- ===== src/Server/Inside.antt =====
-- `dedup_path` and the directory that it is given.
use localsend_rs.Base.{
  ℕ, zero, suc, ◌/◌, ◌≡◌, refl, ◌≢◌, ◌⊎◌, inl, inr, Bool, arith, Bool-cases, if_elim, nat_beq_iff,
  Option, none, some, [], ◌∷◌, ◌++◌, bytes_eq, All, ltb,
}
use localsend_rs.Base.Decimal.{digits, decimal}
use localsend_rs.Base.Text.{split_on}
use localsend_rs.Server.Paths.{
  PathBuf, slash, dot, dotdot, join, last_component, file_name, split_name, stem_and_ext, numbered,
  first_free, dedup_path,
}
use localsend_rs.Server.Names.{with_dot, split_name-rejoin}

abbrev pub NoSlash : PathBuf → Type 0
NoSlash = All (λ c. c ≢ slash)

NoSlash-append : (p q : PathBuf) → NoSlash p → NoSlash q → NoSlash (p ++ q)
NoSlash-append [] q hp hq = hq
NoSlash-append (c ∷ cs) q (hc, hp) hq = (hc, NoSlash-append cs q hp hq)

NoSlash-split : (p q : PathBuf) → NoSlash (p ++ q) → NoSlash p × NoSlash q
NoSlash-split [] q h = (tt, h)
NoSlash-split (c ∷ cs) q (hc, h) = let (hp, hq) = NoSlash-split cs q h in ((hc, hp), hq)

digits-NoSlash : (k n : ℕ) (after : PathBuf) → NoSlash after → NoSlash (digits k n after)
unfolding digits
digits-NoSlash zero n after h = h
digits-NoSlash (suc k) n after h = elim (Bool-cases (ltb n 10)) [
  | inl short ↦ rw short (λ e. omega arith, h)
  | inr long ↦ rw long (digits-NoSlash k (n / 10) _ (λ e. omega arith, h))
]

bracketed : (n : ℕ) (after : PathBuf) → NoSlash after → NoSlash (32 ∷ 40 ∷ (decimal n ++ after))
unfolding decimal
bracketed n after h = (
  λ e. omega arith,
  (λ e. omega arith, NoSlash-append (decimal n) after (digits-NoSlash 20 n [] tt) h),
)

numbered-NoSlash :
    (name : PathBuf × Option PathBuf) (n : ℕ)
    → NoSlash name.0
    → NoSlash (with_dot name.1)
    → NoSlash (numbered name n)
unfolding numbered decimal
numbered-NoSlash (stem, none) n hs he =
    NoSlash-append stem (32 ∷ 40 ∷ (decimal n ++ 41 ∷ [])) hs
      (bracketed n (41 ∷ []) (λ e. omega arith, tt))
numbered-NoSlash (stem, some ext) n hs he =
    NoSlash-append stem (32 ∷ 40 ∷ (decimal n ++ 41 ∷ dot ∷ ext)) hs
      (bracketed n (41 ∷ dot ∷ ext) (λ e. omega arith, he))

split_on-NoSlash : (name : PathBuf) → NoSlash name → split_on slash name ≡ name ∷ []
unfolding split_on
split_on-NoSlash [] h = refl
split_on-NoSlash (c ∷ cs) (hc, h) = ground (arith, nat_beq_iff c slash, split_on-NoSlash cs h)

file_name-NoSlash :
    (name : PathBuf) → NoSlash name → (file_name name ≡ none) ⊎ (file_name name ≡ some name)
unfolding file_name last_component
file_name-NoSlash name h = ground (arith, split_on-NoSlash name h)

stem_and_ext-NoSlash :
    (name : PathBuf)
    → NoSlash name
    → NoSlash (stem_and_ext name).0 × NoSlash (with_dot (stem_and_ext name).1)
unfolding stem_and_ext
stem_and_ext-NoSlash name h =
    let parted =
      NoSlash-split (split_name name).0 (with_dot (split_name name).1)
        (rw (split_name-rejoin name) h) in
    elim (file_name-NoSlash name h) [
      | inl e ↦ rw (e, stem_and_ext) (h, tt)
      | inr e ↦ rw (e, stem_and_ext) parted
    ]

first_free-numbered :
    (exists : PathBuf → Bool) (dir : PathBuf) (name : PathBuf × Option PathBuf) (fallback : PathBuf)
    (left n : ℕ)
    → (first_free exists dir name fallback left n ≡ fallback)
      ⊎ ((k : ℕ) × (first_free exists dir name fallback left n ≡ join dir (numbered name k)))
unfolding first_free
first_free-numbered exists dir name fallback zero n = inl refl
first_free-numbered exists dir name fallback (suc left) n =
    elim (Bool-cases (exists (join dir (numbered name n)))) [
      | inl taken ↦
          rw (taken, first_free) (first_free-numbered exists dir name fallback left (suc n))
      | inr here ↦ rw (here, first_free) (inr (n, refl))
    ]

-- The names that stand for no entry of a directory: those of the directory and of its parent.
abbrev pub IsEntry : PathBuf → Type 0
IsEntry name = (name ≢ []) × (name ≢ dot ∷ []) × (name ≢ dotdot)

-- `path` is `dir` with one component joined to it, which is neither empty, `.` nor `..`, unless
-- the name was.
pub record IsInside (dir name path : PathBuf) : Type 0 where
  pub leaf : PathBuf
  pub plain : NoSlash leaf
  pub joined : path ≡ join dir leaf
  pub entry : IsEntry name → IsEntry leaf

has_space : (p q : PathBuf) → IsEntry (p ++ 32 ∷ q)
has_space [] q = (λ e. ground arith, λ e. ground arith, λ e. ground arith)
has_space (a ∷ []) q = (λ e. ground arith, λ e. ground arith, λ e. ground arith)
has_space (a ∷ b ∷ []) q = (λ e. ground arith, λ e. ground arith, λ e. ground arith)
has_space (a ∷ b ∷ c ∷ p) q = (λ e. ground arith, λ e. ground arith, λ e. ground arith)

numbered-IsEntry : (name : PathBuf × Option PathBuf) (n : ℕ) → IsEntry (numbered name n)
unfolding numbered
numbered-IsEntry (stem, none) n = has_space stem (40 ∷ (decimal n ++ 41 ∷ []))
numbered-IsEntry (stem, some ext) n = has_space stem (40 ∷ (decimal n ++ 41 ∷ dot ∷ ext))

as_given : (dir name : PathBuf) → NoSlash name → IsInside dir name (join dir name)
as_given dir name h = record { leaf = name; plain = h; joined = refl; entry = λ e. e }

numbered-IsInside :
    (dir name : PathBuf) (n : ℕ)
    → NoSlash name
    → IsInside dir name (join dir (numbered (stem_and_ext name) n))
numbered-IsInside dir name n h =
    let (hs, he) = stem_and_ext-NoSlash name h in
    record {
      leaf = numbered (stem_and_ext name) n;
      plain = numbered-NoSlash (stem_and_ext name) n hs he;
      joined = refl;
      entry = λ _. numbered-IsEntry (stem_and_ext name) n;
    }

-- A name without a slash gives the directory's path with one component joined to it, which has no
-- slash. If the name is not empty, `.` or `..`, neither is that component, so that the path is an
-- entry of the directory itself.
pub dedup_path-IsInside :
    (exists : PathBuf → Bool) (dir name : PathBuf)
    → NoSlash name
    → IsInside dir name (dedup_path exists dir name)
unfolding dedup_path
dedup_path-IsInside exists dir name h =
    if_elim (IsInside dir name) (exists (join dir name)) _ _
      (λ _. elim (first_free-numbered exists dir (stem_and_ext name) (join dir name) 999 1) [
        | inl e ↦ rw e (as_given dir name h)
        | inr (k, e) ↦ rw e (numbered-IsInside dir name k h)
      ])
      (λ _. as_given dir name h)
