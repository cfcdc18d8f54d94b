-- ===== src/Server/Names.antt =====
-- What `dedup_path` returns.
use localsend_rs.Base.{
  ℕ, zero, suc, ◌+◌, ◌<◌, ◌≤◌, ◌≡◌, refl, ◌⊎◌, inl, inr, Bool, true, false, arith, Bool-cases, ◌↔◌,
  nat_beq_iff, Option-cases, subst, append-nil, Option, none, some, [], ◌∷◌, ◌++◌, bytes_eq,
  nat_beq,
}
use localsend_rs.Server.Paths.{
  PathBuf, dot, join, rsplit_dot, split_name, stem_and_ext, numbered, first_free, dedup_path,
}

-- The extension that `split_name` found, with its dot.
abbrev pub with_dot : Option PathBuf → PathBuf
with_dot none = []
with_dot (some ext) = dot ∷ ext

unfoldable Rejoins : PathBuf → Option (PathBuf × PathBuf) → Type 0
Rejoins name none = Unit
Rejoins name (some (before, after)) = name ≡ before ++ dot ∷ after

rsplit_dot-Rejoins : (name : PathBuf) → Rejoins name (rsplit_dot name)
unfolding rsplit_dot Rejoins
rsplit_dot-Rejoins [] = tt
rsplit_dot-Rejoins (c ∷ cs) = ground (arith, rsplit_dot-Rejoins cs)

pub split_name-rejoin :
    (name : PathBuf) → (split_name name).0 ++ with_dot (split_name name).1 ≡ name
unfolding split_name Rejoins
split_name-rejoin name = elim (Option-cases (rsplit_dot name)) [
  | inl e ↦ ground (arith, e, append-nil name)
  | inr ((before, after), e) ↦
      let whole : Rejoins name (some (before, after)) =
        subst (Rejoins name) e (rsplit_dot-Rejoins name) in
      ground (arith, e, whole, append-nil name)
]

after_taken : (taken : ℕ → Bool) (n k : ℕ) → n ≤ k → taken n ≡ true → taken k ≡ false → suc n ≤ k
after_taken taken n k low here there = elim (Bool-cases (nat_beq n k)) [
  | inl same ↦ cc (here, there, (nat_beq_iff n k).0 same)
  | inr other ↦ ground arith
]

first_free-fresh :
    (exists : PathBuf → Bool) (dir : PathBuf) (name : PathBuf × Option PathBuf) (fallback : PathBuf)
    (left n k : ℕ)
    → n ≤ k
    → k < n + left
    → exists (join dir (numbered name k)) ≡ false
    → exists (first_free exists dir name fallback left n) ≡ false
unfolding first_free
first_free-fresh exists dir name fallback zero n k low high free = absurd (omega arith)
first_free-fresh exists dir name fallback (suc left) n k low high free =
    elim (Bool-cases (exists (join dir (numbered name n)))) [
      | inl taken ↦
          rw (taken, first_free)
            (first_free-fresh exists dir name fallback left (suc n) k
              (after_taken (λ i. exists (join dir (numbered name i))) n k low taken free)
              (omega arith) free)
      | inr here ↦ rw (here, first_free, here)
    ]

first_free-found :
    (exists : PathBuf → Bool) (dir : PathBuf) (name : PathBuf × Option PathBuf) (fallback : PathBuf)
    (left n : ℕ)
    → exists fallback ≡ true
    → exists (first_free exists dir name fallback left n) ≡ false
    → (k : ℕ) × (n ≤ k) × (k < n + left) × (exists (join dir (numbered name k)) ≡ false)
unfolding first_free
first_free-found exists dir name fallback zero n taken h = cc (taken, h)
first_free-found exists dir name fallback (suc left) n taken h =
    elim (Bool-cases (exists (join dir (numbered name n)))) [
      | inl here ↦
          let (k, low, high, free) =
            first_free-found exists dir name fallback left (suc n) taken
              (rw (here, first_free) at h) in
          (k, omega arith, omega arith, free)
      | inr here ↦ (n, omega arith, omega arith, here)
    ]

-- One of the paths that `dedup_path` tries is free.
abbrev pub HasFree : (PathBuf → Bool) → PathBuf → PathBuf → Type 0
HasFree exists dir name =
    (exists (join dir name) ≡ false)
    ⊎ ((k : ℕ) × (1 ≤ k)
        × (k < 1000)
        × (exists (join dir (numbered (stem_and_ext name) k)) ≡ false))

-- The path that `dedup_path` returns does not exist, exactly if one of the thousand paths that
-- it tries does not: the name as it is and the name with a number from 1 to 999.
pub dedup_path-free_iff :
    (exists : PathBuf → Bool) (dir name : PathBuf)
    → (exists (dedup_path exists dir name) ≡ false) ↔ HasFree exists dir name
unfolding dedup_path
dedup_path-free_iff exists dir name = elim (Bool-cases (exists (join dir name))) [
  | inl taken ↦
      rw (taken, dedup_path)
        (
          λ h. inr (first_free-found exists dir (stem_and_ext name) (join dir name) 999 1 taken h),
          λ h. elim h [
            | inl free ↦ cc free
            | inr (k, low, high, free) ↦
                first_free-fresh exists dir (stem_and_ext name) (join dir name) 999 1 k low high
                  free
          ],
        )
  | inr free ↦ rw (free, dedup_path, free) (λ h. inl refl, λ h. refl)
]
