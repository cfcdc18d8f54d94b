-- ===== src/Session/Unsettled.antt =====
-- The number of files that a session still waits for.
use localsend_rs.Base.{
  Bool-cases, inl, inr, subst, ◌==◌, string_eq, ℕ, suc, ◌≡◌, refl, ◌↔◌, String, [], ◌∷◌, false, not,
  arith, some, ==_refl, All, count,
}
use localsend_rs.HashMap.{HashMap, get, insert, values}
use localsend_rs.HashMap.Laws.{get-insert}
use localsend_rs.HashMap.Counts.{count-insert}
use localsend_rs.Model.{FileState, is_terminal}
use localsend_rs.Session.State.{Session, FileEntry}
use localsend_rs.Session.Transitions.{is_settled}
use localsend_rs.Session.Finishing.{IsSettled, is_settled_iff}

-- The files of the session that were neither received nor left out.
unfoldable pub unsettled : Session → ℕ
unsettled s = count (λ f. not (is_settled f)) (values s.files)

pub unsettled_iff :
    (files : HashMap String FileEntry)
    → (count (λ f. not (is_settled f)) (values files) ≡ 0) ↔ All IsSettled (values files)
unsettled_iff [] = (λ _. tt, λ _. refl)
unsettled_iff ((j, f) ∷ m) = ground (arith, is_settled_iff f, unsettled_iff m)

pub fewer_unsettled :
    (fid : String) (f : FileEntry) (m : HashMap String FileEntry)
    → get fid m ≡ some f
    → is_terminal f.state ≡ false
    → suc (
        count
          (λ g. not (is_settled g))
          (values (
            insert fid
              (record f { state = FileState.finish })
              (insert fid (record f { state = FileState.transfer }) m))))
      ≡ count (λ g. not (is_settled g)) (values m)
unfolding is_settled is_terminal
fewer_unsettled fid f m known unfinished =
    let during = record f { state = FileState.transfer } in
    let done = record f { state = FileState.finish } in
    let p = λ (g : FileEntry). not (is_settled g) in
    ground (
      arith,
      known,
      count-insert p fid during m,
      count-insert p fid done (insert fid during m),
      get-insert fid fid during m,
      ==_refl fid,
    )

pub IsSettled-get :
    (fid : String) (f : FileEntry) (m : HashMap String FileEntry)
    → get fid m ≡ some f
    → All IsSettled (values m)
    → IsSettled f
unfolding get
IsSettled-get fid f [] known all = cc known
IsSettled-get fid f ((j, e) ∷ m) known (settled, all) = elim (Bool-cases (j == fid)) [
  | inl here ↦ let same : e ≡ f = ground arith in subst IsSettled same settled
  | inr other ↦ IsSettled-get fid f m (ground arith) all
]
