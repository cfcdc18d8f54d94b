-- ===== src/Session/Tokens.antt =====
-- Which files an acceptance names, and the tokens that it answers with:
-- rust/core/src/session.rs.
use localsend_rs.Base.{
  string_eq, ◌≡◌, refl, ◌∙◌, inl, inr, String, List, [], ◌∷◌, true, false, arith, Bool, some, none,
  Option, ◌==◌, ==_iff, Bool-cases, Option-cases, if◌then◌else◌, filterb, ◌&&◌,
}
use localsend_rs.HashMap.{HashMap, get, contains_key, keys}
use localsend_rs.HashMap.Laws.{get-insert, contains_key-get}
use localsend_rs.Session.State.{FileEntry}
use localsend_rs.Session.Decide.{accepted_ids, accepted_tokens, contains}

-- The ids that an acceptance names, as a test: all of them, or those of the given list.
abbrev pub wants : Option (List String) → String → Bool
wants none fid = true
wants (some ids) fid = contains ids fid

contains-keys :
    (fid : String) (files : HashMap String FileEntry)
    → contains (keys files) fid ≡ contains_key fid files
unfolding contains contains_key
contains-keys fid [] = refl
contains-keys fid ((j, f) ∷ m) = ground (arith, contains-keys fid m)

contains-filterb :
    (fid : String) (p : String → Bool) (ids : List String)
    → p fid ≡ true
    → contains (filterb p ids) fid ≡ contains ids fid
unfolding contains
contains-filterb fid p [] h = refl
contains-filterb fid p (j ∷ ids) h = elim (Bool-cases (j == fid)) [
  | inl same ↦
      let pj : p j ≡ true = rw ((==_iff j fid).0 same) h in
      ground (arith, contains-filterb fid p ids h, pj, same)
  | inr other ↦ ground (arith, contains-filterb fid p ids h, other)
]

-- Among the files of the session, the accepted ones are those that the caller wants.
pub contains-accepted_ids :
    (fid : String) (ids : Option (List String)) (f : FileEntry) (files : HashMap String FileEntry)
    → get fid files ≡ some f
    → contains (accepted_ids ids files) fid ≡ wants ids fid
unfolding accepted_ids
contains-accepted_ids fid none f files g =
    contains-keys fid files ∙ contains_key-get fid files ∙ rw g
contains-accepted_ids fid (some ids) f files g =
    contains-filterb fid (λ j. contains_key j files) ids (contains_key-get fid files ∙ rw g)

abbrev or_else : Option String → Option String → Option String
or_else none o = o
or_else (some t) o = some t

-- The first file of the table takes precedence over the others.
get-accepted_tokens_cons :
    (ids : List String) (fid j : String) (f : FileEntry) (m : HashMap String FileEntry)
    → get fid (accepted_tokens ids ((j, f) ∷ m)) ≡ (
        if contains ids j && j == fid
        then or_else f.token (get fid (accepted_tokens ids m))
        else get fid (accepted_tokens ids m))
unfolding accepted_tokens
get-accepted_tokens_cons ids fid j f m = elim (Option-cases f.token) [
  | inl p ↦ ground (arith, p)
  | inr (t, p) ↦ ground (arith, p, get-insert j fid t (accepted_tokens ids m))
]

pub get-accepted_tokens :
    (ids : List String) (fid token : String) (f : FileEntry) (files : HashMap String FileEntry)
    → get fid files ≡ some f
    → f.token ≡ some token
    → contains ids fid ≡ true
    → get fid (accepted_tokens ids files) ≡ some token
unfolding get
get-accepted_tokens ids fid token f [] g t c = cc
get-accepted_tokens ids fid token f ((j, e) ∷ m) g t c = elim (Bool-cases (j == fid)) [
  | inl same ↦
      let wanted : contains ids j ≡ true = rw ((==_iff j fid).0 same) c in
      ground (arith, get-accepted_tokens_cons ids fid j e m, wanted, same)
  | inr other ↦
      ground (
        arith,
        get-accepted_tokens_cons ids fid j e m,
        other,
        get-accepted_tokens ids fid token f m,
      )
]

pub get-accepted_tokens-none :
    (ids : List String) (fid : String) (files : HashMap String FileEntry)
    → contains ids fid ≡ false
    → get fid (accepted_tokens ids files) ≡ none
unfolding accepted_tokens get
get-accepted_tokens-none ids fid [] c = refl
get-accepted_tokens-none ids fid ((j, e) ∷ m) c = elim (Bool-cases (j == fid)) [
  | inl same ↦
      let unwanted : contains ids j ≡ false = rw ((==_iff j fid).0 same) c in
      ground (
        arith,
        get-accepted_tokens_cons ids fid j e m,
        unwanted,
        get-accepted_tokens-none ids fid m c,
      )
  | inr other ↦
      ground
        (arith, get-accepted_tokens_cons ids fid j e m, other, get-accepted_tokens-none ids fid m c)
]
