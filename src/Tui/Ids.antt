-- ===== src/Tui/Ids.antt =====
-- The ids of the sessions on the screen, under the operations on the list.
use localsend_rs.Base.{
  string_eq, ◌≡◌, refl, ap, String, Bool, false, not, ◌&&◌, ◌||◌, List, [], ◌∷◌, ◌++◌, map, any,
  filterb, ◌==◌, ==_iff, arith,
}
use localsend_rs.Model.{SessionSummary}
use localsend_rs.Tui.View.{SessionView, modify, modify_or_push, from_summary, update_from_summary}
use localsend_rs.Tui.App.{contains, has_id, merge_one, merge}

abbrev pub ids : List SessionView → List String
ids = map (λ v. v.id)

abbrev pub Distinct : List String → Type 0
Distinct [] = Unit
Distinct (id ∷ rest) = (contains id rest ≡ false) × Distinct rest

any-has_id : (id : String) (vs : List SessionView) → any (has_id id) vs ≡ contains id (ids vs)
unfolding contains
any-has_id id [] = refl
any-has_id id (v ∷ vs) = ap (λ b. v.id == id || b) (any-has_id id vs)

pub ids-modify :
    (p : SessionView → Bool) (f : SessionView → SessionView) (vs : List SessionView)
    → ((v : SessionView) → (f v).id ≡ v.id)
    → ids (modify p f vs) ≡ ids vs
unfolding modify
ids-modify p f [] keep = refl
ids-modify p f (v ∷ vs) keep = ground (arith, keep v, ids-modify p f vs keep)

pub contains-push :
    (id : String) (vs : List SessionView) (new : SessionView)
    → contains id (ids (vs ++ new ∷ [])) ≡ contains id (ids vs) || new.id == id
unfolding contains
contains-push id [] new = ground arith
contains-push id (v ∷ vs) new = ground (arith, contains-push id vs new)

Distinct-push :
    (vs : List SessionView) (new : SessionView)
    → contains new.id (ids vs) ≡ false
    → Distinct (ids vs)
    → Distinct (ids (vs ++ new ∷ []))
unfolding contains
Distinct-push [] new h d = (refl, tt)
Distinct-push (v ∷ vs) new h (first, d) = (
  ground (arith, contains-push v.id vs new, ==_iff v.id new.id, ==_iff new.id v.id),
  Distinct-push vs new (ground arith) d,
)

-- A test on the ids alone.
pub contains-filterb :
    (q : String → Bool) (id : String) (vs : List SessionView)
    → contains id (ids (filterb (λ v. q v.id) vs)) ≡ contains id (ids vs) && q id
unfolding contains
contains-filterb q id [] = refl
contains-filterb q id (v ∷ vs) = ground (arith, ==_iff v.id id, contains-filterb q id vs)

pub Distinct-filterb :
    (q : String → Bool) (vs : List SessionView)
    → Distinct (ids vs)
    → Distinct (ids (filterb (λ v. q v.id) vs))
Distinct-filterb q [] d = tt
Distinct-filterb q (v ∷ vs) (first, d) =
    ground (arith, contains-filterb q v.id vs, Distinct-filterb q vs d)

pub contains-merge_one :
    (hidden : List String) (s : SessionSummary) (id : String) (vs : List SessionView)
    → contains id (ids (merge_one hidden s vs))
      ≡ contains id (ids vs) || (not (contains id hidden) && s.id == id)
unfolding merge_one modify_or_push update_from_summary from_summary
contains-merge_one hidden s id vs = ground (
  arith,
  ==_iff s.id id,
  any-has_id s.id vs,
  ids-modify (has_id s.id) (update_from_summary s) vs (λ v. refl),
  contains-push id vs (from_summary s),
)

pub Distinct-merge_one :
    (hidden : List String) (s : SessionSummary) (vs : List SessionView)
    → Distinct (ids vs)
    → Distinct (ids (merge_one hidden s vs))
unfolding merge_one modify_or_push update_from_summary from_summary
Distinct-merge_one hidden s vs d = ground (
  arith,
  any-has_id s.id vs,
  ids-modify (has_id s.id) (update_from_summary s) vs (λ v. refl),
  Distinct-push vs (from_summary s),
)

pub contains-merge :
    (hidden : List String) (index : List SessionSummary) (id : String) (vs : List SessionView)
    → contains id (ids (merge hidden index vs))
      ≡ contains id (ids vs)
        || (not (contains id hidden) && any (λ (s : SessionSummary). s.id == id) index)
unfolding merge
contains-merge hidden [] id vs = ground arith
contains-merge hidden (s ∷ index) id vs = ground (
  arith,
  contains-merge hidden index id (merge_one hidden s vs),
  contains-merge_one hidden s id vs,
)

pub Distinct-merge :
    (hidden : List String) (index : List SessionSummary) (vs : List SessionView)
    → Distinct (ids vs)
    → Distinct (ids (merge hidden index vs))
unfolding merge
Distinct-merge hidden [] vs d = d
Distinct-merge hidden (s ∷ index) vs d =
    Distinct-merge hidden index (merge_one hidden s vs) (Distinct-merge_one hidden s vs d)
