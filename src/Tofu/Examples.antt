-- ===== src/Tofu/Examples.antt =====
-- Pinning at concrete certificates.
use mathlib.Core.List.{Memᴰ}
use localsend_rs.Base.{
  ℕ, ◌≡◌, refl, sym, ap, ◌∙◌, ◌≢◌, ◌==◌, Bool-cases, inl, inr, arith, none, some, List, [], ◌∷◌,
  bytes_eq, nat_eq,
}
use localsend_rs.HashMap.{get, insert, remove}
use localsend_rs.Tofu.Store.{
  TofuVerifier, Verdict, Looked, look_up, hex, Contact, Shared, Event, looks, pins, step, run,
}
use localsend_rs.Tofu.Pins.{Free, run-same}

-- A hash that keeps its input.
abbrev plain : List ℕ → List ℕ
plain cert = cert

abbrev peer : TofuVerifier
peer = record { peer_id = 1 ∷ []; expected = none }

abbrev other : TofuVerifier
other = record { peer_id = 2 ∷ []; expected = none }

-- Another certificate is refused.
test_changed :
    look_up plain peer (9 ∷ []) ((1 ∷ [], hex (171 ∷ [])) ∷ [])
    ≡ Looked.decided (Verdict.changed (hex (171 ∷ [])) (hex (9 ∷ [])))
unfolding look_up get hex
test_changed = refl

-- Two first contacts side by side are both accepted, with different certificates.
test_race :
    run plain
      (looks 0 peer (171 ∷ []) ∷ looks 1 peer (9 ∷ []) ∷ pins 0 ∷ pins 1 ∷ [])
      (record { store = []; in_flight = [] })
    ≡ record { peer_id = 1 ∷ []; fingerprint = hex (171 ∷ []) }
      ∷ record { peer_id = 1 ∷ []; fingerprint = hex (9 ∷ []) }
      ∷ []
unfolding run get insert remove hex
test_race = refl

abbrev waiting : Contact
waiting = record { peer_id = 2 ∷ []; fingerprint = hex (5 ∷ []) }

-- The peer is about to be pinned, and so is another.
abbrev shared : Shared
shared = record {
  store = [];
  in_flight = (0, record { peer_id = 1 ∷ []; fingerprint = hex (171 ∷ []) }) ∷ (1, waiting) ∷ [];
}

abbrev contact : Contact
contact = record { peer_id = 1 ∷ []; fingerprint = hex (171 ∷ []) }

abbrev later : List Event
later = pins 1 ∷ looks 2 peer (9 ∷ []) ∷ looks 3 peer (171 ∷ []) ∷ []

two_not_one : other.peer_id ≢ peer.peer_id
two_not_one e = ground (arith, e)

none-some : (c : Contact) → none ≢ some c
none-some c e = cc e

second : (c : Contact) → some waiting ≡ some c → waiting ≡ c
second c e = cc e

others_fly : Free (1 ∷ []) (step plain (pins 0) shared).0
unfolding step get remove
others_fly n c g = λ here. elim (Bool-cases (1 == n)) [
  | inl e ↦
      let id : c.peer_id ≡ 2 ∷ [] = sym (ap (λ (k : Contact). k.peer_id) (second c (rw e at g))) in
      absurd (two_not_one (sym id ∙ here))
  | inr e ↦ absurd (none-some c (rw e at g))
]

accepted_later : Memᴰ contact (run plain later (step plain (pins 0) shared).0)
unfolding run get insert remove hex
accepted_later = Memᴰ.tail (Memᴰ.head refl)

accepted_first : (step plain (pins 0) shared).1 ≡ some contact
unfolding step get
accepted_first = refl

run-same_example : contact.fingerprint ≡ contact.fingerprint
run-same_example =
    run-same plain (pins 0) later shared contact contact accepted_first others_fly accepted_later
      refl
