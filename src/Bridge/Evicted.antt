-- ===== src/Bridge/Evicted.antt =====
-- A listener whose place in the registry is lost.
use localsend_rs.Base.{
  ℕ, ◌≡◌, ◌∙◌, refl, sym, nat_eq, bytes_eq, true, false, none, some, List, [], ◌∷◌, ◌==◌, ==_iff,
  ==_refl, any, All, arith, Bool-cases, Option-cases, inl, inr,
}
use localsend_rs.HashMap.{HashMap, get, remove}
use localsend_rs.HashMap.Laws.{get-insert, get-remove, get-remove_kept}
use localsend_rs.HashMap.Unique.{Unique, Unique-insert, Unique-remove}
use localsend_rs.Bridge.Commands.{not_found_answer}
use localsend_rs.Bridge.Pairing.{
  Waiting, Relay, new, listen, hand, connect, is_open, wake, Event, listens, connects, wakes,
  happen, run, step_listen, step_connect, step_wake, Reaches, start, next,
}
use localsend_rs.Bridge.Spliced.{Reaches-Sound}

hand-listeners : (c stream : ℕ) (r : Relay) → (hand c stream r).listeners ≡ r.listeners
unfolding hand
hand-listeners c stream r = ground arith

connect-listeners :
    (stream : ℕ) (fp : List ℕ) (r : Relay) → (connect stream fp r).0.listeners ≡ r.listeners
unfolding connect
connect-listeners stream fp r = elim (Option-cases (get fp r.listeners)) [
  | inl missing ↦ rw (missing, connect) refl
  | inr (c, found) ↦ rw (found, connect) (hand-listeners c stream r)
]

-- A task that goes on leaves the registry, or takes one fingerprint out of it.
wake_listeners :
    (P : HashMap (List ℕ) ℕ → Type 0) (c : ℕ) (r : Relay)
    → P r.listeners
    → ((fp : List ℕ) → P (remove fp r.listeners))
    → P (wake c r).listeners
unfolding wake
wake_listeners P c r same taken = elim (Option-cases (get c r.waiting)) [
  | inl gone ↦ rw (gone, wake) same
  | inr (task, found) ↦ elim (Option-cases (get c r.handed)) [
    | inr (stream, given) ↦ rw (found, wake, given) (taken task.fingerprint)
    | inl nothing ↦ elim (Bool-cases (is_open c r)) [
      | inl waits ↦ rw (found, wake, nothing, waits) same
      | inr closed ↦ rw (found, wake, nothing, closed) (taken task.fingerprint)
    ]
  ]
]

-- The event is no LISTEN under this fingerprint.
abbrev pub NoListen : List ℕ → Event → Type 0
NoListen fp (listens stream other) = (other == fp) ≡ false
NoListen fp (connects stream other) = Unit
NoListen fp (wakes channel) = Unit

happen-unlisted :
    (e : Event) (fp : List ℕ) (r : Relay)
    → NoListen fp e
    → get fp r.listeners ≡ none
    → get fp (happen e r).listeners ≡ none
unfolding happen listen
happen-unlisted (listens stream other) fp r quiet missing =
    rw (get-insert other fp r.next_channel r.listeners, quiet) missing
happen-unlisted (connects stream other) fp r quiet missing =
    rw (connect-listeners stream other r) missing
happen-unlisted (wakes channel) fp r quiet missing =
    wake_listeners (λ m. get fp m ≡ none) channel r missing
      (λ other. ground (arith, get-remove other fp r.listeners))

run-unlisted :
    (es : List Event) (fp : List ℕ) (r : Relay)
    → All (NoListen fp) es
    → get fp r.listeners ≡ none
    → get fp (run es r).listeners ≡ none
unfolding run
run-unlisted [] fp r quiet missing = missing
run-unlisted (e ∷ es) fp r (now, later) missing =
    run-unlisted es fp (happen e r) later (happen-unlisted e fp r now missing)

Reaches-Unique : (es : List Event) (r : Relay) → Reaches es r → Unique r.listeners
unfolding new listen
Reaches-Unique es r start = tt
Reaches-Unique es r (next {r = q} reached (step_listen stream fp _)) =
    Unique-insert fp q.next_channel q.listeners (Reaches-Unique _ q reached)
Reaches-Unique es r (next {r = q} reached (step_connect stream fp _)) =
    rw (connect-listeners stream fp q) (Reaches-Unique _ q reached)
Reaches-Unique es r (next {r = q} reached (step_wake c _)) =
    let u = Reaches-Unique _ q reached in
    wake_listeners Unique c q u (λ fp. Unique-remove fp q.listeners u)

-- An entry of a map with one entry to a key is found.
found_at :
    (d : ℕ) (m : HashMap (List ℕ) ℕ)
    → Unique m
    → any (λ (e : List ℕ × ℕ). e.1 == d) m ≡ true
    → (fp : List ℕ) × (get fp m ≡ some d)
unfolding get
found_at d [] u h = cc h
found_at d ((k, c) ∷ m) (fresh, u) h = elim (Bool-cases (c == d)) [
  | inl here ↦ (k, rw (==_refl k) (ground (arith, ==_iff c d)))
  | inr other ↦
      let (fp, found) = found_at d m u (ground arith) in
      (
        fp,
        elim (Bool-cases (k == fp)) [
          | inl same ↦ cc (fresh, found, (==_iff k fp).0 same)
          | inr away ↦ rw away found
        ],
      )
]

-- A task that goes on after its channel was closed ends.
wake-ends :
    (d : ℕ) (t : Waiting) (r : Relay)
    → get d r.waiting ≡ some t
    → get d r.handed ≡ none
    → is_open d r ≡ false
    → get d (wake d r).waiting ≡ none
unfolding wake
wake-ends d t r found nothing closed =
    rw (found, wake, nothing, closed) (rw (get-remove d d r.waiting, ==_refl d) refl)

-- Nobody is registered under the fingerprint, nor reachable.
pub record Evicted (fp : List ℕ) (r : Relay) : Type 0 where
  -- Until the next LISTEN, a CONNECT is answered NOT_FOUND.
  pub unlisted :
      (later : List Event) (stream : ℕ)
      → All (NoListen fp) later
      → (connect stream fp (run later r)).1 ≡ not_found_answer
  -- Every task under the fingerprint has lost its channel, and ends when it goes on, unless it was
  -- handed a connection before.
  pub stranded :
      (d : ℕ) (t : Waiting) → get d r.waiting ≡ some t → t.fingerprint ≡ fp → is_open d r ≡ false
  pub ends :
      (d : ℕ) (t : Waiting)
      → get d r.waiting ≡ some t
      → t.fingerprint ≡ fp
      → get d r.handed ≡ none
      → get d (wake d r).waiting ≡ none

connect-unlisted :
    (stream : ℕ) (fp : List ℕ) (r : Relay)
    → get fp r.listeners ≡ none
    → (connect stream fp r).1 ≡ not_found_answer
unfolding connect
connect-unlisted stream fp r missing = rw (missing, connect)

-- The registry without this fingerprint leaves no channel of its tasks open.
closed_without :
    (fp : List ℕ) (d : ℕ) (t : Waiting) (r : Relay)
    → Unique r.listeners
    → ((other : List ℕ) → get other r.listeners ≡ some d → t.fingerprint ≡ other)
    → t.fingerprint ≡ fp
    → any (λ (e : List ℕ × ℕ). e.1 == d) (remove fp r.listeners) ≡ false
closed_without fp d t r u own mine =
    elim (Bool-cases (any (λ (e : List ℕ × ℕ). e.1 == d) (remove fp r.listeners))) [
      | inr closed ↦ closed
      | inl open_there ↦
          let (other, found) =
            found_at d (remove fp r.listeners) (Unique-remove fp r.listeners u) open_there in
          let (apart, there) = get-remove_kept fp other d r.listeners found in
          let same : (fp == other) ≡ true = (==_iff fp other).1 (sym mine ∙ own other there) in
          cc (apart, same)
    ]

-- A listener that was replaced takes its successor out of the registry: when a waiting task goes
-- on because its channel was closed, every CONNECT to its fingerprint is answered NOT_FOUND until
-- the next LISTEN under it, whatever else happens. Each other task that waits under the
-- fingerprint has lost its channel by this, and ends when it goes on, unless it was handed a
-- connection before.
pub wake-evicts :
    (es : List Event) (r : Relay) (c : ℕ) (task : Waiting)
    → Reaches es r
    → get c r.waiting ≡ some task
    → get c r.handed ≡ none
    → is_open c r ≡ false
    → Evicted task.fingerprint (wake c r)
unfolding wake is_open
wake-evicts es r c task reached found nothing closed =
    let sound = Reaches-Sound es r reached in
    let gone : get task.fingerprint (wake c r).listeners ≡ none =
      rw (found, wake, nothing, closed)
        (rw (get-remove task.fingerprint task.fingerprint r.listeners, ==_refl task.fingerprint)
          refl) in
    let lost : (d : ℕ) (t : Waiting)
        → get d (wake c r).waiting ≡ some t
        → t.fingerprint ≡ task.fingerprint
        → is_open d (wake c r) ≡ false =
      rw (found, wake, nothing, closed)
        (λ d t g mine.
          closed_without task.fingerprint d t r (Reaches-Unique es r reached)
            (λ other there.
              (sound.registered other d there).1 t (get-remove_kept c d t r.waiting g).1)
            mine) in
    record {
      unlisted = λ later stream quiet.
          connect-unlisted stream task.fingerprint (run later (wake c r))
            (run-unlisted later task.fingerprint (wake c r) quiet gone);
      stranded = lost;
      ends = λ d t g mine free. wake-ends d t (wake c r) g free (lost d t g mine);
    }
