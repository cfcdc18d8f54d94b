-- ===== src/Bridge/Spliced.antt =====
-- Whom the relay joins.
use mathlib.Core.List.{Memᴰ}
use localsend_rs.Base.{
  ℕ, ◌<◌, ◌≡◌, subst, sym, inl, inr, nat_eq, bytes_eq, some, List, [], ◌∷◌, arith, Option-cases,
  Bool-cases,
}
use localsend_rs.HashMap.{get, contains_key}
use localsend_rs.HashMap.Laws.{get-insert_cases, get-remove_kept}
use localsend_rs.Bridge.Pairing.{
  Waiting, Relay, new, listen, hand, connect, is_open, wake, Event, listens, connects, wakes, Step,
  step_listen, step_connect, step_wake, Reaches, start, next,
}

pub record Sound (es : List Event) (r : Relay) : Type 0 where
  -- Each waiting task came from a LISTEN.
  listened :
      (c : ℕ) (t : Waiting)
      → get c r.waiting ≡ some t
      → Memᴰ (listens t.stream t.fingerprint) es × (c < r.next_channel)
  -- A channel is registered under the fingerprint of its task.
  pub registered :
      (fp : List ℕ) (c : ℕ)
      → get fp r.listeners ≡ some c
      → (c < r.next_channel) × ((t : Waiting) → get c r.waiting ≡ some t → t.fingerprint ≡ fp)
  -- What a task was handed came from a CONNECT to its fingerprint.
  sent :
      (c s : ℕ)
      → get c r.handed ≡ some s
      → (c < r.next_channel)
        × ((t : Waiting) → get c r.waiting ≡ some t → Memᴰ (connects s t.fingerprint) es)
  joined :
      (l s : ℕ)
      → Memᴰ (l, s) r.spliced
      → (fp : List ℕ) × Memᴰ (listens l fp) es × Memᴰ (connects s fp) es

new-Sound : Sound [] new
unfolding new get
new-Sound = record {
  listened = λ c t h. cc h;
  registered = λ fp c h. cc h;
  sent = λ c s h. cc h;
  joined = λ l s m. elim m [ ];
}

listen-Sound :
    (es : List Event) (r : Relay) (stream : ℕ) (fp : List ℕ)
    → Sound es r
    → Sound (listens stream fp ∷ es) (listen stream fp r)
unfolding listen
listen-Sound es r stream fp h = record {
  listened = λ c t g. elim (get-insert_cases r.next_channel c _ t r.waiting g) [
    | inl (same, e) ↦ (Memᴰ.head (cc e), omega (arith, same))
    | inr old ↦ let (m, low) = h.listened c t old in (Memᴰ.tail m, omega arith)
  ];
  registered = λ f c g. (
    elim (get-insert_cases fp f r.next_channel c r.listeners g) [
      | inl (same, e) ↦ omega (arith, e)
      | inr old ↦ let (low, _) = h.registered f c old in omega arith
    ],
    λ t w. elim (get-insert_cases r.next_channel c _ t r.waiting w) [
      | inl (same, e) ↦ elim (get-insert_cases fp f r.next_channel c r.listeners g) [
        | inl (here, _) ↦ cc (e, here)
        | inr old ↦ let (low, _) = h.registered f c old in absurd (omega (arith, same, low))
      ]
      | inr old_task ↦ elim (get-insert_cases fp f r.next_channel c r.listeners g) [
        | inl (_, e) ↦ let (_, low) = h.listened c t old_task in absurd (omega (arith, e, low))
        | inr old ↦ (h.registered f c old).1 t old_task
      ]
    ],
  );
  sent = λ c s g.
      let (low, from) = h.sent c s g in
      (
        omega arith,
        λ t w. elim (get-insert_cases r.next_channel c _ t r.waiting w) [
          | inl (same, e) ↦ absurd (omega (arith, same, low))
          | inr old ↦ Memᴰ.tail (from t old)
        ],
      );
  joined = λ l s m. let (f, a, b) = h.joined l s m in (f, Memᴰ.tail a, Memᴰ.tail b);
}

-- An event that changes nothing.
idle-Sound : (es : List Event) (e : Event) (r : Relay) → Sound es r → Sound (e ∷ es) r
idle-Sound es e r h = record {
  listened = λ c t g. let (m, low) = h.listened c t g in (Memᴰ.tail m, low);
  registered = h.registered;
  sent = λ c s g. let (low, from) = h.sent c s g in (low, λ t w. Memᴰ.tail (from t w));
  joined = λ l s m. let (f, a, b) = h.joined l s m in (f, Memᴰ.tail a, Memᴰ.tail b);
}

ap_connects :
    (stream s : ℕ) (fp own : List ℕ) → stream ≡ s → own ≡ fp → connects s own ≡ connects stream fp
ap_connects stream s fp own e f = rw (← e, f)

hand-Sound :
    (es : List Event) (r : Relay) (stream c : ℕ) (fp : List ℕ)
    → get fp r.listeners ≡ some c
    → Sound es r
    → Sound (connects stream fp ∷ es) (hand c stream r)
unfolding hand
hand-Sound es r stream c fp g h = elim (Option-cases (get c r.waiting)) [
  | inl gone ↦ rw (gone, hand) (idle-Sound es (connects stream fp) r h)
  | inr (task, found) ↦ elim (Bool-cases (contains_key c r.handed)) [
    | inl full ↦ rw (found, hand, full) (idle-Sound es (connects stream fp) r h)
    | inr free ↦
        let k = idle-Sound es (connects stream fp) r h in
        rw (found, hand, free)
          (record {
            listened = k.listened;
            registered = k.registered;
            sent = λ d s w. elim (get-insert_cases c d stream s r.handed w) [
              | inl (same, e) ↦ (
                let (low, _) = h.registered fp c g in omega (arith, same, low),
                λ t v. Memᴰ.head (
                    ap_connects stream s fp t.fingerprint e
                      ((h.registered fp c g).1 t (rw (← same) at v))),
              )
              | inr old ↦ k.sent d s old
            ];
            joined = k.joined;
          })
  ]
]

-- The fingerprint that two connections have in common.
abbrev Agree : List Event → ℕ × ℕ → Type 0
Agree es (l, s) = (fp : List ℕ) × Memᴰ (listens l fp) es × Memᴰ (connects s fp) es

wake-Sound : (es : List Event) (r : Relay) (c : ℕ) → Sound es r → Sound (wakes c ∷ es) (wake c r)
unfolding wake
wake-Sound es r c h =
    let k = idle-Sound es (wakes c) r h in
    elim (Option-cases (get c r.waiting)) [
      | inl gone ↦ rw (gone, wake) k
      | inr (task, found) ↦ elim (Option-cases (get c r.handed)) [
        | inr (stream, given) ↦
            rw (found, wake, given)
              (record {
                listened = λ d t g. k.listened d t (get-remove_kept c d t r.waiting g).1;
                registered = λ f d g.
                    let (low, own) =
                      k.registered f d (get-remove_kept task.fingerprint f d r.listeners g).1 in
                    (low, λ t w. own t (get-remove_kept c d t r.waiting w).1);
                sent = λ d s g.
                    let (low, from) = k.sent d s (get-remove_kept c d s r.handed g).1 in
                    (low, λ t w. from t (get-remove_kept c d t r.waiting w).1);
                joined = λ l s m. elim m [
                  | Memᴰ.head e ↦ subst (Agree (wakes c ∷ es)) (sym e) (
                    task.fingerprint,
                    (k.listened c task found).0,
                    (k.sent c stream given).1 task found,
                  )
                  | Memᴰ.tail old ↦ k.joined l s old
                ];
              })
        | inl nothing ↦ elim (Bool-cases (is_open c r)) [
          | inl waits ↦ rw (found, wake, nothing, waits) k
          | inr closed ↦
              rw (found, wake, nothing, closed)
                (record {
                  listened = λ d t g. k.listened d t (get-remove_kept c d t r.waiting g).1;
                  registered = λ f d g.
                      let (low, own) =
                        k.registered f d (get-remove_kept task.fingerprint f d r.listeners g).1 in
                      (low, λ t w. own t (get-remove_kept c d t r.waiting w).1);
                  sent = λ d s g.
                      let (low, from) = k.sent d s g in
                      (low, λ t w. from t (get-remove_kept c d t r.waiting w).1);
                  joined = k.joined;
                })
        ]
      ]
    ]

Step-Sound :
    (es : List Event) (e : Event) (r s : Relay) → Step e r s → Sound es r → Sound (e ∷ es) s
unfolding connect
Step-Sound es e r s (step_listen stream fp r0) h = listen-Sound es r stream fp h
Step-Sound es e r s (step_connect stream fp r0) h = elim (Option-cases (get fp r.listeners)) [
  | inl missing ↦ rw (missing, connect) (idle-Sound es (connects stream fp) r h)
  | inr (c, found) ↦ rw (found, connect) (hand-Sound es r stream c fp found h)
]
Step-Sound es e r s (step_wake c r0) h = wake-Sound es r c h

pub Reaches-Sound : (es : List Event) (r : Relay) → Reaches es r → Sound es r
Reaches-Sound es r start = new-Sound
Reaches-Sound es r (next {es = before} {e} {r = q} {s = t} reached step) =
    Step-Sound before e q t step (Reaches-Sound before q reached)

-- Two connections are joined only if one of them listened under the fingerprint that the other
-- asked for, whatever happened at the relay and in whatever order.
pub Reaches-joined :
    (es : List Event) (r : Relay) (l s : ℕ)
    → Reaches es r
    → Memᴰ (l, s) r.spliced
    → (fp : List ℕ) × Memᴰ (listens l fp) es × Memᴰ (connects s fp) es
Reaches-joined es r l s reached = (Reaches-Sound es r reached).joined l s
