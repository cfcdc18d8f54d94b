-- ===== src/Tofu/Pins.antt =====
-- What trust on first use gives, with handshakes that run side by side:
-- rust/core/src/relay/tls.rs.
use mathlib.Core.List.{Memᴰ}
use localsend_rs.Base.{
  ℕ, ◌≡◌, refl, sym, ap, ◌∙◌, ◌≢◌, none, some, Option, List, [], ◌∷◌, ◌==◌, ==_iff, ==_refl,
  bytes_eq, nat_eq, Bool-cases, Option-cases, inl, inr, false,
}
use localsend_rs.HashMap.{get}
use localsend_rs.HashMap.Laws.{get-insert, get-insert_cases, get-remove_kept}
use localsend_rs.Tofu.Store.{
  Text, TofuStore, TofuVerifier, assertion, changed, mismatch, fingerprint_of, pinned_fingerprint,
  pin, first_contact, Looked, decided, unpinned, look_up, Contact, Shared, Event, looked, looks,
  pins, step, run,
}

-- What a look at the store comes to, by the pin that is there.
data Look (sha256 : List ℕ → List ℕ) (v : TofuVerifier) (cert : List ℕ) (store : TofuStore)
    : Looked → Type 0 where
  same :
      get v.peer_id store ≡ some (fingerprint_of sha256 cert)
      → Look sha256 v cert store (decided assertion)
  different : (old new : Text) → Look sha256 v cert store (decided (changed old new))
  unexpected : (old new : Text) → Look sha256 v cert store (decided (mismatch old new))
  first :
      get v.peer_id store ≡ none → Look sha256 v cert store (unpinned (fingerprint_of sha256 cert))

look_up-Look :
    (sha256 : List ℕ → List ℕ) (v : TofuVerifier) (cert : List ℕ) (store : TofuStore)
    → Look sha256 v cert store (look_up sha256 v cert store)
unfolding look_up pinned_fingerprint first_contact
look_up-Look sha256 v cert store = elim (Option-cases (get v.peer_id store)) [
  | inl new ↦ elim (Option-cases v.expected) [
    | inl free ↦ rw (new, look_up, free) (first new)
    | inr (e, known) ↦ elim (Bool-cases (e == fingerprint_of sha256 cert)) [
      | inl right ↦ rw (new, look_up, known, right) (first new)
      | inr wrong ↦ rw (new, look_up, known, wrong) (unexpected e (fingerprint_of sha256 cert))
    ]
  ]
  | inr (p, known) ↦ elim (Bool-cases (p == fingerprint_of sha256 cert)) [
    | inl right ↦
        rw (known, look_up, right)
          (same (known ∙ ap some ((==_iff p (fingerprint_of sha256 cert)).0 right)))
    | inr wrong ↦ rw (known, look_up, wrong) (different p (fingerprint_of sha256 cert))
  ]
]

-- No handshake with the peer is about to pin.
abbrev pub Free : Text → Shared → Type 0
Free peer s = (n : ℕ) (c : Contact) → get n s.in_flight ≡ some c → c.peer_id ≢ peer

-- The peer is pinned, and will stay so.
record Settled (peer fp : Text) (s : Shared) : Type 0 where
  pinned : get peer s.store ≡ some fp
  free : Free peer s

-- After a step, an accepted contact is pinned, and what was settled stays so.
record Outcome (peer fp : Text) (s : Shared) (r : Shared × Option Contact) : Type 0 where
  kept : Settled peer fp s → Settled peer fp r.0
  accepts : (c : Contact) → r.1 ≡ some c → get c.peer_id r.0.store ≡ some c.fingerprint

looked-Outcome :
    (sha256 : List ℕ → List ℕ) (v : TofuVerifier) (cert : List ℕ) (n : ℕ) (peer fp : Text)
    (s : Shared) (l : Looked)
    → Look sha256 v cert s.store l
    → Outcome peer fp s
        (looked n (record { peer_id = v.peer_id; fingerprint = fingerprint_of sha256 cert }) l s)
unfolding looked
looked-Outcome sha256 v cert n peer fp s l (same known) = record {
  kept = λ h. h;
  accepts = λ c e. cc (e, known);
}
looked-Outcome sha256 v cert n peer fp s l (different old new) = record {
  kept = λ h. h;
  accepts = λ c e. cc e;
}
looked-Outcome sha256 v cert n peer fp s l (unexpected old new) = record {
  kept = λ h. h;
  accepts = λ c e. cc e;
}
looked-Outcome sha256 v cert n peer fp s l (first new) = record {
  kept = λ h. record {
    pinned = h.pinned;
    free = λ m c g. elim (get-insert_cases n m _ c s.in_flight g) [
      | inl (_, e) ↦ λ here. cc (new, h.pinned, ap (λ (k : Contact). k.peer_id) e, here)
      | inr old ↦ h.free m c old
    ];
  };
  accepts = λ c e. cc e;
}

step-Outcome :
    (sha256 : List ℕ → List ℕ) (e : Event) (peer fp : Text) (s : Shared)
    → Outcome peer fp s (step sha256 e s)
unfolding step pin
step-Outcome sha256 (looks n v cert) peer fp s =
    looked-Outcome sha256 v cert n peer fp s _ (look_up-Look sha256 v cert s.store)
step-Outcome sha256 (pins n) peer fp s = elim (Option-cases (get n s.in_flight)) [
  | inl gone ↦ rw (gone, step) (record { kept = λ h. h; accepts = λ c e. cc e })
  | inr (c, waits) ↦
      rw (waits, step)
        (record {
          kept = λ h. record {
            pinned =
                let other : (c.peer_id == peer) ≡ false = elim (Bool-cases (c.peer_id == peer)) [
                  | inl here ↦ absurd (h.free n c waits ((==_iff c.peer_id peer).0 here))
                  | inr away ↦ away
                ] in
                rw (get-insert c.peer_id peer c.fingerprint s.store, other) h.pinned;
            free = λ m d g. h.free m d (get-remove_kept n m d s.in_flight g).1;
          };
          accepts = λ d e.
              let same : c ≡ d = cc e in
              rw (← same)
                (rw (get-insert c.peer_id c.peer_id c.fingerprint s.store, ==_refl c.peer_id) refl);
        })
]

run-Settled :
    (sha256 : List ℕ → List ℕ) (es : List Event) (peer fp : Text) (s : Shared) (d : Contact)
    → Settled peer fp s
    → Memᴰ d (run sha256 es s)
    → d.peer_id ≡ peer
    → d.fingerprint ≡ fp
unfolding run
run-Settled sha256 [] peer fp s d h m here = elim m [ ]
run-Settled sha256 (e ∷ es) peer fp s d h m here =
    let o = step-Outcome sha256 e peer fp s in
    let next = (step sha256 e s).0 in
    let later = run-Settled sha256 es peer fp next d (o.kept h) in
    elim (Option-cases (step sha256 e s).1) [
      | inl none_here ↦ later (rw none_here at m) here
      | inr (c, accepted) ↦ elim (rw accepted at m) [
        | Memᴰ.head it ↦
            let mine = o.accepts c accepted in
            let theirs : c.peer_id ≡ peer = sym (ap (λ (k : Contact). k.peer_id) it) ∙ here in
            ap (λ (k : Contact). k.fingerprint) it ∙ cc (mine, (o.kept h).pinned, theirs)
        | Memᴰ.tail rest ↦ later rest here
      ]
    ]

-- When a handshake with a peer was accepted, and no other handshake with this peer was then about
-- to pin, every later one that is accepted for the peer has a certificate of the same fingerprint:
-- whatever handshakes there are, with this peer and others, and however they run side by side.
pub run-same :
    (sha256 : List ℕ → List ℕ) (e : Event) (es : List Event) (s : Shared) (c d : Contact)
    → (step sha256 e s).1 ≡ some c
    → Free c.peer_id (step sha256 e s).0
    → Memᴰ d (run sha256 es (step sha256 e s).0)
    → d.peer_id ≡ c.peer_id
    → d.fingerprint ≡ c.fingerprint
run-same sha256 e es s c d accepted free =
    run-Settled sha256 es c.peer_id c.fingerprint (step sha256 e s).0 d (record {
      pinned = (step-Outcome sha256 e c.peer_id c.fingerprint s).accepts c accepted;
      free = free;
    })
