-- ===== src/Server/Consent.antt =====
-- Nobody gets tokens for an upload unless the user accepted it.
use mathlib.Core.List.{Memᴰ}
use localsend_rs.Base.{
  string_eq, nat_eq, ℕ, suc, ◌≡◌, refl, ◌≢◌, ◌&&◌, ◌⊎◌, inl, inr, String, true, false, List, [],
  ◌∷◌, any, arith, nat_beq, nat_beq_iff, some, Option, Option-cases, Bool-cases, count, leb,
}
use localsend_rs.HashMap.{HashMap, get, insert, values}
use localsend_rs.HashMap.Counts.{get-count_zero}
use localsend_rs.Model.{FileRequest, FileResponse, NodeDevice, FileInfo}
use localsend_rs.Model.Devices.{to_device}
use localsend_rs.Session.State.{
  Session, Message, Actor, Decision, Result, ok, err, RecvPending, SessionError,
}
use localsend_rs.Session.Transitions.{new, broadcast_index, store}
use localsend_rs.Session.Create.{handle_create_recv, recv_session, is_active_recv}
use localsend_rs.Session.Actor.{run}
use localsend_rs.Session.Answers.{holds, is_answer, uses, run-unused}
use localsend_rs.Session.Consent.{grants, insert-holder, is_accepted, HeldBy, run-grants}
use localsend_rs.Server.Routes.{
  Core, Prepared, pending_of, prepare, respond, decision_on, prepare_upload,
}

nobody_holds :
    (a : Actor) (c : ℕ) (k : String) (s : Session)
    → uses c a ≡ 0
    → get k a.sessions ≡ some s
    → s.decision ≢ some c
nobody_holds a c k s unused g = λ held.
    ground (arith, get-count_zero (holds c) k s a.sessions (omega arith) g, held, nat_beq_iff c c)

opening-HeldBy :
    (new_v4 : ℕ → String) (a b : Actor) (s : Session)
    → uses a.next_channel a ≡ 0
    → b.sessions ≡ insert (new_v4 a.minted) s a.sessions
    → b.next_channel ≡ suc a.next_channel
    → HeldBy a.next_channel (new_v4 a.minted) b
opening-HeldBy new_v4 a b s unused u n = record {
  given = omega (arith, n);
  holder =
      insert-holder a.next_channel (new_v4 a.minted) (new_v4 a.minted) s a b u (λ _. refl)
        (λ k t g held. absurd (nobody_holds a a.next_channel k t unused g held));
}

-- A new receive session, and what the actor is with it.
record IsOpening (new_v4 : ℕ → String) (a b : Actor) (pending : RecvPending) : Type 0 where
  opened : Session
  id : pending.session_id ≡ new_v4 a.minted
  channel : pending.decision ≡ a.next_channel
  sessions : b.sessions ≡ insert (new_v4 a.minted) opened a.sessions
  next_channel : b.next_channel ≡ suc a.next_channel
  answers : b.answers ≡ a.answers

handle_create_recv-IsOpening :
    (new_v4 : ℕ → String) (sender : NodeDevice) (files : HashMap String FileInfo) (a : Actor)
    (pending : RecvPending)
    → pending_of (handle_create_recv new_v4 sender files a).1 ≡ ok pending
    → IsOpening new_v4 a (handle_create_recv new_v4 sender files a).0 pending
unfolding handle_create_recv pending_of broadcast_index store
handle_create_recv-IsOpening new_v4 sender files a pending opened =
    elim (Bool-cases (leb a.max_recv_sessions (count is_active_recv (values a.sessions)))) [
      | inl full ↦ cc (rw (full, handle_create_recv) at opened)
      | inr room ↦
          let here : ok (record { session_id = new_v4 a.minted; decision = a.next_channel })
              ≡ ok pending =
            rw (room, handle_create_recv) at opened in
          rw (room, handle_create_recv)
            (record {
              opened = recv_session new_v4 sender files a;
              id = cc here;
              channel = cc here;
              sessions = refl;
              next_channel = refl;
              answers = refl;
            })
    ]

no_answer :
    (c : ℕ) (answers : List (ℕ × Decision))
    → count (is_answer c) answers ≡ 0
    → any (λ (e : ℕ × Decision). nat_beq e.0 c && is_accepted e.1) answers ≡ false
no_answer c [] h = refl
no_answer c ((k, d) ∷ answers) h = ground (arith, no_answer c answers)

answer-granted :
    (c : ℕ) (answers : List (ℕ × Decision)) (files : HashMap String String)
    → get c answers ≡ some (Decision.accepted files)
    → any (λ (e : ℕ × Decision). nat_beq e.0 c && is_accepted e.1) answers ≡ true
unfolding get
answer-granted c [] files h = cc h
answer-granted c ((k, d) ∷ answers) files h = elim (Bool-cases (nat_beq k c)) [
  | inl same ↦ ground (arith, same, h)
  | inr other ↦ ground (arith, other, answer-granted c answers files (rw other at h))
]

respond-granted :
    (id : String) (d : Decision) (r : FileResponse)
    → respond id d ≡ Prepared.granted r
    → (r.session_id ≡ id) × (d ≡ Decision.accepted r.files)
unfolding respond
respond-granted id (Decision.accepted files) r h = ground arith
respond-granted id Decision.declined r h = cc h
respond-granted id Decision.canceled r h = cc h

-- What has to hold for a request to be answered with tokens.
record IsGranted (new_v4 : ℕ → String) (addr : String) (payload : FileRequest)
    (meanwhile : List Message) (core : Core) (r : FileResponse) : Type 0 where
  pending : RecvPending
  opened : (prepare new_v4 addr payload core).1 ≡ ok pending
  id : r.session_id ≡ pending.session_id
  decision :
      get pending.decision
        (run new_v4 meanwhile (prepare new_v4 addr payload core).0.sessions).answers
      ≡ some (Decision.accepted r.files)

Result-cases {ℓ} :
    {A : Type ℓ} (r : Result A) → ((e : SessionError) × (r ≡ err e)) ⊎ ((x : A) × (r ≡ ok x))
Result-cases (err e) = inl (e, refl)
Result-cases (ok x) = inr (x, refl)

prepare_upload-IsGranted :
    (new_v4 : ℕ → String) (addr : String) (payload : FileRequest) (meanwhile : List Message)
    (core : Core) (r : FileResponse)
    → (prepare_upload new_v4 addr payload meanwhile core).1 ≡ Prepared.granted r
    → IsGranted new_v4 addr payload meanwhile core r
unfolding prepare_upload decision_on
prepare_upload-IsGranted new_v4 addr payload meanwhile core r h =
    let began = prepare new_v4 addr payload core in
    elim (Result-cases began.1) [
      | inl (e, failed) ↦ cc (rw (failed, prepare_upload) at h)
      | inr (pending, opened) ↦
          let after = run new_v4 meanwhile began.0.sessions in
          elim (Option-cases (get pending.decision after.answers)) [
            | inl waits ↦ cc (rw (opened, prepare_upload, waits) at h)
            | inr (d, sent) ↦
                let (id, decision) =
                  respond-granted pending.session_id d r (rw (opened, prepare_upload, sent) at h) in
                record {
                  pending = pending;
                  opened = opened;
                  id = id;
                  decision = rw decision at sent;
                }
          ]
    ]

-- A request is answered with tokens only if one of the messages that the session actor got while
-- the request waited is an `Accept` of the very session that the answer names. The actor is one
-- that any messages made of a new one.
pub prepare_upload-consent :
    (new_v4 : ℕ → String) (max : ℕ) (earlier meanwhile : List Message) (addr : String)
    (payload : FileRequest) (core : Core) (r : FileResponse)
    → core.sessions ≡ run new_v4 earlier (new max)
    → (prepare_upload new_v4 addr payload meanwhile core).1 ≡ Prepared.granted r
    → (ids : Option (List String)) × Memᴰ (Message.accept r.session_id ids) meanwhile
unfolding prepare
prepare_upload-consent new_v4 max earlier meanwhile addr payload core r reached h =
    let g = prepare_upload-IsGranted new_v4 addr payload meanwhile core r h in
    let a = core.sessions in
    let unused : uses a.next_channel a ≡ 0 =
      rw reached (run-unused new_v4 max earlier _ (omega arith)) in
    let o =
      handle_create_recv-IsOpening new_v4 (to_device payload.info addr) payload.files a g.pending
        g.opened in
    let b = (prepare new_v4 addr payload core).0.sessions in
    let holder : HeldBy g.pending.decision g.pending.session_id b =
      rw (o.channel, o.id) (opening-HeldBy new_v4 a b o.opened unused o.sessions o.next_channel) in
    let none_before : grants g.pending.decision b ≡ false =
      rw (o.answers, o.channel) (no_answer a.next_channel a.answers (omega (arith, unused))) in
    rw g.id (
      run-grants new_v4 g.pending.decision g.pending.session_id meanwhile b holder none_before
        (answer-granted g.pending.decision (run new_v4 meanwhile b).answers r.files g.decision))
