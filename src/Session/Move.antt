-- ===== src/Session/Move.antt =====
-- The actor as an abstract machine: a message makes a sequence of moves, each of which writes
-- one session, makes one, or leaves the sessions alone.
pub mod Writes
pub mod Messages
use localsend_rs.Base.{
  ℕ, suc, ◌+◌, ◌<◌, ◌≤◌, String, Bool, true, false, Option, none, some, List, [], ◌∷◌, ◌≡◌, refl,
  string_eq, count,
}
use localsend_rs.HashMap.{HashMap, get, insert, values}
use localsend_rs.Session.State.{Session, Decision, Actor}
use localsend_rs.Session.Create.{is_active_recv}
use localsend_rs.Session.Step.{SessionStep}

-- What the actor sends on the oneshot channel of a session that goes from `s` to `t`: nothing,
-- or one decision on the channel that `s` held, which `t` holds no more.
pub data Sent (s t : Session) (before after : List (ℕ × Decision)) : Type 0 where
  nothing : t.decision ≡ s.decision → after ≡ before → Sent s t before after
  nobody : s.decision ≡ none → t.decision ≡ none → after ≡ before → Sent s t before after
  decided :
      (c : ℕ) (d : Decision)
      → s.decision ≡ some c
      → t.decision ≡ none
      → after ≡ (c, d) ∷ before
      → Sent s t before after

-- The state of a new session, and the channel that it takes: a receive session takes the next
-- one, and is made only below the limit.
pub data Opened (a : Actor) (s : Session) : ℕ → Type 0 where
  receiving :
      s.decision ≡ some a.next_channel
      → count is_active_recv (values a.sessions) < a.max_recv_sessions
      → Opened a s (suc a.next_channel)
  sending : s.decision ≡ none → is_active_recv s ≡ false → Opened a s a.next_channel

pub data Move (new_v4 : ℕ → String) (a b : Actor) : Type 0 where
  keep :
      b.sessions ≡ a.sessions
      → b.max_recv_sessions ≡ a.max_recv_sessions
      → b.answers ≡ a.answers
      → b.next_channel ≡ a.next_channel
      → b.minted ≡ a.minted
      → Move new_v4 a b
  write :
      (id : String) (s t : Session)
      → get id a.sessions ≡ some s
      → SessionStep s t
      → Sent s t a.answers b.answers
      → b.sessions ≡ insert id t a.sessions
      → b.max_recv_sessions ≡ a.max_recv_sessions
      → b.next_channel ≡ a.next_channel
      → b.minted ≡ a.minted
      → Move new_v4 a b
  open_session :
      (s : Session)
      → s.id ≡ new_v4 a.minted
      → s.cancelled ≡ false
      → Opened a s b.next_channel
      → b.sessions ≡ insert (new_v4 a.minted) s a.sessions
      → b.max_recv_sessions ≡ a.max_recv_sessions
      → b.answers ≡ a.answers
      → a.minted < b.minted
      → Move new_v4 a b

pub data Moves (new_v4 : ℕ → String) (a : Actor) : Actor → Type 0 where
  here : Moves new_v4 a a
  next : {b c : Actor} → Moves new_v4 a b → Move new_v4 b c → Moves new_v4 a c

pub Moves-one : {new_v4 : ℕ → String} {a b : Actor} → Move new_v4 a b → Moves new_v4 a b
Moves-one m = next here m

pub Moves-trans :
    {new_v4 : ℕ → String} {a b c : Actor} → Moves new_v4 a b → Moves new_v4 b c → Moves new_v4 a c
Moves-trans xs here = xs
Moves-trans xs (next ys m) = next (Moves-trans xs ys) m

-- What every move keeps, every sequence of moves keeps.
pub Moves-induction {ℓ} :
    {new_v4 : ℕ → String} (P : Actor → Type ℓ)
    → ((a b : Actor) → Move new_v4 a b → P a → P b)
    → {a b : Actor} → Moves new_v4 a b
    → P a
    → P b
Moves-induction P step here p = p
Moves-induction P step (next {b} {c} ms m) p = step b c m (Moves-induction P step ms p)
