-- ===== src/Session/Create.antt =====
-- `CreateRecvSession` and `CreateSendSession` of `Actor::handle_message` in
-- rust/core/src/session.rs. The parameter `new_v4` gives the n-th UUID that the process makes.
use localsend_rs.Base.{
  ℕ, suc, ◌+◌, String, Bool, false, ◌&&◌, Option, none, some, List, [], ◌∷◌, string_eq,
  if◌then◌else◌, count, leb, length,
}
use localsend_rs.HashMap.{HashMap, values, collect}
use localsend_rs.Model.{
  NodeDevice, FileInfo, MissionState, FileState, SessionDirection, state_changed,
}
use localsend_rs.Session.State.{
  SessionError, ok, err, FileEntry, Session, Reply, Actor, is_active, is_receive,
}
use localsend_rs.Session.Transitions.{broadcast_index, store}

unfoldable pub is_active_recv : Session → Bool
unfolding is_active
is_active_recv s = is_receive s.direction && is_active s

-- The file table of a receive session, with a fresh token for each file, and its token index.
unfoldable pub recv_entries :
    (ℕ → String) → ℕ → List (String × FileInfo) → List (String × FileEntry)
recv_entries new_v4 n [] = []
recv_entries new_v4 n ((fid, info) ∷ rest) =
    (fid, record { token = some (new_v4 n); info = info; state = FileState.pending })
    ∷ recv_entries new_v4 (suc n) rest

unfoldable pub recv_tokens : (ℕ → String) → ℕ → List (String × FileInfo) → List (String × String)
recv_tokens new_v4 n [] = []
recv_tokens new_v4 n ((fid, info) ∷ rest) = (new_v4 n, fid) ∷ recv_tokens new_v4 (suc n) rest

unfoldable pub send_entries : List (String × FileInfo) → List (String × FileEntry)
send_entries [] = []
send_entries ((fid, info) ∷ rest) =
    (fid, record { token = none; info = info; state = FileState.pending }) ∷ send_entries rest

-- A session as both kinds of `Create` message build it.
unfoldable pub fresh_session :
    String
    → SessionDirection
    → NodeDevice
    → HashMap String FileEntry
    → HashMap String String
    → Option ℕ
    → Session
fresh_session id direction peer files token_index decision = record {
  id = id;
  direction = direction;
  peer = peer;
  state = MissionState.pending;
  via_relay = false;
  route = "local";
  speed_bps = 0;
  last_progress_at = none;
  last_total_bytes = 0;
  files = files;
  token_index = token_index;
  decision = decision;
  events = state_changed MissionState.pending ∷ [];
  cancelled = false;
}

unfoldable pub recv_session : (ℕ → String) → NodeDevice → HashMap String FileInfo → Actor → Session
unfolding fresh_session recv_entries recv_tokens
recv_session new_v4 sender files a =
    fresh_session (new_v4 a.minted) SessionDirection.receive sender
      (collect (recv_entries new_v4 (suc a.minted) files))
      (collect (recv_tokens new_v4 (suc a.minted) files)) (some a.next_channel)

unfoldable pub handle_create_recv :
    (ℕ → String) → NodeDevice → HashMap String FileInfo → Actor → Actor × Reply
unfolding is_active_recv recv_session
handle_create_recv new_v4 sender files a =
    if leb a.max_recv_sessions (count is_active_recv (values a.sessions))
    then (a, Reply.recv_pending (err SessionError.busy))
    else (
      broadcast_index (
          store (new_v4 a.minted) (recv_session new_v4 sender files a)
            (record a { next_channel = suc a.next_channel; minted = suc a.minted + length files })),
      Reply.recv_pending (ok (record { session_id = new_v4 a.minted; decision = a.next_channel })),
    )

unfoldable pub send_session : (ℕ → String) → NodeDevice → List (String × FileInfo) → Actor → Session
unfolding fresh_session send_entries
send_session new_v4 target files a =
    fresh_session (new_v4 a.minted) SessionDirection.send target (collect (send_entries files)) []
      none

unfoldable pub handle_create_send :
    (ℕ → String) → NodeDevice → List (String × FileInfo) → Actor → Actor × Reply
unfolding send_session
handle_create_send new_v4 target files a = (
  broadcast_index (
      store (new_v4 a.minted) (send_session new_v4 target files a)
        (record a { minted = suc a.minted })),
  Reply.session_id (new_v4 a.minted),
)
