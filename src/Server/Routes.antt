-- ===== src/Server/Routes.antt =====
-- The routes of rust/core/src/server.rs but the upload. A request works on the core: its device
-- actor, its session actor, its settings and the disk.
use localsend_rs.Base.{ℕ, nat_eq, Option, none, some, List, String, bytes_eq}
use localsend_rs.HashMap.{HashMap, get}
use localsend_rs.Model.{NodeDevice, NodeAnnounce, FileRequest, FileResponse}
use localsend_rs.Model.Devices.{from_announce, to_announce, to_device}
use localsend_rs.Device.Actor as Device
use localsend_rs.Session.State.{
  SessionError, Result, ok, err, Decision, RecvPending, Message, Reply, Actor,
}
use localsend_rs.Session.Create.{handle_create_recv}
use localsend_rs.Session.Transitions.{cancel_session}
use localsend_rs.Session.Actor.{run}
use localsend_rs.Server.Paths.{PathBuf}
use localsend_rs.Server.Files.{Disk}

pub record Core : Type 0 where
  pub device : Device.Actor
  pub sessions : Actor
  pub store_path : PathBuf
  pub disk : Disk

-- A status code with its text.
pub record Refusal : Type 0 where
  pub status : ℕ
  pub text : String

-- `Display` of `SessionError`
unfoldable pub error_text : SessionError → String
error_text SessionError.busy = "too many concurrent sessions"
error_text SessionError.not_found = "session not found"
error_text SessionError.invalid_state = "invalid session state"
error_text SessionError.unknown_file = "unknown file"

unfoldable pub handle_info : Core → NodeAnnounce
unfolding to_announce
handle_info core = to_announce core.device.current

unfoldable pub handle_register : String → NodeAnnounce → Core → Core × NodeAnnounce
unfolding from_announce Device.handle_add
handle_register addr payload core =
    (record core { device = Device.handle_add (from_announce payload addr) core.device }, payload)

unfoldable pub get_devices : Core → HashMap String NodeDevice
get_devices core = core.device.device_map

unfoldable pub handle_cancel : String → Core → Core × ℕ
unfolding cancel_session
handle_cancel id core = (record core { sessions = cancel_session id core.sessions }, 200)

-- The reply that the channel of `create_recv_session` carries; no other is sent on it.
unfoldable pub pending_of : Reply → Result RecvPending
pending_of (Reply.recv_pending r) = r
pending_of _ = err SessionError.not_found

unfoldable pub create_refusal : SessionError → Refusal
unfolding error_text
create_refusal SessionError.busy = record { status = 409; text = "too many concurrent sessions" }
create_refusal SessionError.not_found = record {
  status = 500;
  text = error_text SessionError.not_found;
}
create_refusal SessionError.invalid_state = record {
  status = 500;
  text = error_text SessionError.invalid_state;
}
create_refusal SessionError.unknown_file = record {
  status = 500;
  text = error_text SessionError.unknown_file;
}

pub data Prepared : Type 0 where
  granted : FileResponse → Prepared
  refused : Refusal → Prepared
  waiting : Prepared

-- `prepare_upload` up to its wait: the sender is added and the session is created.
unfoldable pub prepare : (ℕ → String) → String → FileRequest → Core → Core × Result RecvPending
unfolding to_device Device.handle_add handle_create_recv pending_of
prepare new_v4 addr payload core =
    let sender = to_device payload.info addr in
    let created = handle_create_recv new_v4 sender payload.files core.sessions in
    (
      record core { device = Device.handle_add sender core.device; sessions = created.0 },
      pending_of created.1,
    )

-- `pending.decision.await` and the answer to the client.
unfoldable pub respond : String → Decision → Prepared
respond session_id (Decision.accepted files) =
    Prepared.granted (record { session_id = session_id; files = files })
respond session_id Decision.declined =
    Prepared.refused (record { status = 403; text = "mission rejected" })
respond session_id Decision.canceled =
    Prepared.refused (record { status = 403; text = "mission canceled" })

-- What was sent on the channel that the request waits on.
unfoldable pub decision_on : RecvPending → Actor → Option Decision
decision_on pending a = get pending.decision a.answers

-- The whole handler: `meanwhile` are the messages that the session actor gets while the request
-- waits. The guard of a client that goes away sends one of them, `Cancel`.
unfoldable pub prepare_upload :
    (ℕ → String) → String → FileRequest → List Message → Core → Core × Prepared
unfolding prepare create_refusal respond decision_on
prepare_upload new_v4 addr payload meanwhile core =
    let (begun, result) = prepare new_v4 addr payload core in
    elim result [
      | err e ↦ (begun, Prepared.refused (create_refusal e))
      | ok pending ↦
          let after = run new_v4 meanwhile begun.sessions in
          (
            record begun { sessions = after },
            elim (decision_on pending after) [
              | none ↦ Prepared.waiting
              | some d ↦ respond pending.session_id d
            ],
          )
    ]
