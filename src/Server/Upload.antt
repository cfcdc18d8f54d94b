-- ===== src/Server/Upload.antt =====
-- `handle_upload` of rust/core/src/server.rs.
use localsend_rs.Base.{ℕ, List, String, bytes_eq, string_eq}
use localsend_rs.TurnServer.State.{ascii}
use localsend_rs.Model.{UploadTask, FileState}
use localsend_rs.Session.State.{SessionError, Result, ok, err, FileTask, Message, Reply}
use localsend_rs.Session.Actor.{handle_start_file, handle_finish_file, run}
use localsend_rs.Server.Files.{Piece, Faults, Copied, stream_to_file}
use localsend_rs.Server.Routes.{Core, Refusal, error_text}

pub data UploadResult : Type 0 where
  uploaded : UploadResult
  refused : Refusal → UploadResult

-- Which arm of `select!` comes first.
pub data Arm : Type 0 where
  copy_ended cancelled : Arm

-- What happens during an upload: the pieces of the body that were copied, the faults of the disk,
-- the messages that the session actor gets meanwhile, and how it ends.
pub record Transfer : Type 0 where
  pub pieces : List Piece
  pub faults : Faults
  pub meanwhile : List Message
  pub arm : Arm

-- The reply that the channel of `start_file` carries; no other is sent on it.
unfoldable pub started_of : Reply → Result FileTask
started_of (Reply.file_task r) = r
started_of _ = err SessionError.not_found

-- The state that the file gets at the end, and the answer to the client.
unfoldable pub upload_end : Arm → Copied → FileState × UploadResult
upload_end Arm.cancelled outcome = (
  FileState.fail "session canceled",
  UploadResult.refused (record { status = 408; text = "session canceled" }),
)
upload_end Arm.copy_ended Copied.copied = (FileState.finish, UploadResult.uploaded)
upload_end Arm.copy_ended (Copied.copy_failed msg) =
    (FileState.fail msg, UploadResult.refused (record { status = 500; text = msg }))

unfoldable pub handle_upload : (ℕ → String) → UploadTask → Transfer → Core → Core × UploadResult
unfolding handle_start_file handle_finish_file started_of stream_to_file upload_end error_text
handle_upload new_v4 task transfer core =
    let (started, reply) = handle_start_file task.session_id task.token core.sessions in
    elim (started_of reply) [
      | err e ↦ (
        record core { sessions = started },
        UploadResult.refused (record { status = 403; text = error_text e }),
      )
      | ok file_task ↦
          let streamed =
            stream_to_file transfer.faults core.store_path (ascii file_task.info.file_name)
              transfer.pieces core.disk in
          let (state, result) = upload_end transfer.arm streamed.outcome in
          let during = run new_v4 transfer.meanwhile started in
          (
            record core {
              disk = streamed.disk;
              sessions = handle_finish_file task.session_id task.token state during;
            },
            result,
          )
    ]
