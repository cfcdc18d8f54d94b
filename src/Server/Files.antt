-- ===== src/Server/Files.antt =====
-- `stream_to_file` of rust/core/src/server.rs and `ProgressWriteAdapter` of rust/core/src/util.rs.
-- A disk is a map from paths to contents. What the operating system and the connection decide is
-- data: the errors of the calls, the pieces of the body, and the clock that says at which writes
-- the interval of 100 ms has passed.
use localsend_rs.Base.{
  ℕ, ◌+◌, Bool, ◌||◌, Option, none, some, List, [], ◌∷◌, ◌++◌, ◌==◌, String, bytes_eq, length, any,
  if◌then◌else◌,
}
use localsend_rs.HashMap.{HashMap, insert, contains_key}
use localsend_rs.Server.Paths.{PathBuf, dedup_path}

pub record Disk : Type 0 where
  pub files : HashMap PathBuf (List ℕ)
  pub dirs : List PathBuf

-- The errors of `create_dir_all`, of `File::create` and of the last flush, if they have one.
pub record Faults : Type 0 where
  pub create_dir : Option String
  pub create : PathBuf → Option String
  pub shutdown : Option String

-- One item of the body: bytes that are written with the clock's word on the interval, a read or
-- a write that failed.
pub data Piece : Type 0 where
  bytes : List ℕ → Bool → Piece
  broken : String → Piece

pub data Copied : Type 0 where
  copied : Copied
  copy_failed : String → Copied

pub record Adapter : Type 0 where
  pub inner : List ℕ
  pub interval_bytes : ℕ
  pub sent : List ℕ

-- `poll_write`
unfoldable pub poll_write : List ℕ → Bool → Adapter → Adapter
poll_write buf tick w =
    let total = w.interval_bytes + length buf in
    record w {
      inner = w.inner ++ buf;
      interval_bytes = total;
      sent = if tick then total ∷ w.sent else w.sent;
    }

-- `tokio::io::copy` from the body to the adapter.
unfoldable pub copy : List Piece → Adapter → Adapter × Copied
unfolding poll_write
copy [] w = (w, Copied.copied)
copy (bytes buf tick ∷ rest) w = copy rest (poll_write buf tick w)
copy (broken msg ∷ rest) w = (w, Copied.copy_failed msg)

unfoldable pub exists : Disk → PathBuf → Bool
exists disk path = contains_key path disk.files || any (λ d. d == path) disk.dirs

-- What the disk holds after the call, its outcome, and the progress sent on the way, newest
-- first. The bytes that a broken copy leaves in the write buffer count as written.
pub record Streamed : Type 0 where
  pub disk : Disk
  pub outcome : Copied
  pub progress : List ℕ

-- From the opened file on.
unfoldable pub write_file : Faults → PathBuf → List Piece → Disk → Streamed
unfolding copy
write_file faults path pieces disk =
    let end = copy pieces (record { inner = []; interval_bytes = 0; sent = [] }) in
    record {
      disk = record disk { files = insert path end.0.inner disk.files };
      outcome = elim end.1 [
        | copy_failed msg ↦ Copied.copy_failed msg
        | copied ↦ elim faults.shutdown [ none ↦ Copied.copied | some msg ↦ Copied.copy_failed msg ]
      ];
      progress = end.0.sent;
    }

unfoldable pub open_file : Faults → PathBuf → PathBuf → List Piece → Disk → Streamed
unfolding exists write_file
open_file faults dir name pieces disk =
    let path = dedup_path (exists disk) dir name in
    elim (faults.create path) [
      | some msg ↦ record { disk = disk; outcome = Copied.copy_failed msg; progress = [] }
      | none ↦ write_file faults path pieces disk
    ]

unfoldable pub stream_to_file : Faults → PathBuf → PathBuf → List Piece → Disk → Streamed
unfolding exists open_file
stream_to_file faults dir name pieces disk =
    if exists disk dir then open_file faults dir name pieces disk else elim faults.create_dir [
      | some msg ↦ record { disk = disk; outcome = Copied.copy_failed msg; progress = [] }
      | none ↦
          open_file faults dir name pieces (record { files = disk.files; dirs = dir ∷ disk.dirs })
    ]
