-- ===== src/Model.antt =====
-- rust/core/src/model.rs: devices, the transfer objects of the protocol, and the states of a
-- session. Texts are native strings; an `i64` is a signed number, a `u16` a natural number.
pub mod Devices
use localsend_rs.Base.{ℕ, String, Bool, true, false, Option, List}
use localsend_rs.Base.Int.{ℤ}
use localsend_rs.HashMap.{HashMap}

pub record NodeDevice : Type 0 where
  pub alias : String
  pub version : String
  pub device_model : String
  pub device_type : String
  pub fingerprint : String
  pub address : String
  pub port : ℕ
  pub protocol : String
  pub download : Bool
  pub announcement : Bool
  pub announce : Bool
  pub discovery_source : String

pub record NodeAnnounce : Type 0 where
  pub alias : String
  pub version : String
  pub device_model : String
  pub device_type : String
  pub fingerprint : String
  pub port : ℕ
  pub protocol : String
  pub download : Bool
  pub announcement : Bool
  pub announce : Bool

pub record SenderInfo : Type 0 where
  pub alias : String
  pub version : String
  pub device_model : String
  pub device_type : String
  pub fingerprint : String
  pub port : ℤ
  pub protocol : String
  pub download : Bool

pub record FileInfo : Type 0 where
  pub id : String
  pub file_name : String
  pub size : ℤ
  pub file_type : String
  pub sha256 : Option String
  pub preview : Option (List ℕ)

pub record FileRequest : Type 0 where
  pub info : SenderInfo
  pub files : HashMap String FileInfo

pub record FileResponse : Type 0 where
  pub session_id : String
  pub files : HashMap String String

pub record UploadTask : Type 0 where
  pub session_id : String
  pub file_id : String
  pub token : String

pub data MissionState : Type 0 where
  idle pending transfering finished failed canceled busy : MissionState

pub data FileState : Type 0 where
  pending transfer finish skip : FileState
  fail : String → FileState

unfoldable pub is_terminal : FileState → Bool
is_terminal FileState.finish = true
is_terminal FileState.skip = true
is_terminal (FileState.fail msg) = true
is_terminal FileState.pending = false
is_terminal FileState.transfer = false

pub record MissionFileInfo : Type 0 where
  pub info : FileInfo
  pub state : FileState

pub data SessionDirection : Type 0 where
  send receive : SessionDirection

pub record SessionSummary : Type 0 where
  pub id : String
  pub direction : SessionDirection
  pub peer : NodeDevice
  pub file_count : ℕ
  pub state : MissionState
  pub via_relay : Bool
  pub route : String
  pub speed_bps : ℕ
  pub files : List MissionFileInfo

pub data SessionEvent : Type 0 where
  state_changed : MissionState → SessionEvent
  file_state_changed : String → FileState → SessionEvent
  progress : String → ℕ → SessionEvent
  failed : String → SessionEvent
