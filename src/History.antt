-- ===== src/History.antt =====
-- A background download, `BgDownloadData` of source/config.h, and what `SaveBgDownloadData` of
-- source/config.cpp writes of it. The JSON text around the members and the encryption of the
-- password are not modelled: a saved password is the one that is encrypted.
use ps5_ezremote_server.Prelude.{
  ℕ, Bool, Option, none, some, List, [], ◌∷◌, ltb, ◌==◌, if◌then◌else◌,
}
use ps5_ezremote_server.Words.{Bytes, sub64}
use ps5_ezremote_server.Host.{HostInfo, client_type_http_server}

pub data DownloadState : Type 0 where
  pending downloading resumed failed success : DownloadState

-- `struct BgDownloadData`
pub record Row : Type 0 where
  pub host_info : HostInfo
  pub src_path : Bytes
  pub dest_path : Bytes
  pub bytes_transfered : ℕ
  pub file_size : ℕ
  pub state : DownloadState
  pub id : ℕ
  pub timestamp : ℕ
  pub failed_attempts : ℕ
  pub remove_requested : Bool

-- The members of an object of the history file, in the order in which they are written.
pub record Saved : Type 0 where
  pub type : ℕ
  pub url : Bytes
  pub http_server_type : Option Bytes
  pub username : Bytes
  pub password : Bytes
  pub src_path : Bytes
  pub dest_path : Bytes
  pub file_size : ℕ
  pub bytes_transfered : ℕ
  pub state : DownloadState
  pub id : ℕ
  pub timestamp : ℕ
  pub failed_attempts : ℕ

-- The kind of server is written for an HTTP server alone, and the request to remove is not.
abbrev pub saved_row : Row → Saved
saved_row r = record {
  type = r.host_info.type;
  url = r.host_info.url;
  http_server_type =
      if r.host_info.type == client_type_http_server
      then some r.host_info.http_server_type
      else none;
  username = r.host_info.username;
  password = r.host_info.password;
  src_path = r.src_path;
  dest_path = r.dest_path;
  file_size = r.file_size;
  bytes_transfered = r.bytes_transfered;
  state = r.state;
  id = r.id;
  timestamp = r.timestamp;
  failed_attempts = r.failed_attempts;
}

-- `MAX_PKG_HISTORY_RETENTION`, fourteen days in microseconds.
abbrev pub max_pkg_history_retention : ℕ
max_pkg_history_retention = 1_209_600_000_000

-- What `SaveBgDownloadData` writes at a time; the difference is of type `uint64_t`.
unfoldable pub recent : ℕ → List Row → List Saved
recent now [] = []
recent now (r ∷ rows) =
    let rest = recent now rows in
    if ltb (sub64 now r.timestamp) max_pkg_history_retention then saved_row r ∷ rest else rest
