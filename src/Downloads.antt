-- ===== src/Downloads.antt =====
-- The background downloads of source/server/http_server.cpp over the list of source/config.h: the
-- loop of `DownloadFilesThread`, and the handlers that share the list with it. The thread is a
-- state machine, whose steps and the handlers' come in any order. What the network, the file system
-- and the clock answer is the input of a step. `disk` is what the history file holds.
mod Same
pub mod Rows
pub mod Invariant
pub mod Safety
pub mod Progress
pub mod Tries
pub mod Allowance
pub mod Bound
pub mod Stuck
pub mod RestMode
pub mod Handlers
mod Tests
use ps5_ezremote_server.Prelude.{
  ℕ, zero, suc, ◌+◌, ◌*◌, ◌<◌, Bool, true, false, not, ◌&&◌, ◌||◌, Option, none, some, List, [],
  ◌∷◌, ◌++◌, length, get_elem?, set, ltb, leb, if◌then◌else◌,
}
use ps5_ezremote_server.Words.{Bytes, sub64}
use ps5_ezremote_server.Host.{HostInfo}
pub use ps5_ezremote_server.History.{
  DownloadState, pending, downloading, resumed, failed, success, Row, Saved, recent,
}

-- Where the download thread is: before a pass, at an index of the `for` loop, in `Get` for the row
-- at an index (the flag says whether in the branch that resumes), or at its end.
pub data Phase : Type 0 where
  at_top : Phase
  scanning : ℕ → Phase
  getting : Bool → ℕ → Phase
  stopped : Phase

pub record Downloads : Type 0 where
  pub bg_download_list : List Row
  pub disk : List Saved
  pub in_rest_mode : Bool
  pub stop_download : Bool
  pub phase : Phase

abbrev pub max_failed_attempts : ℕ
max_failed_attempts = 5

abbrev pub save_bg_download_data : ℕ → Downloads → Downloads
save_bg_download_data now s = record s { disk = recent now s.bg_download_list }

-- The loop that applies history clears, and whether it removed any row.
unfoldable pub purge : List Row → List Row
purge [] = []
purge (r ∷ rows) = let rest = purge rows in if r.remove_requested then rest else r ∷ rest

unfoldable pub any_flagged : List Row → Bool
any_flagged [] = false
any_flagged (r ∷ rows) = r.remove_requested || any_flagged rows

-- Which branch of the `for` loop takes a row: `some false` starts it, `some true` resumes it, and
-- `none` passes it over.
unfoldable pub branch_of : DownloadState → ℕ → Option Bool
branch_of pending attempts = some false
branch_of downloading attempts = some true
branch_of failed attempts = if ltb attempts max_failed_attempts then some true else none
branch_of _ attempts = none

abbrev pub set_state : DownloadState → Row → Row
set_state st r = record r { state = st }

abbrev pub set_row : ℕ → Row → Downloads → Downloads
set_row i r s = record s { bg_download_list = set s.bg_download_list i r }

-- The loop's test, the wait while paused, and what stands before the `for` loop.
unfoldable pub step_top : ℕ → Downloads → Downloads
step_top now s =
    if s.stop_download
    then record s { phase = stopped }
    else if s.in_rest_mode
    then s
    else let swept = record s { bg_download_list = purge s.bg_download_list; phase = scanning 0 } in
      if any_flagged s.bg_download_list then save_bg_download_data now swept else swept

-- The row's state is set before `Get`; only the branch that starts a download saves the list then.
unfoldable pub start_get : Bool → ℕ → ℕ → Row → Downloads → Downloads
start_get false now i r s =
    save_bg_download_data now
      (record (set_row i (set_state downloading r) s) { phase = getting false i })
start_get true now i r s = record (set_row i (set_state resumed r) s) { phase = getting true i }

-- One turn of the `for` loop up to `Get`; `client` says whether a client could be acquired.
unfoldable pub take_branch : Option Bool → Bool → ℕ → ℕ → Row → Downloads → Downloads
take_branch none client now i r s = record s { phase = scanning (i + 1) }
take_branch (some resuming) client now i r s =
    if client then start_get resuming now i r s else record s { phase = scanning (i + 1) }

abbrev pub visit : Bool → ℕ → ℕ → Row → Downloads → Downloads
visit client now i r s = take_branch (branch_of r.state r.failed_attempts) client now i r s

-- The index against the size of the list.
unfoldable pub visit_at : Option Row → Bool → ℕ → ℕ → Downloads → Downloads
visit_at none client now i s = record s { phase = at_top }
visit_at (some r) client now i s = visit client now i r s

abbrev pub step_scanning : Bool → ℕ → ℕ → Downloads → Downloads
step_scanning client now i s = visit_at (get_elem? s.bg_download_list i) client now i s

-- What a failed `Get` leaves of the row: nothing changes while the console goes to rest.
abbrev pub failed_row : Bool → Row → Row
failed_row false r = record r { state = failed }
failed_row true r = record r { state = failed; failed_attempts = r.failed_attempts + 1 }

-- `if (ret == 0)`: the rest of the pass is left out.
unfoldable pub get_failed : Bool → ℕ → ℕ → Row → Downloads → Downloads
get_failed resume now i r s =
    if s.in_rest_mode
    then record s { phase = at_top }
    else let s' = record (set_row i (failed_row resume r) s) { phase = at_top } in
      if resume && leb max_failed_attempts (r.failed_attempts + 1)
      then save_bg_download_data now s'
      else s'

unfoldable pub get_succeeded : ℕ → ℕ → Row → Downloads → Downloads
get_succeeded now i r s =
    save_bg_download_data now
      (record (set_row i (set_state success r) s) { phase = scanning (i + 1) })

unfoldable pub finish_at : Option Row → Bool → Bool → ℕ → ℕ → Downloads → Downloads
finish_at none resuming ret now i s = s
finish_at (some r) resuming ret now i s =
    if ret then get_succeeded now i r s else get_failed resuming now i r s

abbrev pub step_getting : Bool → Bool → ℕ → ℕ → Downloads → Downloads
step_getting resuming ret now i s = finish_at (get_elem? s.bg_download_list i) resuming ret now i s

-- One step of the thread. `answer` is whether a client could be acquired, or whether `Get`
-- succeeded.
unfoldable pub step_thread : Phase → Bool → ℕ → Downloads → Downloads
step_thread at_top answer now s = step_top now s
step_thread (scanning i) answer now s = step_scanning answer now i s
step_thread (getting resume i) answer now s = step_getting resume answer now i s
step_thread stopped answer now s = s

-- The callbacks write the bytes received through `g_bytes_transfered`, into the row of the
-- transfer.
unfoldable pub write_bytes : Option Row → ℕ → ℕ → Downloads → Downloads
write_bytes none bytes i s = s
write_bytes (some r) bytes i s = set_row i (record r { bytes_transfered = bytes }) s

unfoldable pub write_progress : Phase → ℕ → Downloads → Downloads
write_progress (getting resuming i) bytes s = write_bytes (get_elem? s.bg_download_list i) bytes i s
write_progress _ bytes s = s

-- What a row must be for `/clear_download_history` to flag it.
unfoldable pub is_finished : Row → Bool
is_finished r = elim r.state [
  | success ↦ true
  | failed ↦ leb max_failed_attempts r.failed_attempts
  | _ ↦ false
]

unfoldable pub flag_finished : List Row → List Row
unfolding is_finished
flag_finished [] = []
flag_finished (r ∷ rows) =
    (if is_finished r then record r { remove_requested = true } else r) ∷ flag_finished rows

unfoldable pub count_finished : List Row → ℕ
unfolding is_finished
count_finished [] = 0
count_finished (r ∷ rows) = (if is_finished r then 1 else 0) + count_finished rows

-- `/clear_download_history`, with the number of rows that it replies.
unfoldable pub clear_download_history : Downloads → Downloads × ℕ
clear_download_history s = (
  record s { bg_download_list = flag_finished s.bg_download_list },
  count_finished s.bg_download_list,
)

-- `/get_download_state`: the rows that it replies.
unfoldable pub visible : List Row → List Row
visible [] = []
visible (r ∷ rows) = if r.remove_requested then visible rows else r ∷ visible rows

-- The fields of a request to `/download_url`; a string that is missing is empty.
pub record DownloadRequest : Type 0 where
  pub host_info : HostInfo
  pub src_path : Bytes
  pub dest_path : Bytes
  pub size : ℕ
  pub id : ℕ

unfoldable pub is_empty : Bytes → Bool
is_empty [] = true
is_empty (_ ∷ _) = false

abbrev pub requested_row : ℕ → DownloadRequest → Row
requested_row now q = record {
  host_info = q.host_info;
  src_path = q.src_path;
  dest_path = q.dest_path;
  bytes_transfered = 0;
  file_size = q.size;
  state = pending;
  id = q.id;
  timestamp = now;
  failed_attempts = 0;
  remove_requested = false;
}

pub data Reply : Type 0 where
  nothing required_parameters_missing : Reply

-- `/download_url` at a time; `none` is a body that is no JSON. Between the two readings of the
-- clock no time passes.
unfoldable pub download_url : ℕ → Option DownloadRequest → Downloads → Downloads × Reply
unfolding is_empty
download_url now none s = (s, nothing)
download_url now (some q) s =
    if is_empty q.host_info.url || (is_empty q.src_path || is_empty q.dest_path)
    then (s, required_parameters_missing)
    else (
      save_bg_download_data now
          (record s { bg_download_list = s.bg_download_list ++ (requested_row now q ∷ []) }),
      nothing,
    )

abbrev pub pause_download_thread : Downloads → Downloads
pause_download_thread s = record s { in_rest_mode = true }

abbrev pub resume_download_thread : Downloads → Downloads
resume_download_thread s = record s { in_rest_mode = false }

-- That the thread is cancelled as well, at some later point, is a run with no more of its steps.
abbrev pub stop_download_thread : Downloads → Downloads
stop_download_thread s = record s { stop_download = true }

-- What can happen: a step of the thread, a byte count, a request, `PauseDownloadThread`,
-- `ResumeDownloadThread` and `StopDownloadThread`.
pub data Event : Type 0 where
  thread : Bool → ℕ → Event
  progress : ℕ → Event
  request : ℕ → Option DownloadRequest → Event
  clear : Event
  pause resume stop : Event

unfoldable pub handle : Event → Downloads → Downloads
handle (thread answer now) s = step_thread s.phase answer now s
handle (progress bytes) s = write_progress s.phase bytes s
handle (request now q) s = (download_url now q s).0
handle clear s = (clear_download_history s).0
handle pause s = pause_download_thread s
handle resume s = resume_download_thread s
handle stop s = stop_download_thread s

unfoldable pub run : List Event → Downloads → Downloads
run [] s = s
run (e ∷ events) s = run events (handle e s)
