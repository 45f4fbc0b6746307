-- ===== src/Downloads/Tests.antt =====
-- The background downloads on small lists, and the theorems about them at those.
use ps5_ezremote_server.Prelude.{
  ℕ, ◌+◌, ◌*◌, ◌≤◌, ◌≡◌, refl, true, false, some, List, [], ◌∷◌, if◌then◌else◌, arith,
}
use ps5_ezremote_server.Words.{codes}
use ps5_ezremote_server.Host.{HostInfo}
use ps5_ezremote_server.Downloads.{
  DownloadState, pending, resumed, failed, success, Row, Phase, at_top, scanning, getting,
  Downloads, recent, any_flagged, is_finished, visible, DownloadRequest, Event, thread, progress,
  request, clear, pause, resume, stop, handle, run,
}
use ps5_ezremote_server.Downloads.Invariant.{RowIsSane, IsSane}
use ps5_ezremote_server.Downloads.Safety.{run-IsSane}
use ps5_ezremote_server.Downloads.Same.{Holds}
use ps5_ezremote_server.Downloads.Rows.{handle_keeps}
use ps5_ezremote_server.Downloads.Progress.{tries_left}
use ps5_ezremote_server.Downloads.Tries.{
  after_transfer, LeftAfter, DoneAfter, failed_transfer, successful_transfer,
}
use ps5_ezremote_server.Downloads.Allowance.{total_allowance}
use ps5_ezremote_server.Downloads.Bound.{transfers_begun, requests_in, transfers_bounded}
use ps5_ezremote_server.Downloads.Stuck.{IsStuck}
use ps5_ezremote_server.Downloads.RestMode.{rest_mode_strands}
use ps5_ezremote_server.Downloads.Handlers.{pass_removes_hidden}

abbrev host : HostInfo
host = record {
  type = 0;
  url = codes "ftp://h";
  http_server_type = [];
  username = codes "u";
  password = codes "p";
}

abbrev row : DownloadState → ℕ → Row
row state attempts = record {
  host_info = host;
  src_path = codes "/a.pkg";
  dest_path = codes "/data/a.pkg";
  bytes_transfered = 10;
  file_size = 100;
  state = state;
  id = 1;
  timestamp = 5;
  failed_attempts = attempts;
  remove_requested = false;
}

row-RowIsSane :
    RowIsSane (row pending 0)
    × RowIsSane (row failed 2)
    × RowIsSane (row failed 5)
    × RowIsSane (row resumed 1)
    × RowIsSane (row success 3)
row-RowIsSane = (
  record { attempts = omega arith; flagged = λ h. cc },
  record { attempts = omega arith; flagged = λ h. cc },
  record { attempts = omega arith; flagged = λ h. cc },
  record { attempts = omega arith; flagged = λ h. cc },
  record { attempts = omega arith; flagged = λ h. cc },
)

-- A finished row, then one to be resumed.
abbrev rows : List Row
rows = row failed 5 ∷ row failed 2 ∷ []

abbrev at_phase : Phase → Downloads
at_phase phase = record {
  bg_download_list = rows;
  disk = [];
  in_rest_mode = false;
  stop_download = false;
  phase = phase;
}

at_top-IsSane : IsSane (at_phase at_top)
at_top-IsSane = record { rows = (row-RowIsSane.2, (row-RowIsSane.1, tt)); fits = tt }

scanning-IsSane : (i : ℕ) → i ≤ 2 → IsSane (at_phase (scanning i))
scanning-IsSane i h = record { rows = (row-RowIsSane.2, (row-RowIsSane.1, tt)); fits = h }

abbrev wanted : DownloadRequest
wanted = record {
  host_info = host;
  src_path = codes "/b";
  dest_path = codes "/data/b";
  size = 7;
  id = 2;
}

-- A request, a clear, two passes over the list, a rest and its end.
abbrev events : List Event
events =
    request 50 (some wanted)
    ∷ thread true 60
    ∷ clear
    ∷ thread true 61
    ∷ thread true 62
    ∷ progress 20
    ∷ pause
    ∷ thread false 63
    ∷ resume
    ∷ thread true 64
    ∷ stop
    ∷ []

run-IsSane_example : IsSane (run events (at_phase at_top))
run-IsSane_example = run-IsSane events (at_phase at_top) at_top-IsSane

transfers_bounded_example :
    transfers_begun events (at_phase at_top)
      + total_allowance (run events (at_phase at_top)).bg_download_list
    ≤ total_allowance (at_phase at_top).bg_download_list + 6 * requests_in events
transfers_bounded_example = transfers_bounded events (at_phase at_top) at_top-IsSane

open_row : is_finished (row failed 2) ≡ false
unfolding is_finished
open_row = refl

handle_keeps_example :
    Holds (row failed 2) (handle (thread true 60) (at_phase at_top)).bg_download_list
handle_keeps_example =
    handle_keeps (thread true 60) 1 (row failed 2) (at_phase at_top) at_top-IsSane refl open_row

tries-row : (tries_left failed 2 ≡ 3) × (tries_left failed 5 ≡ 0)
unfolding tries_left
tries-row = (refl, refl)

failed_transfer_example :
    LeftAfter (row failed 2) 1 2 (after_transfer 60 (20 ∷ 30 ∷ []) false 70 (at_phase (scanning 1)))
failed_transfer_example =
    failed_transfer 60 70 1 2 (20 ∷ 30 ∷ []) (row failed 2) (at_phase (scanning 1))
      (scanning-IsSane 1 (omega arith)) refl refl refl tries-row.0

successful_transfer_example :
    DoneAfter (row failed 2) 1 70 (after_transfer 60 (20 ∷ []) true 70 (at_phase (scanning 1)))
successful_transfer_example =
    successful_transfer 60 70 1 2 (20 ∷ []) (row failed 2) (at_phase (scanning 1)) refl refl refl
      tries-row.0

-- The console goes to rest while the second row's download is resumed.
abbrev resting : Downloads
resting = record {
  bg_download_list = row success 3 ∷ row resumed 1 ∷ [];
  disk = [];
  in_rest_mode = true;
  stop_download = false;
  phase = getting true 1;
}

resting-IsSane : IsSane resting
resting-IsSane = record {
  rows = (row-RowIsSane.4, (row-RowIsSane.3, tt));
  fits = (row resumed 1, refl, refl);
}

rest_mode_strands_example :
    IsStuck
      (row resumed 1)
      (run (resume ∷ thread true 90 ∷ clear ∷ []) (handle (thread false 80) resting))
rest_mode_strands_example =
    rest_mode_strands 1 80 (row resumed 1) resting (resume ∷ thread true 90 ∷ clear ∷ [])
      resting-IsSane refl refl refl

pass_removes_hidden_example :
    ((handle (thread true 60) (at_phase at_top)).bg_download_list ≡ visible rows)
    × ((handle (thread true 60) (at_phase at_top)).disk
        ≡ (if any_flagged rows then recent 60 (visible rows) else []))
pass_removes_hidden_example = pass_removes_hidden 60 true (at_phase at_top) refl refl refl
