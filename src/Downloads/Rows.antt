-- ===== src/Downloads/Rows.antt =====
-- No event loses a download that is not finished.
use ps5_ezremote_server.Prelude.{
  ℕ, ◌+◌, ◌≡◌, refl, Bool, true, false, ◌&&◌, ◌||◌, Option, none, some, get_elem?, set, if-elim,
  get_elem?-append_left, All-get_elem?, leb, arith,
}
use ps5_ezremote_server.Downloads.{
  DownloadState, downloading, resumed, success, Row, Phase, at_top, scanning, getting, stopped,
  Downloads, branch_of, any_flagged, step_top, start_get, take_branch, visit_at, finish_at,
  write_bytes, get_succeeded, get_failed, failed_row, step_thread, write_progress, is_finished,
  max_failed_attempts, clear_download_history, download_url, is_empty, Reply, DownloadRequest,
  Event, thread, progress, request, clear, pause, resume, stop, handle,
}
use ps5_ezremote_server.Downloads.Invariant.{RowIsSane, IsSane}
use ps5_ezremote_server.Downloads.Same.{
  SameDownload, Holds, SameDownload-refl, changed, Holds-set, Holds-purge, Holds-flag_finished,
}

-- The row `r` stands at an index, and it does not wait for its removal.
module _ (r : Row) (i : ℕ) (s : Downloads) (at : get_elem? s.bg_download_list i ≡ some r)
    (kept : r.remove_requested ≡ false) where
  abbrev After : Downloads → Type 0
  After s' = Holds r s'.bg_download_list

  unchanged : After s
  unchanged = (i, r, at, SameDownload-refl r)

  set_row-Holds :
      (j : ℕ) (x v : Row)
      → get_elem? s.bg_download_list j ≡ some x
      → SameDownload x v
      → Holds r (set s.bg_download_list j v)
  set_row-Holds j x v at' same =
      let (r', found, same') = Holds-set s.bg_download_list i j r x v at at' same in
      (i, r', found, same')

  step_top-Holds : (now : ℕ) → After (step_top now s)
  unfolding step_top
  step_top-Holds now =
      if-elim After s.stop_download _ _ (λ _. unchanged)
        (λ _.
          if-elim After s.in_rest_mode _ _ (λ _. unchanged)
            (λ _.
              if-elim After (any_flagged s.bg_download_list) _ _
                (λ _. Holds-purge s.bg_download_list i r kept at)
                (λ _. Holds-purge s.bg_download_list i r kept at)))

  start_get-Holds :
      (resuming : Bool) (now j : ℕ) (x : Row)
      → get_elem? s.bg_download_list j ≡ some x
      → After (start_get resuming now j x s)
  unfolding start_get
  start_get-Holds false now j x at' =
      set_row-Holds j x _ at'
        (changed x downloading x.bytes_transfered x.failed_attempts x.remove_requested)
  start_get-Holds true now j x at' =
      set_row-Holds j x _ at'
        (changed x resumed x.bytes_transfered x.failed_attempts x.remove_requested)

  visit_at-Holds :
      (found : Option Row) (client : Bool) (now j : ℕ)
      → get_elem? s.bg_download_list j ≡ found
      → After (visit_at found client now j s)
  unfolding visit_at take_branch
  visit_at-Holds none client now j at' = unchanged
  visit_at-Holds (some x) client now j at' = taken (branch_of x.state x.failed_attempts)
    where
      taken : (branch : Option Bool) → After (take_branch branch client now j x s)
      taken none = unchanged
      taken (some resuming) =
          if-elim After client _ _ (λ _. start_get-Holds resuming now j x at') (λ _. unchanged)

  failed_row-SameDownload : (resuming : Bool) (x : Row) → SameDownload x (failed_row resuming x)
  failed_row-SameDownload false x =
      changed x DownloadState.failed x.bytes_transfered x.failed_attempts x.remove_requested
  failed_row-SameDownload true x =
      changed x DownloadState.failed x.bytes_transfered (x.failed_attempts + 1) x.remove_requested

  get_failed-Holds :
      (resuming : Bool) (now j : ℕ) (x : Row)
      → get_elem? s.bg_download_list j ≡ some x
      → After (get_failed resuming now j x s)
  unfolding get_failed
  get_failed-Holds resuming now j x at' =
      let put = set_row-Holds j x _ at' (failed_row-SameDownload resuming x) in
      if-elim After s.in_rest_mode _ _ (λ _. unchanged)
        (λ _.
          if-elim After (resuming && leb max_failed_attempts (x.failed_attempts + 1)) _ _ (λ _. put)
            (λ _. put))

  finish_at-Holds :
      (found : Option Row) (resuming ret : Bool) (now j : ℕ)
      → get_elem? s.bg_download_list j ≡ found
      → After (finish_at found resuming ret now j s)
  unfolding finish_at get_succeeded
  finish_at-Holds none resuming ret now j at' = unchanged
  finish_at-Holds (some x) resuming ret now j at' =
      if-elim After ret _ _
        (λ _.
          set_row-Holds j x _ at'
            (changed x success x.bytes_transfered x.failed_attempts x.remove_requested))
        (λ _. get_failed-Holds resuming now j x at')

  step_thread-Holds :
      (phase : Phase) (answer : Bool) (now : ℕ) → After (step_thread phase answer now s)
  unfolding step_thread
  step_thread-Holds at_top answer now = step_top-Holds now
  step_thread-Holds (scanning j) answer now = visit_at-Holds _ answer now j refl
  step_thread-Holds (getting resuming j) answer now = finish_at-Holds _ resuming answer now j refl
  step_thread-Holds stopped answer now = unchanged

  write_bytes-Holds :
      (found : Option Row) (bytes j : ℕ)
      → get_elem? s.bg_download_list j ≡ found
      → After (write_bytes found bytes j s)
  unfolding write_bytes
  write_bytes-Holds none bytes j at' = unchanged
  write_bytes-Holds (some x) bytes j at' =
      set_row-Holds j x _ at' (changed x x.state bytes x.failed_attempts x.remove_requested)

  write_progress-Holds : (phase : Phase) (bytes : ℕ) → After (write_progress phase bytes s)
  unfolding write_progress
  write_progress-Holds (getting resuming j) bytes = write_bytes-Holds _ bytes j refl
  write_progress-Holds _ bytes = unchanged

  download_url-Holds : (now : ℕ) (q : Option DownloadRequest) → After (download_url now q s).0
  unfolding download_url
  download_url-Holds now none = unchanged
  download_url-Holds now (some q) =
      if-elim (λ (d : Downloads × Reply). After d.0)
        (is_empty q.host_info.url || (is_empty q.src_path || is_empty q.dest_path)) _ _
        (λ _. unchanged)
        (λ _. (i, r, get_elem?-append_left s.bg_download_list _ i r at, SameDownload-refl r))

  handle-Holds : (e : Event) → After (handle e s)
  unfolding handle clear_download_history
  handle-Holds (thread answer now) = step_thread-Holds s.phase answer now
  handle-Holds (progress bytes) = write_progress-Holds s.phase bytes
  handle-Holds (request now q) = download_url-Holds now q
  handle-Holds clear =
      let (r', found, same) = Holds-flag_finished s.bg_download_list i r at in (i, r', found, same)
  handle-Holds pause = unchanged
  handle-Holds resume = unchanged
  handle-Holds stop = unchanged

unflagged : (r : Row) → RowIsSane r → is_finished r ≡ false → r.remove_requested ≡ false
unflagged r sane unfinished = ground (arith, sane.flagged)

-- In a list that is in order, a row whose download is not finished is never lost: after any event,
-- a step of the thread, a byte count, a request or a clear of the history, the list has a row for
-- the same host, paths, size, identifier and time.
pub handle_keeps :
    (e : Event) (i : ℕ) (r : Row) (s : Downloads)
    → IsSane s
    → get_elem? s.bg_download_list i ≡ some r
    → is_finished r ≡ false
    → Holds r (handle e s).bg_download_list
handle_keeps e i r s sane at unfinished =
    let row_sane = All-get_elem? RowIsSane s.bg_download_list i r sane.rows at in
    handle-Holds r i s at (unflagged r row_sane unfinished) e
