-- ===== src/Downloads/Tries.antt =====
-- How many transfers a download can have.
use ps5_ezremote_server.Prelude.{
  ℕ, suc, ◌+◌, ◌≡◌, refl, ap, ◌∙◌, Bool, true, false, some, List, map, get_elem?,
  get_elem?-set_self, All-get_elem?, ltb, arith,
}
use ps5_ezremote_server.Downloads.{
  DownloadState, pending, downloading, resumed, failed, success, Row, scanning, at_top, Downloads,
  branch_of, set_state, get_succeeded, failed_row, max_failed_attempts, recent, thread, progress,
  handle, run,
}
use ps5_ezremote_server.Downloads.Invariant.{getting_state, RowIsSane, IsSane}
use ps5_ezremote_server.Downloads.Same.{SameDownload, SameDownload-trans, changed}
use ps5_ezremote_server.Downloads.Progress.{
  tries_left, Underway, AsFar, thread-Underway, all_progress-Underway, finish, get_failed-Failed,
  failed_row-SameDownload,
}

-- The thread takes up a row, the transfer reports byte counts, and it ends.
abbrev pub after_transfer : ℕ → List ℕ → Bool → ℕ → Downloads → Downloads
after_transfer now bytes ret now' s =
    handle (thread ret now') (run (map progress bytes) (handle (thread true now) s))

branch-of_tries :
    (st : DownloadState) (attempts n : ℕ)
    → tries_left st attempts ≡ suc n
    → (resuming : Bool) × (branch_of st attempts ≡ some resuming)
unfolding tries_left branch_of
branch-of_tries pending attempts n h = (false, refl)
branch-of_tries downloading attempts n h = (true, refl)
branch-of_tries resumed attempts n h = absurd (omega arith)
branch-of_tries failed attempts n h =
    let below : ltb attempts max_failed_attempts ≡ true = ground arith in (true, simp below)
branch-of_tries success attempts n h = absurd (omega arith)

tries-failed_row :
    (resuming : Bool) (r : Row) (n : ℕ)
    → RowIsSane r
    → branch_of r.state r.failed_attempts ≡ some resuming
    → tries_left r.state r.failed_attempts ≡ suc n
    → tries_left failed (failed_row resuming r).failed_attempts ≡ n
unfolding tries_left branch_of
tries-failed_row resuming r n sane branch h = ground (arith, sane.attempts)

-- A row at an index of the scan, in a list that is in order, has tries left.
module _ (now now' i : ℕ) (bytes : List ℕ) (r : Row) (s : Downloads) (phase : s.phase ≡ scanning i)
    (awake : s.in_rest_mode ≡ false) (at : get_elem? s.bg_download_list i ≡ some r) where
  transferring :
      (resuming : Bool)
      → branch_of r.state r.failed_attempts ≡ some resuming
      → (r' : Row) × Underway resuming i r' (run (map progress bytes) (handle (thread true now) s))
        × AsFar (set_state (getting_state resuming) r) r'
  transferring resuming branch =
      all_progress-Underway bytes resuming i (set_state (getting_state resuming) r)
        (handle (thread true now) s) (thread-Underway resuming now i r s phase awake at branch)

-- What is left of a row when its transfer failed.
pub record LeftAfter (r : Row) (i n : ℕ) (s : Downloads) : Type 0 where
  pub row : Row
  pub phase : s.phase ≡ at_top
  pub there : get_elem? s.bg_download_list i ≡ some row
  pub same : SameDownload r row
  pub state : row.state ≡ failed
  pub tries : tries_left failed row.failed_attempts ≡ n

-- What is left of a row when its transfer succeeded.
pub record DoneAfter (r : Row) (i now : ℕ) (s : Downloads) : Type 0 where
  pub row : Row
  pub phase : s.phase ≡ scanning (i + 1)
  pub there : get_elem? s.bg_download_list i ≡ some row
  pub same : SameDownload r row
  pub state : row.state ≡ success
  pub saved : s.disk ≡ recent now s.bg_download_list

AsFar-SameDownload :
    (st : DownloadState) (r r' : Row) → AsFar (set_state st r) r' → SameDownload r r'
AsFar-SameDownload st r r' far = record {
  host_info = far.same.host_info;
  src_path = far.same.src_path;
  dest_path = far.same.dest_path;
  file_size = far.same.file_size;
  id = far.same.id;
  timestamp = far.same.timestamp;
}

attempts-failed_row :
    (resuming : Bool) (r r' : Row)
    → r'.failed_attempts ≡ r.failed_attempts
    → (failed_row resuming r').failed_attempts ≡ (failed_row resuming r).failed_attempts
attempts-failed_row false r r' e = e
attempts-failed_row true r r' e = ap (λ k. k + 1) e

state-failed_row : (resuming : Bool) (r : Row) → (failed_row resuming r).state ≡ failed
state-failed_row false r = refl
state-failed_row true r = refl

-- The row under the thread's index has tries left, in a list that is in order and outside rest
-- mode. A client is acquired for it, its transfer reports any byte counts, and then fails. The row
-- is still at its place for the same download, is marked as failed, has exactly one try fewer, and
-- the thread begins a new pass.
pub failed_transfer :
    (now now' i n : ℕ) (bytes : List ℕ) (r : Row) (s : Downloads)
    → IsSane s
    → s.phase ≡ scanning i
    → s.in_rest_mode ≡ false
    → get_elem? s.bg_download_list i ≡ some r
    → tries_left r.state r.failed_attempts ≡ suc n
    → LeftAfter r i n (after_transfer now bytes false now' s)
failed_transfer now now' i n bytes r s sane phase awake at tries =
    let row_sane = All-get_elem? RowIsSane s.bg_download_list i r sane.rows at in
    let (resuming, branch) = branch-of_tries r.state r.failed_attempts n tries in
    let (r', u, far) = transferring now now' i bytes r s phase awake at resuming branch in
    let done = get_failed-Failed resuming now' i r' _ u in
    rw (finish false resuming now' i r' _ u) (record {
      row = failed_row resuming r';
      phase = done.phase;
      there = done.there;
      same =
          SameDownload-trans r r' (failed_row resuming r') (AsFar-SameDownload _ r r' far)
            (failed_row-SameDownload resuming r');
      state = state-failed_row resuming r';
      tries =
          ap (tries_left failed) (attempts-failed_row resuming r r' far.attempts)
          ∙ tries-failed_row resuming r n row_sane branch tries;
    })

-- In the same situation the transfer succeeds. The row is still at its place for the same download
-- and is marked as a success, the thread goes on to the next row, and the history file holds the
-- recent rows of the list.
pub successful_transfer :
    (now now' i n : ℕ) (bytes : List ℕ) (r : Row) (s : Downloads)
    → s.phase ≡ scanning i
    → s.in_rest_mode ≡ false
    → get_elem? s.bg_download_list i ≡ some r
    → tries_left r.state r.failed_attempts ≡ suc n
    → DoneAfter r i now' (after_transfer now bytes true now' s)
unfolding get_succeeded
successful_transfer now now' i n bytes r s phase awake at tries =
    let (resuming, branch) = branch-of_tries r.state r.failed_attempts n tries in
    let (r', u, far) = transferring now now' i bytes r s phase awake at resuming branch in
    rw (finish true resuming now' i r' _ u) (record {
      row = set_state success r';
      phase = refl;
      there = get_elem?-set_self _ i (set_state success r') r' u.there;
      same =
          SameDownload-trans r r' (set_state success r') (AsFar-SameDownload _ r r' far)
            (changed r' success r'.bytes_transfered r'.failed_attempts r'.remove_requested);
      state = refl;
      saved = refl;
    })
