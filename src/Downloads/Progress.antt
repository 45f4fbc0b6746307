-- ===== src/Downloads/Progress.antt =====
-- Each transfer brings a download nearer to its end: one that fails uses up a try, and one that
-- succeeds finishes the row.
use ps5_ezremote_server.Prelude.{
  ℕ, ◌+◌, ◌-◌, ◌≡◌, refl, ap, ◌∙◌, Bool, true, false, ◌&&◌, some, List, [], ◌∷◌, map, get_elem?,
  get_elem?-set_self, leb, if◌then◌else◌, if-elim,
}
use ps5_ezremote_server.Downloads.{
  DownloadState, pending, downloading, failed, Row, scanning, getting, at_top, Downloads, branch_of,
  set_state, start_get, take_branch, visit_at, finish_at, write_bytes, write_progress,
  get_succeeded, get_failed, failed_row, step_thread, max_failed_attempts, thread, progress, handle,
  run,
}
use ps5_ezremote_server.Downloads.Invariant.{getting_state}
use ps5_ezremote_server.Downloads.Same.{SameDownload, SameDownload-refl, SameDownload-trans}

-- How many transfers the thread will begin for a row, if all of them fail and none is interrupted
-- by the console's rest.
unfoldable pub tries_left : DownloadState → ℕ → ℕ
tries_left pending attempts = 6
tries_left downloading attempts = 5 - attempts
tries_left failed attempts = 5 - attempts
tries_left _ attempts = 0

-- A transfer for the row `r` is under way.
pub record Underway (resuming : Bool) (i : ℕ) (r : Row) (s : Downloads) : Type 0 where
  pub phase : s.phase ≡ getting resuming i
  pub awake : s.in_rest_mode ≡ false
  pub there : get_elem? s.bg_download_list i ≡ some r

-- The row `r'` is for the same download, in the same state, with as many failures.
pub record AsFar (r r' : Row) : Type 0 where
  pub same : SameDownload r r'
  pub state : r'.state ≡ r.state
  pub attempts : r'.failed_attempts ≡ r.failed_attempts

AsFar-trans : (a b c : Row) → AsFar a b → AsFar b c → AsFar a c
AsFar-trans a b c ab bc = record {
  same = SameDownload-trans a b c ab.same bc.same;
  state = bc.state ∙ ab.state;
  attempts = bc.attempts ∙ ab.attempts;
}

pub visit :
    (answer : Bool) (now i : ℕ) (r : Row) (s : Downloads)
    → s.phase ≡ scanning i
    → get_elem? s.bg_download_list i ≡ some r
    → handle (thread answer now) s
      ≡ take_branch (branch_of r.state r.failed_attempts) answer now i r s
unfolding handle step_thread visit_at
visit answer now i r s phase at =
    ap (λ p. step_thread p answer now s) phase ∙ ap (λ found. visit_at found answer now i s) at

start_get-Underway :
    (resuming : Bool) (now i : ℕ) (r : Row) (s : Downloads)
    → s.in_rest_mode ≡ false
    → get_elem? s.bg_download_list i ≡ some r
    → Underway resuming i (set_state (getting_state resuming) r) (start_get resuming now i r s)
unfolding start_get
start_get-Underway false now i r s awake at = record {
  phase = refl;
  awake = awake;
  there = get_elem?-set_self s.bg_download_list i _ r at;
}
start_get-Underway true now i r s awake at = record {
  phase = refl;
  awake = awake;
  there = get_elem?-set_self s.bg_download_list i _ r at;
}

pub thread-Underway :
    (resuming : Bool) (now i : ℕ) (r : Row) (s : Downloads)
    → s.phase ≡ scanning i
    → s.in_rest_mode ≡ false
    → get_elem? s.bg_download_list i ≡ some r
    → branch_of r.state r.failed_attempts ≡ some resuming
    → Underway resuming i (set_state (getting_state resuming) r) (handle (thread true now) s)
unfolding take_branch
thread-Underway resuming now i r s phase awake at branch =
    rw (visit true now i r s phase at, branch) (start_get-Underway resuming now i r s awake at)

progress-Underway :
    (resuming : Bool) (bytes i : ℕ) (r : Row) (s : Downloads)
    → Underway resuming i r s
    → Underway resuming i (record r { bytes_transfered = bytes }) (handle (progress bytes) s)
unfolding handle write_progress write_bytes
progress-Underway resuming bytes i r s u =
    let written =
      ap (λ p. write_progress p bytes s) u.phase
      ∙ ap (λ found. write_bytes found bytes i s) u.there in
    rw written (record {
      phase = u.phase;
      awake = u.awake;
      there = get_elem?-set_self s.bg_download_list i _ r u.there;
    })

pub all_progress-Underway :
    (bytes : List ℕ) (resuming : Bool) (i : ℕ) (r : Row) (s : Downloads)
    → Underway resuming i r s
    → (r' : Row) × Underway resuming i r' (run (map progress bytes) s) × AsFar r r'
unfolding run
all_progress-Underway [] resuming i r s u =
    (r, u, record { same = SameDownload-refl r; state = refl; attempts = refl })
all_progress-Underway (b ∷ bytes) resuming i r s u =
    let counted = record r { bytes_transfered = b } in
    let (r', u', far) =
      all_progress-Underway bytes resuming i counted (handle (progress b) s)
        (progress-Underway resuming b i r s u) in
    (
      r',
      u',
      record {
        same = record {
          host_info = far.same.host_info;
          src_path = far.same.src_path;
          dest_path = far.same.dest_path;
          file_size = far.same.file_size;
          id = far.same.id;
          timestamp = far.same.timestamp;
        };
        state = far.state;
        attempts = far.attempts;
      },
    )

pub finish :
    (ret : Bool) (resuming : Bool) (now i : ℕ) (r : Row) (s : Downloads)
    → Underway resuming i r s
    → handle (thread ret now) s
      ≡ (if ret then get_succeeded now i r s else get_failed resuming now i r s)
unfolding handle step_thread finish_at
finish ret resuming now i r s u =
    ap (λ p. step_thread p ret now s) u.phase
    ∙ ap (λ found. finish_at found resuming ret now i s) u.there

-- What a failed transfer leaves.
pub record Failed (resuming : Bool) (i : ℕ) (r : Row) (s : Downloads) : Type 0 where
  pub phase : s.phase ≡ at_top
  pub there : get_elem? s.bg_download_list i ≡ some (failed_row resuming r)

pub get_failed-Failed :
    (resuming : Bool) (now i : ℕ) (r : Row) (s : Downloads)
    → Underway resuming i r s
    → Failed resuming i r (get_failed resuming now i r s)
unfolding get_failed
get_failed-Failed resuming now i r s u =
    let put = get_elem?-set_self s.bg_download_list i (failed_row resuming r) r u.there in
    if-elim (Failed resuming i r) s.in_rest_mode _ _ (λ resting. cc (u.awake, resting))
      (λ _.
        if-elim (Failed resuming i r) (resuming && leb max_failed_attempts (r.failed_attempts + 1))
          _ _ (λ _. record { phase = refl; there = put })
          (λ _. record { phase = refl; there = put }))

pub failed_row-SameDownload : (resuming : Bool) (r : Row) → SameDownload r (failed_row resuming r)
failed_row-SameDownload false r = record {
  host_info = refl;
  src_path = refl;
  dest_path = refl;
  file_size = refl;
  id = refl;
  timestamp = refl;
}
failed_row-SameDownload true r = record {
  host_info = refl;
  src_path = refl;
  dest_path = refl;
  file_size = refl;
  id = refl;
  timestamp = refl;
}
