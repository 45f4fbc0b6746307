-- ===== src/Downloads/Invariant.antt =====
-- What holds of the list and of the thread at every time.
use ps5_ezremote_server.Prelude.{
  ℕ, ◌+◌, ◌≤◌, ◌≡◌, refl, Bool, true, false, ◌&&◌, Option, none, some, List, [], ◌∷◌, length,
  get_elem?, set, if-elim, All, All-set, All-get_elem?, get_elem?-set_self, get_elem?-some-lt,
  length-set, leb, arith,
}
use ps5_ezremote_server.Downloads.{
  DownloadState, pending, downloading, resumed, failed, success, Row, Phase, at_top, scanning,
  getting, stopped, Downloads, max_failed_attempts, purge, any_flagged, branch_of, set_state,
  step_top, start_get, take_branch, failed_row, get_failed, get_succeeded, is_finished,
}

-- How many failures a row can have behind it.
abbrev pub most_attempts : DownloadState → ℕ
most_attempts pending = 0
most_attempts downloading = 0
most_attempts resumed = 4
most_attempts failed = 5
most_attempts success = 4

-- A row that waits for its removal is one that the thread passes over.
pub record RowIsSane (r : Row) : Type 0 where
  pub attempts : r.failed_attempts ≤ most_attempts r.state
  pub flagged : r.remove_requested ≡ true → is_finished r ≡ true

abbrev pub getting_state : Bool → DownloadState
getting_state false = downloading
getting_state true = resumed

-- The thread's index is in the list, and a transfer's row is there and is in its state.
abbrev pub PhaseFits : Phase → List Row → Type 0
PhaseFits at_top rows = Unit
PhaseFits (scanning i) rows = i ≤ length rows
PhaseFits (getting resuming i) rows =
    (r : Row) × (get_elem? rows i ≡ some r) × (r.state ≡ getting_state resuming)
PhaseFits stopped rows = Unit

pub record IsSane (s : Downloads) : Type 0 where
  pub rows : All RowIsSane s.bg_download_list
  pub fits : PhaseFits s.phase s.bg_download_list

purge-IsSane : (rows : List Row) → All RowIsSane rows → All RowIsSane (purge rows)
unfolding purge
purge-IsSane [] all = all
purge-IsSane (r ∷ rows) all =
    if-elim (All RowIsSane) r.remove_requested (purge rows) (r ∷ purge rows)
      (λ _. purge-IsSane rows all.1) (λ _. (all.0, purge-IsSane rows all.1))

module _ (now : ℕ) (s : Downloads) (sane : IsSane s) where
  pub step_top-IsSane : IsSane (step_top now s)
  unfolding step_top
  step_top-IsSane =
      let swept_rows = purge-IsSane s.bg_download_list sane.rows in
      if-elim IsSane s.stop_download _ _ (λ _. record { rows = sane.rows; fits = tt })
        (λ _.
          if-elim IsSane s.in_rest_mode _ _ (λ _. sane)
            (λ _.
              if-elim IsSane (any_flagged s.bg_download_list) _ _
                (λ _. record { rows = swept_rows; fits = omega arith })
                (λ _. record { rows = swept_rows; fits = omega arith })))

set_state-RowIsSane :
    (resuming : Bool) (r : Row)
    → RowIsSane r
    → branch_of r.state r.failed_attempts ≡ some resuming
    → RowIsSane (set_state (getting_state resuming) r)
unfolding branch_of is_finished
set_state-RowIsSane resuming r sane h = ground (arith)

-- A row is put back at its place.
module _ (i : ℕ) (r r' : Row) (s : Downloads) (rows : All RowIsSane s.bg_download_list)
    (at : get_elem? s.bg_download_list i ≡ some r) where
  set-RowIsSane : RowIsSane r' → All RowIsSane (set s.bg_download_list i r')
  set-RowIsSane sane = All-set RowIsSane s.bg_download_list i r' rows sane

  next_fits : i + 1 ≤ length (set s.bg_download_list i r')
  next_fits =
      omega (arith, length-set s.bg_download_list i r', get_elem?-some-lt s.bg_download_list i r at)

module _ (i : ℕ) (r : Row) (s : Downloads) (rows : All RowIsSane s.bg_download_list)
    (at : get_elem? s.bg_download_list i ≡ some r) where
  row_sane : RowIsSane r
  row_sane = All-get_elem? RowIsSane s.bg_download_list i r rows at

  start_get-IsSane :
      (resuming : Bool) (now : ℕ)
      → branch_of r.state r.failed_attempts ≡ some resuming
      → IsSane (start_get resuming now i r s)
  unfolding start_get
  start_get-IsSane false now h = record {
    rows =
        set-RowIsSane i r (set_state downloading r) s rows at
          (set_state-RowIsSane false r row_sane h);
    fits = (
      set_state downloading r,
      get_elem?-set_self s.bg_download_list i (set_state downloading r) r at,
      refl,
    );
  }
  start_get-IsSane true now h = record {
    rows =
        set-RowIsSane i r (set_state resumed r) s rows at (set_state-RowIsSane true r row_sane h);
    fits = (
      set_state resumed r,
      get_elem?-set_self s.bg_download_list i (set_state resumed r) r at,
      refl,
    );
  }

  passed-IsSane : IsSane (record s { phase = scanning (i + 1) })
  passed-IsSane = record {
    rows = rows;
    fits = omega (arith, get_elem?-some-lt s.bg_download_list i r at);
  }

  pub take_branch-IsSane :
      (branch : Option Bool) (client : Bool) (now : ℕ)
      → branch_of r.state r.failed_attempts ≡ branch
      → IsSane (take_branch branch client now i r s)
  unfolding take_branch
  take_branch-IsSane none client now h = passed-IsSane
  take_branch-IsSane (some resuming) client now h =
      if-elim IsSane client _ _ (λ _. start_get-IsSane resuming now h) (λ _. passed-IsSane)

  failed_row-RowIsSane :
      (resuming : Bool) → r.state ≡ getting_state resuming → RowIsSane (failed_row resuming r)
  unfolding is_finished
  failed_row-RowIsSane resuming h = ground (arith, row_sane)

  success-RowIsSane :
      (resuming : Bool) → r.state ≡ getting_state resuming → RowIsSane (set_state success r)
  unfolding is_finished
  success-RowIsSane resuming h = ground (arith, row_sane)

  pub get_failed-IsSane :
      (resuming : Bool) (now : ℕ)
      → r.state ≡ getting_state resuming
      → IsSane (get_failed resuming now i r s)
  unfolding get_failed
  get_failed-IsSane resuming now h =
      let rows' =
        set-RowIsSane i r (failed_row resuming r) s rows at (failed_row-RowIsSane resuming h) in
      if-elim IsSane s.in_rest_mode _ _ (λ _. record { rows = rows; fits = tt })
        (λ _.
          if-elim IsSane (resuming && leb max_failed_attempts (r.failed_attempts + 1)) _ _
            (λ _. record { rows = rows'; fits = tt }) (λ _. record { rows = rows'; fits = tt }))

  pub get_succeeded-IsSane :
      (resuming : Bool) (now : ℕ)
      → r.state ≡ getting_state resuming
      → IsSane (get_succeeded now i r s)
  unfolding get_succeeded
  get_succeeded-IsSane resuming now h = record {
    rows = set-RowIsSane i r (set_state success r) s rows at (success-RowIsSane resuming h);
    fits = next_fits i r (set_state success r) s rows at;
  }

  pub progress-RowIsSane : (bytes : ℕ) → RowIsSane (record r { bytes_transfered = bytes })
  unfolding is_finished
  progress-RowIsSane bytes = record { attempts = row_sane.attempts; flagged = row_sane.flagged }
