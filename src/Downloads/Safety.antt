-- ===== src/Downloads/Safety.antt =====
-- The invariant is kept by every event, in any order.
use ps5_ezremote_server.Prelude.{
  ℕ, zero, suc, ◌≡◌, refl, ap, ◌∙◌, Bool, true, ◌||◌, Option, none, some, List, [], ◌∷◌, ◌++◌,
  length, get_elem?, if-elim, All, All-set, All-snoc, get_elem?-set_self, get_elem?-append_left,
  length-append, if◌then◌else◌, arith,
}
use ps5_ezremote_server.Downloads.{
  Row, Phase, at_top, scanning, getting, stopped, Downloads, visit_at, finish_at, write_bytes,
  step_thread, write_progress, is_finished, flag_finished, clear_download_history, requested_row,
  download_url, is_empty, Reply, DownloadRequest, Event, thread, progress, request, clear, pause,
  resume, stop, handle, run,
}
use ps5_ezremote_server.Downloads.Invariant.{
  RowIsSane, PhaseFits, getting_state, IsSane, step_top-IsSane, take_branch-IsSane,
  get_failed-IsSane, get_succeeded-IsSane, progress-RowIsSane,
}

visit_at-IsSane :
    (found : Option Row) (client : Bool) (now i : ℕ) (s : Downloads)
    → All RowIsSane s.bg_download_list
    → get_elem? s.bg_download_list i ≡ found
    → IsSane (visit_at found client now i s)
unfolding visit_at
visit_at-IsSane none client now i s rows at = record { rows = rows; fits = tt }
visit_at-IsSane (some r) client now i s rows at = take_branch-IsSane i r s rows at _ client now refl

finish_at-IsSane :
    (found : Option Row) (resuming ret : Bool) (now i : ℕ) (s : Downloads)
    → IsSane s
    → get_elem? s.bg_download_list i ≡ found
    → ((r : Row) → found ≡ some r → r.state ≡ getting_state resuming)
    → IsSane (finish_at found resuming ret now i s)
unfolding finish_at
finish_at-IsSane none resuming ret now i s sane at in_state = sane
finish_at-IsSane (some r) resuming ret now i s sane at in_state =
    if-elim IsSane ret _ _
      (λ _. get_succeeded-IsSane i r s sane.rows at resuming now (in_state r refl))
      (λ _. get_failed-IsSane i r s sane.rows at resuming now (in_state r refl))

step_thread-IsSane :
    (phase : Phase) (answer : Bool) (now : ℕ) (s : Downloads)
    → IsSane s
    → s.phase ≡ phase
    → IsSane (step_thread phase answer now s)
unfolding step_thread
step_thread-IsSane at_top answer now s sane e = step_top-IsSane now s sane
step_thread-IsSane (scanning i) answer now s sane e =
    visit_at-IsSane _ answer now i s sane.rows refl
step_thread-IsSane (getting resuming i) answer now s sane e =
    let (r, at, in_state) = rw e at sane.fits in
    finish_at-IsSane _ resuming answer now i s sane refl
      (λ r' found. let same_row : r ≡ r' = cc in rw (← same_row) in_state)
step_thread-IsSane stopped answer now s sane e = sane

-- More rows at the end, and rows changed at their places, leave the thread's index where it was.
PhaseFits-append :
    (phase : Phase) (rows new : List Row) → PhaseFits phase rows → PhaseFits phase (rows ++ new)
PhaseFits-append at_top rows new fits = tt
PhaseFits-append (scanning i) rows new fits = omega (arith, length-append rows new)
PhaseFits-append (getting resuming i) rows new (r, at, in_state) =
    (r, get_elem?-append_left rows new i r at, in_state)
PhaseFits-append stopped rows new fits = tt

flag_finished-RowIsSane :
    (rows : List Row) → All RowIsSane rows → All RowIsSane (flag_finished rows)
unfolding flag_finished
flag_finished-RowIsSane [] all = tt
flag_finished-RowIsSane (r ∷ rows) all = (
  if-elim RowIsSane (is_finished r) _ r
      (λ finished. record {
        attempts = all.0.attempts;
        flagged = λ _. unfold is_finished in finished;
      })
      (λ _. all.0),
  flag_finished-RowIsSane rows all.1,
)

length-flag_finished : (rows : List Row) → length (flag_finished rows) ≡ length rows
unfolding flag_finished
length-flag_finished [] = refl
length-flag_finished (r ∷ rows) = ap suc (length-flag_finished rows)

-- Flagging a row leaves its state.
get_elem?-flag_finished :
    (rows : List Row) (i : ℕ) (r : Row)
    → get_elem? rows i ≡ some r
    → (r' : Row) × (get_elem? (flag_finished rows) i ≡ some r') × (r'.state ≡ r.state)
unfolding flag_finished
get_elem?-flag_finished [] i r h = cc
get_elem?-flag_finished (x ∷ rows) zero r h = (_, refl, state_kept)
  where
    state_kept : (if is_finished x then record x { remove_requested = true } else x).state ≡ r.state
    state_kept = ground arith
get_elem?-flag_finished (x ∷ rows) (suc i) r h = get_elem?-flag_finished rows i r h

PhaseFits-flag_finished :
    (phase : Phase) (rows : List Row) → PhaseFits phase rows → PhaseFits phase (flag_finished rows)
PhaseFits-flag_finished at_top rows fits = tt
PhaseFits-flag_finished (scanning i) rows fits = omega (arith, length-flag_finished rows)
PhaseFits-flag_finished (getting resuming i) rows (r, at, in_state) =
    let (r', at', e) = get_elem?-flag_finished rows i r at in (r', at', e ∙ in_state)
PhaseFits-flag_finished stopped rows fits = tt

requested_row-RowIsSane : (now : ℕ) (q : DownloadRequest) → RowIsSane (requested_row now q)
requested_row-RowIsSane now q = record { attempts = omega arith; flagged = λ h. cc }

download_url-IsSane :
    (now : ℕ) (q : Option DownloadRequest) (s : Downloads)
    → IsSane s
    → IsSane (download_url now q s).0
unfolding download_url
download_url-IsSane now none s sane = sane
download_url-IsSane now (some q) s sane =
    if-elim (λ (d : Downloads × Reply). IsSane d.0)
      (is_empty q.host_info.url || (is_empty q.src_path || is_empty q.dest_path)) _ _ (λ _. sane)
      (λ _. record {
        rows =
            All-snoc RowIsSane s.bg_download_list (requested_row now q) sane.rows
              (requested_row-RowIsSane now q);
        fits = PhaseFits-append s.phase s.bg_download_list (requested_row now q ∷ []) sane.fits;
      })

write_bytes-IsSane :
    (found : Option Row) (resuming : Bool) (bytes i : ℕ) (s : Downloads)
    → IsSane s
    → s.phase ≡ getting resuming i
    → get_elem? s.bg_download_list i ≡ found
    → ((r : Row) → found ≡ some r → r.state ≡ getting_state resuming)
    → IsSane (write_bytes found bytes i s)
unfolding write_bytes
write_bytes-IsSane none resuming bytes i s sane e at in_state = sane
write_bytes-IsSane (some r) resuming bytes i s sane e at in_state = record {
  rows =
      All-set RowIsSane s.bg_download_list i _ sane.rows
        (progress-RowIsSane i r s sane.rows at bytes);
  fits = rw e (
    record r { bytes_transfered = bytes },
    get_elem?-set_self s.bg_download_list i _ r at,
    in_state r refl,
  );
}

write_progress-IsSane :
    (phase : Phase) (bytes : ℕ) (s : Downloads)
    → IsSane s
    → s.phase ≡ phase
    → IsSane (write_progress phase bytes s)
unfolding write_progress
write_progress-IsSane (getting resuming i) bytes s sane e =
    let (r, at, in_state) = rw e at sane.fits in
    write_bytes-IsSane _ resuming bytes i s sane e refl
      (λ r' found. let same_row : r ≡ r' = cc in rw (← same_row) in_state)
write_progress-IsSane _ bytes s sane e = sane

pub handle-IsSane : (e : Event) (s : Downloads) → IsSane s → IsSane (handle e s)
unfolding handle
handle-IsSane (thread answer now) s sane = step_thread-IsSane s.phase answer now s sane refl
handle-IsSane (progress bytes) s sane = write_progress-IsSane s.phase bytes s sane refl
handle-IsSane (request now q) s sane = download_url-IsSane now q s sane
handle-IsSane clear s sane =
    unfold clear_download_history in
    record {
      rows = flag_finished-RowIsSane s.bg_download_list sane.rows;
      fits = PhaseFits-flag_finished s.phase s.bg_download_list sane.fits;
    }
handle-IsSane pause s sane = record { rows = sane.rows; fits = sane.fits }
handle-IsSane resume s sane = record { rows = sane.rows; fits = sane.fits }
handle-IsSane stop s sane = record { rows = sane.rows; fits = sane.fits }

-- From a list and a thread in order, whatever happens and in whatever order, they stay so: no row
-- has more failures behind it than its state allows (five at most), only finished rows wait for
-- their removal, the thread's index is in the list, and the row of a transfer is there and is
-- marked as downloading or resumed.
pub run-IsSane : (events : List Event) (s : Downloads) → IsSane s → IsSane (run events s)
unfolding run
run-IsSane [] s sane = sane
run-IsSane (e ∷ events) s sane = run-IsSane events (handle e s) (handle-IsSane e s sane)
