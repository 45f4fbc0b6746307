-- ===== src/Downloads/RestMode.antt =====
-- A resumed download that the console's rest interrupts is never taken up again.
use ps5_ezremote_server.Prelude.{
  ℕ, zero, suc, ◌≡◌, refl, sym, ap, ◌∙◌, subst, Bool, true, false, some, List, [], ◌∷◌, get_elem?,
  All-get_elem?, arith,
}
use ps5_ezremote_server.Downloads.{
  resumed, Row, at_top, getting, Downloads, finish_at, get_failed, step_thread, is_finished,
  flag_finished, clear_download_history, Event, thread, progress, request, clear, pause, resume,
  stop, handle, run,
}
use ps5_ezremote_server.Downloads.Invariant.{RowIsSane, PhaseFits, IsSane}
use ps5_ezremote_server.Downloads.Stuck.{
  IsStuck, step_thread-IsStuck, write_progress-IsStuck, download_url-IsStuck,
}

not_finished : (r : Row) → r.state ≡ resumed → is_finished r ≡ false
not_finished r e = unfold is_finished in ground arith

get_elem?-flag_finished_ne :
    (rows : List Row) (i : ℕ) (r : Row)
    → is_finished r ≡ false
    → get_elem? rows i ≡ some r
    → get_elem? (flag_finished rows) i ≡ some r
unfolding flag_finished
get_elem?-flag_finished_ne [] i r e h = cc
get_elem?-flag_finished_ne (x ∷ rows) zero r e h =
    let same_row : x ≡ r = cc in
    let unflagged : is_finished x ≡ false = ap is_finished same_row ∙ e in simp unflagged h
get_elem?-flag_finished_ne (x ∷ rows) (suc i) r e h = get_elem?-flag_finished_ne rows i r e h

handle-IsStuck : (e : Event) (r : Row) (s : Downloads) → IsStuck r s → IsStuck r (handle e s)
unfolding handle
handle-IsStuck (thread answer now) r s h = step_thread-IsStuck r s h s.phase answer now refl
handle-IsStuck (progress bytes) r s h = write_progress-IsStuck r s h s.phase bytes refl
handle-IsStuck (request now q) r s h = download_url-IsStuck r s h now q
handle-IsStuck clear r s h =
    unfold clear_download_history in
    record {
      index = h.index;
      there =
          get_elem?-flag_finished_ne s.bg_download_list h.index r (not_finished r h.in_state)
            h.there;
      in_state = h.in_state;
      kept = h.kept;
      idle = h.idle;
    }
handle-IsStuck pause r s h = record {
  index = h.index;
  there = h.there;
  in_state = h.in_state;
  kept = h.kept;
  idle = h.idle;
}
handle-IsStuck resume r s h = record {
  index = h.index;
  there = h.there;
  in_state = h.in_state;
  kept = h.kept;
  idle = h.idle;
}
handle-IsStuck stop r s h = record {
  index = h.index;
  there = h.there;
  in_state = h.in_state;
  kept = h.kept;
  idle = h.idle;
}

run-IsStuck :
    (events : List Event) (r : Row) (s : Downloads) → IsStuck r s → IsStuck r (run events s)
unfolding run
run-IsStuck [] r s h = h
run-IsStuck (e ∷ events) r s h = run-IsStuck events r (handle e s) (handle-IsStuck e r s h)

get_failed-in_rest_mode :
    (resuming : Bool) (now i : ℕ) (r : Row) (s : Downloads)
    → s.in_rest_mode ≡ true
    → get_failed resuming now i r s ≡ record s { phase = at_top }
get_failed-in_rest_mode resuming now i r s rest = unfold get_failed in simp rest

-- The step at which the transfer fails.
thread-in_rest_mode :
    (resuming : Bool) (i now : ℕ) (r : Row) (s : Downloads)
    → s.phase ≡ getting resuming i
    → s.in_rest_mode ≡ true
    → get_elem? s.bg_download_list i ≡ some r
    → handle (thread false now) s ≡ record s { phase = at_top }
unfolding handle step_thread finish_at
thread-in_rest_mode resuming i now r s phase rest at =
    ap (λ p. step_thread p false now s) phase
    ∙ ap (λ found. finish_at found resuming false now i s) at
    ∙ get_failed-in_rest_mode resuming now i r s rest

-- A transfer that resumes a download and fails while the console is in rest mode leaves its row in
-- the state of a resumed one. From then on, whatever happens, the row stays as it is, and no
-- transfer for it begins: neither the thread nor a clear of the history takes it up again.
pub rest_mode_strands :
    (i now : ℕ) (r : Row) (s : Downloads) (events : List Event)
    → IsSane s
    → s.phase ≡ getting true i
    → s.in_rest_mode ≡ true
    → get_elem? s.bg_download_list i ≡ some r
    → IsStuck r (run events (handle (thread false now) s))
rest_mode_strands i now r s events sane phase rest at =
    let (r', at', in_state) = subst (λ p. PhaseFits p s.bg_download_list) phase sane.fits in
    let same_row : r' ≡ r = cc (at, at') in
    let resumed_row : r.state ≡ resumed = ap (λ y. y.state) (sym same_row) ∙ in_state in
    let row_sane = All-get_elem? RowIsSane s.bg_download_list i r sane.rows at in
    run-IsStuck events r (handle (thread false now) s) (
      subst (IsStuck r) (sym (thread-in_rest_mode true i now r s phase rest at)) (record {
        index = i;
        there = at;
        in_state = resumed_row;
        kept = ground (arith, row_sane.flagged, not_finished r resumed_row);
        idle = tt;
      }))
