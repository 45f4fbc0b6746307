-- ===== src/Downloads/Bound.antt =====
-- Over any run, the transfers that begin are bounded by the downloads that were asked for.
use ps5_ezremote_server.Prelude.{
  ℕ, suc, ◌+◌, ◌*◌, ◌≤◌, ◌≡◌, refl, Bool, true, false, ◌&&◌, ◌||◌, Option, none, some, List, [],
  ◌∷◌, get_elem?, set, All-get_elem?, leb, if-elim, arith,
}
use ps5_ezremote_server.Downloads.{
  downloading, resumed, success, Row, scanning, getting, at_top, stopped, Phase, Downloads,
  branch_of, set_state, any_flagged, step_top, start_get, take_branch, visit_at, finish_at,
  write_bytes, write_progress, get_succeeded, get_failed, failed_row, step_thread,
  max_failed_attempts, clear_download_history, requested_row, download_url, is_empty, Reply,
  DownloadRequest, Event, thread, progress, request, clear, pause, resume, stop, handle, run,
}
use ps5_ezremote_server.Downloads.Invariant.{getting_state, PhaseFits, RowIsSane, IsSane}
use ps5_ezremote_server.Downloads.Safety.{handle-IsSane}
use ps5_ezremote_server.Downloads.Allowance.{
  allowance, total_allowance, total_allowance-set, total_allowance-purge,
  total_allowance-flag_finished, total_allowance-snoc,
}

-- Whether a step begins a transfer.
unfoldable pub begins : Phase → Phase → ℕ
begins (scanning i) (getting resuming j) = 1
begins _ _ = 0

unfoldable pub transfers_begun : List Event → Downloads → ℕ
transfers_begun [] s = 0
transfers_begun (e ∷ events) s =
    begins s.phase (handle e s).phase + transfers_begun events (handle e s)

unfoldable pub requests_in : List Event → ℕ
requests_in [] = 0
requests_in (request now q ∷ events) = suc (requests_in events)
requests_in (_ ∷ events) = requests_in events

-- A step from one phase to another spends the allowance that it uses.
abbrev Spends : Phase → Downloads → Downloads → Type 0
Spends phase s s' =
    begins phase s'.phase + total_allowance s'.bg_download_list ≤ total_allowance s.bg_download_list

step_top-Spends : (now : ℕ) (s : Downloads) → Spends at_top s (step_top now s)
unfolding step_top begins
step_top-Spends now s =
    let purged = total_allowance-purge s.bg_download_list in
    if-elim (Spends at_top s) s.stop_download _ _ (λ _. omega arith)
      (λ _.
        if-elim (Spends at_top s) s.in_rest_mode _ _ (λ _. omega arith)
          (λ _.
            if-elim (Spends at_top s) (any_flagged s.bg_download_list) _ _
              (λ _. omega (arith, purged)) (λ _. omega (arith, purged))))

-- The row at an index, in a list that is in order.
module _ (now i : ℕ) (r : Row) (s : Downloads) (at : get_elem? s.bg_download_list i ≡ some r) where
  start_get-Spends :
      (resuming : Bool)
      → RowIsSane r
      → branch_of r.state r.failed_attempts ≡ some resuming
      → Spends (scanning i) s (start_get resuming now i r s)
  unfolding start_get begins allowance branch_of
  start_get-Spends false sane branch = ground (
    arith,
    sane.attempts,
    total_allowance-set s.bg_download_list i r (set_state downloading r) at,
  )
  start_get-Spends true sane branch =
      ground
        (arith, sane.attempts, total_allowance-set s.bg_download_list i r (set_state resumed r) at)

  take_branch-Spends :
      (branch : Option Bool) (client : Bool)
      → RowIsSane r
      → branch_of r.state r.failed_attempts ≡ branch
      → Spends (scanning i) s (take_branch branch client now i r s)
  unfolding take_branch begins
  take_branch-Spends none client sane e = omega arith
  take_branch-Spends (some resuming) client sane e =
      if-elim (Spends (scanning i) s) client _ _ (λ _. start_get-Spends resuming sane e)
        (λ _. omega arith)

  total_allowance-failed_row :
      (resuming : Bool)
      → r.state ≡ getting_state resuming
      → total_allowance (set s.bg_download_list i (failed_row resuming r))
        ≤ total_allowance s.bg_download_list
  unfolding allowance
  total_allowance-failed_row resuming in_state =
      ground (arith, total_allowance-set s.bg_download_list i r (failed_row resuming r) at)

  get_failed-Spends :
      (resuming : Bool)
      → r.state ≡ getting_state resuming
      → Spends (getting resuming i) s (get_failed resuming now i r s)
  unfolding get_failed begins
  get_failed-Spends resuming in_state =
      let lower = total_allowance-failed_row resuming in_state in
      if-elim (Spends (getting resuming i) s) s.in_rest_mode _ _ (λ _. omega arith)
        (λ _.
          if-elim (Spends (getting resuming i) s)
            (resuming && leb max_failed_attempts (r.failed_attempts + 1)) _ _
            (λ _. omega (arith, lower)) (λ _. omega (arith, lower)))

  get_succeeded-Spends : (resuming : Bool) → Spends (getting resuming i) s (get_succeeded now i r s)
  unfolding get_succeeded begins allowance
  get_succeeded-Spends resuming =
      omega (arith, total_allowance-set s.bg_download_list i r (set_state success r) at)

  total_allowance-write_bytes :
      (bytes : ℕ)
      → total_allowance (set s.bg_download_list i (record r { bytes_transfered = bytes }))
        ≡ total_allowance s.bg_download_list
  total_allowance-write_bytes bytes =
      omega (
        arith,
        total_allowance-set s.bg_download_list i r (record r { bytes_transfered = bytes }) at,
      )

visit_at-Spends :
    (found : Option Row) (client : Bool) (now i : ℕ) (s : Downloads)
    → IsSane s
    → get_elem? s.bg_download_list i ≡ found
    → Spends (scanning i) s (visit_at found client now i s)
unfolding visit_at begins
visit_at-Spends none client now i s sane at = omega arith
visit_at-Spends (some r) client now i s sane at =
    take_branch-Spends now i r s at (branch_of r.state r.failed_attempts) client
      (All-get_elem? RowIsSane s.bg_download_list i r sane.rows at) refl

finish_at-Spends :
    (resuming ret : Bool) (now i : ℕ) (s : Downloads)
    → PhaseFits (getting resuming i) s.bg_download_list
    → Spends
        (getting resuming i)
        s
        (finish_at (get_elem? s.bg_download_list i) resuming ret now i s)
finish_at-Spends resuming ret now i s (r, at, in_state) = rw at (
    unfold finish_at in
    if-elim (Spends (getting resuming i) s) ret _ _
      (λ _. get_succeeded-Spends now i r s at resuming)
      (λ _. get_failed-Spends now i r s at resuming in_state))

step_thread-Spends :
    (phase : Phase) (answer : Bool) (now : ℕ) (s : Downloads)
    → IsSane s
    → s.phase ≡ phase
    → Spends phase s (step_thread phase answer now s)
unfolding step_thread
step_thread-Spends at_top answer now s sane e = step_top-Spends now s
step_thread-Spends (scanning i) answer now s sane e = visit_at-Spends _ answer now i s sane refl
step_thread-Spends (getting resuming i) answer now s sane e =
    finish_at-Spends resuming answer now i s (rw e at sane.fits)
step_thread-Spends stopped answer now s sane e = unfold begins in omega arith

-- Every event but a request.
stays : (phase : Phase) → begins phase phase ≡ 0
unfolding begins
stays at_top = refl
stays (scanning i) = refl
stays (getting resuming i) = refl
stays stopped = refl

write_at-Spends :
    (found : Option Row) (bytes i : ℕ) (s : Downloads)
    → get_elem? s.bg_download_list i ≡ found
    → Spends s.phase s (write_bytes found bytes i s)
unfolding write_bytes
write_at-Spends none bytes i s at = omega (arith, stays s.phase)
write_at-Spends (some r) bytes i s at =
    omega (arith, stays s.phase, total_allowance-write_bytes 0 i r s at bytes)

write_progress-Spends :
    (phase : Phase) (bytes : ℕ) (s : Downloads) → Spends s.phase s (write_progress phase bytes s)
unfolding write_progress
write_progress-Spends (getting resuming i) bytes s = write_at-Spends _ bytes i s refl
write_progress-Spends _ bytes s = omega (arith, stays s.phase)

download_url-allows :
    (now : ℕ) (q : Option DownloadRequest) (s : Downloads)
    → begins s.phase (download_url now q s).0.phase
        + total_allowance (download_url now q s).0.bg_download_list
      ≤ total_allowance s.bg_download_list + 6
unfolding download_url allowance
download_url-allows now none s = omega (arith, stays s.phase)
download_url-allows now (some q) s =
    if-elim
      (λ (d : Downloads × Reply).
        begins s.phase d.0.phase + total_allowance d.0.bg_download_list
        ≤ total_allowance s.bg_download_list + 6)
      (is_empty q.host_info.url || (is_empty q.src_path || is_empty q.dest_path)) _ _
      (λ _. omega (arith, stays s.phase))
      (λ _.
        omega (arith, stays s.phase, total_allowance-snoc s.bg_download_list (requested_row now q)))

handle_allows :
    (e : Event) (s : Downloads)
    → IsSane s
    → begins s.phase (handle e s).phase + total_allowance (handle e s).bg_download_list
      ≤ total_allowance s.bg_download_list + 6 * requests_in (e ∷ [])
unfolding handle requests_in clear_download_history
handle_allows (thread answer now) s sane =
    omega (arith, step_thread-Spends s.phase answer now s sane refl)
handle_allows (progress bytes) s sane = omega (arith, write_progress-Spends s.phase bytes s)
handle_allows (request now q) s sane = omega (arith, download_url-allows now q s)
handle_allows clear s sane =
    omega (arith, stays s.phase, total_allowance-flag_finished s.bg_download_list)
handle_allows pause s sane = omega (arith, stays s.phase)
handle_allows resume s sane = omega (arith, stays s.phase)
handle_allows stop s sane = omega (arith, stays s.phase)

requests_in-cons :
    (e : Event) (events : List Event)
    → requests_in (e ∷ events) ≡ requests_in (e ∷ []) + requests_in events
unfolding requests_in
requests_in-cons (request now q) events = omega arith
requests_in-cons (thread answer now) events = omega arith
requests_in-cons (progress bytes) events = omega arith
requests_in-cons clear events = omega arith
requests_in-cons pause events = omega arith
requests_in-cons resume events = omega arith
requests_in-cons stop events = omega arith

-- Over any run from a list in order, the transfers that begin are no more than the rows' allowances
-- (six for a pending row, at most five for one taken up before, none for a success) and six for
-- each request to download, whatever the network answers and however often the console rests. What
-- the run leaves unused is the allowance of the list that it ends with.
pub transfers_bounded :
    (events : List Event) (s : Downloads)
    → IsSane s
    → transfers_begun events s + total_allowance (run events s).bg_download_list
      ≤ total_allowance s.bg_download_list + 6 * requests_in events
unfolding transfers_begun run
transfers_bounded [] s sane = omega arith
transfers_bounded (e ∷ events) s sane = omega (
  arith,
  transfers_bounded events (handle e s) (handle-IsSane e s sane),
  handle_allows e s sane,
  requests_in-cons e events,
)
