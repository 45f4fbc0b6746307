-- ===== src/Downloads/Stuck.antt =====
-- A row in the state of a resumed transfer that is not under way: the thread passes it over.
use ps5_ezremote_server.Prelude.{
  ℕ, zero, suc, ◌+◌, ◌≡◌, ◌≢◌, refl, ap, ◌∙◌, Bool, true, false, ◌&&◌, ◌||◌, Option, none, some,
  List, [], ◌∷◌, get_elem?, set, if-elim, get_elem?-set_ne, get_elem?-append_left, leb, arith,
}
use ps5_ezremote_server.Downloads.{
  DownloadState, resumed, Row, Phase, at_top, scanning, getting, stopped, Downloads, branch_of,
  purge, any_flagged, step_top, start_get, take_branch, visit_at, finish_at, write_bytes,
  get_succeeded, get_failed, failed_row, step_thread, write_progress, max_failed_attempts,
  download_url, is_empty, Reply, DownloadRequest,
}

abbrev pub NotAt : Phase → ℕ → Type 0
NotAt (getting resuming j) i = j ≢ i
NotAt _ i = Unit

-- The row `r` is in the list, in the state that a resumed transfer has, and no transfer is under
-- way for it.
pub record IsStuck (r : Row) (s : Downloads) : Type 0 where
  pub index : ℕ
  pub there : get_elem? s.bg_download_list index ≡ some r
  pub in_state : r.state ≡ resumed
  pub kept : r.remove_requested ≡ false
  pub idle : NotAt s.phase index

get_elem?-purge :
    (rows : List Row) (i : ℕ) (r : Row)
    → r.remove_requested ≡ false
    → get_elem? rows i ≡ some r
    → (j : ℕ) × (get_elem? (purge rows) j ≡ some r)
unfolding purge
get_elem?-purge [] i r kept h = cc
get_elem?-purge (x ∷ rows) zero r kept h = (0, ground arith)
get_elem?-purge (x ∷ rows) (suc i) r kept h =
    let (j, at) = get_elem?-purge rows i r kept h in
    if-elim (λ l. (k : ℕ) × (get_elem? l k ≡ some r)) x.remove_requested (purge rows)
      (x ∷ purge rows) (λ _. (j, at)) (λ _. (suc j, at))

branch_of-resumed :
    (st : DownloadState) (attempts : ℕ) → st ≡ resumed → branch_of st attempts ≡ none
branch_of-resumed st attempts e = rw e (unfold branch_of in refl)

module _ (r : Row) (s : Downloads) (h : IsStuck r s) where
  step_top-IsStuck : (now : ℕ) → IsStuck r (step_top now s)
  unfolding step_top
  step_top-IsStuck now =
      let (j, at) = get_elem?-purge s.bg_download_list h.index r h.kept h.there in
      if-elim (IsStuck r) s.stop_download _ _
        (λ _. record {
          index = h.index;
          there = h.there;
          in_state = h.in_state;
          kept = h.kept;
          idle = tt;
        })
        (λ _.
          if-elim (IsStuck r) s.in_rest_mode _ _ (λ _. h)
            (λ _.
              if-elim (IsStuck r) (any_flagged s.bg_download_list) _ _
                (λ _. record {
                  index = j;
                  there = at;
                  in_state = h.in_state;
                  kept = h.kept;
                  idle = tt;
                })
                (λ _. record {
                  index = j;
                  there = at;
                  in_state = h.in_state;
                  kept = h.kept;
                  idle = tt;
                })))

  -- Another row changes.
  set-there :
      (j : ℕ) (v : Row) → j ≢ h.index → get_elem? (set s.bg_download_list j v) h.index ≡ some r
  set-there j v ne = get_elem?-set_ne s.bg_download_list h.index j v ne ∙ h.there

  start_get-IsStuck :
      (resuming : Bool) (now j : ℕ) (x : Row)
      → j ≢ h.index
      → IsStuck r (start_get resuming now j x s)
  unfolding start_get
  start_get-IsStuck false now j x ne = record {
    index = h.index;
    there = set-there j _ ne;
    in_state = h.in_state;
    kept = h.kept;
    idle = ne;
  }
  start_get-IsStuck true now j x ne = record {
    index = h.index;
    there = set-there j _ ne;
    in_state = h.in_state;
    kept = h.kept;
    idle = ne;
  }

  passed-IsStuck : (phase : Phase) → NotAt phase h.index → IsStuck r (record s { phase = phase })
  passed-IsStuck phase ne = record {
    index = h.index;
    there = h.there;
    in_state = h.in_state;
    kept = h.kept;
    idle = ne;
  }

  busy_elsewhere :
      (j : ℕ) (x : Row)
      → get_elem? s.bg_download_list j ≡ some x
      → (resuming : Bool) → branch_of x.state x.failed_attempts ≡ some resuming
      → j ≢ h.index
  busy_elsewhere j x at resuming e same_index =
      let same_row : x ≡ r = cc (ap (get_elem? s.bg_download_list) same_index, h.there) in
      let passed =
        branch_of-resumed x.state x.failed_attempts (ap (λ y. y.state) same_row ∙ h.in_state) in
      cc

  take_branch-IsStuck :
      (branch : Option Bool) (client : Bool) (now j : ℕ) (x : Row)
      → get_elem? s.bg_download_list j ≡ some x
      → branch_of x.state x.failed_attempts ≡ branch
      → IsStuck r (take_branch branch client now j x s)
  unfolding take_branch
  take_branch-IsStuck none client now j x at e = passed-IsStuck (scanning (j + 1)) tt
  take_branch-IsStuck (some resuming) client now j x at e =
      if-elim (IsStuck r) client _ _
        (λ _. start_get-IsStuck resuming now j x (busy_elsewhere j x at resuming e))
        (λ _. passed-IsStuck (scanning (j + 1)) tt)

  visit_at-IsStuck :
      (found : Option Row) (client : Bool) (now j : ℕ)
      → get_elem? s.bg_download_list j ≡ found
      → IsStuck r (visit_at found client now j s)
  unfolding visit_at
  visit_at-IsStuck none client now j at = passed-IsStuck at_top tt
  visit_at-IsStuck (some x) client now j at = take_branch-IsStuck _ client now j x at refl

  get_failed-IsStuck :
      (resuming : Bool) (now j : ℕ) (x : Row)
      → j ≢ h.index
      → IsStuck r (get_failed resuming now j x s)
  unfolding get_failed
  get_failed-IsStuck resuming now j x ne =
      let elsewhere = set-there j (failed_row resuming x) ne in
      if-elim (IsStuck r) s.in_rest_mode _ _ (λ _. passed-IsStuck at_top tt)
        (λ _.
          if-elim (IsStuck r) (resuming && leb max_failed_attempts (x.failed_attempts + 1)) _ _
            (λ _. record {
              index = h.index;
              there = elsewhere;
              in_state = h.in_state;
              kept = h.kept;
              idle = tt;
            })
            (λ _. record {
              index = h.index;
              there = elsewhere;
              in_state = h.in_state;
              kept = h.kept;
              idle = tt;
            }))

  finish_at-IsStuck :
      (found : Option Row) (resuming ret : Bool) (now j : ℕ)
      → j ≢ h.index
      → IsStuck r (finish_at found resuming ret now j s)
  unfolding finish_at get_succeeded
  finish_at-IsStuck none resuming ret now j ne = h
  finish_at-IsStuck (some x) resuming ret now j ne =
      if-elim (IsStuck r) ret _ _
        (λ _. record {
          index = h.index;
          there = set-there j _ ne;
          in_state = h.in_state;
          kept = h.kept;
          idle = tt;
        })
        (λ _. get_failed-IsStuck resuming now j x ne)

  pub step_thread-IsStuck :
      (phase : Phase) (answer : Bool) (now : ℕ)
      → s.phase ≡ phase
      → IsStuck r (step_thread phase answer now s)
  unfolding step_thread
  step_thread-IsStuck at_top answer now e = step_top-IsStuck now
  step_thread-IsStuck (scanning j) answer now e = visit_at-IsStuck _ answer now j refl
  step_thread-IsStuck (getting resuming j) answer now e =
      finish_at-IsStuck _ resuming answer now j (rw e at h.idle)
  step_thread-IsStuck stopped answer now e = h

  write_bytes-IsStuck :
      (found : Option Row) (bytes j : ℕ) → j ≢ h.index → IsStuck r (write_bytes found bytes j s)
  unfolding write_bytes
  write_bytes-IsStuck none bytes j ne = h
  write_bytes-IsStuck (some x) bytes j ne = record {
    index = h.index;
    there = set-there j _ ne;
    in_state = h.in_state;
    kept = h.kept;
    idle = h.idle;
  }

  pub write_progress-IsStuck :
      (phase : Phase) (bytes : ℕ) → s.phase ≡ phase → IsStuck r (write_progress phase bytes s)
  unfolding write_progress
  write_progress-IsStuck (getting resuming j) bytes e =
      write_bytes-IsStuck _ bytes j (rw e at h.idle)
  write_progress-IsStuck _ bytes e = h

  pub download_url-IsStuck :
      (now : ℕ) (q : Option DownloadRequest) → IsStuck r (download_url now q s).0
  unfolding download_url
  download_url-IsStuck now none = h
  download_url-IsStuck now (some q) =
      if-elim (λ (d : Downloads × Reply). IsStuck r d.0)
        (is_empty q.host_info.url || (is_empty q.src_path || is_empty q.dest_path)) _ _ (λ _. h)
        (λ _. record {
          index = h.index;
          there = get_elem?-append_left s.bg_download_list _ h.index r h.there;
          in_state = h.in_state;
          kept = h.kept;
          idle = h.idle;
        })
