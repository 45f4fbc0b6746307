-- ===== src/Downloads/Handlers.antt =====
-- What the history's requests reply, and what the thread then does to the list.
use ps5_ezremote_server.Prelude.{
  ℕ, ◌≡◌, refl, ap, ◌∙◌, Bool, false, List, [], ◌∷◌, if◌then◌else◌, arith,
}
use ps5_ezremote_server.Downloads.{
  Row, at_top, Downloads, purge, any_flagged, recent, step_top, step_thread, is_finished, visible,
  thread, handle,
}

-- The rows whose download is not finished.
unfoldable pub unfinished : List Row → List Row
unfinished [] = []
unfinished (r ∷ rows) = if is_finished r then unfinished rows else r ∷ unfinished rows

purge-visible : (rows : List Row) → purge rows ≡ visible rows
unfolding purge visible
purge-visible [] = refl
purge-visible (r ∷ rows) = ap (λ l. if r.remove_requested then l else r ∷ l) (purge-visible rows)

module _ (now : ℕ) (s : Downloads) (going : s.stop_download ≡ false)
    (awake : s.in_rest_mode ≡ false) where
  step_top-list : (step_top now s).bg_download_list ≡ purge s.bg_download_list
  unfolding step_top
  step_top-list = simp (going, awake) (ground arith)

  step_top-disk :
      (step_top now s).disk
      ≡ (if any_flagged s.bg_download_list then recent now (purge s.bg_download_list) else s.disk)
  unfolding step_top
  step_top-disk = simp (going, awake) (ground arith)

-- When the thread begins a pass, neither stopped nor paused, the list becomes the list that the
-- request showed: what is removed was hidden already. The history file is written if a row was
-- hidden, with the recent rows of the new list; else it is left as it was.
pub pass_removes_hidden :
    (now : ℕ) (answer : Bool) (s : Downloads)
    → s.phase ≡ at_top
    → s.stop_download ≡ false
    → s.in_rest_mode ≡ false
    → ((handle (thread answer now) s).bg_download_list ≡ visible s.bg_download_list)
      × ((handle (thread answer now) s).disk ≡ (
          if any_flagged s.bg_download_list
          then recent now (visible s.bg_download_list)
          else s.disk))
unfolding handle step_thread
pass_removes_hidden now answer s top going awake =
    let seen = purge-visible s.bg_download_list in
    (
      ap (λ p. (step_thread p answer now s).bg_download_list) top
          ∙ step_top-list now s going awake
          ∙ seen,
      ap (λ p. (step_thread p answer now s).disk) top
          ∙ step_top-disk now s going awake
          ∙ ap (λ l. if any_flagged s.bg_download_list then recent now l else s.disk) seen,
    )
