-- ===== src/Downloads/Allowance.antt =====
-- The transfers that may still begin for the rows of a list.
use ps5_ezremote_server.Prelude.{
  ℕ, zero, suc, ◌+◌, ◌-◌, ◌≤◌, ◌≡◌, refl, ap, some, List, [], ◌∷◌, ◌++◌, get_elem?, set, arith,
}
use ps5_ezremote_server.Downloads.{
  DownloadState, pending, downloading, resumed, failed, success, Row, purge, flag_finished,
}

-- The transfers that may still begin for a row.
unfoldable pub allowance : DownloadState → ℕ → ℕ
allowance pending attempts = 6
allowance downloading attempts = 5 - attempts
allowance resumed attempts = 4 - attempts
allowance failed attempts = 5 - attempts
allowance success attempts = 0

unfoldable pub total_allowance : List Row → ℕ
total_allowance [] = 0
total_allowance (r ∷ rows) = allowance r.state r.failed_attempts + total_allowance rows

pub total_allowance-set :
    (rows : List Row) (i : ℕ) (r v : Row)
    → get_elem? rows i ≡ some r
    → total_allowance (set rows i v) + allowance r.state r.failed_attempts
      ≡ total_allowance rows + allowance v.state v.failed_attempts
unfolding total_allowance
total_allowance-set [] i r v at = cc
total_allowance-set (x ∷ rows) zero r v at =
    let same_row : x ≡ r = cc in
    let same_allowance = ap (λ (y : Row). allowance y.state y.failed_attempts) same_row in
    omega (arith, same_allowance)
total_allowance-set (x ∷ rows) (suc i) r v at = omega (arith, total_allowance-set rows i r v at)

pub total_allowance-purge : (rows : List Row) → total_allowance (purge rows) ≤ total_allowance rows
unfolding total_allowance purge
total_allowance-purge [] = omega arith
total_allowance-purge (r ∷ rows) = ground (arith, total_allowance-purge rows)

pub total_allowance-flag_finished :
    (rows : List Row) → total_allowance (flag_finished rows) ≡ total_allowance rows
unfolding total_allowance flag_finished
total_allowance-flag_finished [] = refl
total_allowance-flag_finished (r ∷ rows) = ground (arith, total_allowance-flag_finished rows)

pub total_allowance-snoc :
    (rows : List Row) (r : Row)
    → total_allowance (rows ++ (r ∷ []))
      ≡ total_allowance rows + allowance r.state r.failed_attempts
unfolding total_allowance
total_allowance-snoc [] r = omega arith
total_allowance-snoc (x ∷ rows) r = omega (arith, total_allowance-snoc rows r)
