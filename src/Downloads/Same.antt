-- ===== src/Downloads/Same.antt =====
-- Rows of the same download, and where they stand in a changed list.
use ps5_ezremote_server.Prelude.{
  ℕ, zero, suc, ◌≡◌, refl, ap, ◌∙◌, subst, Bool, true, false, some, List, [], ◌∷◌, get_elem?, set,
  if-elim, if◌then◌else◌,
}
use ps5_ezremote_server.Downloads.{DownloadState, Row, purge, is_finished, flag_finished}

-- What of a row says which download it is.
pub record SameDownload (r r' : Row) : Type 0 where
  pub host_info : r'.host_info ≡ r.host_info
  pub src_path : r'.src_path ≡ r.src_path
  pub dest_path : r'.dest_path ≡ r.dest_path
  pub file_size : r'.file_size ≡ r.file_size
  pub id : r'.id ≡ r.id
  pub timestamp : r'.timestamp ≡ r.timestamp

-- The list has a row for the same download.
abbrev pub Holds : Row → List Row → Type 0
Holds r rows = (j : ℕ) × (r' : Row) × (get_elem? rows j ≡ some r') × SameDownload r r'

pub SameDownload-refl : (r : Row) → SameDownload r r
SameDownload-refl r = record {
  host_info = refl;
  src_path = refl;
  dest_path = refl;
  file_size = refl;
  id = refl;
  timestamp = refl;
}

pub SameDownload-trans : (a b c : Row) → SameDownload a b → SameDownload b c → SameDownload a c
SameDownload-trans a b c ab bc = record {
  host_info = bc.host_info ∙ ab.host_info;
  src_path = bc.src_path ∙ ab.src_path;
  dest_path = bc.dest_path ∙ ab.dest_path;
  file_size = bc.file_size ∙ ab.file_size;
  id = bc.id ∙ ab.id;
  timestamp = bc.timestamp ∙ ab.timestamp;
}

pub changed :
    (r : Row) (st : DownloadState) (bytes attempts : ℕ) (flag : Bool)
    → SameDownload r (record r {
      bytes_transfered = bytes;
      state = st;
      failed_attempts = attempts;
      remove_requested = flag;
    })
changed r st bytes attempts flag = record {
  host_info = refl;
  src_path = refl;
  dest_path = refl;
  file_size = refl;
  id = refl;
  timestamp = refl;
}

-- A row changed in place is still a row for its download.
pub Holds-set :
    (rows : List Row) (i j : ℕ) (r x v : Row)
    → get_elem? rows i ≡ some r
    → get_elem? rows j ≡ some x
    → SameDownload x v
    → (r' : Row) × (get_elem? (set rows j v) i ≡ some r') × SameDownload r r'
Holds-set [] i j r x v at at' same = cc
Holds-set (y ∷ rows) zero zero r x v at at' same =
    let e : x ≡ r = cc in (v, refl, subst (λ z. SameDownload z v) e same)
Holds-set (y ∷ rows) zero (suc j) r x v at at' same = (r, at, SameDownload-refl r)
Holds-set (y ∷ rows) (suc i) zero r x v at at' same = (r, at, SameDownload-refl r)
Holds-set (y ∷ rows) (suc i) (suc j) r x v at at' same = Holds-set rows i j r x v at at' same

pub Holds-purge :
    (rows : List Row) (i : ℕ) (r : Row)
    → r.remove_requested ≡ false
    → get_elem? rows i ≡ some r
    → Holds r (purge rows)
unfolding purge
Holds-purge [] i r kept at = cc
Holds-purge (x ∷ rows) zero r kept at =
    let e : x ≡ r = cc in
    let kept' : x.remove_requested ≡ false = ap (λ y. y.remove_requested) e ∙ kept in
    (0, r, simp kept' at, SameDownload-refl r)
Holds-purge (x ∷ rows) (suc i) r kept at =
    let (j, r', at', same) = Holds-purge rows i r kept at in
    if-elim (Holds r) x.remove_requested (purge rows) (x ∷ purge rows) (λ _. (j, r', at', same))
      (λ _. (suc j, r', at', same))

pub Holds-flag_finished :
    (rows : List Row) (i : ℕ) (r : Row)
    → get_elem? rows i ≡ some r
    → (r' : Row) × (get_elem? (flag_finished rows) i ≡ some r') × SameDownload r r'
unfolding flag_finished
Holds-flag_finished [] i r at = cc
Holds-flag_finished (x ∷ rows) zero r at =
    let e : x ≡ r = cc in
    (
      _,
      refl,
      subst
          (λ z. SameDownload z (if is_finished x then record x { remove_requested = true } else x))
          e
          (if-elim (SameDownload x) (is_finished x) _ x
            (λ _. changed x x.state x.bytes_transfered x.failed_attempts true)
            (λ _. SameDownload-refl x)),
    )
Holds-flag_finished (x ∷ rows) (suc i) r at = Holds-flag_finished rows i r at
