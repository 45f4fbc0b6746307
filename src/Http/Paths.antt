-- ===== src/Http/Paths.antt =====
-- The path that `BaseClient` asks a server for.
use ps5_ezremote_server.Prelude.{
  ℕ, ◌≡◌, refl, sym, ap, ◌∙◌, false, none, [], ◌∷◌, ◌++◌, length, ◌==◌, arith,
}
use mathlib.Core.List.{reverse, reverse-append, reverse-reverse}
use ps5_ezremote_server.Outcome.{returns}
use ps5_ezremote_server.Words.{Bytes, codes}
use ps5_ezremote_server.Text.{is_among, find, ltrim, rtrim, trim, replace_all}
use ps5_ezremote_server.Text.Replace.{replace_loop-none}
use ps5_ezremote_server.Http.{BaseClient, get_full_path}

-- Neither a space nor a slash.
abbrev pub IsInner : ℕ → Type 0
IsInner c = ((c == b' ') ≡ false) × ((c == b'/') ≡ false)

-- A path that nothing is trimmed of: its first and its last character are inner ones.
pub record IsTrimmed (path : Bytes) : Type 0 where
  pub first : ℕ
  pub rest : Bytes
  pub init : Bytes
  pub last : ℕ
  pub begins : path ≡ first ∷ rest
  pub ends : path ≡ init ++ (last ∷ [])
  pub first_inner : IsInner first
  pub last_inner : IsInner last

ltrim-kept :
    (c : ℕ) (str chars : Bytes) → is_among c chars ≡ false → ltrim (c ∷ str) chars ≡ c ∷ str
unfolding ltrim
ltrim-kept c str chars e = rw e refl

trim-kept :
    (path chars : Bytes) (is : IsTrimmed path)
    → is_among is.first chars ≡ false
    → is_among is.last chars ≡ false
    → trim path chars ≡ path
unfolding trim rtrim
trim-kept path chars is front back =
    let turned : reverse path ≡ is.last ∷ reverse is.init =
      ap reverse is.ends ∙ reverse-append is.init (is.last ∷ []) in
    let kept : ltrim (reverse path) chars ≡ reverse path =
      ap (λ l. ltrim l chars) turned
      ∙ ltrim-kept is.last (reverse is.init) chars back
      ∙ sym turned in
    let right : reverse (ltrim (reverse path) chars) ≡ path =
      ap reverse kept ∙ reverse-reverse path in
    ap (λ l. ltrim l chars) right
    ∙ ap (λ l. ltrim l chars) is.begins
    ∙ ltrim-kept is.first is.rest chars front
    ∙ sym is.begins

among_one : (c x : ℕ) → (c == x) ≡ false → is_among c (x ∷ []) ≡ false
unfolding is_among
among_one c x e = ground (arith, e)

-- The path behind the base path is left as it is, if there is nothing to trim and no double slash.
pub get_full_path-IsTrimmed :
    (path : Bytes) (b : BaseClient)
    → IsTrimmed path
    → find (codes "//") (b.base_path ++ (codes "/" ++ path)) ≡ none
    → get_full_path path b ≡ returns (b.base_path ++ (codes "/" ++ path))
unfolding get_full_path replace_all
get_full_path-IsTrimmed path b is single =
    let spaces =
      trim-kept path (codes " ") is (among_one is.first b' ' is.first_inner.0)
        (among_one is.last b' ' is.last_inner.0) in
    let slashes =
      trim-kept path (codes "/") is (among_one is.first b'/' is.first_inner.1)
        (among_one is.last b'/' is.last_inner.1) in
    let whole = b.base_path ++ (codes "/" ++ path) in
    rw (spaces, slashes) (replace_loop-none (length whole) (codes "//") (codes "/") [] whole single)
