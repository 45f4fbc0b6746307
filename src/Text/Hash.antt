-- ===== src/Text/Hash.antt =====
-- The names that `UrlHash` gives: letters and digits, and the ending.
use ps5_ezremote_server.Prelude.{
  ℕ, suc, ◌<◌, ◌≡◌, refl, sym, ap, ◌∙◌, Bool, true, false, ◌&&◌, ◌||◌, Option, none, some, List, [],
  ◌∷◌, ◌++◌, length, All, map, leb, ◌==◌, if◌then◌else◌, arith,
}
use ps5_ezremote_server.Outcome.{Outcome, returns}
use ps5_ezremote_server.Words.{Bytes, AreBytes, codes, passes_from, passes_from_at}
use ps5_ezremote_server.Base64.Reference.{reference, sextet_char, length-reference}
use ps5_ezremote_server.Base64.Encoding.{encode-eq-reference}
use ps5_ezremote_server.Text.{find, one_later, starts_with, replace_all, url_hash}
use ps5_ezremote_server.Text.Split.{joined}
use ps5_ezremote_server.Text.Replace.{replace_all-Replaces}

abbrev swap : ℕ → ℕ → ℕ → ℕ
swap c d x = if c == x then d else x

nowhere :
    (b : Bool) (later : Option ℕ)
    → (if b then some 0 else one_later later) ≡ none
    → (b ≡ false) × (later ≡ none)
nowhere true later h = cc
nowhere false none h = (refl, refl)
nowhere false (some i) h = cc

-- Without an occurrence of a character, nothing is swapped.
map-swap-none : (c d : ℕ) (text : Bytes) → find (c ∷ []) text ≡ none → map (swap c d) text ≡ text
unfolding find starts_with
map-swap-none c d [] h = refl
map-swap-none c d (x ∷ text) h =
    let (here, behind) = nowhere (starts_with (c ∷ []) (x ∷ text)) (find (c ∷ []) text) h in
    let other : (c == x) ≡ false = ground (arith, here) in
    let same : swap c d x ≡ x = simp other in cc (same, map-swap-none c d text behind)

map-append : (f : ℕ → ℕ) (xs ys : Bytes) → map f (xs ++ ys) ≡ map f xs ++ map f ys
map-append f [] ys = refl
map-append f (x ∷ xs) ys = ap (λ l. f x ∷ l) (map-append f xs ys)

map-swap-joined :
    (c d : ℕ) (piece : Bytes) (pieces : List Bytes)
    → All (λ p. find (c ∷ []) p ≡ none) (piece ∷ pieces)
    → map (swap c d) (joined (c ∷ []) piece pieces) ≡ joined (d ∷ []) piece pieces
unfolding joined
map-swap-joined c d piece [] apart = map-swap-none c d piece apart.0
map-swap-joined c d piece (next ∷ pieces) apart =
    let swapped : swap c d c ≡ d = ground arith in
    map-append (swap c d) piece ((c ∷ []) ++ joined (c ∷ []) next pieces)
    ∙ ap (λ l. l ++ (swap c d c ∷ map (swap c d) (joined (c ∷ []) next pieces)))
        (map-swap-none c d piece apart.0)
    ∙ ap (λ y. piece ++ (y ∷ map (swap c d) (joined (c ∷ []) next pieces))) swapped
    ∙ ap (λ l. piece ++ (d ∷ l)) (map-swap-joined c d next pieces apart.1)

-- One character for another.
pub replace_all-swap :
    (c d : ℕ) (text : Bytes) → replace_all text (c ∷ []) (d ∷ []) ≡ returns (map (swap c d) text)
replace_all-swap c d text =
    let r = replace_all-Replaces (c ∷ []) (d ∷ []) text (omega arith) in
    r.done
    ∙ ap returns (sym (map-swap-joined c d r.piece r.pieces r.apart) ∙ ap (map (swap c d)) r.joins)

unfoldable pub is_alphanumeric : ℕ → Bool
is_alphanumeric c =
    (leb b'0' c && leb c b'9') || ((leb b'A' c && leb c b'Z') || (leb b'a' c && leb c b'z'))

abbrev swaps : ℕ → ℕ
swaps c = swap b'/' b'c' (swap b'+' b'b' (swap b'=' b'a' c))

abbrev Swapped : Bytes → Type 0
Swapped = All (λ c. is_alphanumeric (swaps c) ≡ true)

swaps_check : passes_from 0 64 (λ k. is_alphanumeric (swaps (sextet_char k))) ≡ true
unfolding passes_from sextet_char is_alphanumeric
swaps_check = refl

swaps-sextet_char : (k : ℕ) → k < 64 → is_alphanumeric (swaps (sextet_char k)) ≡ true
swaps-sextet_char k h = passes_from_at 64 0 _ swaps_check k (omega arith) h

swaps-pad : is_alphanumeric (swaps b'=') ≡ true
unfolding is_alphanumeric
swaps-pad = refl

reference-Swapped : (xs : Bytes) → AreBytes xs → Swapped (reference xs)
unfolding reference
reference-Swapped [] bytes = tt
reference-Swapped (a ∷ []) bytes = (
  swaps-sextet_char _ (omega (arith, bytes.0)),
  (swaps-sextet_char _ (omega arith), (swaps-pad, (swaps-pad, tt))),
)
reference-Swapped (a ∷ b ∷ []) bytes = (
  swaps-sextet_char _ (omega (arith, bytes.0)),
  (
    swaps-sextet_char _ (omega (arith, bytes.1.0)),
    (swaps-sextet_char _ (omega arith), (swaps-pad, tt)),
  ),
)
reference-Swapped (a ∷ b ∷ c ∷ rest) bytes = (
  swaps-sextet_char _ (omega (arith, bytes.0)),
  (
    swaps-sextet_char _ (omega (arith, bytes.1.0)),
    (
      swaps-sextet_char _ (omega (arith, bytes.1.1.0)),
      (swaps-sextet_char _ (omega arith), reference-Swapped rest bytes.1.1.1),
    ),
  ),
)

abbrev all_swapped : Bytes → Bytes
all_swapped text = map (swap b'/' b'c') (map (swap b'+' b'b') (map (swap b'=' b'a') text))

alphanumeric-Swapped :
    (text : Bytes) → Swapped text → All (λ c. is_alphanumeric c ≡ true) (all_swapped text)
alphanumeric-Swapped [] all = tt
alphanumeric-Swapped (c ∷ text) all = (all.0, alphanumeric-Swapped text all.1)

length-all_swapped : (text : Bytes) → length (all_swapped text) ≡ length text
length-all_swapped [] = refl
length-all_swapped (c ∷ text) = ap suc (length-all_swapped text)

-- A file name: letters and digits, then the ending.
pub record IsPackageName (len : ℕ) (m : Outcome Bytes) : Type 0 where
  pub name : Bytes
  pub done : m ≡ returns (name ++ codes ".pkg")
  pub letters : All (λ c. is_alphanumeric c ≡ true) name
  pub size : length name ≡ len

-- Where the digest of a text is sixteen bytes, as `MD5` gives, `UrlHash` ends and gives twenty-four
-- letters and digits with `.pkg` behind them, so that no character of the name has a meaning in a
-- path or a URL.
pub url_hash-IsPackageName :
    (md5 : Bytes → Bytes) (text : Bytes)
    → length (md5 text) ≡ 16
    → AreBytes (md5 text)
    → IsPackageName 24 (url_hash md5 text)
url_hash-IsPackageName md5 text len bytes =
    let digest = md5 text in
    let written = encode-eq-reference digest (omega (arith, len)) (omega (arith, len)) bytes in
    let first = replace_all-swap b'=' b'a' (reference digest) in
    let second = replace_all-swap b'+' b'b' (map (swap b'=' b'a') (reference digest)) in
    let third =
      replace_all-swap b'/' b'c' (map (swap b'+' b'b') (map (swap b'=' b'a') (reference digest))) in
    record {
      name = all_swapped (reference digest);
      done = unfold url_hash in rw (written, first, second, third) refl;
      letters = alphanumeric-Swapped (reference digest) (reference-Swapped digest bytes);
      size = omega (arith, length-all_swapped (reference digest), length-reference digest, len);
    }
