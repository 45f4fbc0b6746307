-- ===== src/Text.antt =====
-- The string helpers of source/util.h: `Split`, `ReplaceAll`, `UrlHash` and `append_json_escaped`.
-- A string is the list of its bytes. A loop that goes on for ever runs out of any fuel.
pub mod Find
pub mod Split
pub mod Replace
pub mod Escape
pub mod Hash
mod Tests
use ps5_ezremote_server.Prelude.{
  ℕ, zero, suc, ◌+◌, ◌<◌, Bool, true, false, ◌&&◌, ◌||◌, Option, none, some, List, [], ◌∷◌, ◌++◌,
  length, take, drop, ltb, leb, ◌==◌, if◌then◌else◌,
}
use mathlib.Core.List.{reverse}
use ps5_ezremote_server.Outcome.{Outcome, returns, out_of_fuel, ◌>>=◌}
use ps5_ezremote_server.Words.{Bytes, codes}
use ps5_ezremote_server.Base64.{encode}

unfoldable pub starts_with : Bytes → Bytes → Bool
starts_with [] text = true
starts_with (x ∷ needle) [] = false
starts_with (x ∷ needle) (y ∷ text) = x == y && starts_with needle text

abbrev pub one_later : Option ℕ → Option ℕ
one_later none = none
one_later (some i) = some (suc i)

-- `text.find(needle)`; `none` is `npos`.
unfoldable pub find : Bytes → Bytes → Option ℕ
unfolding starts_with
find needle [] = if starts_with needle [] then some 0 else none
find needle (y ∷ text) =
    let later = one_later (find needle text) in
    if starts_with needle (y ∷ text) then some 0 else later

unfoldable pub is_among : ℕ → Bytes → Bool
is_among c [] = false
is_among c (x ∷ chars) = x == c || is_among c chars

-- `Ltrim`, `Rtrim` and `Trim`.
unfoldable pub ltrim : Bytes → Bytes → Bytes
ltrim [] chars = []
ltrim (c ∷ str) chars = let rest = ltrim str chars in if is_among c chars then rest else c ∷ str

unfoldable pub rtrim : Bytes → Bytes → Bytes
rtrim str chars = reverse (ltrim (reverse str) chars)

unfoldable pub trim : Bytes → Bytes → Bytes
trim str chars = ltrim (rtrim str chars) chars

-- A token is kept if it is not empty.
abbrev pub push_token : List Bytes → Bytes → List Bytes
push_token tokens [] = tokens
push_token tokens (x ∷ token) = tokens ++ ((x ∷ token) ∷ [])

unfoldable pub split_loop : ℕ → Bytes → Bytes → List Bytes → Outcome (List Bytes)
split_loop zero delimiter text tokens = out_of_fuel
split_loop (suc fuel) delimiter text tokens = elim (find delimiter text) [
  | none ↦ returns (push_token tokens text)
  | some pos ↦
      split_loop fuel delimiter (drop (pos + length delimiter) text)
        (push_token tokens (take pos text))
]

-- `Split`: each turn of the loop erases the delimiter, so the length bounds the turns.
unfoldable pub split : Bytes → Bytes → Outcome (List Bytes)
split str delimiter = split_loop (suc (length str)) delimiter str []

-- `ReplaceAll`: `passed` is the text up to where the next search begins.
unfoldable pub replace_loop : ℕ → Bytes → Bytes → Bytes → Bytes → Outcome Bytes
replace_loop zero search replace passed rest = out_of_fuel
replace_loop (suc fuel) search replace passed rest = elim (find search rest) [
  | none ↦ returns (passed ++ rest)
  | some pos ↦
      replace_loop fuel search replace (passed ++ (take pos rest ++ replace))
        (drop (pos + length search) rest)
]

unfoldable pub replace_all : Bytes → Bytes → Bytes → Outcome Bytes
replace_all text to_search replace_str =
    replace_loop (suc (length text)) to_search replace_str [] text

-- `UrlHash`, over the digest that `MD5` of OpenSSL gives.
unfoldable pub url_hash : (Bytes → Bytes) → Bytes → Outcome Bytes
url_hash md5 text = do
  out ← encode (md5 text)
  out ← replace_all out (codes "=") (codes "a")
  out ← replace_all out (codes "+") (codes "b")
  out ← replace_all out (codes "/") (codes "c")
  returns (out ++ codes ".pkg")

-- The `switch` of `append_json_escaped`.
unfoldable pub json_escape : ℕ → Bytes
json_escape c =
    if c == b'\\'
    then codes "\\\\"
    else if c == b'"'
    then codes "\\\""
    else if c == 10
    then codes "\\n"
    else if c == 13
    then codes "\\r"
    else if c == 9
    then codes "\\t"
    else (c ∷ [])

-- The `for` loop. `dst` is the string in the buffer, without its end, so that its length is `used`.
unfoldable pub escape_loop : ℕ → Bytes → Bytes → Bytes
unfolding json_escape
escape_loop dst_size dst [] = dst
escape_loop dst_size dst (c ∷ src) =
    let rest = escape_loop dst_size (dst ++ json_escape c) src in
    if ltb (length dst + 1) dst_size
    then (if leb dst_size (length dst + length (json_escape c)) then dst else rest)
    else dst

unfoldable pub append_json_escaped : Bytes → ℕ → Bytes → Bytes
append_json_escaped dst dst_size src =
    if leb dst_size (length dst) then dst else escape_loop dst_size dst src
