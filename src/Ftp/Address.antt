-- ===== src/Ftp/Address.antt =====
-- The address in the reply to PASV, in `FtpOpenPasv` of source/clients/ftpclient.cpp.
pub mod RoundTrip
mod Tests
use ps5_ezremote_server.Prelude.{
  ℕ, zero, suc, ◌+◌, ◌-◌, ◌*◌, ◌%◌, ◌^◌, ◌<◌, Bool, true, false, ◌&&◌, ◌||◌, Option, none, some,
  List, [], ◌∷◌, ltb, leb, ◌==◌, if◌then◌else◌,
}
use ps5_ezremote_server.Outcome.{Outcome, returns, undefined, ◌>>=◌}
use ps5_ezremote_server.Words.{Bytes}

-- `strchr(response, '(') + 1`, within the string.
unfoldable pub behind_parenthesis : Bytes → Option Bytes
behind_parenthesis [] = none
behind_parenthesis (c ∷ text) =
    let rest = behind_parenthesis text in
    if c == 0 then none else if c == b'(' then some text else rest

unfoldable pub is_digit : ℕ → Bool
is_digit c = leb b'0' c && leb c b'9'

-- The digits at the front, behind those that make up `value`.
unfoldable pub scan_digits : ℕ → Bytes → ℕ × Bytes
unfolding is_digit
scan_digits value [] = (value, [])
scan_digits value (c ∷ text) =
    let rest = scan_digits (value * 10 + (c - b'0')) text in
    if is_digit c then rest else (value, c ∷ text)

-- A digit must come first. A number that `unsigned` does not hold is not defined.
unfoldable pub scan_unsigned : Bytes → Outcome (Option (ℕ × Bytes))
unfolding is_digit scan_digits
scan_unsigned [] = returns none
scan_unsigned (c ∷ text) =
    let (value, rest) = scan_digits 0 (c ∷ text) in
    if is_digit c
    then (if ltb value (2 ^ 32) then returns (some (value, rest)) else undefined)
    else returns none

-- `%u` passes over white space, and takes a sign.
unfoldable pub scan_number : Bytes → Outcome (Option (ℕ × Bytes))
unfolding scan_unsigned
scan_number [] = returns none
scan_number (c ∷ text) =
    let rest = scan_number text in
    if c == b' ' || (leb 9 c && leb c 13)
    then rest
    else if c == b'+'
    then scan_unsigned text
    else if c == b'-'
    then (do
      got ← scan_unsigned text
      returns (elim got [ none ↦ none | some (v, rest) ↦ some ((2 ^ 32 - v) % 2 ^ 32, rest) ]))
    else scan_unsigned (c ∷ text)

-- The comma between two numbers.
unfoldable pub scan_comma : Bytes → Option Bytes
scan_comma [] = none
scan_comma (c ∷ text) = if c == b',' then some text else none

-- The numbers of `sscanf`. One that is missing is read all the same, and has no value.
unfoldable pub scan_fields : ℕ → Bytes → Outcome Bytes
unfolding scan_number scan_comma
scan_fields zero text = returns []
scan_fields (suc zero) text = do
  got ← scan_number text
  elim got [ none ↦ undefined | some (v, rest) ↦ returns (v ∷ []) ]
scan_fields (suc (suc k)) text = do
  got ← scan_number text
  elim got [
    | none ↦ undefined
    | some (v, rest) ↦ elim (scan_comma rest) [
      | none ↦ undefined
      | some rest ↦ do more ← scan_fields (suc k) rest; returns (v ∷ more)
    ]
  ]

-- `sa_data`: the last two numbers are the port, and stand first; a number is cut to a byte.
unfoldable pub to_address : Bytes → Outcome Bytes
to_address (h1 ∷ h2 ∷ h3 ∷ h4 ∷ p1 ∷ p2 ∷ []) =
    returns (p1 % 256 ∷ p2 % 256 ∷ h1 % 256 ∷ h2 % 256 ∷ h3 % 256 ∷ h4 % 256 ∷ [])
to_address _ = undefined
