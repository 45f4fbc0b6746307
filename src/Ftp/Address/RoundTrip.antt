-- ===== src/Ftp/Address/RoundTrip.antt =====
-- The address that a server prints is the one that the client reads.
use ps5_ezremote_server.Prelude.{
  some, All, ℕ, zero, suc, ◌+◌, ◌-◌, ◌*◌, ◌/◌, ◌%◌, ◌^◌, ◌≤◌, ◌<◌, ◌≡◌, refl, sym, ap, ◌∙◌, true,
  false, ◌&&◌, ◌||◌, some, List, [], ◌∷◌, ◌++◌, length, ltb, leb, ◌==◌, Bool-cases, inl, inr, arith,
  append_assoc,
}
use ps5_ezremote_server.Outcome.{returns}
use ps5_ezremote_server.Words.{Bytes, IsByte, AreBytes, digits, to_string}
use ps5_ezremote_server.Ftp.Address.{
  behind_parenthesis, is_digit, scan_digits, scan_unsigned, scan_number, scan_fields, to_address,
}

scan_one :
    (v d : ℕ) (rest : Bytes)
    → d < 10
    → scan_digits v ((b'0' + d) ∷ rest) ≡ scan_digits (v * 10 + d) rest
scan_one v d rest h =
    let digit : is_digit (b'0' + d) ≡ true = unfold is_digit in ground arith in
    let value : v * 10 + (b'0' + d - b'0') ≡ v * 10 + d = omega arith in
    unfold scan_digits in rw (digit, value) refl

digits-small : (fuel n : ℕ) → n < 10 → digits (suc fuel) n ≡ (b'0' + n) ∷ []
digits-small fuel n h = unfold digits in ground arith

digits-large :
    (fuel n : ℕ) → 10 ≤ n → digits (suc fuel) n ≡ digits fuel (n / 10) ++ ((b'0' + n % 10) ∷ [])
digits-large fuel n h = unfold digits in ground arith

scan_digits-digits :
    (fuel n : ℕ) (rest : Bytes)
    → n < fuel
    → scan_digits 0 (digits fuel n ++ rest) ≡ scan_digits n rest
scan_digits-digits zero n rest h = absurd (omega arith)
scan_digits-digits (suc fuel) n rest h = elim (Bool-cases (ltb n 10)) [
  | inl small ↦
      let value : 0 * 10 + n ≡ n = omega arith in
      rw (digits-small fuel n (ground (arith, small)))
        (scan_one 0 n rest (ground (arith, small)) ∙ ap (λ k. scan_digits k rest) value)
  | inr large ↦
      let value : n / 10 * 10 + n % 10 ≡ n = omega arith in
      rw
        (
          digits-large fuel n (ground (arith, large)),
          append_assoc (digits fuel (n / 10)) ((b'0' + n % 10) ∷ []) rest,
        )
        (scan_digits-digits fuel (n / 10) ((b'0' + n % 10) ∷ rest) (ground (arith, large))
          ∙ scan_one (n / 10) (n % 10) rest (omega arith)
          ∙ ap (λ k. scan_digits k rest) value)
]

digits-first :
    (fuel n : ℕ)
    → n < fuel
    → (d : ℕ) × (tail : Bytes) × (d < 10) × (digits fuel n ≡ (b'0' + d) ∷ tail)
digits-first zero n h = absurd (omega arith)
digits-first (suc fuel) n h = elim (Bool-cases (ltb n 10)) [
  | inl small ↦ (n, [], ground (arith, small), digits-small fuel n (ground (arith, small)))
  | inr large ↦
      let (d, tail, low, e) = digits-first fuel (n / 10) (ground (arith, large)) in
      (
        d,
        tail ++ ((b'0' + n % 10) ∷ []),
        low,
        digits-large fuel n (ground (arith, large)) ∙ ap (λ l. l ++ ((b'0' + n % 10) ∷ [])) e,
      )
]

scan_number-digit :
    (d value : ℕ) (tail rest : Bytes)
    → d < 10
    → value < 256
    → scan_digits 0 ((b'0' + d) ∷ tail) ≡ (value, rest)
    → scan_number ((b'0' + d) ∷ tail) ≡ returns (some (value, rest))
scan_number-digit d value tail rest low small e =
    let digit : is_digit (b'0' + d) ≡ true = unfold is_digit in ground arith in
    let no_space : ((b'0' + d == b' ') || (leb 9 (b'0' + d) && leb (b'0' + d) 13)) ≡ false =
      ground arith in
    let no_plus : (b'0' + d == b'+') ≡ false = ground arith in
    let no_minus : (b'0' + d == b'-') ≡ false = ground arith in
    let held : ltb value (2 ^ 32) ≡ true = ground arith in
    unfold scan_number scan_unsigned in rw (no_space, no_plus, no_minus, e, digit, held) refl

-- A number, and what is no digit behind it.
scan_number-to_string :
    (n c : ℕ) (rest : Bytes)
    → IsByte n
    → is_digit c ≡ false
    → scan_number (to_string n ++ (c ∷ rest)) ≡ returns (some (n, c ∷ rest))
scan_number-to_string n c rest byte stop =
    let (d, tail, low, e) = digits-first (suc n) n (omega arith) in
    let stopped : scan_digits n (c ∷ rest) ≡ (n, c ∷ rest) = unfold scan_digits in rw stop refl in
    let scanned =
      ap (λ l. scan_digits 0 (l ++ (c ∷ rest))) (sym e)
      ∙ scan_digits-digits (suc n) n (c ∷ rest) (omega arith)
      ∙ stopped in
    unfold to_string in
    rw e (scan_number-digit d n (tail ++ (c ∷ rest)) (c ∷ rest) low byte scanned)

-- The fields as a server prints them.
unfoldable pub print_fields : ℕ → Bytes → Bytes → Bytes
print_fields n [] rest = to_string n ++ rest
print_fields n (m ∷ numbers) rest = to_string n ++ (b',' ∷ print_fields m numbers rest)

pub scan_fields-print_fields :
    (n : ℕ) (numbers : List ℕ) (c : ℕ) (rest : Bytes)
    → IsByte n
    → AreBytes numbers
    → is_digit c ≡ false
    → scan_fields (suc (length numbers)) (print_fields n numbers (c ∷ rest)) ≡ returns (n ∷ numbers)
unfolding print_fields scan_fields
scan_fields-print_fields n [] c rest byte bytes stop =
    let scanned = scan_number-to_string n c rest byte stop in rw scanned refl
scan_fields-print_fields n (m ∷ numbers) c rest byte bytes stop =
    let comma : is_digit b',' ≡ false = unfold is_digit in refl in
    let scanned = scan_number-to_string n b',' (print_fields m numbers (c ∷ rest)) byte comma in
    let more = scan_fields-print_fields m numbers c rest bytes.0 bytes.1 stop in
    rw (scanned, more) refl

-- What is read of the six bytes of an address is the address, port first.
pub to_address-byte :
    (h1 h2 h3 h4 p1 p2 : ℕ)
    → AreBytes (h1 ∷ h2 ∷ h3 ∷ h4 ∷ p1 ∷ p2 ∷ [])
    → to_address (h1 ∷ h2 ∷ h3 ∷ h4 ∷ p1 ∷ p2 ∷ []) ≡ returns (p1 ∷ p2 ∷ h1 ∷ h2 ∷ h3 ∷ h4 ∷ [])
to_address-byte h1 h2 h3 h4 p1 p2 (a1, bytes) =
    let (a2, more) = bytes in
    let (a3, more3) = more in
    let (a4, more4) = more3 in
    let (a5, more5) = more4 in
    let a6 = more5.0 in
    let m1 : h1 % 256 ≡ h1 = omega arith in
    let m2 : h2 % 256 ≡ h2 = omega arith in
    let m3 : h3 % 256 ≡ h3 = omega arith in
    let m4 : h4 % 256 ≡ h4 = omega arith in
    let m5 : p1 % 256 ≡ p1 = omega arith in
    let m6 : p2 % 256 ≡ p2 = omega arith in unfold to_address in rw (m1, m2, m3, m4, m5, m6) refl

-- A character before the parenthesis: neither the end of the text nor a parenthesis.
abbrev pub IsBefore : ℕ → Type 0
IsBefore c = ((c == 0) ≡ false) × ((c == b'(') ≡ false)

pub behind_parenthesis-append :
    (before text : Bytes)
    → All IsBefore before
    → behind_parenthesis (before ++ (b'(' ∷ text)) ≡ some text
unfolding behind_parenthesis
behind_parenthesis-append [] text plain = refl
behind_parenthesis-append (c ∷ before) text (here, plain) =
    ground (arith, behind_parenthesis-append before text plain)
