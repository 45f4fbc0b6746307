-- ===== src/Base64/Reference.antt =====
-- The Base64 alphabet by ranges, and the encoding by groups of three bytes.
use ps5_ezremote_server.Prelude.{
  Bool, ◌∙◌, ap, ℕ, ◌+◌, ◌-◌, ◌*◌, ◌/◌, ◌%◌, ◌<◌, bit_and, bit_or, ◌≡◌, refl, none, some, [], ◌∷◌,
  ◌&&◌, ltb, ◌==◌, if◌then◌else◌, get_elem?, length, not, true, false, arith,
}
use ps5_ezremote_server.Outcome.{returns}
use ps5_ezremote_server.Words.{Bytes, passes_from, passes_from_at}
use ps5_ezremote_server.Base64.{read, encoding_table, decoding_table, sextet_0, sextet_1, sextet_2}

unfoldable pub sextet_char : ℕ → ℕ
sextet_char k =
    if ltb k 26
    then b'A' + k
    else if ltb k 52
    then b'a' + (k - 26)
    else if ltb k 62
    then b'0' + (k - 52)
    else if k == 62
    then b'+'
    else b'/'

-- What RFC 4648 asks for: four characters for three bytes, padded at the end.
unfoldable pub reference : Bytes → Bytes
reference [] = []
reference (a ∷ []) = sextet_char (a / 4) ∷ sextet_char (a % 4 * 16) ∷ b'=' ∷ b'=' ∷ []
reference (a ∷ b ∷ []) =
    sextet_char (a / 4) ∷ sextet_char (a % 4 * 16 + b / 16) ∷ sextet_char (b % 16 * 4) ∷ b'=' ∷ []
reference (a ∷ b ∷ c ∷ rest) =
    sextet_char (a / 4)
    ∷ sextet_char (a % 4 * 16 + b / 16)
    ∷ sextet_char (b % 16 * 4 + c / 64)
    ∷ sextet_char (c % 64)
    ∷ reference rest

abbrev reads_as : Bytes → ℕ → ℕ → Bool
reads_as table i b = elim (get_elem? table i) [ none ↦ false | some x ↦ x == b ]

encoding_check : passes_from 0 64 (λ k. reads_as encoding_table k (sextet_char k)) ≡ true
unfolding passes_from sextet_char
encoding_check = refl

decoding_check : passes_from 0 64 (λ k. reads_as decoding_table (sextet_char k) k) ≡ true
unfolding passes_from sextet_char
decoding_check = refl

read-reads_as : (table : Bytes) (i b : ℕ) → reads_as table i b ≡ true → read table i ≡ returns b
unfolding read
read-reads_as table i b h = ground (arith)

pub read-encoding_table : (k : ℕ) → k < 64 → read encoding_table k ≡ returns (sextet_char k)
read-encoding_table k h =
    read-reads_as _ _ _ (passes_from_at 64 0 _ encoding_check k (omega arith) h)

pub read-decoding_table : (k : ℕ) → k < 64 → read decoding_table (sextet_char k) ≡ returns k
read-decoding_table k h =
    read-reads_as _ _ _ (passes_from_at 64 0 _ decoding_check k (omega arith) h)

-- The bit operations of the source, as arithmetic.
masks_check :
    passes_from 0 256 (λ b. (bit_and b 0xF0 / 16 == b / 16) && (bit_and b 0xC0 / 64 == b / 64))
    ≡ true
unfolding passes_from
masks_check = refl

or_check :
    passes_from 0 64
      (λ n. (bit_or (n / 16 * 16) (n % 16) == n) && (bit_or (n / 4 * 4) (n % 4) == n))
    ≡ true
unfolding passes_from
or_check = refl

masks : (b : ℕ) → b < 256 → (bit_and b 0xF0 / 16 ≡ b / 16) × (bit_and b 0xC0 / 64 ≡ b / 64)
masks b h = ground (arith, passes_from_at 256 0 _ masks_check b (omega arith) h)

or_join_16 : (u v : ℕ) → u < 4 → v < 16 → bit_or (u * 16) v ≡ u * 16 + v
or_join_16 u v hu hv =
    let n = u * 16 + v in
    let checked : bit_or (n / 16 * 16) (n % 16) ≡ n =
      ground (arith, passes_from_at 64 0 _ or_check n (omega arith) (omega arith)) in
    let high : n / 16 * 16 ≡ u * 16 = omega arith in
    let low : n % 16 ≡ v = omega arith in cc (checked, high, low)

or_join_4 : (u v : ℕ) → u < 16 → v < 4 → bit_or (u * 4) v ≡ u * 4 + v
or_join_4 u v hu hv =
    let n = u * 4 + v in
    let checked : bit_or (n / 4 * 4) (n % 4) ≡ n =
      ground (arith, passes_from_at 64 0 _ or_check n (omega arith) (omega arith)) in
    let high : n / 4 * 4 ≡ u * 4 = omega arith in
    let low : n % 4 ≡ v = omega arith in cc (checked, high, low)

pub sextet_0_lem : (a : ℕ) → a < 256 → sextet_0 a ≡ a / 4
sextet_0_lem a h = omega arith

pub sextet_1_lem : (a b : ℕ) → b < 256 → sextet_1 a b ≡ a % 4 * 16 + b / 16
sextet_1_lem a b h =
    ap (bit_or (a % 4 * 16)) (masks b h).0 ∙ or_join_16 (a % 4) (b / 16) (omega arith) (omega arith)

pub sextet_2_lem : (b c : ℕ) → c < 256 → sextet_2 b c ≡ b % 16 * 4 + c / 64
sextet_2_lem b c h =
    ap (bit_or (b % 16 * 4)) (masks c h).1 ∙ or_join_4 (b % 16) (c / 64) (omega arith) (omega arith)

-- A character of the alphabet is ASCII, and is not the padding.
plain_check : passes_from 0 64 (λ k. ltb (sextet_char k) 128 && not (sextet_char k == b'=')) ≡ true
unfolding passes_from sextet_char
plain_check = refl

pub sextet_char_plain :
    (k : ℕ) → k < 64 → (ltb (sextet_char k) 128 ≡ true) × ((sextet_char k == b'=') ≡ false)
sextet_char_plain k h = ground (arith, passes_from_at 64 0 _ plain_check k (omega arith) h)

pub length-reference : (xs : Bytes) → length (reference xs) ≡ 4 * ((length xs + 2) / 3)
unfolding reference
length-reference [] = refl
length-reference (a ∷ []) = refl
length-reference (a ∷ b ∷ []) = refl
length-reference (a ∷ b ∷ c ∷ rest) = omega (arith, length-reference rest)
