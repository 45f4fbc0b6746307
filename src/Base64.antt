-- ===== src/Base64.antt =====
-- source/base64.h: `Base64::Encode` and `Base64::Decode`. A buffer is the list of its bytes, and
-- an access outside of it is `undefined`. `char` is signed, as on the console's x86-64.
pub mod Reference
pub mod Encoding
pub mod Decoding
pub mod RoundTrip
mod Tests
use ps5_ezremote_server.Prelude.{
  ℕ, zero, suc, ◌+◌, ◌-◌, ◌*◌, ◌/◌, ◌%◌, ◌^◌, ◌<◌, bit_and, bit_or, Option, none, some, List, [],
  ◌∷◌, ◌++◌, length, get_elem?, ltb, leb, ◌==◌, if◌then◌else◌, true, false,
}
use ps5_ezremote_server.Outcome.{Outcome, returns, undefined, out_of_fuel, ◌>>=◌, ◌>>◌, require}
use ps5_ezremote_server.Words.{Bytes, codes, add64, sub64, shr, low_bits}

abbrev pub encoding_table : Bytes
encoding_table = codes "ABCDEFGHIJKLMNOPQRSTUVWXYZabcdefghijklmnopqrstuvwxyz0123456789+/"

-- `p[i]` of a buffer.
unfoldable pub read : Bytes → ℕ → Outcome ℕ
read buffer i = elim (get_elem? buffer i) [ none ↦ undefined | some b ↦ returns b ]

-- `*p++ = sEncodingTable[k]` into a buffer of `cap` bytes, of which `out` are written.
unfoldable pub put : ℕ → Bytes → ℕ → Outcome Bytes
put cap out c = if ltb (length out) cap then returns (out ++ (c ∷ [])) else undefined

unfoldable pub put_sextet : ℕ → Bytes → ℕ → Outcome Bytes
unfolding read put
put_sextet cap out k = do c ← read encoding_table k; put cap out c

abbrev pub sextet_0 : ℕ → ℕ
sextet_0 a = low_bits (shr a 2) 6

abbrev pub sextet_1 : ℕ → ℕ → ℕ
sextet_1 a b = bit_or (low_bits a 2 * 2 ^ 4) (shr (bit_and b 0xF0) 4)

abbrev pub sextet_2 : ℕ → ℕ → ℕ
sextet_2 b c = bit_or (low_bits b 4 * 2 ^ 2) (shr (bit_and c 0xC0) 6)

abbrev pub sextet_3 : ℕ → ℕ
sextet_3 c = low_bits c 6

-- The body of the `for`: three bytes of input, four characters of output.
unfoldable pub encode_group : Bytes → ℕ → ℕ → Bytes → Outcome Bytes
encode_group input cap i out = do
  a ← read input i
  out ← put_sextet cap out (sextet_0 a)
  b ← read input (add64 i 1)
  out ← put_sextet cap out (sextet_1 a b)
  c ← read input (add64 i 2)
  out ← put_sextet cap out (sextet_2 b c)
  put_sextet cap out (sextet_3 c)

-- `for (i = 0; i < in_len - 2; i += 3)`; the result is the last `i` and what is written.
unfoldable pub encode_loop : ℕ → Bytes → ℕ → ℕ → ℕ → Bytes → Outcome (ℕ × Bytes)
encode_loop zero input in_len cap i out = out_of_fuel
encode_loop (suc fuel) input in_len cap i out = elim (ltb i (sub64 in_len 2)) [
  | true ↦ do out ← encode_group input cap i out; encode_loop fuel input in_len cap (add64 i 3) out
  | false ↦ returns (i, out)
]

-- `if (i < in_len)` behind the loop: the last one or two bytes, and the padding.
unfoldable pub encode_rest : Bytes → ℕ → ℕ → ℕ → Bytes → Outcome Bytes
encode_rest input in_len cap i out =
    if ltb i in_len
    then (do
      a ← read input i
      out ← put_sextet cap out (sextet_0 a)
      out ←
          if i == sub64 in_len 1
          then (do out ← put_sextet cap out (low_bits a 2 * 2 ^ 4); put cap out b'=')
          else (do
            b ← read input (add64 i 1)
            out ← put_sextet cap out (sextet_1 a b)
            put_sextet cap out (low_bits b 4 * 2 ^ 2))
      put cap out b'=')
    else returns out

-- `out.resize(out_len)`
abbrev pub encoded_len : ℕ → ℕ
encoded_len in_len = 4 * (add64 in_len 2 / 3) % 2 ^ 64

-- Every turn but the last reads three bytes of the input, so its length bounds the turns.
unfoldable pub encode : Bytes → Outcome Bytes
encode input = do
  let in_len = length input
  let cap = encoded_len in_len
  (i, out) ← encode_loop (suc in_len) input in_len cap 0 []
  encode_rest input in_len cap i out

-- `kDecodingTable`, sixteen entries a row; 64 stands for no sextet.
abbrev blank_row : Bytes
blank_row = 64 ∷ 64 ∷ 64 ∷ 64 ∷ 64 ∷ 64 ∷ 64 ∷ 64 ∷ 64 ∷ 64 ∷ 64 ∷ 64 ∷ 64 ∷ 64 ∷ 64 ∷ 64 ∷ []

abbrev symbol_rows : Bytes
symbol_rows =
    64 ∷ 64 ∷ 64 ∷ 64 ∷ 64 ∷ 64 ∷ 64 ∷ 64 ∷ 64 ∷ 64 ∷ 64 ∷ 62 ∷ 64 ∷ 64 ∷ 64 ∷ 63 ∷ 52 ∷ 53 ∷ 54
    ∷ 55 ∷ 56 ∷ 57 ∷ 58 ∷ 59 ∷ 60 ∷ 61 ∷ 64 ∷ 64 ∷ 64 ∷ 64 ∷ 64 ∷ 64 ∷ []

abbrev upper_rows : Bytes
upper_rows =
    64 ∷ 0 ∷ 1 ∷ 2 ∷ 3 ∷ 4 ∷ 5 ∷ 6 ∷ 7 ∷ 8 ∷ 9 ∷ 10 ∷ 11 ∷ 12 ∷ 13 ∷ 14 ∷ 15 ∷ 16 ∷ 17 ∷ 18 ∷ 19
    ∷ 20 ∷ 21 ∷ 22 ∷ 23 ∷ 24 ∷ 25 ∷ 64 ∷ 64 ∷ 64 ∷ 64 ∷ 64 ∷ []

abbrev lower_rows : Bytes
lower_rows =
    64 ∷ 26 ∷ 27 ∷ 28 ∷ 29 ∷ 30 ∷ 31 ∷ 32 ∷ 33 ∷ 34 ∷ 35 ∷ 36 ∷ 37 ∷ 38 ∷ 39 ∷ 40 ∷ 41 ∷ 42 ∷ 43
    ∷ 44 ∷ 45 ∷ 46 ∷ 47 ∷ 48 ∷ 49 ∷ 50 ∷ 51 ∷ 64 ∷ 64 ∷ 64 ∷ 64 ∷ 64 ∷ []

abbrev high_rows : Bytes
high_rows =
    blank_row
    ++ (blank_row
        ++ (blank_row ++ (blank_row ++ (blank_row ++ (blank_row ++ (blank_row ++ blank_row))))))

abbrev pub decoding_table : Bytes
decoding_table =
    blank_row ++ (blank_row ++ (symbol_rows ++ (upper_rows ++ (lower_rows ++ high_rows))))

-- `input[i] == '=' ? 0 & i++ : kDecodingTable[static_cast<int>(input[i++])]`: a byte from 128 on is
-- a negative `char`, which indexes before the table.
unfoldable pub decode_sextet : Bytes → ℕ → Outcome ℕ
unfolding read
decode_sextet input i = do
  c ← read input i
  if c == b'=' then returns 0 else (do require (ltb c 128); read decoding_table c)

-- `if (j < out_len) out[j++] = b`. The bytes below `out_len` are written in order, so the buffer
-- is the list of what is written, and `j` is its length.
unfoldable pub push : ℕ → Bytes → ℕ → Bytes
push out_len out b = if ltb (length out) out_len then out ++ (b ∷ []) else out

abbrev pub triple : ℕ → ℕ → ℕ → ℕ → ℕ
triple a b c d = (a * 2 ^ (3 * 6) + b * 2 ^ (2 * 6) + c * 2 ^ (1 * 6) + d * 2 ^ (0 * 6)) % 2 ^ 32

unfoldable pub push_triple : ℕ → Bytes → ℕ → Bytes
push_triple out_len out t =
    let out = push out_len out (low_bits (shr t (2 * 8)) 8) in
    let out = push out_len out (low_bits (shr t (1 * 8)) 8) in
    push out_len out (low_bits (shr t (0 * 8)) 8)

unfoldable pub decode_loop : ℕ → Bytes → ℕ → ℕ → ℕ → Bytes → Outcome Bytes
decode_loop zero input in_len out_len i out = out_of_fuel
decode_loop (suc fuel) input in_len out_len i out = elim (ltb i in_len) [
  | true ↦ do
    a ← decode_sextet input i
    b ← decode_sextet input (add64 i 1)
    c ← decode_sextet input (add64 i 2)
    d ← decode_sextet input (add64 i 3)
    decode_loop fuel input in_len out_len (add64 i 4) (push_triple out_len out (triple a b c d))
  | false ↦ returns out
]

abbrev pub pad_at : ℕ → ℕ
pad_at c = if c == b'=' then 1 else 0

-- `none` is the result 0, which leaves `out` alone; `some` is the result 1 with the new `out`.
-- Every turn reads four bytes, so the length bounds the turns.
unfoldable pub decode : Bytes → Outcome (Option Bytes)
decode input =
    let in_len = length input in
    if in_len % 4 == 0
    then (do
      last ← read input (sub64 in_len 1)
      before ← read input (sub64 in_len 2)
      let out_len = sub64 (sub64 (in_len / 4 * 3 % 2 ^ 64) (pad_at last)) (pad_at before)
      out ← decode_loop (suc in_len) input in_len out_len 0 []
      returns (some out))
    else returns none
