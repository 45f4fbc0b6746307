-- ===== src/Base64/RoundTrip.antt =====
-- `Base64::Decode` after `Base64::Encode`, and the inputs on which `Decode` has no result.
use ps5_ezremote_server.Prelude.{
  ℕ, suc, ◌+◌, ◌*◌, ◌/◌, ◌%◌, ◌^◌, ◌≤◌, ◌<◌, ◌≡◌, ◌≢◌, refl, ap, ◌∙◌, true, [], ◌∷◌, ◌++◌, length,
  length-append, ◌==◌, ==_iff, some, arith,
}
use ps5_ezremote_server.Outcome.{returns, undefined, ◌>>=◌}
use ps5_ezremote_server.Words.{Bytes, AreBytes, sub64}
use ps5_ezremote_server.Base64.{read, encode, decode, pad_at}
use ps5_ezremote_server.Base64.Reference.{
  reference, sextet_char, sextet_char_plain, length-reference,
}
use ps5_ezremote_server.Base64.Encoding.{read-at, encode-eq-reference}
use ps5_ezremote_server.Base64.Decoding.{decode_from}

-- The last two characters tell how much the last group falls short of three bytes.
record Ending (xs : Bytes) : Type 0 where
  init : Bytes
  before : ℕ
  last : ℕ
  splits : reference xs ≡ init ++ (before ∷ last ∷ [])
  pads : length xs + pad_at before + pad_at last ≡ 3 * ((length xs + 2) / 3)

pad_at-char : (v : ℕ) → v < 64 → pad_at (sextet_char v) ≡ 0
pad_at-char v h = ground (arith, sextet_char_plain v h)

ending : (xs : Bytes) → xs ≢ [] → AreBytes xs → Ending xs
unfolding reference
ending [] ne bytes = absurd (ne refl)
ending (a ∷ []) ne bytes = record {
  init = sextet_char (a / 4) ∷ sextet_char (a % 4 * 16) ∷ [];
  before = b'=';
  last = b'=';
  splits = refl;
  pads = refl;
}
ending (a ∷ b ∷ []) ne bytes = record {
  init = sextet_char (a / 4) ∷ sextet_char (a % 4 * 16 + b / 16) ∷ [];
  before = sextet_char (b % 16 * 4);
  last = b'=';
  splits = refl;
  pads = omega (arith, pad_at-char (b % 16 * 4) (omega arith));
}
ending (a ∷ b ∷ c ∷ []) ne bytes = record {
  init = sextet_char (a / 4) ∷ sextet_char (a % 4 * 16 + b / 16) ∷ [];
  before = sextet_char (b % 16 * 4 + c / 64);
  last = sextet_char (c % 64);
  splits = refl;
  pads =
      omega (
        arith,
        pad_at-char (b % 16 * 4 + c / 64) (omega arith),
        pad_at-char (c % 64) (omega arith),
      );
}
ending (a ∷ b ∷ c ∷ d ∷ xs) ne bytes =
    let rest = ending (d ∷ xs) (λ e. cc) bytes.1.1.1 in
    record {
      init = reference (a ∷ b ∷ c ∷ []) ++ rest.init;
      before = rest.before;
      last = rest.last;
      splits = ap (λ r. reference (a ∷ b ∷ c ∷ []) ++ r) rest.splits;
      pads = omega (arith, rest.pads);
    }

-- The size that `Decode` gives its result.
out_len_lem :
    (n before last : ℕ)
    → 0 < n
    → n < 2 ^ 60
    → n + pad_at before + pad_at last ≡ 3 * ((n + 2) / 3)
    → sub64 (sub64 (4 * ((n + 2) / 3) / 4 * 3 % 2 ^ 64) (pad_at last)) (pad_at before) ≡ n
out_len_lem n before last h small e = ground arith

module _ (xs : Bytes) (e : Ending xs) where
  reference_len : length (reference xs) ≡ length e.init + 2
  reference_len = ap length e.splits ∙ length-append e.init (e.before ∷ e.last ∷ [])

  reads_last : (i : ℕ) → i + 1 ≡ length (reference xs) → read (reference xs) i ≡ returns e.last
  reads_last i h =
      rw e.splits
        (read-at e.init (e.before ∷ e.last ∷ []) i 1 e.last (omega (arith, reference_len)) refl)

  reads_before : (i : ℕ) → i + 2 ≡ length (reference xs) → read (reference xs) i ≡ returns e.before
  reads_before i h =
      rw e.splits
        (read-at e.init (e.before ∷ e.last ∷ []) i 0 e.before (omega (arith, reference_len)) refl)

  decode_ended :
      0 < length xs → length xs < 2 ^ 60 → AreBytes xs → decode (reference xs) ≡ returns (some xs)
  decode_ended some_byte small bytes =
      let n = length (reference xs) in
      let len : n ≡ 4 * ((length xs + 2) / 3) = length-reference xs in
      let whole : (n % 4 == 0) ≡ true = (==_iff (n % 4) 0).1 (omega arith) in
      let out_len = sub64 (sub64 (n / 4 * 3 % 2 ^ 64) (pad_at e.last)) (pad_at e.before) in
      let size : 0 + length xs ≡ out_len =
        omega (arith, len, out_len_lem (length xs) e.before e.last some_byte small e.pads) in
      let loop =
        decode_from n out_len (omega arith) (suc n) (reference xs) [] xs 0 [] refl refl
          (omega arith) (omega arith) bytes size in
      unfold decode in
      rw (whole, reads_last (sub64 n 1) (omega arith), reads_before (sub64 n 2) (omega arith), loop)
        refl

-- Whatever the bytes, `Decode` gives back what `Encode` was given, if that is two bytes or more.
-- Neither leaves its buffers, and the text has four characters for every three bytes begun.
pub decode-encode :
    (input : Bytes)
    → 2 ≤ length input
    → length input < 2 ^ 60
    → AreBytes input
    → (encode input >>= decode ≡ returns (some input))
      × (encode input >>= (λ text. returns (length text)) ≡ returns (4 * ((length input + 2) / 3)))
decode-encode input two small bytes =
    let written = encode-eq-reference input two (omega arith) bytes in
    let e = ending input (λ none_left. absurd (omega (arith, ap length none_left))) bytes in
    rw written (decode_ended input e (omega arith) small bytes, ap returns (length-reference input))

-- `input[in_len - 1]` lies outside of the empty text.
pub decode_empty : decode [] ≡ undefined
unfolding decode read
decode_empty = refl
