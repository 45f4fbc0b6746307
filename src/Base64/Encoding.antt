-- ===== src/Base64/Encoding.antt =====
-- `encode` writes the reference encoding of two bytes or more, and reads outside of a shorter
-- input.
use ps5_ezremote_server.Prelude.{
  ℕ, zero, suc, ◌+◌, ◌*◌, ◌/◌, ◌%◌, ◌^◌, ◌≤◌, ◌<◌, ◌≡◌, refl, sym, ap, ◌∙◌, true, false, [], ◌∷◌,
  ◌++◌, append-nil, append_assoc, length, length-append, get_elem?, get_elem?-append, ltb, lt→ltb,
  le→ltb, ◌==◌, ==_iff, if◌then◌else◌, some, arith,
}
use ps5_ezremote_server.Outcome.{Outcome, returns, undefined, ◌>>=◌}
use ps5_ezremote_server.Words.{Bytes, AreBytes, add64, sub64, low_bits}
use ps5_ezremote_server.Base64.{
  read, put, put_sextet, sextet_0, sextet_1, sextet_2, sextet_3, encode_group, encode_loop,
  encode_rest, encode, encoded_len,
}
use ps5_ezremote_server.Base64.Reference.{
  reference, sextet_char, read-encoding_table, sextet_0_lem, sextet_1_lem, sextet_2_lem,
}

-- What stands `k` places into the part that is still to be read.
pub read-at :
    (pre rest : Bytes) (i k x : ℕ)
    → i ≡ length pre + k
    → get_elem? rest k ≡ some x
    → read (pre ++ rest) i ≡ returns x
unfolding read
read-at pre rest i k x e h =
    let at : get_elem? (pre ++ rest) i ≡ some x =
      ap (get_elem? (pre ++ rest)) e ∙ get_elem?-append pre rest k ∙ h in
    rw (at, read) refl

put_lem :
    (cap : ℕ) (out : Bytes) (c : ℕ) → length out < cap → put cap out c ≡ returns (out ++ (c ∷ []))
unfolding put
put_lem cap out c h = rw (lt→ltb _ _ h)

put_sextet_lem :
    (cap : ℕ) (out : Bytes) (k v : ℕ)
    → k ≡ v
    → v < 64
    → length out < cap
    → put_sextet cap out k ≡ returns (out ++ (sextet_char v ∷ []))
put_sextet_lem cap out k v e hk h =
    rw e (unfold put_sextet in rw (read-encoding_table v hk) (put_lem cap out (sextet_char v) h))

abbrev quad : ℕ → ℕ → ℕ → Bytes
quad a b c =
    sextet_char (a / 4)
    ∷ sextet_char (a % 4 * 16 + b / 16)
    ∷ sextet_char (b % 16 * 4 + c / 64)
    ∷ sextet_char (c % 64)
    ∷ []

encode_group_lem :
    (pre : Bytes) (a b c : ℕ) (rest : Bytes) (cap i : ℕ) (out : Bytes)
    → i ≡ length pre
    → i + 3 < 2 ^ 64
    → a < 256
    → b < 256
    → c < 256
    → length out + 4 ≤ cap
    → encode_group (pre ++ (a ∷ b ∷ c ∷ rest)) cap i out ≡ returns (out ++ quad a b c)
encode_group_lem pre a b c rest cap i out e small ha hb hc room =
    unfold encode_group in
    rw
      (
        read-at pre (a ∷ b ∷ c ∷ rest) i 0 a (omega arith) refl,
        put_sextet_lem cap out (sextet_0 a) (a / 4) (sextet_0_lem a ha) (omega arith) (omega arith),
        read-at pre (a ∷ b ∷ c ∷ rest) (add64 i 1) 1 b (omega arith) refl,
        put_sextet_lem cap out_1 (sextet_1 a b) v_1 (sextet_1_lem a b hb) (omega arith)
            (omega (arith, length-append {0})),
        read-at pre (a ∷ b ∷ c ∷ rest) (add64 i 2) 2 c (omega arith) refl,
        put_sextet_lem cap out_2 (sextet_2 b c) v_2 (sextet_2_lem b c hc) (omega arith)
            (omega (arith, length-append {0})),
        put_sextet_lem cap out_3 (sextet_3 c) (c % 64) refl (omega arith)
            (omega (arith, length-append {0})),
      )
      (simp append_assoc)
  where
    v_1 : ℕ
    v_1 = a % 4 * 16 + b / 16

    v_2 : ℕ
    v_2 = b % 16 * 4 + c / 64

    out_1 : Bytes
    out_1 = out ++ (sextet_char (a / 4) ∷ [])

    out_2 : Bytes
    out_2 = out_1 ++ (sextet_char v_1 ∷ [])

    out_3 : Bytes
    out_3 = out_2 ++ (sextet_char v_2 ∷ [])

module _ (n : ℕ) (input : Bytes) (cap : ℕ) where
  encode_loop-stop :
      (fuel i : ℕ) (out : Bytes)
      → ltb i (sub64 n 2) ≡ false
      → encode_loop (suc fuel) input n cap i out ≡ returns (i, out)
  encode_loop-stop fuel i out h = unfold encode_loop in ground arith

  encode_loop-step :
      (fuel i : ℕ) (out out' : Bytes)
      → ltb i (sub64 n 2) ≡ true
      → encode_group input cap i out ≡ returns out'
      → encode_loop (suc fuel) input n cap i out ≡ encode_loop fuel input n cap (add64 i 3) out'
  encode_loop-step fuel i out out' h g = unfold encode_loop in ground arith

module _ (pre : Bytes) (n cap : ℕ) (out : Bytes) (small : n < 2 ^ 62) where
  encode_rest_none : n ≡ length pre → encode_rest pre n cap (length pre) out ≡ returns out
  encode_rest_none e =
      unfold encode_rest in rw (le→ltb (length pre) n (omega arith), if◌then◌else◌) refl

  encode_rest_one :
      (a : ℕ)
      → n ≡ length pre + 1
      → a < 256
      → length out + 4 ≤ cap
      → encode_rest (pre ++ (a ∷ [])) n cap (length pre) out ≡ returns (out ++ reference (a ∷ []))
  encode_rest_one a e ha room =
      unfold encode_rest reference in
      rw
        (
          lt→ltb (length pre) n (omega arith),
          read-at pre (a ∷ []) (length pre) 0 a (omega arith) refl,
          put_sextet_lem cap out (sextet_0 a) (a / 4) (sextet_0_lem a ha) (omega arith)
              (omega arith),
          (==_iff (length pre) (sub64 n 1)).1 (omega arith),
          put_sextet_lem cap out_1 (low_bits a 2 * 2 ^ 4) (a % 4 * 16) refl (omega arith)
              (omega (arith, length-append {0})),
          put_lem cap out_2 b'=' (omega (arith, length-append {0})),
          put_lem cap out_3 b'=' (omega (arith, length-append {0})),
        )
        (simp append_assoc)
    where
      out_1 : Bytes
      out_1 = out ++ (sextet_char (a / 4) ∷ [])

      out_2 : Bytes
      out_2 = out_1 ++ (sextet_char (a % 4 * 16) ∷ [])

      out_3 : Bytes
      out_3 = out_2 ++ (b'=' ∷ [])

  encode_rest_two :
      (a b : ℕ)
      → n ≡ length pre + 2
      → a < 256
      → b < 256
      → length out + 4 ≤ cap
      → encode_rest (pre ++ (a ∷ b ∷ [])) n cap (length pre) out
        ≡ returns (out ++ reference (a ∷ b ∷ []))
  encode_rest_two a b e ha hb room =
      unfold encode_rest reference in
      rw
        (
          lt→ltb (length pre) n (omega arith),
          read-at pre (a ∷ b ∷ []) (length pre) 0 a (omega arith) refl,
          put_sextet_lem cap out (sextet_0 a) (a / 4) (sextet_0_lem a ha) (omega arith)
              (omega arith),
          not_last,
          read-at pre (a ∷ b ∷ []) (add64 (length pre) 1) 1 b (omega arith) refl,
          put_sextet_lem cap out_1 (sextet_1 a b) v_1 (sextet_1_lem a b hb) (omega arith)
              (omega (arith, length-append {0})),
          put_sextet_lem cap out_2 (low_bits b 4 * 2 ^ 2) (b % 16 * 4) refl (omega arith)
              (omega (arith, length-append {0})),
          put_lem cap out_3 b'=' (omega (arith, length-append {0})),
        )
        (simp append_assoc)
    where
      not_last : (length pre == sub64 n 1) ≡ false
      not_last = ground arith

      v_1 : ℕ
      v_1 = a % 4 * 16 + b / 16

      out_1 : Bytes
      out_1 = out ++ (sextet_char (a / 4) ∷ [])

      out_2 : Bytes
      out_2 = out_1 ++ (sextet_char v_1 ∷ [])

      out_3 : Bytes
      out_3 = out_2 ++ (sextet_char (b % 16 * 4) ∷ [])

abbrev finish : Bytes → ℕ → ℕ → Outcome (ℕ × Bytes) → Outcome Bytes
finish input n cap r = do (i, out) ← r; encode_rest input n cap i out

module _ (n cap : ℕ) (two : 2 ≤ n) (small : n < 2 ^ 62) where
  -- The loop stops with at most two bytes left, which are all that `encode_rest` sees.
  stopped :
      (pre rest : Bytes) (fuel : ℕ) (out : Bytes)
      → n ≡ length pre + length rest
      → length rest < 3
      → finish (pre ++ rest) n cap (encode_loop (suc fuel) (pre ++ rest) n cap (length pre) out)
        ≡ encode_rest (pre ++ rest) n cap (length pre) out
  stopped pre rest fuel out e few =
      let stop : ltb (length pre) (sub64 n 2) ≡ false = le→ltb _ _ (omega arith) in
      rw (encode_loop-stop n (pre ++ rest) cap fuel (length pre) out stop) refl

  encode_from :
      (fuel : ℕ) (input pre rest : Bytes) (i : ℕ) (out : Bytes)
      → input ≡ pre ++ rest
      → i ≡ length pre
      → n ≡ length pre + length rest
      → length rest < fuel
      → AreBytes rest
      → length out + 4 * ((length rest + 2) / 3) ≤ cap
      → finish input n cap (encode_loop fuel input n cap i out) ≡ returns (out ++ reference rest)
  encode_from zero input pre rest i out ei el e short bytes room = absurd (omega arith)
  encode_from (suc fuel) input pre [] i out ei el e short bytes room =
      rw (ei, el)
        (stopped pre [] fuel out e (omega arith)
          ∙ rw append-nil (
              encode_rest_none pre n cap out small (omega arith)
              ∙ ap returns (sym (unfold reference in append-nil out))))
  encode_from (suc fuel) input pre (a ∷ []) i out ei el e short bytes room =
      rw (ei, el)
        (stopped pre (a ∷ []) fuel out e (omega arith)
          ∙ encode_rest_one pre n cap out small a e bytes.0 (omega arith))
  encode_from (suc fuel) input pre (a ∷ b ∷ []) i out ei el e short bytes room =
      rw (ei, el)
        (stopped pre (a ∷ b ∷ []) fuel out e (omega arith)
          ∙ encode_rest_two pre n cap out small a b e bytes.0 bytes.1.0 (omega arith))
  encode_from (suc fuel) input pre (a ∷ b ∷ c ∷ rest) i out ei el e short bytes room =
      let more : ltb i (sub64 n 2) ≡ true = lt→ltb _ _ (omega arith) in
      let group =
        encode_group_lem pre a b c rest cap i out el (omega arith) bytes.0 bytes.1.0 bytes.1.1.0
          (omega arith) in
      rw (encode_loop-step n input cap fuel i out (out ++ quad a b c) more (rw ei group)) (
        encode_from fuel input (pre ++ (a ∷ b ∷ c ∷ [])) rest (add64 i 3) (out ++ quad a b c)
          (ei ∙ sym (append_assoc pre (a ∷ b ∷ c ∷ []) rest)) (omega (arith, length-append {0}))
          (omega (arith, length-append {0})) (omega arith) bytes.1.1.1
          (omega (arith, length-append {0}))
        ∙ ap returns (unfold reference in append_assoc out (quad a b c) (reference rest)))

-- On two bytes or more, `Encode` stays inside its buffers and writes the reference encoding, which
-- has four characters for every three bytes begun.
pub encode-eq-reference :
    (input : Bytes)
    → 2 ≤ length input
    → length input < 2 ^ 62
    → AreBytes input
    → encode input ≡ returns (reference input)
encode-eq-reference input two small bytes =
    unfold encode in
    encode_from (length input) (encoded_len (length input)) two small (suc (length input)) input []
      input 0 [] refl refl (omega arith) (omega arith) bytes (omega arith)

-- On an empty input or one byte, `in_len - 2` wraps, and the loop reads outside of the input.
pub encode_short : (input : Bytes) → length input < 2 → encode input ≡ undefined
encode_short [] h = unfold encode encode_loop encode_group read in refl
encode_short (a ∷ []) h =
    unfold encode encode_loop encode_group in
    rw (read-at [] (a ∷ []) 0 0 a refl refl) (
      rw (put_sextet_lem 4 [] (sextet_0 a) (sextet_0 a) refl (omega arith) (omega arith))
        (unfold read in refl))
encode_short (a ∷ b ∷ input) h = absurd (omega arith)
