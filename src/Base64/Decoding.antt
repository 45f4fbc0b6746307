-- ===== src/Base64/Decoding.antt =====
-- The loop of `Decode` over the characters of the reference encoding.
use ps5_ezremote_server.Prelude.{
  ℕ, zero, suc, ◌+◌, ◌*◌, ◌/◌, ◌%◌, ◌^◌, ◌≤◌, ◌<◌, ◌≡◌, refl, sym, ap, ◌∙◌, [], ◌∷◌, ◌++◌,
  append-nil, append_assoc, length, length-append, get_elem?, lt→ltb, le→ltb, some, arith,
}
use ps5_ezremote_server.Outcome.{returns}
use ps5_ezremote_server.Words.{Bytes, AreBytes, add64, low_bits, shr}
use ps5_ezremote_server.Base64.{decode_sextet, decode_loop, push, push_triple, triple}
use ps5_ezremote_server.Base64.Reference.{
  reference, sextet_char, read-decoding_table, sextet_char_plain,
}
use ps5_ezremote_server.Base64.Encoding.{read-at}

-- The character `c`, wherever it stands, is read as the sextet `v`.
abbrev Decodes : ℕ → ℕ → Type 0
Decodes c v =
    (pre rest : Bytes) (i k : ℕ)
    → i ≡ length pre + k
    → get_elem? rest k ≡ some c
    → decode_sextet (pre ++ rest) i ≡ returns v

sextet_char-Decodes : (v : ℕ) → v < 64 → Decodes (sextet_char v) v
sextet_char-Decodes v hv pre rest i k at h =
    let (ascii, plain) = sextet_char_plain v hv in
    unfold decode_sextet in
    rw (read-at pre rest i k (sextet_char v) at h, plain, ascii) (read-decoding_table v hv)

padding-Decodes : Decodes b'=' 0
padding-Decodes pre rest i k at h = unfold decode_sextet in rw (read-at pre rest i k b'=' at h) refl

push_lem :
    (out_len : ℕ) (out : Bytes) (b c : ℕ)
    → b ≡ c
    → length out < out_len
    → push out_len out b ≡ out ++ (c ∷ [])
push_lem out_len out b c e h = unfold push in rw (e, lt→ltb _ _ h) refl

push_full : (out_len : ℕ) (out : Bytes) (b : ℕ) → out_len ≤ length out → push out_len out b ≡ out
push_full out_len out b h = unfold push in rw (le→ltb _ _ h) refl

module _ (out_len : ℕ) (out : Bytes) (t a b c : ℕ) (joined : t ≡ a * 65536 + b * 256 + c)
    (ha : a < 256) (hb : b < 256) (hc : c < 256) where
  first : low_bits (shr t (2 * 8)) 8 ≡ a
  first = omega arith

  second : low_bits (shr t (1 * 8)) 8 ≡ b
  second = omega arith

  third : low_bits (shr t (0 * 8)) 8 ≡ c
  third = omega arith

  push_three : length out + 3 ≤ out_len → push_triple out_len out t ≡ out ++ (a ∷ b ∷ c ∷ [])
  push_three room =
      unfold push_triple in
      rw
        (
          push_lem out_len out _ a first (omega arith),
          push_lem out_len out_1 _ b second (omega (arith, length-append {0})),
          push_lem out_len out_2 _ c third (omega (arith, length-append {0})),
        )
        (simp append_assoc)
    where
      out_1 : Bytes
      out_1 = out ++ (a ∷ [])

      out_2 : Bytes
      out_2 = out_1 ++ (b ∷ [])

  push_two : length out + 2 ≡ out_len → push_triple out_len out t ≡ out ++ (a ∷ b ∷ [])
  push_two room =
      unfold push_triple in
      rw
        (
          push_lem out_len out _ a first (omega arith),
          push_lem out_len out_1 _ b second (omega (arith, length-append {0})),
          push_full out_len out_2 _ (omega (arith, length-append {0})),
        )
        (simp append_assoc)
    where
      out_1 : Bytes
      out_1 = out ++ (a ∷ [])

      out_2 : Bytes
      out_2 = out_1 ++ (b ∷ [])

  push_one : length out + 1 ≡ out_len → push_triple out_len out t ≡ out ++ (a ∷ [])
  push_one room =
      unfold push_triple in
      rw
        (
          push_lem out_len out _ a first (omega arith),
          push_full out_len out_1 _ (omega (arith, length-append {0})),
          push_full out_len out_1 _ (omega (arith, length-append {0})),
        )
        refl
    where
      out_1 : Bytes
      out_1 = out ++ (a ∷ [])

module _ (n : ℕ) (input : Bytes) (out_len i : ℕ) (out : Bytes) where
  decode_loop-stop : (fuel : ℕ) → n ≤ i → decode_loop (suc fuel) input n out_len i out ≡ returns out
  decode_loop-stop fuel h = unfold decode_loop in ground arith

  decode_loop-step :
      (fuel a b c d : ℕ)
      → i < n
      → decode_sextet input i ≡ returns a
      → decode_sextet input (add64 i 1) ≡ returns b
      → decode_sextet input (add64 i 2) ≡ returns c
      → decode_sextet input (add64 i 3) ≡ returns d
      → decode_loop (suc fuel) input n out_len i out
        ≡ decode_loop fuel input n out_len (add64 i 4) (push_triple out_len out (triple a b c d))
  decode_loop-step fuel a b c d h ra rb rc rd =
      unfold decode_loop in rw (lt→ltb i n h, ra, rb, rc, rd, decode_loop) refl

module _ (n out_len : ℕ) (small : n < 2 ^ 62) where
  decode_group :
      (fuel : ℕ) (input pre tail : Bytes) (w x y z i : ℕ) (out : Bytes) {a b c d : ℕ}
      → Decodes w a
      → Decodes x b
      → Decodes y c
      → Decodes z d
      → input ≡ pre ++ (w ∷ x ∷ y ∷ z ∷ tail)
      → i ≡ length pre
      → n ≡ length pre + (4 + length tail)
      → decode_loop (suc fuel) input n out_len i out
        ≡ decode_loop fuel input n out_len (add64 i 4) (push_triple out_len out (triple a b c d))
  decode_group fuel input pre tail w x y z i out {a} {b} {c} {d} dw dx dy dz ei el e =
      let all = w ∷ x ∷ y ∷ z ∷ tail in
      decode_loop-step n input out_len i out fuel a b c d (omega arith)
        (rw ei (dw pre all i 0 (omega arith) refl))
        (rw ei (dx pre all (add64 i 1) 1 (omega arith) refl))
        (rw ei (dy pre all (add64 i 2) 2 (omega arith) refl))
        (rw ei (dz pre all (add64 i 3) 3 (omega arith) refl))

  pub decode_from :
      (fuel : ℕ) (input pre xs : Bytes) (i : ℕ) (out : Bytes)
      → input ≡ pre ++ reference xs
      → i ≡ length pre
      → n ≡ length pre + length (reference xs)
      → length (reference xs) < fuel
      → AreBytes xs
      → length out + length xs ≡ out_len
      → decode_loop fuel input n out_len i out ≡ returns (out ++ xs)
  unfolding reference
  decode_from zero input pre xs i out ei el e short bytes room = absurd (omega arith)
  decode_from (suc fuel) input pre [] i out ei el e short bytes room =
      decode_loop-stop n input out_len i out fuel (omega arith) ∙ ap returns (sym (append-nil out))
  decode_from (suc fuel) input pre (a ∷ []) i out ei el e short bytes room =
      let t = triple (a / 4) (a % 4 * 16) 0 0 in
      decode_group fuel input pre [] _ _ _ _ i out (sextet_char-Decodes (a / 4) (omega arith))
        (sextet_char-Decodes (a % 4 * 16) (omega arith)) padding-Decodes padding-Decodes ei el e
      ∙ rw
          (push_one out_len out t a 0 0 (omega arith) bytes.0 (omega arith) (omega arith)
            (omega arith))
          (decode_from fuel input (pre ++ reference (a ∷ [])) [] (add64 i 4) (out ++ (a ∷ []))
              (ei ∙ sym (append-nil _)) (omega (arith, length-append {0}))
              (omega (arith, length-append {0})) (omega arith) tt (omega (arith, length-append {0}))
            ∙ ap returns (append-nil _))
  decode_from (suc fuel) input pre (a ∷ b ∷ []) i out ei el e short bytes room =
      let t = triple (a / 4) (a % 4 * 16 + b / 16) (b % 16 * 4) 0 in
      decode_group fuel input pre [] _ _ _ _ i out (sextet_char-Decodes (a / 4) (omega arith))
        (sextet_char-Decodes (a % 4 * 16 + b / 16) (omega arith))
        (sextet_char-Decodes (b % 16 * 4) (omega arith)) padding-Decodes ei el e
      ∙ rw
          (push_two out_len out t a b 0 (omega arith) bytes.0 bytes.1.0 (omega arith) (omega arith))
          (decode_from fuel input (pre ++ reference (a ∷ b ∷ [])) [] (add64 i 4)
              (out ++ (a ∷ b ∷ [])) (ei ∙ sym (append-nil _)) (omega (arith, length-append {0}))
              (omega (arith, length-append {0})) (omega arith) tt (omega (arith, length-append {0}))
            ∙ ap returns (append-nil _))
  decode_from (suc fuel) input pre (a ∷ b ∷ c ∷ xs) i out ei el e short bytes room =
      let t = triple (a / 4) (a % 4 * 16 + b / 16) (b % 16 * 4 + c / 64) (c % 64) in
      decode_group fuel input pre (reference xs) _ _ _ _ i out
        (sextet_char-Decodes (a / 4) (omega arith))
        (sextet_char-Decodes (a % 4 * 16 + b / 16) (omega arith))
        (sextet_char-Decodes (b % 16 * 4 + c / 64) (omega arith))
        (sextet_char-Decodes (c % 64) (omega arith)) ei el (omega arith)
      ∙ rw
          (push_three out_len out t a b c (omega arith) bytes.0 bytes.1.0 bytes.1.1.0 (omega arith))
          (decode_from fuel input (pre ++ reference (a ∷ b ∷ c ∷ [])) xs (add64 i 4)
              (out ++ (a ∷ b ∷ c ∷ []))
              (ei ∙ sym (append_assoc pre (reference (a ∷ b ∷ c ∷ [])) (reference xs)))
              (omega (arith, length-append {0})) (omega (arith, length-append {0})) (omega arith)
              bytes.1.1.1 (omega (arith, length-append {0}))
            ∙ ap returns (append_assoc out (a ∷ b ∷ c ∷ []) xs))
