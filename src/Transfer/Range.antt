-- ===== src/Transfer/Range.antt =====
-- What `GetRange` delivers, over a protocol library that reads a file.
use ps5_ezremote_server.Prelude.{
  ℕ, zero, suc, ◌+◌, ◌≤◌, ◌<◌, ◌^◌, ◌≡◌, refl, ap, subst, ◌⊎◌, inl, inr, Bool, true, false, Option,
  none, some, [], ◌∷◌, ◌++◌, length, take, drop, ◌==◌, Bool-cases, if-elim, arith, length-append,
}
use ps5_ezremote_server.Outcome.{returns}
use ps5_ezremote_server.Words.{Bytes, sub64}
use ps5_ezremote_server.Transfer.{
  Library, Sink, smaller, buf_size, range_loop, nfs_get_range_open, sftp_get_range_open, chunk_size,
  smb_get_range_open,
}
use ps5_ezremote_server.Transfer.Contract.{
  ReadGives, failed, ended, gave, Serves, Delivers, longer_part,
}

module _ {S : Type 0} (library : Library S) (sink : Sink) (chunk fuel left : ℕ) (sent : Bytes)
    (s s' : S) where
  range_loop-stop :
      (got : Option Bytes)
      → library.read (smaller chunk (suc left)) s ≡ (got, s')
      → (got ≡ none) ⊎ (got ≡ some [])
      → range_loop library sink chunk (suc fuel) (suc left) sent s
        ≡ returns (record { success = false; bytes = sent })
  range_loop-stop got e stop =
      let g = ap (λ (p : Option Bytes × S). p.0) e in unfold range_loop in ground (arith, g, stop)

  range_loop-refused :
      (b : ℕ) (buff : Bytes)
      → library.read (smaller chunk (suc left)) s ≡ (some (b ∷ buff), s')
      → sink sent (b ∷ buff) ≡ false
      → range_loop library sink chunk (suc fuel) (suc left) sent s
        ≡ returns (record { success = false; bytes = sent })
  range_loop-refused b buff e refusal =
      let g = ap (λ (p : Option Bytes × S). p.0) e in
      unfold range_loop in ground (arith, g, refusal)

  pub range_loop-taken :
      (b : ℕ) (buff : Bytes)
      → library.read (smaller chunk (suc left)) s ≡ (some (b ∷ buff), s')
      → sink sent (b ∷ buff) ≡ true
      → range_loop library sink chunk (suc fuel) (suc left) sent s
        ≡ range_loop library sink chunk fuel
            (sub64 (suc left) (length (b ∷ buff)))
            (sent ++ (b ∷ buff))
            s'
  range_loop-taken b buff e taken =
      let g = ap (λ (p : Option Bytes × S). p.0) e in
      let g' = ap (λ (p : Option Bytes × S). p.1) e in
      unfold range_loop in ground (arith, g, g', taken)

module _ {S : Type 0} (library : Library S) (content : Bytes) (At : ℕ → S → Type 0)
    (serves : Serves library content At) (sink : Sink) (size offset : ℕ)
    (small : size < 2 ^ 64) where
  stopped_short :
      (sent : Bytes)
      → sent ≡ take (length sent) (drop offset content)
      → length sent ≤ size
      → Delivers content size offset (returns (record { success = false; bytes = sent }))
  stopped_short sent part most = record {
    result = record { success = false; bytes = sent };
    done = refl;
    part = part;
    most = most;
    all = inl refl;
  }

  -- The turns that follow, for what is then left.
  abbrev Rest : ℕ → ℕ → Type 0
  Rest chunk fuel =
      (remaining : ℕ) (sent : Bytes) (s : S)
      → remaining < fuel
      → length sent + remaining ≡ size
      → sent ≡ take (length sent) (drop offset content)
      → At (offset + length sent) s
      → Delivers content size offset (range_loop library sink chunk fuel remaining sent s)

  one_turn :
      (chunk fuel left : ℕ) (sent : Bytes) (s : S)
      → Rest chunk fuel
      → suc left < suc fuel
      → length sent + suc left ≡ size
      → sent ≡ take (length sent) (drop offset content)
      → (r : Option Bytes × S) → library.read (smaller chunk (suc left)) s ≡ r
      → ReadGives content At (smaller chunk (suc left)) (offset + length sent) r
      → Delivers content size offset (range_loop library sink chunk (suc fuel) (suc left) sent s)
  one_turn chunk fuel left sent s rest enough total part r e (failed s') =
      rw (range_loop-stop library sink chunk fuel left sent s s' none e (inl refl))
        (stopped_short sent part (omega arith))
  one_turn chunk fuel left sent s rest enough total part r e (ended s' past at) =
      rw (range_loop-stop library sink chunk fuel left sent s s' (some []) e (inr refl))
        (stopped_short sent part (omega arith))
  one_turn chunk fuel left sent s rest enough total part r e (gave b got s' few same at) =
      let fits : suc (length got) ≤ suc left = ground (arith, few) in
      let less : sub64 (suc left) (length (b ∷ got)) + suc (length got) ≡ suc left =
        omega (arith, fits) in
      let len = length-append sent (b ∷ got) in
      let behind : offset + length sent + suc (length got) ≡ offset + length (sent ++ (b ∷ got)) =
        omega (arith, len) in
      elim (Bool-cases (sink sent (b ∷ got))) [
        | inl taken ↦ rw (range_loop-taken library sink chunk fuel left sent s s' b got e taken) (
            rest (sub64 (suc left) (length (b ∷ got))) (sent ++ (b ∷ got)) s' (omega (arith, less))
              (omega (arith, less, len)) (longer_part content sent (b ∷ got) offset part same)
              (subst (λ p. At p s') behind at))
        | inr refusal ↦
            rw (range_loop-refused library sink chunk fuel left sent s s' b got e refusal)
              (stopped_short sent part (omega arith))
      ]

  pub range_loop-Delivers :
      (fuel chunk remaining : ℕ) (sent : Bytes) (s : S)
      → 0 < chunk
      → remaining < fuel
      → length sent + remaining ≡ size
      → sent ≡ take (length sent) (drop offset content)
      → At (offset + length sent) s
      → Delivers content size offset (range_loop library sink chunk fuel remaining sent s)
  range_loop-Delivers zero chunk remaining sent s some_room enough total part at =
      absurd (omega arith)
  range_loop-Delivers (suc fuel) chunk zero sent s some_room enough total part at =
      unfold range_loop in
      record {
        result = record { success = true; bytes = sent };
        done = refl;
        part = part;
        most = omega arith;
        all = inr (omega arith);
      }
  range_loop-Delivers (suc fuel) chunk (suc left) sent s some_room enough total part at =
      one_turn chunk fuel left sent s
        (λ remaining sent' s' enough' total' part' at'.
          range_loop-Delivers fuel chunk remaining sent' s' some_room enough' total' part' at')
        enough total part _ refl
        (serves.reads (smaller chunk (suc left)) (offset + length sent) s (ground arith) at)

  pub fetch-Delivers :
      (chunk : ℕ) (s : S)
      → 0 < chunk
      → At offset s
      → Delivers content size offset (range_loop library sink chunk (suc size) size [] s)
  fetch-Delivers chunk s some_room at =
      range_loop-Delivers (suc size) chunk size [] s some_room (omega arith) (omega arith) refl
        (subst (λ p. At p s) (omega arith) at)

  pub nothing : Delivers content size offset (returns (record { success = false; bytes = [] }))
  nothing = stopped_short [] refl (omega arith)

  pub nfs_get_range_open-Delivers :
      (pos : ℕ) (s : S)
      → At pos s
      → Delivers content size offset (nfs_get_range_open library sink size offset s)
  unfolding nfs_get_range_open
  nfs_get_range_open-Delivers pos s at =
      if-elim (Delivers content size offset) (library.seek offset s).0 _ _
        (λ moved.
          fetch-Delivers buf_size (library.seek offset s).1 (omega arith)
            (serves.seeks offset pos s at moved))
        (λ _. nothing)

  pub sftp_get_range_open-Delivers :
      (pos : ℕ) (s : S)
      → At pos s
      → (library.seek offset s).0 ≡ true
      → Delivers content size offset (sftp_get_range_open library sink size offset s)
  unfolding sftp_get_range_open
  sftp_get_range_open-Delivers pos s at moved =
      fetch-Delivers buf_size (library.seek offset s).1 (omega arith)
        (serves.seeks offset pos s at moved)

  pub chunk_size_pos : (negotiated : ℕ) → 0 < chunk_size library negotiated
  unfolding chunk_size
  chunk_size_pos negotiated = ground arith

  pub smb_get_range_open-Delivers :
      (connected : Bool) (negotiated pos : ℕ) (s : S)
      → At pos s
      → Delivers content size offset
          (smb_get_range_open library connected negotiated sink size offset s)
  unfolding smb_get_range_open
  smb_get_range_open-Delivers connected negotiated pos s at =
      if-elim (Delivers content size offset) connected _ _
        (λ _.
          if-elim (Delivers content size offset) (size == 0) _ _
            (λ none_asked. record {
              result = record { success = true; bytes = [] };
              done = refl;
              part = refl;
              most = omega arith;
              all = inr (ground (arith, none_asked));
            })
            (λ _.
              if-elim (Delivers content size offset) (library.seek offset s).0 _ _
                (λ moved.
                  fetch-Delivers (chunk_size library negotiated) (library.seek offset s).1
                    (chunk_size_pos negotiated) (serves.seeks offset pos s at moved))
                (λ _. nothing)))
        (λ _. nothing)
