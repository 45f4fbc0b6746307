-- ===== src/Transfer/Whole.antt =====
-- What `Get` leaves in the output file, and that an interrupted one can be resumed.
use ps5_ezremote_server.Prelude.{
  ℕ, zero, suc, ◌+◌, ◌%◌, ◌^◌, ◌≤◌, ◌<◌, ◌≡◌, refl, ap, subst, ◌∙◌, ◌⊎◌, inl, inr, Bool, true,
  false, Option, none, some, [], ◌∷◌, ◌++◌, length, take, drop, ltb, if-elim, arith, length-append,
}
use ps5_ezremote_server.Outcome.{Outcome, returns}
use ps5_ezremote_server.Words.{Bytes, add64}
use ps5_ezremote_server.Transfer.{Library, Store, Transferred, buf_size, get_loop, get}
use ps5_ezremote_server.Transfer.Paths.{opened_or_not}
use ps5_ezremote_server.Transfer.Contract.{ReadGives, failed, ended, gave, Serves, longer_part}

-- The file grows by what is written.
abbrev pub appends : Store
appends file chunk = file ++ chunk

-- A result, with a file that is a beginning of the content; all of it if it is a success, and then
-- the count of what was transferred is the file's length.
pub record Fetches (content : Bytes) (m : Outcome (Transferred × ℕ)) : Type 0 where
  pub result : Transferred
  pub transfered : ℕ
  pub done : m ≡ returns (result, transfered)
  pub part : result.bytes ≡ take (length result.bytes) content
  pub all :
      (result.success ≡ false)
      ⊎ ((result.bytes ≡ content) × (transfered % 2 ^ 64 ≡ length content % 2 ^ 64))

take-all : (k : ℕ) (l : Bytes) → length l ≤ k → take k l ≡ l
take-all zero [] h = refl
take-all zero (x ∷ l) h = absurd (omega arith)
take-all (suc k) [] h = refl
take-all (suc k) (x ∷ l) h = ap (λ t. x ∷ t) (take-all k l (omega arith))

length-take-le : (k : ℕ) (l : Bytes) → length (take k l) ≤ length l
length-take-le zero l = omega arith
length-take-le (suc k) [] = omega arith
length-take-le (suc k) (x ∷ l) = omega (arith, length-take-le k l)

module _ {S : Type 0} (library : Library S) (fuel : ℕ) (file : Bytes) (transfered : ℕ)
    (s s' : S) where
  get_loop-failed :
      library.read buf_size s ≡ (none, s')
      → get_loop library appends (suc fuel) file transfered s
        ≡ returns (record { success = false; bytes = file }, transfered)
  get_loop-failed e =
      let g = ap (λ (p : Option Bytes × S). p.0) e in unfold get_loop in ground (arith, g)

  get_loop-ended :
      library.read buf_size s ≡ (some [], s')
      → get_loop library appends (suc fuel) file transfered s
        ≡ returns (record { success = true; bytes = file }, transfered)
  get_loop-ended e =
      let g = ap (λ (p : Option Bytes × S). p.0) e in unfold get_loop in ground (arith, g)

  get_loop-gave :
      (b : ℕ) (got : Bytes)
      → library.read buf_size s ≡ (some (b ∷ got), s')
      → get_loop library appends (suc fuel) file transfered s
        ≡ get_loop library appends fuel (file ++ (b ∷ got)) (add64 transfered (suc (length got))) s'
  get_loop-gave b got e =
      let g = ap (λ (p : Option Bytes × S). p.0) e in
      let g' = ap (λ (p : Option Bytes × S). p.1) e in unfold get_loop in ground (arith, g, g')

module _ {S : Type 0} (library : Library S) (content : Bytes) (At : ℕ → S → Type 0)
    (serves : Serves library content At) where
  -- The turns that follow.
  abbrev Rest : ℕ → Type 0
  Rest fuel =
      (file : Bytes) (transfered : ℕ) (s : S)
      → transfered % 2 ^ 64 ≡ length file % 2 ^ 64
      → length content < length file + fuel
      → file ≡ take (length file) content
      → At (length file) s
      → Fetches content (get_loop library appends fuel file transfered s)

  one_turn :
      (fuel : ℕ) (file : Bytes) (transfered : ℕ) (s : S)
      → Rest fuel
      → transfered % 2 ^ 64 ≡ length file % 2 ^ 64
      → length content < length file + suc fuel
      → file ≡ take (length file) content
      → (r : Option Bytes × S) → library.read buf_size s ≡ r
      → ReadGives content At buf_size (length file) r
      → Fetches content (get_loop library appends (suc fuel) file transfered s)
  one_turn fuel file transfered s rest counted enough part r e (failed s') =
      rw (get_loop-failed library fuel file transfered s s' e) (record {
        result = record { success = false; bytes = file };
        transfered = transfered;
        done = refl;
        part = part;
        all = inl refl;
      })
  one_turn fuel file transfered s rest counted enough part r e (ended s' past at) =
      rw (get_loop-ended library fuel file transfered s s' e) (record {
        result = record { success = true; bytes = file };
        transfered = transfered;
        done = refl;
        part = part;
        all =
            let whole = part ∙ take-all (length file) content past in
            inr (whole, counted ∙ ap (λ l. length l % 2 ^ 64) whole);
      })
  one_turn fuel file transfered s rest counted enough part r e (gave b got s' few same at) =
      let len = length-append file (b ∷ got) in
      rw (get_loop-gave library fuel file transfered s s' b got e) (
        rest (file ++ (b ∷ got)) (add64 transfered (suc (length got))) s'
          (omega (arith, len, counted)) (omega (arith, len))
          (longer_part content file (b ∷ got) 0 part
            (same ∙ ap (λ k. take (suc (length got)) (drop k content)) (omega arith)))
          (subst (λ p. At p s') (omega (arith, len)) at))

  pub get_loop-Fetches :
      (fuel : ℕ) (file : Bytes) (transfered : ℕ) (s : S)
      → transfered % 2 ^ 64 ≡ length file % 2 ^ 64
      → length content < length file + fuel
      → file ≡ take (length file) content
      → At (length file) s
      → Fetches content (get_loop library appends fuel file transfered s)
  get_loop-Fetches zero file transfered s counted enough part at =
      absurd (omega (arith, ap length part, length-take-le (length file) content))
  get_loop-Fetches (suc fuel) file transfered s counted enough part at =
      one_turn fuel file transfered s (get_loop-Fetches fuel) counted enough part _ refl
        (serves.reads buf_size (length file) s (omega arith) at)

-- The file is left as it was.
untouched :
    (content existing : Bytes) (transfered : ℕ)
    → existing ≡ take (length existing) content
    → Fetches content (returns (record { success = false; bytes = existing }, transfered))
untouched content existing transfered part = record {
  result = record { success = false; bytes = existing };
  transfered = transfered;
  done = refl;
  part = part;
  all = inl refl;
}

-- `Get` of a file of this content, over a library that serves it and whose seeks move the position,
-- onto a console that writes every chunk, whether or not it can open the output file. The output
-- file holds a beginning of the content, and the offset is its length, as the download thread
-- passes it. Then `Get` ends, with fuel for one turn more than the content has bytes; the file is a
-- beginning of the content again, so that a later `Get` can go on from it, and if `Get` returns
-- success it is the whole content and `*g_bytes_transfered` is its length, modulo 2^64.
pub get-Fetches :
    {S : Type 0} (library : Library S) (content : Bytes) (At : ℕ → S → Type 0) (creates : Bool)
    (existing path : Bytes) (transfered : ℕ) (s : S)
    → Serves library content At
    → ((to : ℕ) (open_file : S) → (library.seek to open_file).0 ≡ true)
    → existing ≡ take (length existing) content
    → Fetches content (
        get library appends
          (suc (length content))
          creates
          existing
          path
          (length existing)
          transfered
          s)
unfolding get
get-Fetches library content At creates existing path transfered s serves moves part =
    let offset = length existing in
    let fuel = suc (length content) in
    opened_or_not (Fetches content) _ (library.open_file path s) _
      (untouched content existing transfered part)
      (λ s' e.
        if-elim (Fetches content) creates _ _
          (λ _.
            if-elim (Fetches content) (ltb 0 offset) _ _
              (λ _.
                get_loop-Fetches library content At serves fuel existing offset
                  (library.seek offset s').1 refl (omega arith) part
                  (serves.seeks offset 0 s' (serves.opens path s s' e) (moves offset s')))
              (λ zero_offset.
                get_loop-Fetches library content At serves fuel [] offset s'
                  (ground (arith, zero_offset)) (omega arith) refl (serves.opens path s s' e)))
          (λ _. untouched content existing transfered part))
