-- ===== src/Transfer/Success.antt =====
-- `GetRange` succeeds where nothing goes wrong.
use ps5_ezremote_server.Prelude.{
  ℕ, zero, suc, ◌+◌, ◌≤◌, ◌<◌, ◌^◌, ◌≡◌, ◌≢◌, refl, sym, ap, subst, ◌∙◌, inl, inr, Bool, true,
  false, Option, none, some, [], ◌∷◌, ◌++◌, length, take, drop, ==_iff, if-elim, ◌==◌,
  if◌then◌else◌, arith, length-append,
}
use ps5_ezremote_server.Outcome.{Outcome, returns}
use ps5_ezremote_server.Words.{Bytes, codes, sub64}
use ps5_ezremote_server.Text.{trim}
use ps5_ezremote_server.Transfer.{
  Library, Sink, Transferred, smaller, buf_size, chunk_size, range_loop, nfs_get_range_open,
  nfs_get_range, sftp_get_range_open, sftp_get_range, smb_get_range_open, smb_get_range,
}
use ps5_ezremote_server.Transfer.Contract.{ReadGives, failed, ended, gave, Serves, Delivers}
use ps5_ezremote_server.Transfer.Range.{range_loop-taken, fetch-Delivers, chunk_size_pos}

-- A success, with some bytes.
record Succeeds (m : Outcome Transferred) : Type 0 where
  bytes : Bytes
  done : m ≡ returns (record { success = true; bytes = bytes })

-- All of the range.
abbrev pub range_of : Bytes → ℕ → ℕ → Outcome Transferred
range_of content size offset =
    returns (record { success = true; bytes = take size (drop offset content) })

whole_range :
    (content : Bytes) (size offset : ℕ) (m : Outcome Transferred)
    → Delivers content size offset m
    → Succeeds m
    → m ≡ range_of content size offset
whole_range content size offset m delivers succeeds =
    let same : delivers.result ≡ record { success = true; bytes = succeeds.bytes } =
      cc (delivers.done, succeeds.done) in
    let success = ap (λ (t : Transferred). t.success) same in
    elim delivers.all [
      | inl failure ↦ cc (failure, success)
      | inr size_sent ↦
          succeeds.done
          ∙ ap (λ b. returns (record { success = true; bytes = b }))
              (sym (ap (λ (t : Transferred). t.bytes) same)
                ∙ delivers.part
                ∙ ap (λ k. take k (drop offset content)) size_sent)
    ]

-- No read fails, the sink takes every chunk, and the range lies inside of the file.
module _ {S : Type 0} (library : Library S) (content : Bytes) (At : ℕ → S → Type 0)
    (serves : Serves library content At) (sink : Sink) (size offset : ℕ) (small : size < 2 ^ 64)
    (reliable : (n : ℕ) (s : S) → (library.read n s).0 ≢ none)
    (takes : (sent chunk : Bytes) → sink sent chunk ≡ true)
    (inside : offset + size ≤ length content) where
  abbrev Rest : ℕ → ℕ → Type 0
  Rest chunk fuel =
      (remaining : ℕ) (sent : Bytes) (s : S)
      → remaining < fuel
      → length sent + remaining ≡ size
      → At (offset + length sent) s
      → Succeeds (range_loop library sink chunk fuel remaining sent s)

  one_turn :
      (chunk fuel left : ℕ) (sent : Bytes) (s : S)
      → Rest chunk fuel
      → suc left < suc fuel
      → length sent + suc left ≡ size
      → (r : Option Bytes × S) → library.read (smaller chunk (suc left)) s ≡ r
      → ReadGives content At (smaller chunk (suc left)) (offset + length sent) r
      → Succeeds (range_loop library sink chunk (suc fuel) (suc left) sent s)
  one_turn chunk fuel left sent s rest enough total r e (failed s') =
      absurd (reliable (smaller chunk (suc left)) s (ap (λ (p : Option Bytes × S). p.0) e))
  one_turn chunk fuel left sent s rest enough total r e (ended s' past at) = absurd (omega arith)
  one_turn chunk fuel left sent s rest enough total r e (gave b got s' few same at) =
      let fits : suc (length got) ≤ suc left = ground (arith, few) in
      let less : sub64 (suc left) (length (b ∷ got)) + suc (length got) ≡ suc left =
        omega (arith, fits) in
      let len = length-append sent (b ∷ got) in
      rw (range_loop-taken library sink chunk fuel left sent s s' b got e (takes sent (b ∷ got))) (
        rest (sub64 (suc left) (length (b ∷ got))) (sent ++ (b ∷ got)) s' (omega (arith, less))
          (omega (arith, less, len)) (subst (λ p. At p s') (omega (arith, len)) at))

  range_loop-Succeeds :
      (fuel chunk remaining : ℕ) (sent : Bytes) (s : S)
      → 0 < chunk
      → remaining < fuel
      → length sent + remaining ≡ size
      → At (offset + length sent) s
      → Succeeds (range_loop library sink chunk fuel remaining sent s)
  range_loop-Succeeds zero chunk remaining sent s some_room enough total at = absurd (omega arith)
  range_loop-Succeeds (suc fuel) chunk zero sent s some_room enough total at =
      unfold range_loop in record { bytes = sent; done = refl }
  range_loop-Succeeds (suc fuel) chunk (suc left) sent s some_room enough total at =
      one_turn chunk fuel left sent s
        (λ remaining sent' s' enough' total' at'.
          range_loop-Succeeds fuel chunk remaining sent' s' some_room enough' total' at')
        enough total _ refl
        (serves.reads (smaller chunk (suc left)) (offset + length sent) s (ground arith) at)

  fetch_whole :
      (chunk : ℕ) (s : S)
      → 0 < chunk
      → At offset s
      → range_loop library sink chunk (suc size) size [] s ≡ range_of content size offset
  fetch_whole chunk s some_room at =
      whole_range content size offset _
        (fetch-Delivers library content At serves sink size offset small chunk s some_room at)
        (range_loop-Succeeds (suc size) chunk size [] s some_room (omega arith) (omega arith)
          (subst (λ p. At p s) (omega arith) at))

  abbrev given : Option S → (S → Outcome Transferred) → Outcome Transferred
  given o f = elim o [ none ↦ returns (record { success = false; bytes = [] }) | some s ↦ f s ]

  abbrev tested : Bool → Outcome Transferred → Outcome Transferred
  tested b m = if b then m else returns (record { success = false; bytes = [] })

  -- The file is opened, and the seek moves the position.
  module _ (path : Bytes) (s s' : S) (moved : (library.seek offset s').0 ≡ true) where
    at_offset : (p : Bytes) → library.open_file p s ≡ some s' → At offset (library.seek offset s').1
    at_offset p e = serves.seeks offset 0 s' (serves.opens p s s' e) moved

    nfs_whole :
        library.open_file path s ≡ some s'
        → nfs_get_range library path sink size offset s ≡ range_of content size offset
    unfolding nfs_get_range nfs_get_range_open
    nfs_whole e =
        ap (λ o. given o (nfs_get_range_open library sink size offset)) e
        ∙ ap
            (λ b.
              tested b
                (range_loop library sink buf_size (suc size) size [] (library.seek offset s').1))
            moved
        ∙ fetch_whole buf_size (library.seek offset s').1 (omega arith) (at_offset path e)

    sftp_whole :
        library.open_file path s ≡ some s'
        → sftp_get_range library path sink size offset s ≡ range_of content size offset
    unfolding sftp_get_range sftp_get_range_open
    sftp_whole e =
        ap (λ o. given o (sftp_get_range_open library sink size offset)) e
        ∙ fetch_whole buf_size (library.seek offset s').1 (omega arith) (at_offset path e)

    smb_open_whole :
        (negotiated : ℕ)
        → At offset (library.seek offset s').1
        → smb_get_range_open library true negotiated sink size offset s'
          ≡ range_of content size offset
    unfolding smb_get_range_open
    smb_open_whole negotiated at =
        if-elim (λ m. m ≡ range_of content size offset) (size == 0) _ _
          (λ none_asked.
            ap (λ k. returns (record { success = true; bytes = take k (drop offset content) }))
              (sym ((==_iff size 0).0 none_asked)))
          (λ _.
            ap
              (λ b. tested b (
                range_loop library sink (chunk_size library negotiated) (suc size) size []
                  (library.seek offset s').1))
              moved
            ∙ fetch_whole (chunk_size library negotiated) (library.seek offset s').1
                (chunk_size_pos library content At serves sink size offset small negotiated) at)

    smb_whole :
        (negotiated : ℕ)
        → library.open_file (trim path (codes "/")) s ≡ some s'
        → smb_get_range library path true negotiated sink size offset s
          ≡ range_of content size offset
    unfolding smb_get_range
    smb_whole negotiated e =
        ap (λ o. given o (smb_get_range_open library true negotiated sink size offset)) e
        ∙ smb_open_whole negotiated (at_offset (trim path (codes "/")) e)

-- Over a library that serves a file of this content and fails no read, and with a sink that takes
-- every chunk: if the path opens, the seek moves the position and the range lies inside of the
-- file, then `GetRange` of the NFS client and that of the SFTP client return success, and the sink
-- has the whole range.
pub get_range_succeeds :
    {S : Type 0} (library : Library S) (content : Bytes) (At : ℕ → S → Type 0) (path : Bytes)
    (sink : Sink) (size offset : ℕ) (s s' : S)
    → Serves library content At
    → size < 2 ^ 64
    → ((n : ℕ) (at : S) → (library.read n at).0 ≢ none)
    → ((sent chunk : Bytes) → sink sent chunk ≡ true)
    → offset + size ≤ length content
    → library.open_file path s ≡ some s'
    → (library.seek offset s').0 ≡ true
    → (nfs_get_range library path sink size offset s ≡ range_of content size offset)
      × (sftp_get_range library path sink size offset s ≡ range_of content size offset)
get_range_succeeds library content At path sink size offset s s' serves small reliable takes inside
      opened moved =
    (
      nfs_whole library content At serves sink size offset small reliable takes inside path s s'
          moved opened,
      sftp_whole library content At serves sink size offset small reliable takes inside path s s'
          moved opened,
    )

-- In the same situation, with the path that `Trim` leaves, `GetRange` of a connected SMB client
-- returns success, and the sink has the whole range, whatever read size was negotiated.
pub smb_get_range_succeeds :
    {S : Type 0} (library : Library S) (content : Bytes) (At : ℕ → S → Type 0) (path : Bytes)
    (negotiated : ℕ) (sink : Sink) (size offset : ℕ) (s s' : S)
    → Serves library content At
    → size < 2 ^ 64
    → ((n : ℕ) (at : S) → (library.read n at).0 ≢ none)
    → ((sent chunk : Bytes) → sink sent chunk ≡ true)
    → offset + size ≤ length content
    → library.open_file (trim path (codes "/")) s ≡ some s'
    → (library.seek offset s').0 ≡ true
    → smb_get_range library path true negotiated sink size offset s ≡ range_of content size offset
smb_get_range_succeeds library content At path negotiated sink size offset s s' serves small
      reliable takes inside opened moved =
    smb_whole library content At serves sink size offset small reliable takes inside path s s' moved
      negotiated opened
