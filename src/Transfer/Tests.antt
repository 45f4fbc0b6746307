-- ===== src/Transfer/Tests.antt =====
-- A library over a file in memory, and the theorems about the transfers at it.
use ps5_ezremote_server.Prelude.{
  ℕ, zero, suc, ◌+◌, ◌≤◌, ◌<◌, ◌≡◌, refl, sym, ap, ◌∙◌, true, some, [], ◌∷◌, length, take, drop,
  arith,
}
use ps5_ezremote_server.Words.{Bytes, codes}
use ps5_ezremote_server.Transfer.{Library, Sink, nfs_get_range, sftp_get_range, smb_get_range, get}
use ps5_ezremote_server.Transfer.Contract.{ReadGives, ended, gave, Serves, Delivers}
use ps5_ezremote_server.Transfer.Paths.{
  nfs_get_range-Delivers, sftp_get_range-Delivers, smb_get_range-Delivers,
}
use ps5_ezremote_server.Transfer.Success.{range_of, get_range_succeeds, smb_get_range_succeeds}
use ps5_ezremote_server.Transfer.Whole.{appends, Fetches, get-Fetches}

-- The state is the position.
abbrev in_memory : Bytes → Library ℕ
in_memory content = record {
  open_file = λ path s. some 0;
  seek = λ offset s. (true, offset);
  read = λ n s. (some (take n (drop s content)), s + length (take n (drop s content)));
}

abbrev AtPosition : ℕ → ℕ → Type 0
AtPosition pos s = s ≡ pos

take-length : (n : ℕ) (l : Bytes) → take (length (take n l)) l ≡ take n l
take-length zero l = refl
take-length (suc n) [] = refl
take-length (suc n) (x ∷ l) = ap (λ t. x ∷ t) (take-length n l)

length-take : (n : ℕ) (l : Bytes) → length (take n l) ≤ n
length-take zero l = omega arith
length-take (suc n) [] = omega arith
length-take (suc n) (x ∷ l) = omega (arith, length-take n l)

nothing_behind : (n pos : ℕ) (l : Bytes) → take (suc n) (drop pos l) ≡ [] → length l ≤ pos
nothing_behind n zero [] h = omega arith
nothing_behind n zero (x ∷ l) h = cc
nothing_behind n (suc pos) [] h = omega arith
nothing_behind n (suc pos) (x ∷ l) h = omega (arith, nothing_behind n pos l h)

read-ReadGives :
    (content : Bytes) (n pos : ℕ) (got : Bytes)
    → take (suc n) (drop pos content) ≡ got
    → ReadGives content AtPosition (suc n) pos (some got, pos + length got)
read-ReadGives content n pos [] e = ended (pos + 0) (nothing_behind n pos content e) (omega arith)
read-ReadGives content n pos (b ∷ got) e =
    gave b got (pos + suc (length got))
      (omega (arith, ap length e, length-take (suc n) (drop pos content)))
      (sym e
        ∙ sym (take-length (suc n) (drop pos content))
        ∙ ap (λ l. take (length l) (drop pos content)) e)
      refl

in_memory-reads :
    (content : Bytes) (n pos s : ℕ)
    → 0 < n
    → s ≡ pos
    → ReadGives content AtPosition n pos ((in_memory content).read n s)
in_memory-reads content zero pos s h at = absurd (omega arith)
in_memory-reads content (suc n) pos s h at =
    rw at (read-ReadGives content n pos (take (suc n) (drop pos content)) refl)

in_memory-Serves : (content : Bytes) → Serves (in_memory content) content AtPosition
in_memory-Serves content = record {
  opens = λ path s s' e. cc;
  seeks = λ offset pos s at moved. refl;
  reads = in_memory-reads content;
}

abbrev file_content : Bytes
file_content = codes "contents of a package"

-- A sink that takes everything.
abbrev open_sink : Sink
open_sink sent chunk = true

nfs_get_range-Delivers_example :
    Delivers file_content 8 3 (nfs_get_range (in_memory file_content) (codes "/p") open_sink 8 3 0)
nfs_get_range-Delivers_example =
    nfs_get_range-Delivers (in_memory file_content) file_content AtPosition (codes "/p") open_sink 8
      3 0 (in_memory-Serves file_content) (omega arith)

sftp_get_range-Delivers_example :
    Delivers file_content 8 3 (sftp_get_range (in_memory file_content) (codes "/p") open_sink 8 3 0)
sftp_get_range-Delivers_example =
    sftp_get_range-Delivers (in_memory file_content) file_content AtPosition (codes "/p") open_sink
      8 3 0 (in_memory-Serves file_content) (λ to open_file. refl) (omega arith)

smb_get_range-Delivers_example :
    Delivers file_content 8 3
      (smb_get_range (in_memory file_content) (codes "/p") true 4 open_sink 8 3 0)
smb_get_range-Delivers_example =
    smb_get_range-Delivers (in_memory file_content) file_content AtPosition (codes "/p") true 4
      open_sink 8 3 0 (in_memory-Serves file_content) (omega arith)

get-Fetches_example :
    Fetches file_content
      (get (in_memory file_content) appends 22 true (codes "contents") (codes "/p") 8 0 0)
get-Fetches_example =
    get-Fetches (in_memory file_content) file_content AtPosition true (codes "contents")
      (codes "/p") 0 0 (in_memory-Serves file_content) (λ to open_file. refl) refl

get_range_succeeds_example :
    (nfs_get_range (in_memory file_content) (codes "/p") open_sink 8 3 0
      ≡ range_of file_content 8 3)
    × (sftp_get_range (in_memory file_content) (codes "/p") open_sink 8 3 0
        ≡ range_of file_content 8 3)
get_range_succeeds_example =
    get_range_succeeds (in_memory file_content) file_content AtPosition (codes "/p") open_sink 8 3 0
      0 (in_memory-Serves file_content) (omega arith) (λ n at e. cc) (λ sent chunk. refl)
      (omega arith) refl refl

smb_get_range_succeeds_example :
    smb_get_range (in_memory file_content) (codes "/p") true 4 open_sink 8 3 0
    ≡ range_of file_content 8 3
smb_get_range_succeeds_example =
    smb_get_range_succeeds (in_memory file_content) file_content AtPosition (codes "/p") 4 open_sink
      8 3 0 0 (in_memory-Serves file_content) (omega arith) (λ n at e. cc) (λ sent chunk. refl)
      (omega arith) refl refl
