-- ===== src/Transfer.antt =====
-- The transfers of source/clients/nfsclient.cpp, smbclient.cpp and sftpclient.cpp: the two forms of
-- `GetRange`, and `Get`. The protocol library is a parameter: `S` is the state of its session with
-- the file that is open. `malloc` of a buffer gives one. `response`, the text of an error, is left
-- out.
pub mod Contract
pub mod Range
pub mod Paths
pub mod Whole
pub mod Success
mod Tests
use ps5_ezremote_server.Prelude.{
  ℕ, zero, suc, ◌+◌, ◌<◌, Bool, true, false, ◌&&◌, Option, none, some, List, [], ◌∷◌, ◌++◌, length,
  ltb, ◌==◌, if◌then◌else◌,
}
use ps5_ezremote_server.Outcome.{Outcome, returns, out_of_fuel, ◌>>=◌}
use ps5_ezremote_server.Words.{Bytes, codes, add64, sub64}
use ps5_ezremote_server.Text.{trim}

-- What the clients call of a protocol library. `read` gives the bytes read, and `none` for a
-- negative count; `seek` says whether it succeeded.
pub record Library (S : Type 0) : Type 0 where
  pub open_file : Bytes → S → Option S
  pub seek : ℕ → S → Bool × S
  pub read : ℕ → S → Option Bytes × S

-- A sink takes a chunk or not, after the bytes that it has taken so far.
abbrev pub Sink : Type 0
Sink = Bytes → Bytes → Bool

-- How a file on the console takes a chunk: `fwrite` of `FS::Write`, whose result is not looked at.
abbrev pub Store : Type 0
Store = Bytes → Bytes → Bytes

-- A result, 1 or 0 in the code, and the bytes that the sink has taken, or that the file then holds.
pub record Transferred : Type 0 where
  pub success : Bool
  pub bytes : Bytes

abbrev pub smaller : ℕ → ℕ → ℕ
smaller a b = if ltb b a then b else a

abbrev pub buf_size : ℕ
buf_size = 1_048_576

module _ {S : Type 0} (library : Library S) where
  -- `while (bytes_remaining > 0)`
  unfoldable pub range_loop : Sink → ℕ → ℕ → ℕ → Bytes → S → Outcome Transferred
  range_loop sink chunk zero bytes_remaining sent s = out_of_fuel
  range_loop sink chunk (suc fuel) bytes_remaining sent s = elim (ltb 0 bytes_remaining) [
    | false ↦ returns (record { success = true; bytes = sent })
    | true ↦
        let (got, s') = library.read (smaller chunk bytes_remaining) s in
        elim got [
          | none ↦ returns (record { success = false; bytes = sent })
          | some [] ↦ returns (record { success = false; bytes = sent })
          | some (b ∷ buff) ↦ elim (sink sent (b ∷ buff)) [
            | false ↦ returns (record { success = false; bytes = sent })
            | true ↦
                range_loop sink chunk fuel (sub64 bytes_remaining (length (b ∷ buff)))
                  (sent ++ (b ∷ buff)) s'
          ]
        ]
  ]

  abbrev refused : Transferred
  refused = record { success = false; bytes = [] }

  -- The loop reads at least a byte a turn, so the size bounds the turns.
  abbrev fetch_range : Sink → ℕ → ℕ → S → Outcome Transferred
  fetch_range sink chunk size s = range_loop sink chunk (suc size) size [] s

  -- `NfsClient::GetRange` on an open file, and on a path.
  unfoldable pub nfs_get_range_open : Sink → ℕ → ℕ → S → Outcome Transferred
  nfs_get_range_open sink size offset s =
      let (moved, s') = library.seek offset s in
      if moved then fetch_range sink buf_size size s' else returns refused

  unfoldable pub nfs_get_range : Bytes → Sink → ℕ → ℕ → S → Outcome Transferred
  nfs_get_range path sink size offset s = elim (library.open_file path s) [
    | none ↦ returns refused
    | some s' ↦ nfs_get_range_open sink size offset s'
  ]

  -- `SFTPClient::GetRange`: the seek has no result.
  unfoldable pub sftp_get_range_open : Sink → ℕ → ℕ → S → Outcome Transferred
  sftp_get_range_open sink size offset s = fetch_range sink buf_size size (library.seek offset s).1

  unfoldable pub sftp_get_range : Bytes → Sink → ℕ → ℕ → S → Outcome Transferred
  sftp_get_range path sink size offset s = elim (library.open_file path s) [
    | none ↦ returns refused
    | some s' ↦ sftp_get_range_open sink size offset s'
  ]

  -- `smb2_get_max_read_size` gives `negotiated`; 0 is no limit.
  unfoldable pub chunk_size : ℕ → ℕ
  chunk_size negotiated =
      if ltb 0 negotiated && ltb negotiated buf_size then negotiated else buf_size

  -- `SmbClient::GetRange`; `connected` is `smb2 != NULL`.
  unfoldable pub smb_get_range_open : Bool → ℕ → Sink → ℕ → ℕ → S → Outcome Transferred
  smb_get_range_open connected negotiated sink size offset s =
      if connected
      then (if size == 0
          then returns (record { success = true; bytes = [] })
          else (let (moved, s') = library.seek offset s in
              if moved then fetch_range sink (chunk_size negotiated) size s' else returns refused))
      else returns refused

  unfoldable pub smb_get_range : Bytes → Bool → ℕ → Sink → ℕ → ℕ → S → Outcome Transferred
  smb_get_range path connected negotiated sink size offset s =
      if connected
      then elim (library.open_file (trim path (codes "/")) s) [
        | none ↦ returns refused
        | some s' ↦ smb_get_range_open connected negotiated sink size offset s'
      ]
      else returns refused

  -- `get_loop` is the loop of the three `Get`s: a count of 0 ends it. `transfered` is
  -- `*g_bytes_transfered`.
  unfoldable pub get_loop : Store → ℕ → Bytes → ℕ → S → Outcome (Transferred × ℕ)
  get_loop store zero file transfered s = out_of_fuel
  get_loop store (suc fuel) file transfered s =
      let (got, s') = library.read buf_size s in
      elim got [
        | none ↦ returns (record { success = false; bytes = file }, transfered)
        | some [] ↦ returns (record { success = true; bytes = file }, transfered)
        | some (b ∷ buff) ↦
            get_loop store fuel (store file (b ∷ buff)) (add64 transfered (length (b ∷ buff))) s'
      ]

  -- `Get` of the three clients, with fuel, for a path as the library takes it. `existing` is what
  -- the output file holds, which `FS::Create` empties and `FS::Append` keeps, and `creates` says
  -- whether it can be opened. The seek's result is not looked at.
  unfoldable pub get : Store → ℕ → Bool → Bytes → Bytes → ℕ → ℕ → S → Outcome (Transferred × ℕ)
  get store fuel creates existing path offset transfered s = elim (library.open_file path s) [
    | none ↦ returns (record { success = false; bytes = existing }, transfered)
    | some s' ↦
        if creates
        then (if ltb 0 offset
            then get_loop store fuel existing offset (library.seek offset s').1
            else get_loop store fuel [] offset s')
        else returns (record { success = false; bytes = existing }, transfered)
  ]
