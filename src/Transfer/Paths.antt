-- ===== src/Transfer/Paths.antt =====
-- `GetRange` on a path, of the three clients.
use ps5_ezremote_server.Prelude.{ℕ, ◌<◌, ◌^◌, ◌≡◌, refl, Bool, true, Option, none, some, if-elim}
use ps5_ezremote_server.Outcome.{Outcome}
use ps5_ezremote_server.Words.{Bytes, codes}
use ps5_ezremote_server.Text.{trim}
use ps5_ezremote_server.Transfer.{
  Library, Sink, nfs_get_range_open, nfs_get_range, sftp_get_range_open, sftp_get_range,
  smb_get_range_open, smb_get_range,
}
use ps5_ezremote_server.Transfer.Contract.{Serves, Delivers}
use ps5_ezremote_server.Transfer.Range.{
  nothing, nfs_get_range_open-Delivers, sftp_get_range_open-Delivers, smb_get_range_open-Delivers,
}

-- A result of an opened file, or of none.
pub opened_or_not :
    {S A : Type 0} (P : Outcome A → Type 0) (unopened : Outcome A) (o : Option S)
    (f : S → Outcome A)
    → P unopened
    → ((s : S) → o ≡ some s → P (f s))
    → P (elim o [ none ↦ unopened | some s ↦ f s ])
opened_or_not P unopened none f no_file file = no_file
opened_or_not P unopened (some s) f no_file file = file s refl

-- Over a library that serves a file of this content, and whatever the sink takes: `GetRange` of the
-- NFS client ends, and has given the sink bytes of the range alone, in order and each once; if it
-- returns success, all `size` of them.
pub nfs_get_range-Delivers :
    {S : Type 0} (library : Library S) (content : Bytes) (At : ℕ → S → Type 0) (path : Bytes)
    (sink : Sink) (size offset : ℕ) (s : S)
    → Serves library content At
    → size < 2 ^ 64
    → Delivers content size offset (nfs_get_range library path sink size offset s)
unfolding nfs_get_range
nfs_get_range-Delivers library content At path sink size offset s serves small =
    opened_or_not (Delivers content size offset) _ (library.open_file path s)
      (nfs_get_range_open library sink size offset)
      (nothing library content At serves sink size offset small)
      (λ s' e.
        nfs_get_range_open-Delivers library content At serves sink size offset small 0 s'
          (serves.opens path s s' e))

-- `GetRange` of the SFTP client, if every seek moves the position: it ends, and has given the sink
-- bytes of the range alone, in order and each once; if it returns success, all `size` of them.
pub sftp_get_range-Delivers :
    {S : Type 0} (library : Library S) (content : Bytes) (At : ℕ → S → Type 0) (path : Bytes)
    (sink : Sink) (size offset : ℕ) (s : S)
    → Serves library content At
    → ((to : ℕ) (open_file : S) → (library.seek to open_file).0 ≡ true)
    → size < 2 ^ 64
    → Delivers content size offset (sftp_get_range library path sink size offset s)
unfolding sftp_get_range
sftp_get_range-Delivers library content At path sink size offset s serves moves small =
    opened_or_not (Delivers content size offset) _ (library.open_file path s)
      (sftp_get_range_open library sink size offset)
      (nothing library content At serves sink size offset small)
      (λ s' e.
        sftp_get_range_open-Delivers library content At serves sink size offset small 0 s'
          (serves.opens path s s' e) (moves offset s'))

-- `GetRange` of the SMB client, connected or not and whatever read size was negotiated: it ends,
-- and has given the sink bytes of the range alone, in order and each once; if it returns success,
-- all `size` of them.
pub smb_get_range-Delivers :
    {S : Type 0} (library : Library S) (content : Bytes) (At : ℕ → S → Type 0) (path : Bytes)
    (connected : Bool) (negotiated : ℕ) (sink : Sink) (size offset : ℕ) (s : S)
    → Serves library content At
    → size < 2 ^ 64
    → Delivers content size offset
        (smb_get_range library path connected negotiated sink size offset s)
unfolding smb_get_range
smb_get_range-Delivers library content At path connected negotiated sink size offset s serves
      small =
    let unsent = nothing library content At serves sink size offset small in
    if-elim (Delivers content size offset) connected _ _
      (λ _.
        opened_or_not (Delivers content size offset) _ (library.open_file (trim path (codes "/")) s)
          (smb_get_range_open library connected negotiated sink size offset) unsent
          (λ s' e.
            smb_get_range_open-Delivers library content At serves sink size offset small connected
              negotiated 0 s' (serves.opens (trim path (codes "/")) s s' e)))
      (λ _. unsent)
