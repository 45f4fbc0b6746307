-- ===== src/Ftp/Files.antt =====
-- The transfers of source/clients/ftpclient.cpp: `FtpRead`, `FtpWrite` with `Writeline`, `FtpXfer`,
-- and the operations of `RemoteClient` that move files. Local streams are a parameter. A handle
-- without a value is `none`, and its use is `undefined`. `malloc` gives a buffer. The sink takes a
-- chunk or not, after the bytes that it has taken.
mod Tests
use ps5_ezremote_server.Prelude.{
  ℕ, zero, suc, ◌+◌, ◌-◌, ◌^◌, ◌%◌, Bool, true, false, not, ◌&&◌, ◌||◌, Option, none, some, [], ◌∷◌,
  ◌++◌, length, take, ltb, leb, ◌==◌, if◌then◌else◌,
}
use ps5_ezremote_server.Outcome.{Outcome, returns, undefined, out_of_fuel}
use ps5_ezremote_server.Words.{Bytes, codes}
use ps5_ezremote_server.Ftp.Reader.{Sockets, ftp_client_bufsiz, readline}
use ps5_ezremote_server.Ftp.Address.{is_digit, scan_digits}
use ps5_ezremote_server.Ftp.Control.{Action, ◌>>=◌, ◌>>◌, pure, gets, modify, fails}
use ps5_ezremote_server.Ftp.Channel.{
  AccessType, dir, dirverbose, dirmlsd, fileread, filewrite, filereadappend, filewriteappend,
  TransferMode, image, client_read, client_write, DataHandle, strncpy, is_ascii, lift, system,
  system_call, ftp_access, ftp_close,
}

-- Local streams, by their numbers. The second text of `fopen` is the mode; a write gives its count.
pub record Streams (N : Type 0) : Type 0 where
  pub fopen : Bytes → Bytes → N → Option ℕ × N
  pub fread : ℕ → ℕ → N → Bytes × N
  pub fwrite : ℕ → Bytes → N → ℕ × N
  pub fseek : ℕ → ℕ → N → N
  pub fclose : ℕ → N → N
  pub stdin : ℕ
  pub stdout : ℕ

abbrev pub zeros : ℕ → Bytes
zeros zero = []
zeros (suc n) = 0 ∷ zeros n

-- The handle that a call was left with, or no value.
abbrev pub handle_of : {N : Type 0} → Option DataHandle → Action N DataHandle
handle_of none = fails
handle_of (some d) = pure d

abbrev pub is_write : AccessType → Bool
is_write filewrite = true
is_write filewriteappend = true
is_write _ = false

abbrev pub open_mode : AccessType → Bytes
open_mode dir = codes "w"
open_mode dirverbose = codes "w"
open_mode dirmlsd = codes "w"
open_mode fileread = codes "w"
open_mode filewriteappend = codes "r"
open_mode filereadappend = codes "a"
open_mode filewrite = codes "r"

-- `%ld`: white space, a sign and digits. A number is the one it is as `uint64_t`; one that the
-- `bits` do not hold is not defined.
unfoldable pub scan_magnitude : Bool → ℕ → Bytes → Outcome (Option (ℕ × Bytes))
unfolding is_digit scan_digits
scan_magnitude negative bound [] = returns none
scan_magnitude negative bound (c ∷ text) =
    let (value, rest) = scan_digits 0 (c ∷ text) in
    if is_digit c
    then (if negative
        then (if leb value bound
            then returns (some ((2 ^ 64 - value) % 2 ^ 64, rest))
            else undefined)
        else (if ltb value bound then returns (some (value, rest)) else undefined))
    else returns none

unfoldable pub scan_signed : ℕ → Bytes → Outcome (Option (ℕ × Bytes))
unfolding scan_magnitude
scan_signed bits [] = returns none
scan_signed bits (c ∷ text) =
    let rest = scan_signed bits text in
    if c == b' ' || (leb 9 c && leb c 13)
    then rest
    else if c == b'+'
    then scan_magnitude false (2 ^ (bits - 1)) text
    else if c == b'-'
    then scan_magnitude true (2 ^ (bits - 1)) text
    else scan_magnitude false (2 ^ (bits - 1)) (c ∷ text)

-- `sscanf(response, "%d %ld", &resp, &sz) == 2`, and the size.
unfoldable pub scan_size : Bytes → Outcome (Option ℕ)
unfolding scan_signed
scan_size text = elim (scan_signed 32 text) [
  | undefined ↦ undefined
  | out_of_fuel ↦ out_of_fuel
  | returns none ↦ returns none
  | returns (some (resp, rest)) ↦ elim (scan_signed 64 rest) [
    | undefined ↦ undefined
    | out_of_fuel ↦ out_of_fuel
    | returns none ↦ returns none
    | returns (some (sz, left)) ↦ returns (some sz)
  ]
]

abbrev pub set_offset : {N : Type 0} → ℕ → Action N (Unit {0})
set_offset offset = modify (λ s. record s { offset = offset })

module _ {N : Type 0} (sockets : Sockets N) where
  -- The callback, behind a transfer of `i` bytes: whether the transfer goes on.
  unfoldable pub progress : ℕ → DataHandle → Action N (Bool × DataHandle)
  progress i d =
      let xfered = d.xfered + i in
      let d' : DataHandle = record d { xfered = xfered } in
      if d.has_xfercb && not (d.cbbytes == 0)
      then (if leb d.cbbytes (d.xfered1 + i)
          then (do
            go_on ← system (sockets.callback xfered)
            pure (go_on, record d' { xfered1 = if go_on then 0 else d.xfered1 + i }))
          else pure (true, record d' { xfered1 = d.xfered1 + i }))
      else pure (true, d')

  -- `Readline` on a data connection: the bytes of the line, into a new buffer.
  unfoldable pub read_text : ℕ → DataHandle → Action N (Option Bytes × DataHandle)
  read_text max d = do
    net ← gets (λ s. s.net)
    (line, reader, net') ← lift (readline sockets (zeros max) d.reader net)
    modify (λ s. record s { net = net' })
    pure (
      elim line.count [ none ↦ none | some k ↦ some (take k line.buf) ],
      record d { reader = reader },
    )

  -- `FtpRead`: the bytes that the caller is told of, none if the result is 0.
  unfoldable pub ftp_read : ℕ → DataHandle → Action N (Bytes × DataHandle)
  ftp_read max d = elim d.direction [
    | client_write ↦ pure ([], d)
    | client_read ↦ do
      (got, d') ←
          if d.has_buf
          then read_text max d
          else (do got ← system (sockets.recv d.reader.handle max); pure (got, d))
      elim got [
        | none ↦ pure ([], d')
        | some bytes ↦ do
          (go_on, d'') ← progress (length bytes) d'
          pure (if go_on then bytes else [], d'')
      ]
  ]

  -- The buffer of `Writeline`, sent whole.
  unfoldable pub flush : DataHandle → Bytes → Action N Bool
  flush d out = do
    w ← system (sockets.send d.reader.handle out)
    pure (elim w [ none ↦ false | some n ↦ n == length out ])

  -- A byte is put behind the buffer, which is sent first if it is full.
  unfoldable pub put_byte : DataHandle → ℕ → Bytes → Action N (Option Bytes)
  put_byte d c out =
      if length out == ftp_client_bufsiz
      then (do sent ← flush d out; pure (if sent then some (c ∷ []) else none))
      else pure (some (out ++ (c ∷ [])))

  -- `Writeline`: a line feed gets a return before it. `lc` is the last byte, `out` the buffer.
  unfoldable pub writeline_loop : DataHandle → ℕ → Bytes → Bytes → Action N Bool
  writeline_loop d lc out [] = elim out [ [] ↦ pure true | c ∷ more ↦ flush d (c ∷ more) ]
  writeline_loop d lc out (c ∷ bytes) = do
    returned ← if c == 10 && not (lc == 13) then put_byte d 13 out else pure (some out)
    elim returned [
      | none ↦ pure false
      | some out ↦ do
        put ← put_byte d c out
        elim put [ none ↦ pure false | some out ↦ writeline_loop d c out bytes ]
    ]

  unfoldable pub writeline : DataHandle → Bytes → Action N (Option ℕ)
  writeline d bytes = do
    written ← writeline_loop d 0 [] bytes
    pure (if written then some (length bytes) else none)

  -- `FtpWrite`: the count that the caller is told of.
  unfoldable pub ftp_write : Bytes → DataHandle → Action N (ℕ × DataHandle)
  ftp_write bytes d = elim d.direction [
    | client_read ↦ pure (0, d)
    | client_write ↦ do
      i ← if d.has_buf then writeline d bytes else system (sockets.send d.reader.handle bytes)
      elim i [
        | none ↦ pure (0, d)
        | some i ↦ do (go_on, d') ← progress i d; pure (if go_on then i else 0, d')
      ]
  ]

  module _ (streams : Streams N) where
    -- The loops of `FtpXfer`, each on a fuel that bounds its turns.
    unfoldable pub upload_loop : ℕ → ℕ → DataHandle → Action N DataHandle
    upload_loop zero local d = λ s. out_of_fuel
    upload_loop (suc fuel) local d = do
      dbuf ← system (streams.fread local ftp_client_bufsiz)
      if length dbuf == 0 then pure d else (do
        (c, d') ← ftp_write dbuf d
        if ltb c (length dbuf) then pure d' else upload_loop fuel local d')

    unfoldable pub download_loop : ℕ → ℕ → DataHandle → Action N DataHandle
    download_loop zero local d = λ s. out_of_fuel
    download_loop (suc fuel) local d = do
      (dbuf, d') ← ftp_read ftp_client_bufsiz d
      if length dbuf == 0 then pure d' else (do
        written ← system (streams.fwrite local dbuf)
        if written == 0 then pure d' else download_loop fuel local d')

    -- The stream of `localfile`, at the offset if it is sent from there.
    unfoldable pub open_local : Bytes → AccessType → TransferMode → Action N (Option ℕ)
    open_local localfile type mode =
        if length localfile == 0
        then pure (some (if is_write type then streams.stdin else streams.stdout))
        else (do
          local ← system (
              streams.fopen localfile (open_mode type ++ (if is_ascii mode then [] else codes "b")))
          elim local [
            | none ↦ do
              why ← gets (λ s. sockets.error_text s.net)
              modify (λ s. record s { response = strncpy s.response why })
              pure none
            | some file ↦ do
              offset ← gets (λ s. s.offset)
              elim type [ filewriteappend ↦ system_call (streams.fseek file offset) | _ ↦ pure tt ]
              pure (some file)
          ])

    abbrev pub close_local : Bytes → ℕ → Action N (Unit {0})
    close_local localfile local =
        if length localfile == 0 then pure tt else system_call (streams.fclose local)

    -- `FtpXfer`
    unfoldable pub ftp_xfer : ℕ → Bytes → Bytes → AccessType → TransferMode → Action N Bool
    ftp_xfer fuel localfile path type mode = do
      opened ← open_local localfile type mode
      elim opened [
        | none ↦ pure false
        | some local ↦ do
          access ← ftp_access sockets fuel path type mode
          elim access [
            | none ↦ do close_local localfile local; pure false
            | some handle ↦ do
              d ← handle_of handle
              d' ← if is_write type then upload_loop fuel local d else download_loop fuel local d
              close_local localfile local
              ftp_close sockets fuel d'
          ]
      ]

    unfoldable pub get : ℕ → Bytes → Bytes → ℕ → Action N Bool
    get fuel outputfile path offset = do
      set_offset offset
      if offset == 0
          then ftp_xfer fuel outputfile path fileread image
          else ftp_xfer fuel outputfile path filereadappend image

    unfoldable pub put : ℕ → Bytes → Bytes → ℕ → Action N Bool
    put fuel inputfile path offset = do
      set_offset offset
      if offset == 0
          then ftp_xfer fuel inputfile path filewrite image
          else ftp_xfer fuel inputfile path filewriteappend image
