-- ===== src/Ftp/Remote.antt =====
-- The operations of source/clients/ftpclient.cpp on one file of the server without a local one:
-- `Size`, the two forms of `GetRange`, `Head`, and `SysType`; and `Connect`. An exception is
-- `undefined`. The results of `Head` and `GetRange` come with what the caller's buffer, or the
-- sink, was given.
pub mod Arrivals
pub mod Ranges
pub mod GetRange
pub mod Restart
pub mod Guards
pub mod Buffers
mod Tests
use ps5_ezremote_server.Prelude.{
  ℕ, zero, suc, ◌+◌, ◌-◌, ◌/◌, ◌%◌, ◌<◌, Bool, true, false, not, ◌&&◌, ◌||◌, Option, none, some,
  List, [], ◌∷◌, ◌++◌, length, map, take, drop, ltb, leb, ◌==◌, if◌then◌else◌,
}
use ps5_ezremote_server.Outcome.{Outcome, returns, undefined, out_of_fuel}
use ps5_ezremote_server.Words.{Bytes, codes, add64, sub64, same, to_string}
use ps5_ezremote_server.Text.{find}
use ps5_ezremote_server.Transfer.{Sink, smaller}
use ps5_ezremote_server.Ftp.Reader.{Sockets, Reader, ftp_client_bufsiz}
use ps5_ezremote_server.Ftp.Control.{
  Ftp, Action, after, ◌>>=◌, ◌>>◌, pure, gets, modify, fails, set_response, response_at,
  ftp_send_cmd, read_response, quit, ok,
}
use ps5_ezremote_server.Ftp.Channel.{
  fileread, image, DataHandle, lift, system, system_call, ftp_access, ftp_close,
}
use ps5_ezremote_server.Ftp.Files.{handle_of, scan_signed, scan_size, ftp_read, set_offset}

-- The copy of `SysType`: at most `l` bytes up to a space, from within the response.
unfoldable pub copy_word : ℕ → Bytes → Outcome Bytes
copy_word zero text = returns []
copy_word (suc l) [] = undefined
copy_word (suc l) (c ∷ text) = elim (c == b' ') [
  | true ↦ returns []
  | false ↦ elim (copy_word l text) [
    | returns word ↦ returns (c ∷ word)
    | undefined ↦ undefined
    | out_of_fuel ↦ out_of_fuel
  ]
]

unfoldable pub atoi : Bytes → Outcome ℕ
atoi text = elim (scan_signed 32 text) [
  | returns (some (v, rest)) ↦ returns v
  | returns none ↦ returns 0
  | undefined ↦ undefined
  | out_of_fuel ↦ out_of_fuel
]

-- What the loop of `GetRange` ends with.
pub record Ranged : Type 0 where
  pub handle : DataHandle
  pub sent : Bytes
  pub bytes_remaining : ℕ
  pub is_refused : Bool

module _ {N : Type 0} (sockets : Sockets N) where
  unfoldable pub sys_type : ℕ → ℕ → Action N (Option Bytes)
  sys_type fuel max = do
    known ← ftp_send_cmd sockets fuel (codes "SYST") ok
    response ← gets (λ s. s.response)
    if not known
        then pure none
        else if max == 0
        then fails
        else (do word ← lift (copy_word (max - 1) (drop 4 response)); pure (some word))

  -- `Size`: `*size` if it was set.
  unfoldable pub size : ℕ → Bytes → Action N (Option ℕ)
  size fuel path = if ltb 512 (length path + 7) then pure none else (do
    typed ← ftp_send_cmd sockets fuel (codes "TYPE I") ok
    if not typed then pure none else (do
      known ← ftp_send_cmd sockets fuel (codes "SIZE " ++ path) ok
      response ← gets (λ s. s.response)
      if known then lift (scan_size response) else pure none))

  unfoldable pub file_exists : ℕ → Bytes → Action N Bool
  file_exists fuel path = do
    filesize ← size fuel path
    pure (elim filesize [ none ↦ false | some sz ↦ true ])

  unfoldable pub head : ℕ → Bytes → ℕ → Action N (Bool × Bytes)
  head fuel path len = do
    access ← ftp_access sockets fuel path fileread image
    elim access [
      | none ↦ pure (false, [])
      | some handle ↦ do
        d ← handle_of handle
        (got, d') ← ftp_read sockets len d
        closed ← ftp_close sockets fuel d'
        pure (length got == len, got)
    ]

  -- `while (bytes_remaining > 0)`
  unfoldable pub sink_loop : Sink → ℕ → DataHandle → Bytes → ℕ → Action N Ranged
  sink_loop sink zero d sent bytes_remaining = λ s. out_of_fuel
  sink_loop sink (suc fuel) d sent bytes_remaining =
      if bytes_remaining == 0
      then pure (record { handle = d; sent = sent; bytes_remaining = 0; is_refused = false })
      else (do
        (buf, d') ← ftp_read sockets (smaller ftp_client_bufsiz bytes_remaining) d
        let remaining = sub64 bytes_remaining (length buf)
        if length buf == 0
            then pure (record {
              handle = d';
              sent = sent;
              bytes_remaining = bytes_remaining;
              is_refused = false;
            })
            else if sink sent buf
            then sink_loop sink fuel d' (sent ++ buf) remaining
            else pure (record {
              handle = d';
              sent = sent;
              bytes_remaining = remaining;
              is_refused = true;
            }))

  -- What stands behind the loop.
  unfoldable pub end_range : ℕ → ℕ → ℕ → Ranged → Action N (Bool × Bytes)
  end_range fuel wanted offset r = do
    completed ← ftp_close sockets fuel r.handle
    set_offset 0
    if r.is_refused
        then pure (false, r.sent)
        else if ltb 0 r.bytes_remaining
        then (do
          set_response (
              codes "Unexpected end of file at offset "
              ++ to_string (add64 offset (sub64 wanted r.bytes_remaining)))
          pure (false, r.sent))
        else if not completed
        then (do set_response (codes "FTP transfer did not complete"); pure (false, r.sent))
        else pure (true, r.sent)

  -- `GetRange` to a sink: 1 or 0, and what the sink has taken. Each turn of the loop takes a byte.
  unfoldable pub get_range : ℕ → Sink → Bytes → ℕ → ℕ → Action N (Bool × Bytes)
  get_range fuel sink path wanted offset = do
    set_offset offset
    access ← ftp_access sockets fuel path fileread image
    elim access [
      | none ↦ pure (false, [])
      | some handle ↦ do
        d ← handle_of handle
        r ← sink_loop sink (wanted + 1) d [] wanted
        end_range fuel wanted offset r
    ]

  -- The loop of `GetRange` to a buffer of `remaining` bytes, and what it copies to it.
  unfoldable pub buffer_loop : ℕ → DataHandle → Bytes → ℕ → Action N (Bytes × DataHandle)
  buffer_loop zero d copied remaining = λ s. out_of_fuel
  buffer_loop (suc fuel) d copied remaining = do
    (buf, d') ← ftp_read sockets 8192 d
    if length buf == 0
        then pure (copied, d')
        else if leb (length buf) remaining
        then buffer_loop fuel d' (copied ++ buf) (remaining - length buf)
        else pure (copied ++ take remaining buf, d')

  unfoldable pub get_range_buffer : ℕ → Bytes → ℕ → ℕ → Action N (Bool × Bytes)
  get_range_buffer fuel path wanted offset = do
    set_offset offset
    access ← ftp_access sockets fuel path fileread image
    elim access [
      | none ↦ pure (false, [])
      | some handle ↦ do
        d ← handle_of handle
        (copied, d') ← buffer_loop (wanted + 2) d [] wanted
        closed ← ftp_close sockets fuel d'
        set_offset 0
        pure (true, copied)
    ]

  unfoldable pub failed_login : ℕ → Action N Bool
  failed_login fuel = do left ← quit sockets fuel; set_response (codes "Failed login"); pure false

  -- `Connect`, from the server's greeting on. `ctrl` is null.
  unfoldable pub login : ℕ → Bytes → Bytes → Action N Bool
  login fuel user pass = do
    greeted ← read_response sockets fuel ok
    if not greeted
        then (do
          handle ← gets (λ s. s.reader.handle)
          system_call (sockets.close handle)
          modify (λ s. record s { reader = record s.reader { handle = 0 } })
          pure false)
        else (do
          asked ←
              ftp_send_cmd sockets fuel
                (codes "USER " ++ (if length user == 0 then codes "anonymous" else user))
                (codes "3")
          if not asked
              then (do
                mark ← response_at 0
                if mark == b'2'
                    then (do modify (λ s. record s { is_connected = true }); pure true)
                    else failed_login fuel)
              else (do
                passed ← ftp_send_cmd sockets fuel (codes "PASS " ++ pass) ok
                if passed
                    then (do modify (λ s. record s { is_connected = true }); pure true)
                    else failed_login fuel))

  abbrev pub at_port : ℕ → Bytes → Bytes
  at_port port ip = (port / 256) % 256 ∷ port % 256 ∷ ip

  unfoldable pub connect_to : ℕ → Bytes → Bytes → Bytes → Action N Bool
  connect_to fuel address user pass = do
    modify (λ s. record s {
      reader = record s.reader { handle = 0 };
      response = map (λ c. 0) s.response;
      offset = 0;
    })
    control ← system sockets.socket
    elim control [
      | none ↦ pure false
      | some control ↦ do
        reusable ← system (sockets.reuse_address control)
        if not reusable then pure false else (do
          connected ← system (sockets.connect control address)
          if not connected
              then (do
                set_response (codes "Failed timeout")
                system_call (sockets.close control)
                pure false)
              else (do
                modify (λ s. record s { reader = record s.reader { handle = control } })
                login fuel user pass))
    ]

  -- `Connect`
  unfoldable pub connect : ℕ → Bytes → Bytes → Bytes → Action N Bool
  connect fuel url user pass = if ltb (length url) 6 then fails else (do
    let rest = drop 6 url
    let colon = find (codes ":") rest
    port ← elim colon [ none ↦ pure 21 | some i ↦ lift (atoi (drop (i + 1) rest)) ]
    let host : Bytes = elim colon [ none ↦ rest | some i ↦ take i rest ]
    ip ←
        (if same host (codes "localhost")
          then pure (some (127 ∷ 0 ∷ 0 ∷ 1 ∷ []))
          else system (sockets.host_address host))
    elim ip [
      | none ↦ do set_response (codes "Could not resolve hostname"); pure false
      | some ip ↦ connect_to fuel (at_port port ip) user pass
    ])
