-- ===== src/Ftp/Channel.antt =====
-- The data connections of source/clients/ftpclient.cpp: `FtpAccess` with `FtpOpenPasv`,
-- `FtpOpenPort` and `FtpAcceptConnection`, and `FtpClose`. Memory is never refused. An option of a
-- socket that fails is in `data_socket`, and `shutdown` before a `close` is part of that. The types
-- keep the guards on the kinds of access, the modes and the directions. `FtpAcceptConnection` has
-- just set the bit of the data socket that it tests.
pub mod Passive
mod Tests
use ps5_ezremote_server.Prelude.{
  ℕ, zero, suc, ◌+◌, ◌-◌, ◌^◌, Bool, true, false, not, ◌&&◌, Option, none, some, [], ◌∷◌, ◌++◌,
  length, map, take, drop, ltb, leb, ◌==◌, if◌then◌else◌,
}
use ps5_ezremote_server.Outcome.{Outcome, returns, undefined, out_of_fuel}
use ps5_ezremote_server.Words.{Bytes, codes, to_string}
use ps5_ezremote_server.Ftp.Reader.{Sockets, Reader}
use ps5_ezremote_server.Ftp.Address.{behind_parenthesis, scan_fields, to_address}
use ps5_ezremote_server.Ftp.Control.{
  Action, pasv, port, ◌>>=◌, ◌>>◌, pure, gets, modify, fails, set_response, ftp_send_cmd,
  read_response, ok,
}

pub data AccessType : Type 0 where
  dir dirverbose dirmlsd fileread filewrite filereadappend filewriteappend : AccessType

pub data TransferMode : Type 0 where
  ascii image : TransferMode

-- FTP_CLIENT_READ and FTP_CLIENT_WRITE.
pub data Direction : Type 0 where
  client_read client_write : Direction

-- `ftphandle` of a data connection. `has_buf` is for `buf`, `has_ctrl` for `ctrl`.
pub record DataHandle : Type 0 where
  pub reader : Reader
  pub has_buf : Bool
  pub direction : Direction
  pub has_ctrl : Bool
  pub xfered : ℕ
  pub xfered1 : ℕ
  pub cbbytes : ℕ
  pub has_xfercb : Bool

-- -1; a result, with `*nData` set; and the result 0, which leaves `*nData` as it was.
pub data Opened : Type 0 where
  refused : Opened
  opened : DataHandle → Opened
  untouched : Opened

abbrev pub transfer_mode_char : TransferMode → ℕ
transfer_mode_char ascii = b'A'
transfer_mode_char image = b'I'

abbrev pub is_ascii : TransferMode → Bool
is_ascii ascii = true
is_ascii image = false

abbrev pub access_command : AccessType → Bytes × Direction
access_command dir = (codes "NLST", client_read)
access_command dirverbose = (codes "LIST", client_read)
access_command dirmlsd = (codes "MLSD", client_read)
access_command filereadappend = (codes "RETR", client_read)
access_command fileread = (codes "RETR", client_read)
access_command filewriteappend = (codes "STOR", client_write)
access_command filewrite = (codes "STOR", client_write)

abbrev pub needs_path : AccessType → Bool
needs_path dir = false
needs_path dirverbose = false
needs_path dirmlsd = false
needs_path _ = true

-- `%lld`
abbrev pub print_offset : ℕ → Bytes
print_offset offset =
    if ltb offset (2 ^ 63) then to_string offset else b'-' ∷ to_string (2 ^ 64 - offset)

-- `strncpy` to the whole of a buffer.
abbrev pub strncpy : Bytes → Bytes → Bytes
strncpy buf text = take (length buf) (text ++ map (λ c. 0) buf)

abbrev pub port_command : Bytes → Outcome Bytes
port_command (p1 ∷ p2 ∷ h1 ∷ h2 ∷ h3 ∷ h4 ∷ []) = returns (
    codes "PORT "
    ++ (to_string h1
        ++ (b','
            ∷ (to_string h2
                ++ (b','
                    ∷ (to_string h3
                        ++ (b','
                            ∷ (to_string h4
                                ++ (b',' ∷ (to_string p1 ++ (b',' ∷ to_string p2)))))))))))
port_command _ = undefined

abbrev pub lift : {N A : Type 0} → Outcome A → Action N A
lift (returns a) s = returns (a, s)
lift undefined s = undefined
lift out_of_fuel s = out_of_fuel

abbrev pub system : {N A : Type 0} → (N → A × N) → Action N A
system f s = let (a, net) = f s.net in returns (a, record s { net = net })

abbrev pub system_call : {N : Type 0} → (N → N) → Action N (Unit {0})
system_call f = modify (λ s. record s { net = f s.net })

module _ {N : Type 0} (sockets : Sockets N) where
  -- `close(socket)`, and a result.
  abbrev pub closing : {A : Type 0} → ℕ → A → Action N A
  closing socket result = do system_call (sockets.close socket); pure result

  -- `CorrectPasvResponse`: the host is the peer's.
  unfoldable pub correct_pasv_response : Bytes → Action N (Option Bytes)
  correct_pasv_response v = do
    handle ← gets (λ s. s.reader.handle)
    peer ← system (sockets.peer_name handle)
    elim peer [
      | none ↦ closing handle none
      | some name ↦ pure (some (take 4 (drop 2 name) ++ drop 4 v))
    ]

  -- `if (mp_ftphandle->offset != 0)`: whether the transfer starts there.
  unfoldable pub restart : ℕ → Action N Bool
  restart fuel = do
    offset ← gets (λ s. s.offset)
    if offset == 0
        then pure true
        else ftp_send_cmd sockets fuel (codes "REST " ++ print_offset offset) (codes "3")

  -- The new handle, `ctrl` of the source.
  abbrev pub new_handle : TransferMode → Direction → ℕ → Action N Opened
  new_handle mode direction socket = gets (λ s. opened (record {
    reader = record { handle = socket; pending = []; cleft = 0 };
    has_buf = is_ascii mode;
    direction = direction;
    has_ctrl = elim s.cmode [ pasv ↦ true | port ↦ false ];
    xfered = 0;
    xfered1 = 0;
    cbbytes = s.cbbytes;
    has_xfercb = if s.cbbytes == 0 then false else s.has_xfercb;
  }))

  -- The command, sent without its reply; the connection to the server; and the reply.
  unfoldable pub start_transfer : ℕ → TransferMode → Direction → Bytes → Bytes → ℕ → Action N Opened
  start_transfer fuel mode direction cmd address socket = do
    control ← gets (λ s. s.reader.handle)
    sent ← system (sockets.send control (cmd ++ (13 ∷ 10 ∷ [])))
    elim sent [
      | none ↦ pure refused
      | some zero ↦ pure refused
      | some (suc n) ↦ do
        modify (λ s. record s { sent = s.sent ++ (cmd ∷ []) })
        connected ← system (sockets.connect socket address)
        if not connected then closing socket refused else (do
          started ← read_response sockets fuel (codes "1")
          if started then new_handle mode direction socket else closing socket refused)
    ]

  -- `FtpOpenPasv`. The numbers of the reply are missed at once.
  unfoldable pub ftp_open_pasv : ℕ → TransferMode → Direction → Bytes → Action N Opened
  ftp_open_pasv fuel mode direction cmd = do
    passive ← ftp_send_cmd sockets fuel (codes "PASV") ok
    response ← gets (λ s. s.response)
    correct ← gets (λ s. s.correctpasv)
    if not passive then pure refused else elim (behind_parenthesis response) [
      | none ↦ pure refused
      | some cp ↦ do
        v ← lift (scan_fields 6 cp)
        corrected ← if correct then correct_pasv_response v else pure (some v)
        elim corrected [
          | none ↦ pure refused
          | some v ↦ do
            address ← lift (to_address v)
            restarted ← restart fuel
            if not restarted then pure untouched else (do
              data_socket ← system sockets.data_socket
              elim data_socket [
                | none ↦ pure refused
                | some socket ↦ start_transfer fuel mode direction cmd address socket
              ])
        ]
    ]

  -- `FtpClose(*nData)`, of a handle that has no value.
  abbrev pub close_untouched : {A : Type 0} → Action N A
  close_untouched = fails

  -- The commands of `FtpOpenPort`, on a socket that listens.
  unfoldable pub announce_port : ℕ → TransferMode → Direction → Bytes → Bytes → ℕ → Action N Opened
  announce_port fuel mode direction cmd name socket = do
    text ← lift (port_command name)
    announced ← ftp_send_cmd sockets fuel text ok
    if not announced then closing socket refused else (do
      restarted ← restart fuel
      if not restarted then closing socket untouched else (do
        started ← ftp_send_cmd sockets fuel cmd (codes "1")
        if started then new_handle mode direction socket else close_untouched))

  -- `bind`, `listen` and `getsockname`.
  unfoldable pub listening : ℕ → Bytes → Action N (Option Bytes × Bool)
  listening socket own = do
    bound ← system (sockets.bind_any socket (0 ∷ 0 ∷ drop 2 own))
    if not bound then closing socket (none, true) else (do
      listens ← system (sockets.listen socket)
      if not listens
          then closing socket (none, true)
          else (do name ← system (sockets.socket_name socket); pure (name, false)))

  unfoldable pub ftp_open_port : ℕ → TransferMode → Direction → Bytes → Action N Opened
  ftp_open_port fuel mode direction cmd = do
    control ← gets (λ s. s.reader.handle)
    own ← system (sockets.socket_name control)
    elim own [
      | none ↦ pure refused
      | some own ↦ do
        data_socket ← system sockets.data_socket
        elim data_socket [
          | none ↦ pure refused
          | some socket ↦ do
            (name, is_refused) ← listening socket own
            elim name [
              | none ↦ pure (if is_refused then refused else untouched)
              | some name ↦ announce_port fuel mode direction cmd name socket
            ]
        ]
    ]

  -- `FtpAcceptConnection`: a socket 0 is not taken.
  unfoldable pub ftp_accept_connection : DataHandle → Action N (Bool × DataHandle)
  ftp_accept_connection d = do
    accepted ← system (sockets.accept d.reader.handle)
    why ← gets (λ s. sockets.error_text s.net)
    system_call (sockets.close d.reader.handle)
    let taken : ℕ = elim accepted [ none ↦ 0 | some socket ↦ socket ]
    let d' : DataHandle = record d { reader = record d.reader { handle = taken } }
    if taken == 0
        then (do modify (λ s. record s { response = strncpy s.response why }); pure (false, d'))
        else pure (true, record d' { has_ctrl = true })

  -- `FtpClose`. `Writeline` of no bytes does nothing.
  unfoldable pub ftp_close : ℕ → DataHandle → Action N Bool
  ftp_close fuel d = do
    system_call (sockets.close d.reader.handle)
    if d.has_ctrl then read_response sockets fuel ok else pure true

  -- What `FtpAccess` does with a command: a result 0, or `*nData`, which may have no value.
  unfoldable pub open_connection :
      ℕ → TransferMode → Direction → Bytes → Action N (Option (Option DataHandle))
  open_connection fuel mode direction cmd = do
    cmode ← gets (λ s. s.cmode)
    elim cmode [
      | pasv ↦ do
        o ← ftp_open_pasv fuel mode direction cmd
        elim o [
          | refused ↦ pure none
          | opened d ↦ pure (some (some d))
          | untouched ↦ pure (some none)
        ]
      | port ↦ do
        o ← ftp_open_port fuel mode direction cmd
        elim o [
          | refused ↦ pure none
          | untouched ↦ fails
          | opened d ↦ do
            (accepted, d') ← ftp_accept_connection d
            if accepted then pure (some (some d')) else (do closed ← ftp_close fuel d'; pure none)
        ]
    ]

  -- `FtpAccess`, with a path or without.
  unfoldable pub ftp_access :
      ℕ → Bytes → AccessType → TransferMode → Action N (Option (Option DataHandle))
  ftp_access fuel path type mode =
      let (command, direction) = access_command type in
      if length path == 0 && needs_path type
      then (do set_response (codes "Missing path argument for file transfer\n"); pure none)
      else (do
        typed ← ftp_send_cmd sockets fuel (codes "TYPE " ++ (transfer_mode_char mode ∷ [])) ok
        if not typed
            then pure none
            else if length path == 0
            then open_connection fuel mode direction command
            else if leb 512 (length path + (length command + 1))
            then pure none
            else open_connection fuel mode direction (command ++ (b' ' ∷ path)))
