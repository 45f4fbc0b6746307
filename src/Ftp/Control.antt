-- ===== src/Ftp/Control.antt =====
-- The control connection of source/clients/ftpclient.cpp: `ReadResponse`, `FtpSendCmd`, the
-- commands built on it, `Quit` and `Connect`. `Ftp` is the control handle, with the network in it;
-- `sent` records the commands that were sent. A path or a command has no byte 0. `tick` and `cbarg`
-- are left out.
pub mod Response
pub mod Replies
mod Tests
use ps5_ezremote_server.Prelude.{
  ℕ, zero, suc, ◌+◌, ◌*◌, ◌<◌, Bool, true, false, not, ◌&&◌, ◌||◌, Option, none, some, List, [],
  ◌∷◌, ◌++◌, length, map, take, drop, get_elem?, ltb, leb, ◌==◌, if◌then◌else◌,
}
use ps5_ezremote_server.Outcome.{Outcome, returns, undefined, out_of_fuel}
use ps5_ezremote_server.Words.{Bytes, codes}
use ps5_ezremote_server.Text.{find, is_among}
use ps5_ezremote_server.Ftp.Reader.{Sockets, Reader, poke, readline}

pub data ConnMode : Type 0 where
  pasv port : ConnMode

-- `ftphandle` of the control connection. `dir` is FTP_CLIENT_CONTROL throughout.
pub record Ftp (N : Type 0) : Type 0 where
  pub reader : Reader
  pub cmode : ConnMode
  pub response : Bytes
  pub offset : ℕ
  pub correctpasv : Bool
  pub has_xfercb : Bool
  pub cbbytes : ℕ
  pub is_connected : Bool
  pub sent : List Bytes
  pub net : N

-- A method of the client.
abbrev pub Action : Type 0 → Type 0 → Type 0
Action N A = Ftp N → Outcome (A × Ftp N)

infixl 5 ◌>>=◌ ◌>>◌
abbrev pub after : {N A B : Type 0} → Outcome (A × Ftp N) → (A → Action N B) → Outcome (B × Ftp N)
after (returns (a, s)) f = f a s
after undefined f = undefined
after out_of_fuel f = out_of_fuel

abbrev pub ◌>>=◌ : {N A B : Type 0} → Action N A → (A → Action N B) → Action N B
◌>>=◌ m f s = after (m s) f

abbrev pub ◌>>◌ : {N A B : Type 0} → Action N A → Action N B → Action N B
m >> k = m >>= λ _. k

module _ {N A : Type 0} where
  abbrev pub pure : A → Action N A
  pure a s = returns (a, s)

  abbrev pub gets : (Ftp N → A) → Action N A
  gets f s = returns (f s, s)

abbrev pub modify : {N : Type 0} → (Ftp N → Ftp N) → Action N (Unit {0})
modify f s = returns (tt, f s)

abbrev pub fails : {N A : Type 0} → Action N A
fails s = undefined

-- `sprintf` of a text to the start of the response.
unfoldable pub set_response : {N : Type 0} → Bytes → Action N (Unit {0})
set_response text s = elim (poke s.response 0 (text ++ (0 ∷ []))) [
  | returns buf ↦ returns (tt, record s { response = buf })
  | undefined ↦ undefined
  | out_of_fuel ↦ out_of_fuel
]

-- `response[i]`
unfoldable pub response_at : {N : Type 0} → ℕ → Action N ℕ
response_at i s = elim (get_elem? s.response i) [ none ↦ undefined | some c ↦ returns (c, s) ]

-- `strncmp(a, b, n) == 0`; an end of a list is that of the buffer's string.
unfoldable pub strncmp_equal : ℕ → Bytes → Bytes → Bool
strncmp_equal zero a b = true
strncmp_equal (suc n) [] [] = true
strncmp_equal (suc n) (x ∷ a) (y ∷ b) = x == y && (x == 0 || strncmp_equal n a b)
strncmp_equal (suc n) _ _ = false

abbrev pub ok : Bytes
ok = codes "2"

module _ {N : Type 0} (sockets : Sockets N) where
  -- `Readline(nControl->response, 512, nControl) != -1`
  unfoldable pub read_line : Action N Bool
  read_line s = elim (readline sockets s.response s.reader s.net) [
    | returns (line, reader, net) ↦ returns (
      elim line.count [ none ↦ false | some k ↦ true ],
      record s { response = line.buf; reader = reader; net = net },
    )
    | undefined ↦ undefined
    | out_of_fuel ↦ out_of_fuel
  ]

  -- The loop over a response of several lines. The fuel bounds its lines.
  unfoldable pub skip_lines : ℕ → Bytes → Action N Bool
  skip_lines zero match = λ s. out_of_fuel
  skip_lines (suc fuel) match = do
    got ← read_line
    response ← gets (λ s. s.response)
    if got
        then (if strncmp_equal 4 response match then pure true else skip_lines fuel match)
        else pure false

  -- `ReadResponse`: whether the first character is one of `c`.
  unfoldable pub read_response : ℕ → Bytes → Action N Bool
  read_response fuel c = do
    got ← read_line
    if got
        then (do
          mark ← response_at 3
          response ← gets (λ s. s.response)
          ended ← if mark == b'-' then skip_lines fuel (take 3 response ++ codes " ") else pure true
          if ended then (do first ← response_at 0; pure (is_among first c)) else pure false)
        else pure false

  -- `FtpSendCmd`: the command and its end are put together in 512 bytes.
  unfoldable pub ftp_send_cmd : ℕ → Bytes → Bytes → Action N Bool
  ftp_send_cmd fuel cmd expected_resp s =
      if s.reader.handle == 0
      then returns (false, s)
      else if leb 512 (length cmd + 2)
      then undefined
      else let (x, net) = sockets.send s.reader.handle (cmd ++ (13 ∷ 10 ∷ [])) s.net in
        elim x [
          | none ↦ returns (false, record s { net = net })
          | some zero ↦ returns (false, record s { net = net })
          | some (suc k) ↦
              read_response fuel expected_resp (record s { net = net; sent = s.sent ++ (cmd ∷ []) })
        ]

  -- `Quit`. `shutdown` and the option that is set before `close` are part of `close`.
  unfoldable pub quit : ℕ → Action N Bool
  quit fuel s =
      if s.reader.handle == 0
      then after (set_response (codes "error: no anwser from server\n") s) (λ _. pure false)
      else after (ftp_send_cmd fuel (codes "QUIT") (codes "2") s) (λ _. do
        modify (λ s. record s { net = sockets.close s.reader.handle s.net })
        modify (λ s. record s { reader = record s.reader { handle = 0 }; is_connected = false })
        pure true)

  -- The commands of one line.
  unfoldable pub site : ℕ → Bytes → Action N Bool
  site fuel cmd = ftp_send_cmd fuel (codes "SITE " ++ cmd) ok

  unfoldable pub raw : ℕ → Bytes → Action N Bool
  raw fuel cmd = ftp_send_cmd fuel cmd ok

  unfoldable pub mkdir : ℕ → Bytes → Action N Bool
  mkdir fuel path = ftp_send_cmd fuel (codes "MKD " ++ path) ok

  unfoldable pub chdir : ℕ → Bytes → Action N Bool
  chdir fuel path = ftp_send_cmd fuel (codes "CWD " ++ path) ok

  unfoldable pub cdup : ℕ → Action N Bool
  cdup fuel = ftp_send_cmd fuel (codes "CDUP") ok

  unfoldable pub noop : ℕ → Action N Bool
  noop fuel = ftp_send_cmd fuel (codes "NOOP") (codes "25")

  unfoldable pub ping : ℕ → Action N Bool
  ping fuel = noop fuel

  unfoldable pub rmdir : ℕ → Bytes → Action N Bool
  rmdir fuel path = ftp_send_cmd fuel (codes "RMD " ++ path) ok

  unfoldable pub delete : ℕ → Bytes → Action N Bool
  delete fuel path = ftp_send_cmd fuel (codes "DELE " ++ path) ok

  unfoldable pub rename : ℕ → Bytes → Bytes → Action N Bool
  rename fuel src dst = do
    from ← ftp_send_cmd fuel (codes "RNFR " ++ src) (codes "3")
    if from then ftp_send_cmd fuel (codes "RNTO " ++ dst) ok else pure false

  -- `SetCallbackXferFunction`, `SetCallbackBytes` and `ResetTransferState`.
  abbrev pub set_callback_xfer_function : Bool → Action N (Unit {0})
  set_callback_xfer_function pointer = modify (λ s. record s { has_xfercb = pointer })

  abbrev pub set_callback_bytes : ℕ → Action N (Unit {0})
  set_callback_bytes bytes = modify (λ s. record s { cbbytes = bytes })

  abbrev pub reset_transfer_state : Action N (Unit {0})
  reset_transfer_state = modify (λ s. record s { has_xfercb = false; cbbytes = 0 })

  abbrev pub set_connmode : ConnMode → Action N (Unit {0})
  set_connmode mode = modify (λ s. record s { cmode = mode })

  -- `ClearHandle`. The buffer's pointers are as `calloc` or the last line left them.
  abbrev pub clear_handle : Action N (Unit {0})
  clear_handle = modify (λ s. record s {
    reader = record s.reader { handle = 0 };
    cmode = pasv;
    response = map (λ c. 0) s.response;
    offset = 0;
    correctpasv = false;
    has_xfercb = false;
    cbbytes = 0;
    is_connected = false;
  })
