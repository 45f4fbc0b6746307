-- ===== src/Ftp/Remote/Guards.antt =====
-- The lengths of paths that go into a command.
use ps5_ezremote_server.Prelude.{
  ℕ, ◌+◌, ◌≤◌, ◌≡◌, refl, true, false, ◌++◌, length, ltb, leb, ◌==◌, arith, length-append,
}
use ps5_ezremote_server.Outcome.{returns, undefined}
use ps5_ezremote_server.Words.{Bytes, codes}
use ps5_ezremote_server.Ftp.Reader.{Sockets}
use ps5_ezremote_server.Ftp.Control.{Ftp, ftp_send_cmd, ok}
use ps5_ezremote_server.Ftp.Remote.{size}

module _ {N : Type 0} (sockets : Sockets N) (fuel : ℕ) where
  -- On a connection, a command of 510 bytes or more does not fit with its end.
  ftp_send_cmd_overflow :
      (cmd expected : Bytes) (s : Ftp N)
      → (s.reader.handle == 0) ≡ false
      → 510 ≤ length cmd
      → ftp_send_cmd sockets fuel cmd expected s ≡ undefined
  unfolding ftp_send_cmd
  ftp_send_cmd_overflow cmd expected s connected long =
      let over : leb 512 (length cmd + 2) ≡ true = ground arith in
      rw (ftp_send_cmd, connected, over) refl

  size_sends :
      (path : Bytes) (s s' : Ftp N)
      → length path + 7 ≤ 512
      → ftp_send_cmd sockets fuel (codes "TYPE I") ok s ≡ returns (true, s')
      → ftp_send_cmd sockets fuel (codes "SIZE " ++ path) ok s' ≡ undefined
      → size sockets fuel path s ≡ undefined
  unfolding size
  size_sends path s s' let_through typed over =
      let guard : ltb 512 (length path + 7) ≡ false = ground arith in
      rw (size, guard, typed, over) refl

  -- A path of 505 bytes is let through by the guard of `Size`, and the command with it is one byte
  -- too long for the buffer of `FtpSendCmd`, if the server takes TYPE and the connection is still
  -- there.
  pub size_overflow :
      (path : Bytes) (s s' : Ftp N)
      → length path ≡ 505
      → ftp_send_cmd sockets fuel (codes "TYPE I") ok s ≡ returns (true, s')
      → (s'.reader.handle == 0) ≡ false
      → size sockets fuel path s ≡ undefined
  size_overflow path s s' long typed connected = size_sends path s s' (omega (arith, long)) typed (
      ftp_send_cmd_overflow (codes "SIZE " ++ path) ok s' connected
        (omega (arith, long, length-append (codes "SIZE ") path)))
