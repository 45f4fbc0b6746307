-- ===== src/Ftp/Raw.antt =====
-- `FtpClient::FtpClient`, `RawOpen`, `RawClose`, `RawRead` and `RawWrite` of
-- source/clients/ftpclient.cpp.
use ps5_ezremote_server.Prelude.{ℕ, Bool, false, Option, [], ◌≡◌, refl}
use ps5_ezremote_server.Words.{Bytes}
use ps5_ezremote_server.Outcome.{returns}
use ps5_ezremote_server.Ftp.Reader.{Sockets}
use ps5_ezremote_server.Ftp.Control.{Ftp, Action, pasv, clear_handle}
use ps5_ezremote_server.Ftp.Channel.{AccessType, TransferMode, DataHandle, ftp_access, ftp_close}
use ps5_ezremote_server.Ftp.Files.{zeros, ftp_read, ftp_write}

-- A new client. Its handle is zeros from `calloc`, and `ClearHandle` sets the mode.
unfoldable pub new_client : {N : Type 0} → N → Ftp N
new_client net = record {
  reader = record { handle = 0; pending = []; cleft = 0 };
  cmode = pasv;
  response = zeros 512;
  offset = 0;
  correctpasv = false;
  has_xfercb = false;
  cbbytes = 0;
  is_connected = false;
  sent = [];
  net = net;
}

module _ {N : Type 0} (sockets : Sockets N) where
  -- The handle, NULL, or a handle that was never set.
  unfoldable pub raw_open :
      ℕ → Bytes → AccessType → TransferMode → Action N (Option (Option DataHandle))
  raw_open fuel path type mode = ftp_access sockets fuel path type mode

  unfoldable pub raw_close : ℕ → DataHandle → Action N Bool
  raw_close fuel handle = ftp_close sockets fuel handle

  unfoldable pub raw_write : Bytes → DataHandle → Action N (ℕ × DataHandle)
  raw_write buf handle = ftp_write sockets buf handle

  unfoldable pub raw_read : ℕ → DataHandle → Action N (Bytes × DataHandle)
  raw_read max handle = ftp_read sockets max handle

  -- `ClearHandle` changes nothing in a new client.
  clear_handle-new_client :
      (net : N) → clear_handle sockets (new_client net) ≡ returns (tt, new_client net)
  unfolding new_client
  clear_handle-new_client net = refl
