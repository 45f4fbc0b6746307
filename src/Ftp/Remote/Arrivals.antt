-- ===== src/Ftp/Remote/Arrivals.antt =====
-- What `recv` gives on a data connection in image mode, and what `FtpRead` makes of it.
use ps5_ezremote_server.Prelude.{
  ℕ, suc, ◌+◌, ◌≤◌, ◌<◌, ◌≡◌, refl, Bool, false, Option, none, some, [], ◌∷◌, ◌++◌, length,
}
use ps5_ezremote_server.Outcome.{returns}
use ps5_ezremote_server.Words.{Bytes}
use ps5_ezremote_server.Ftp.Reader.{Sockets}
use ps5_ezremote_server.Ftp.Control.{Ftp}
use ps5_ezremote_server.Ftp.Channel.{client_read, DataHandle}
use ps5_ezremote_server.Ftp.Files.{progress, ftp_read}

-- What `recv` gives on a data connection: an error, the end, or a chunk of what is still to come.
pub data Received {N : Type 0} (At : Bytes → N → Type 0) (room : ℕ) (stream : Bytes)
    : Option Bytes × N → Type 0 where
  failed : (net : N) → Received At room stream (none, net)
  ended : (net : N) → Received At room stream (some [], net)
  gave :
      (b : ℕ) (got rest : Bytes) (net : N)
      → suc (length got) ≤ room
      → (b ∷ got) ++ rest ≡ stream
      → At rest net
      → Received At room stream (some (b ∷ got), net)

pub record Arrives {N : Type 0} (sockets : Sockets N) (socket : ℕ) (At : Bytes → N → Type 0)
    : Type 0 where
  pub gives :
      (stream : Bytes) (room : ℕ) (net : N)
      → 0 < room
      → At stream net
      → Received At room stream (sockets.recv socket room net)

-- A handle to read with, in image mode and without a callback.
abbrev pub reading_from : ℕ → Bool → ℕ → ℕ → DataHandle
reading_from socket has_ctrl cbbytes xfered = record {
  reader = record { handle = socket; pending = []; cleft = 0 };
  has_buf = false;
  direction = client_read;
  has_ctrl = has_ctrl;
  xfered = xfered;
  xfered1 = 0;
  cbbytes = cbbytes;
  has_xfercb = false;
}

abbrev pub at_net : {N : Type 0} → Ftp N → N → Ftp N
at_net s net = record s { net = net }

module _ {N : Type 0} (sockets : Sockets N) (socket : ℕ) (has_ctrl : Bool) (cbbytes : ℕ) where
  abbrev pub at_count : ℕ → DataHandle
  at_count xfered = reading_from socket has_ctrl cbbytes xfered

  module _ (room xfered : ℕ) (s : Ftp N) (net : N) where
    pub read_failed :
        sockets.recv socket room s.net ≡ (none, net)
        → ftp_read sockets room (at_count xfered) s ≡ returns (([], at_count xfered), at_net s net)
    unfolding ftp_read
    read_failed e = rw (ftp_read, e) refl

    pub read_some :
        (bytes : Bytes)
        → sockets.recv socket room s.net ≡ (some bytes, net)
        → ftp_read sockets room (at_count xfered) s
          ≡ returns ((bytes, at_count (xfered + length bytes)), at_net s net)
    unfolding ftp_read progress
    read_some bytes e = rw (ftp_read, e) refl
