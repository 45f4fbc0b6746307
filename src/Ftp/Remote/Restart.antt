-- ===== src/Ftp/Remote/Restart.antt =====
-- A transfer from an offset, on a server that refuses REST.
use ps5_ezremote_server.Prelude.{
  ℕ, ◌+◌, ◌<◌, ◌≡◌, refl, ◌∙◌, true, false, none, some, ◌∷◌, ◌++◌, length, leb, ◌==◌, arith,
}
use ps5_ezremote_server.Outcome.{returns, undefined}
use ps5_ezremote_server.Words.{Bytes, codes}
use ps5_ezremote_server.Transfer.{Sink}
use ps5_ezremote_server.Ftp.Reader.{Sockets}
use ps5_ezremote_server.Ftp.Address.{behind_parenthesis, scan_fields, to_address}
use ps5_ezremote_server.Ftp.Control.{Ftp, pasv, ftp_send_cmd, ok}
use ps5_ezremote_server.Ftp.Channel.{
  TransferMode, Direction, client_read, untouched, fileread, image, print_offset, restart,
  ftp_open_pasv, open_connection, ftp_access,
}
use ps5_ezremote_server.Ftp.Remote.{get_range}

module _ {N : Type 0} (sockets : Sockets N) (fuel : ℕ) where
  restart_refused :
      (s s' : Ftp N)
      → (s.offset == 0) ≡ false
      → ftp_send_cmd sockets fuel (codes "REST " ++ print_offset s.offset) (codes "3") s
        ≡ returns (false, s')
      → restart sockets fuel s ≡ returns (false, s')
  unfolding restart
  restart_refused s s' some_offset refuses = rw (restart, some_offset, refuses) refl

  ftp_open_pasv_refused :
      (mode : TransferMode) (direction : Direction) (cmd cp v address : Bytes) (s s' s'' : Ftp N)
      → ftp_send_cmd sockets fuel (codes "PASV") ok s ≡ returns (true, s')
      → s'.correctpasv ≡ false
      → behind_parenthesis s'.response ≡ some cp
      → scan_fields 6 cp ≡ returns v
      → to_address v ≡ returns address
      → restart sockets fuel s' ≡ returns (false, s'')
      → ftp_open_pasv sockets fuel mode direction cmd s ≡ returns (untouched, s'')
  unfolding ftp_open_pasv
  ftp_open_pasv_refused mode direction cmd cp v address s s' s'' passive plain found scanned
        addressed refuses =
      simp (ftp_open_pasv, passive, plain, found, scanned, addressed, refuses)

  open_connection-untouched :
      (mode : TransferMode) (direction : Direction) (cmd : Bytes) (s s' : Ftp N)
      → s.cmode ≡ pasv
      → ftp_open_pasv sockets fuel mode direction cmd s ≡ returns (untouched, s')
      → open_connection sockets fuel mode direction cmd s ≡ returns (some none, s')
  unfolding open_connection
  open_connection-untouched mode direction cmd s s' passive opens =
      simp (open_connection, passive, opens)

  ftp_access_to :
      (path : Bytes) (s s' : Ftp N)
      → 0 < length path
      → length path + 5 < 512
      → ftp_send_cmd sockets fuel (codes "TYPE I") ok s ≡ returns (true, s')
      → ftp_access sockets fuel path fileread image s
        ≡ open_connection sockets fuel image client_read (codes "RETR" ++ (b' ' ∷ path)) s'
  unfolding ftp_access
  ftp_access_to path s s' some_path room typed =
      let given : (length path == 0) ≡ false = ground arith in
      let fits : leb 512 (length path + (4 + 1)) ≡ false = ground arith in
      rw (ftp_access, given, typed, fits) refl

  get_range_untouched :
      (sink : Sink) (path : Bytes) (size offset : ℕ) (s s' : Ftp N)
      → ftp_access sockets fuel path fileread image (record s { offset = offset })
        ≡ returns (some none, s')
      → get_range sockets fuel sink path size offset s ≡ undefined
  unfolding get_range
  get_range_untouched sink path size offset s s' opens = rw (get_range, opens) refl

  -- The client is in passive mode, and the server takes TYPE and PASV and gives an address, but
  -- refuses REST for an offset other than 0. `FtpOpenPasv` then answers 0, which is not the -1 that
  -- `FtpAccess` looks for: `GetRange` uses a data handle that was never set.
  pub get_range_refused_restart :
      (sink : Sink) (path cp v address : Bytes) (size offset : ℕ) (s s1 s2 s3 : Ftp N)
      → 0 < length path
      → length path + 5 < 512
      → ftp_send_cmd sockets fuel (codes "TYPE I") ok (record s { offset = offset })
        ≡ returns (true, s1)
      → s1.cmode ≡ pasv
      → ftp_send_cmd sockets fuel (codes "PASV") ok s1 ≡ returns (true, s2)
      → s2.correctpasv ≡ false
      → behind_parenthesis s2.response ≡ some cp
      → scan_fields 6 cp ≡ returns v
      → to_address v ≡ returns address
      → (s2.offset == 0) ≡ false
      → ftp_send_cmd sockets fuel (codes "REST " ++ print_offset s2.offset) (codes "3") s2
        ≡ returns (false, s3)
      → get_range sockets fuel sink path size offset s ≡ undefined
  get_range_refused_restart sink path cp v address size offset s s1 s2 s3 some_path room typed mode
        passive plain found scanned addressed some_offset refuses =
      let command = codes "RETR" ++ (b' ' ∷ path) in
      let opens =
        ftp_open_pasv_refused image client_read command cp v address s1 s2 s3 passive plain found
          scanned addressed (restart_refused s2 s3 some_offset refuses) in
      get_range_untouched sink path size offset s s3 (
        ftp_access_to path (record s { offset = offset }) s1 some_path room typed
        ∙ open_connection-untouched image client_read command s1 s3 mode opens)
