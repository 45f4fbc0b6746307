-- ===== src/Ftp/Channel/Passive.antt =====
-- Where a data connection in passive mode goes.
use ps5_ezremote_server.Prelude.{ℕ, suc, ◌≡◌, ap, ◌∙◌, true, false, All, some, [], ◌∷◌, ◌++◌}
use ps5_ezremote_server.Outcome.{returns}
use ps5_ezremote_server.Words.{Bytes, AreBytes, codes}
use ps5_ezremote_server.Ftp.Reader.{Sockets}
use ps5_ezremote_server.Ftp.Address.{is_digit, behind_parenthesis, scan_fields, to_address}
use ps5_ezremote_server.Ftp.Address.RoundTrip.{
  IsBefore, behind_parenthesis-append, print_fields, scan_fields-print_fields, to_address-byte,
}
use ps5_ezremote_server.Ftp.Control.{Ftp, ftp_send_cmd, read_response, ok}
use ps5_ezremote_server.Ftp.Channel.{
  TransferMode, Direction, new_handle, restart, start_transfer, ftp_open_pasv,
}

module _ {N : Type 0} (sockets : Sockets N) (fuel : ℕ) (mode : TransferMode) (direction : Direction)
    (cmd : Bytes) where
  -- The command is sent, the connection made, and the reply a good one.
  start_transfer-new_handle :
      (address : Bytes) (socket k : ℕ) (s s' : Ftp N) (net net' : N)
      → sockets.send s.reader.handle (cmd ++ (13 ∷ 10 ∷ [])) s.net ≡ (some (suc k), net)
      → sockets.connect socket address net ≡ (true, net')
      → read_response sockets fuel
          (codes "1")
          (record s { sent = s.sent ++ (cmd ∷ []); net = net' })
        ≡ returns (true, s')
      → start_transfer sockets fuel mode direction cmd address socket s
        ≡ new_handle sockets mode direction socket s'
  unfolding start_transfer
  start_transfer-new_handle address socket k s s' net net' sends connects replies =
      simp (start_transfer, sends, connects, replies)

  ftp_open_pasv_starts :
      (cp v address : Bytes) (socket : ℕ) (s s1 s2 : Ftp N) (net : N)
      → ftp_send_cmd sockets fuel (codes "PASV") ok s ≡ returns (true, s1)
      → s1.correctpasv ≡ false
      → behind_parenthesis s1.response ≡ some cp
      → scan_fields 6 cp ≡ returns v
      → to_address v ≡ returns address
      → restart sockets fuel s1 ≡ returns (true, s2)
      → sockets.data_socket s2.net ≡ (some socket, net)
      → ftp_open_pasv sockets fuel mode direction cmd s
        ≡ start_transfer sockets fuel mode direction cmd address socket (record s2 { net = net })
  unfolding ftp_open_pasv
  ftp_open_pasv_starts cp v address socket s s1 s2 net passive plain found scanned addressed
        restarts opens =
      simp (ftp_open_pasv, passive, plain, found, scanned, addressed, restarts, opens)

  -- The server accepts PASV, and its reply has the four bytes of a host and the two of a port
  -- behind the first parenthesis, printed with commas between them and with a character that is no
  -- digit behind them; `correctpasv` is not set; the restart, the socket and the sending of the
  -- command succeed. If then the socket can be connected to that port of that host, and the server
  -- starts the transfer, `FtpOpenPasv` gives a handle on that socket.
  pub ftp_open_pasv-print_fields :
      (before rest : Bytes) (h1 h2 h3 h4 p1 p2 c socket k : ℕ) (s s1 s2 s3 : Ftp N)
      (net net1 net2 : N)
      → AreBytes (h1 ∷ h2 ∷ h3 ∷ h4 ∷ p1 ∷ p2 ∷ [])
      → is_digit c ≡ false
      → All IsBefore before
      → ftp_send_cmd sockets fuel (codes "PASV") ok s ≡ returns (true, s1)
      → s1.correctpasv ≡ false
      → s1.response ≡ before ++ (b'(' ∷ print_fields h1 (h2 ∷ h3 ∷ h4 ∷ p1 ∷ p2 ∷ []) (c ∷ rest))
      → restart sockets fuel s1 ≡ returns (true, s2)
      → sockets.data_socket s2.net ≡ (some socket, net)
      → sockets.send s2.reader.handle (cmd ++ (13 ∷ 10 ∷ [])) net ≡ (some (suc k), net1)
      → sockets.connect socket (p1 ∷ p2 ∷ h1 ∷ h2 ∷ h3 ∷ h4 ∷ []) net1 ≡ (true, net2)
      → read_response sockets fuel
          (codes "1")
          (record s2 { sent = s2.sent ++ (cmd ∷ []); net = net2 })
        ≡ returns (true, s3)
      → ftp_open_pasv sockets fuel mode direction cmd s
        ≡ new_handle sockets mode direction socket s3
  ftp_open_pasv-print_fields before rest h1 h2 h3 h4 p1 p2 c socket k s s1 s2 s3 net net1 net2 bytes
        stop plain passive uncorrected response restarts opens sends connects replies =
      let text = print_fields h1 (h2 ∷ h3 ∷ h4 ∷ p1 ∷ p2 ∷ []) (c ∷ rest) in
      let found : behind_parenthesis s1.response ≡ some text =
        ap behind_parenthesis response ∙ behind_parenthesis-append before text plain in
      let scanned =
        scan_fields-print_fields h1 (h2 ∷ h3 ∷ h4 ∷ p1 ∷ p2 ∷ []) c rest bytes.0 bytes.1 stop in
      ftp_open_pasv_starts text _ _ socket s s1 s2 net passive uncorrected found scanned
        (to_address-byte h1 h2 h3 h4 p1 p2 bytes) restarts opens
      ∙ start_transfer-new_handle (p1 ∷ p2 ∷ h1 ∷ h2 ∷ h3 ∷ h4 ∷ []) socket k
          (record s2 { net = net }) s3 net1 net2 sends connects replies
