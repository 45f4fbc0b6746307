-- ===== src/Ftp/Files/Tests.antt =====
-- Tests of uploads and of text mode, with a server that keeps what it is sent.
use ps5_ezremote_server.Prelude.{
  ◌≡◌, refl, true, false, Option, some, none, [], ◌∷◌, ◌++◌, length, ◌==◌, if◌then◌else◌,
}
use ps5_ezremote_server.Outcome.{Outcome, returns, undefined, out_of_fuel}
use ps5_ezremote_server.Words.{Bytes, codes}
use ps5_ezremote_server.Text.{starts_with, is_among}
use ps5_ezremote_server.Ftp.Reader.{Sockets, poke, end_line, readline_loop, readline}
use ps5_ezremote_server.Ftp.Address.{
  behind_parenthesis, is_digit, scan_digits, scan_unsigned, scan_number, scan_comma, scan_fields,
  to_address,
}
use ps5_ezremote_server.Ftp.Control.{Ftp, pasv, response_at, read_line, read_response, ftp_send_cmd}
use ps5_ezremote_server.Ftp.Channel.{
  DataHandle, client_write, restart, start_transfer, ftp_open_pasv, open_connection, ftp_access,
  ftp_close,
}
use ps5_ezremote_server.Ftp.Files.{
  Streams, zeros, progress, ftp_write, flush, put_byte, writeline_loop, writeline, upload_loop,
  open_local, ftp_xfer, put,
}

-- The last command, the local file, and what the data connection has taken.
abbrev Server : Type 0
Server = Bytes × Bytes × Bytes

abbrev answer : Bytes → Bytes
answer command =
    if starts_with (codes "STOR") command
    then codes "150 go" ++ (10 ∷ (codes "226 done" ++ (10 ∷ [])))
    else codes "227 (10,0,0,1,4,1)" ++ (10 ∷ [])

abbrev server : Sockets Server
server = record {
  recv = λ socket room net. (some (answer net.0), net);
  send = λ socket bytes net. (
    some (length bytes),
    if socket == 3 then (bytes, net.1, net.2) else (net.0, net.1, net.2 ++ bytes),
  );
  data_socket = λ net. (some 4, net);
  connect = λ socket address net. (true, net);
  close = λ socket net. net;
  peer_name = λ socket net. (none, net);
  socket_name = λ socket net. (none, net);
  bind_any = λ socket address net. (true, net);
  listen = λ socket net. (true, net);
  accept = λ socket net. (none, net);
  socket = λ net. (some 3, net);
  reuse_address = λ socket net. (true, net);
  host_address = λ host net. (none, net);
  error_text = λ net. codes "error";
  callback = λ xfered net. (true, net);
}

abbrev streams : Streams Server
streams = record {
  fopen = λ name mode net. (some 7, net);
  fread = λ stream room net. (net.1, (net.0, [], net.2));
  fwrite = λ stream bytes net. (length bytes, net);
  fseek = λ stream offset net. net;
  fclose = λ stream net. net;
  stdin = 0;
  stdout = 1;
}

abbrev client : Bytes → Ftp Server
client file = record {
  reader = record { handle = 3; pending = []; cleft = 0 };
  cmode = pasv;
  response = zeros 512;
  offset = 0;
  correctpasv = false;
  has_xfercb = false;
  cbbytes = 0;
  is_connected = true;
  sent = [];
  net = ([], file, []);
}

abbrev taken : {A : Type 0} → Outcome (A × Ftp Server) → Option (A × Bytes)
taken (returns (a, s)) = some (a, s.net.2)
taken undefined = none
taken out_of_fuel = none

put_test :
    taken (put server streams 9 (codes "f") (codes "/a") 0 (client (codes "abc")))
    ≡ some (true, codes "abc")
unfolding put ftp_xfer open_local upload_loop ftp_write progress ftp_access open_connection
    ftp_open_pasv restart start_transfer ftp_close ftp_send_cmd read_response read_line readline
    readline_loop poke end_line starts_with behind_parenthesis scan_fields scan_number scan_unsigned
    scan_digits is_digit scan_comma to_address response_at is_among
put_test = refl

abbrev text_handle : DataHandle
text_handle = record {
  reader = record { handle = 4; pending = []; cleft = 0 };
  has_buf = true;
  direction = client_write;
  has_ctrl = true;
  xfered = 0;
  xfered1 = 0;
  cbbytes = 0;
  has_xfercb = false;
}

-- A line feed alone gets a return, and one behind a return does not; the count is the caller's.
writeline_test :
    taken (writeline server text_handle (b'a' ∷ 10 ∷ b'b' ∷ 13 ∷ 10 ∷ []) (client []))
    ≡ some (some 5, b'a' ∷ 13 ∷ 10 ∷ b'b' ∷ 13 ∷ 10 ∷ [])
unfolding writeline writeline_loop put_byte flush
writeline_test = refl
