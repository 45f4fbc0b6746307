-- ===== src/Ftp/Channel/Tests.antt =====
-- The witness of a data connection in passive mode.
use ps5_ezremote_server.Prelude.{
  ◌≡◌, refl, true, false, some, none, [], ◌∷◌, ◌++◌, length, drop, if◌then◌else◌, arith,
}
use ps5_ezremote_server.Outcome.{Outcome, returns}
use ps5_ezremote_server.Words.{Bytes, same, digits, to_string, codes}
use ps5_ezremote_server.Text.{starts_with, is_among}
use ps5_ezremote_server.Ftp.Reader.{Sockets, poke, end_line, readline_loop, readline}
use ps5_ezremote_server.Ftp.Address.{is_digit}
use ps5_ezremote_server.Ftp.Address.RoundTrip.{print_fields}
use ps5_ezremote_server.Ftp.Control.{
  Ftp, pasv, response_at, read_line, read_response, ftp_send_cmd, ok,
}
use ps5_ezremote_server.Ftp.Channel.{client_read, image, restart, new_handle, ftp_open_pasv}
use ps5_ezremote_server.Ftp.Channel.Passive.{ftp_open_pasv-print_fields}
use ps5_ezremote_server.Ftp.Samples.{some_reader}
use ps5_ezremote_server.Ftp.Files.{zeros}

abbrev answer : Bytes → Bytes
answer command =
    if starts_with (codes "RETR") command
    then codes "150 go" ++ (10 ∷ [])
    else codes "227 (192,168,0,7,195,80)" ++ (10 ∷ [])

-- A server that listens on one port, with the last command.
abbrev server : Sockets Bytes
server = record {
  recv = λ socket room net. (some (answer net), net);
  send = λ socket bytes net. (some (length bytes), bytes);
  data_socket = λ net. (some 4, net);
  connect = λ socket address net. (same address (195 ∷ 80 ∷ 192 ∷ 168 ∷ 0 ∷ 7 ∷ []), net);
  close = λ socket net. net;
  peer_name = λ socket net. (none, net);
  socket_name = λ socket net. (none, net);
  bind_any = λ socket address net. (true, net);
  listen = λ socket net. (true, net);
  accept = λ socket net. (none, net);
  socket = λ net. (some 3, net);
  reuse_address = λ socket net. (true, net);
  host_address = λ host net. (none, net);
  error_text = λ net. codes "error";
  callback = λ xfered net. (true, net);
}

abbrev client : Ftp Bytes
client = record {
  reader = some_reader [];
  cmode = pasv;
  response = zeros 512;
  offset = 0;
  correctpasv = false;
  has_xfercb = false;
  cbbytes = 0;
  is_connected = true;
  sent = [];
  net = [];
}

abbrev state_of : {A : Type 0} → Outcome (A × Ftp Bytes) → Ftp Bytes
state_of (returns (a, s)) = s
state_of _ = client

abbrev passive : Ftp Bytes
passive = state_of (ftp_send_cmd server 9 (codes "PASV") ok client)

abbrev command : Bytes
command = codes "RETR /a"

abbrev started : Ftp Bytes
started = state_of (
    read_response server 9 (codes "1")
      (record passive { sent = passive.sent ++ (command ∷ []); net = command ++ (13 ∷ 10 ∷ []) }))

passive-ftp_send_cmd : ftp_send_cmd server 9 (codes "PASV") ok client ≡ returns (true, passive)
unfolding ftp_send_cmd read_response read_line readline readline_loop poke end_line starts_with
    response_at is_among
passive-ftp_send_cmd = refl

passive-correctpasv : passive.correctpasv ≡ false
unfolding ftp_send_cmd read_response read_line readline readline_loop poke end_line starts_with
    response_at is_among
passive-correctpasv = refl

passive-response :
    passive.response
    ≡ codes "227 "
      ++ (b'(' ∷ print_fields 192 (168 ∷ 0 ∷ 7 ∷ 195 ∷ 80 ∷ []) (b')' ∷ drop 24 passive.response))
unfolding print_fields to_string digits ftp_send_cmd read_response read_line readline readline_loop
    poke end_line starts_with response_at is_among
passive-response = refl

passive-restart : restart server 9 passive ≡ returns (true, passive)
unfolding restart ftp_send_cmd read_response read_line readline readline_loop poke end_line
    starts_with response_at is_among
passive-restart = refl

started-connect :
    server.connect 4 (195 ∷ 80 ∷ 192 ∷ 168 ∷ 0 ∷ 7 ∷ []) (command ++ (13 ∷ 10 ∷ []))
    ≡ (true, command ++ (13 ∷ 10 ∷ []))
unfolding same
started-connect = refl

started-read_response :
    read_response server 9
      (codes "1")
      (record passive { sent = passive.sent ++ (command ∷ []); net = command ++ (13 ∷ 10 ∷ []) })
    ≡ returns (true, started)
unfolding ftp_send_cmd read_response read_line readline readline_loop poke end_line starts_with
    response_at is_among
started-read_response = refl

ftp_open_pasv-print_fields_example :
    ftp_open_pasv server 9 image client_read command client
    ≡ new_handle server image client_read 4 started
ftp_open_pasv-print_fields_example =
    ftp_open_pasv-print_fields server 9 image client_read command (codes "227 ")
      (drop 24 passive.response) 192 168 0 7 195 80 b')' 4 8 client passive passive started
      passive.net (command ++ (13 ∷ 10 ∷ [])) (command ++ (13 ∷ 10 ∷ [])) (ground arith)
      (unfold is_digit in refl) (ground arith) passive-ftp_send_cmd passive-correctpasv
      passive-response passive-restart refl refl started-connect started-read_response
