-- ===== src/Ftp/Remote/Tests.antt =====
-- Tests of the transfers of the FTP client, with a server that answers the last command, and the
-- witnesses.
use ps5_ezremote_server.Prelude.{
  ℕ, ◌<◌, ◌≡◌, refl, true, false, Option, some, none, [], ◌∷◌, ◌++◌, length, map, ◌==◌,
  if◌then◌else◌, arith,
}
use ps5_ezremote_server.Outcome.{Outcome, returns, undefined}
use ps5_ezremote_server.Words.{Bytes, codes, digits, to_string}
use ps5_ezremote_server.Text.{starts_with, is_among}
use ps5_ezremote_server.Transfer.{Sink}
use ps5_ezremote_server.Ftp.Reader.{Sockets, poke, end_line, readline_loop, readline}
use ps5_ezremote_server.Ftp.Address.{
  behind_parenthesis, is_digit, scan_digits, scan_unsigned, scan_number, scan_comma, scan_fields,
  to_address,
}
use ps5_ezremote_server.Ftp.Control.{
  Ftp, pasv, response_at, set_response, read_line, read_response, ftp_send_cmd, ok,
}
use ps5_ezremote_server.Ftp.Channel.{
  fileread, image, print_offset, restart, start_transfer, ftp_open_pasv, open_connection,
  ftp_access, ftp_close,
}
use ps5_ezremote_server.Ftp.Samples.{some_reader}
use ps5_ezremote_server.Ftp.Files.{
  zeros, ftp_read, progress, scan_magnitude, scan_signed, scan_size,
}
use ps5_ezremote_server.Ftp.Remote.{
  buffer_loop, get_range_buffer, sink_loop, end_range, get_range, size,
}
use ps5_ezremote_server.Ftp.Remote.Arrivals.{Received, ended, gave, Arrives, reading_from, at_net}
use ps5_ezremote_server.Ftp.Remote.GetRange.{Closed, Got, get_range-Got}
use ps5_ezremote_server.Ftp.Remote.Buffers.{Reported, get_range_buffer-Reported}
use ps5_ezremote_server.Ftp.Remote.Guards.{size_overflow}
use ps5_ezremote_server.Ftp.Remote.Restart.{get_range_refused_restart}

-- The last command, and a file.
abbrev Server : Type 0
Server = Bytes × Bytes

abbrev answer : Bytes → Bytes
answer command =
    if starts_with (codes "RETR") command
    then codes "150 go" ++ (10 ∷ (codes "226 done" ++ (10 ∷ [])))
    else if starts_with (codes "REST") command
    then codes "502 no" ++ (10 ∷ [])
    else if starts_with (codes "SIZE") command
    then codes "213 3" ++ (10 ∷ [])
    else codes "227 (10,0,0,1,4,1)" ++ (10 ∷ [])

abbrev next_byte : Server → Option Bytes × Server
next_byte (command, []) = (some [], (command, []))
next_byte (command, c ∷ file) = (some (c ∷ []), (command, file))

abbrev server : Sockets Server
server = record {
  recv = λ socket room net. if socket == 3 then (some (answer net.0), net) else next_byte net;
  send = λ socket bytes net. (some (length bytes), (bytes, net.1));
  data_socket = λ net. (some 4, net);
  connect = λ socket address net. (true, net);
  close = λ socket net. net;
  peer_name = λ socket net. (none, net);
  socket_name = λ socket net. (none, net);
  bind_any = λ socket address net. (true, net);
  listen = λ socket net. (true, net);
  accept = λ socket net. (none, net);
  socket = λ net. (some 3, net);
  reuse_address = λ socket net. (true, net);
  host_address = λ host net. (none, net);
  error_text = λ net. codes "error";
  callback = λ xfered net. (true, net);
}

abbrev client : ℕ → Ftp Server
client offset = record {
  reader = some_reader [];
  cmode = pasv;
  response = zeros 512;
  offset = offset;
  correctpasv = false;
  has_xfercb = false;
  cbbytes = 0;
  is_connected = true;
  sent = [];
  net = ([], codes "abc");
}

abbrev takes_all : Sink
takes_all sent chunk = true

abbrev state_of : {A : Type 0} → Outcome (A × Ftp Server) → Ftp Server
state_of (returns (a, s)) = s
state_of _ = client 0

abbrev transfer_state : Ftp Server
transfer_state = state_of (ftp_access server 9 (codes "/a") fileread image (client 0))

transfer_state-ftp_access :
    ftp_access server 9 (codes "/a") fileread image (client 0)
    ≡ returns (some (some (reading_from 4 true 0 0)), transfer_state)
unfolding ftp_access open_connection ftp_open_pasv restart start_transfer ftp_send_cmd read_response
    read_line readline readline_loop poke end_line starts_with behind_parenthesis scan_fields
    scan_number scan_unsigned scan_digits is_digit scan_comma to_address response_at is_among
    to_string digits
transfer_state-ftp_access = refl

closes :
    (xfered : ℕ) (net : Server)
    → Closed (ftp_close server 9 (reading_from 4 true 0 xfered) (at_net transfer_state net))
unfolding ftp_close ftp_access open_connection ftp_open_pasv restart start_transfer ftp_send_cmd
    read_response read_line readline readline_loop poke end_line starts_with behind_parenthesis
    scan_fields scan_number scan_unsigned scan_digits is_digit scan_comma to_address response_at
    is_among to_string digits
closes xfered net = record {
  confirmed = true;
  state = state_of (ftp_close server 9 (reading_from 4 true 0 xfered) (at_net transfer_state net));
  done = refl;
  room = refl;
}

abbrev Left : Bytes → Server → Type 0
Left stream net = net.1 ≡ stream

gives_byte :
    (stream : Bytes) (room : ℕ) (net : Server)
    → 0 < room
    → Left stream net
    → Received Left room stream (next_byte net)
gives_byte stream room (command, []) some_room at = ended (command, [])
gives_byte stream room (command, c ∷ file) some_room at =
    gave c [] file (command, file) (omega arith) at refl

server-Arrives : Arrives server 4 Left
server-Arrives = record { gives = gives_byte }

file-Left : Left (codes "abc") transfer_state.net
unfolding ftp_access open_connection ftp_open_pasv restart start_transfer ftp_send_cmd read_response
    read_line readline readline_loop poke end_line starts_with behind_parenthesis scan_fields
    scan_number scan_unsigned scan_digits is_digit scan_comma to_address response_at is_among
    to_string digits
file-Left = refl

get_range-Got_example :
    Got (codes "abc") 2 (get_range server 9 takes_all (codes "/a") 2 0 (client 5))
get_range-Got_example =
    get_range-Got server 4 Left server-Arrives 9 takes_all (codes "/a") 2 0 true 0 (codes "abc")
      (client 5) transfer_state (omega arith) transfer_state-ftp_access file-Left closes

abbrev answer_of : {A : Type 0} → Outcome (A × Ftp Server) → Option A
answer_of (returns (a, s)) = some a
answer_of _ = none

get_range_test :
    answer_of (get_range server 9 takes_all (codes "/a") 2 0 (client 5)) ≡ some (true, codes "ab")
unfolding get_range sink_loop end_range ftp_read progress ftp_close ftp_access open_connection
    ftp_open_pasv restart start_transfer ftp_send_cmd read_response read_line readline readline_loop
    poke end_line starts_with behind_parenthesis scan_fields scan_number scan_unsigned scan_digits
    is_digit scan_comma to_address response_at is_among to_string digits
get_range_test = refl

get_range_test_short :
    answer_of (get_range server 9 takes_all (codes "/a") 4 0 (client 5)) ≡ some (false, codes "abc")
unfolding get_range sink_loop end_range set_response ftp_read progress ftp_close ftp_access
    open_connection ftp_open_pasv restart start_transfer ftp_send_cmd read_response read_line
    readline readline_loop poke end_line starts_with behind_parenthesis scan_fields scan_number
    scan_unsigned scan_digits is_digit scan_comma to_address response_at is_among to_string digits
get_range_test_short = refl

-- The server refuses REST, and the transfer goes on without a data connection.
get_range_test_restart : get_range server 9 takes_all (codes "/a") 2 1 (client 0) ≡ undefined
unfolding get_range ftp_access open_connection ftp_open_pasv restart start_transfer ftp_send_cmd
    read_response read_line readline readline_loop poke end_line starts_with behind_parenthesis
    scan_fields scan_number scan_unsigned scan_digits is_digit scan_comma to_address response_at
    is_among to_string digits
get_range_test_restart = refl

size_test : answer_of (size server 9 (codes "/a") (client 0)) ≡ some (some 3)
unfolding size scan_size scan_signed scan_magnitude ftp_access open_connection ftp_open_pasv restart
    start_transfer ftp_send_cmd read_response read_line readline readline_loop poke end_line
    starts_with behind_parenthesis scan_fields scan_number scan_unsigned scan_digits is_digit
    scan_comma to_address response_at is_among to_string digits
size_test = refl

get_range_buffer-Reported_example :
    Reported (codes "abc") 4 (get_range_buffer server 9 (codes "/a") 4 0 (client 5))
get_range_buffer-Reported_example =
    get_range_buffer-Reported server 4 Left server-Arrives 9 (codes "/a") 4 0 true 0 (codes "abc")
      (client 5) transfer_state transfer_state-ftp_access file-Left closes

-- The range is cut short, and a success is reported.
get_range_buffer_test :
    answer_of (get_range_buffer server 9 (codes "/a") 4 0 (client 5)) ≡ some (true, codes "abc")
unfolding get_range_buffer buffer_loop ftp_read progress ftp_close ftp_access open_connection
    ftp_open_pasv restart start_transfer ftp_send_cmd read_response read_line readline readline_loop
    poke end_line starts_with behind_parenthesis scan_fields scan_number scan_unsigned scan_digits
    is_digit scan_comma to_address response_at is_among to_string digits
get_range_buffer_test = refl

abbrev typed : Ftp Server
typed = state_of (ftp_send_cmd server 9 (codes "TYPE I") ok (client 1))

abbrev passive : Ftp Server
passive = state_of (ftp_send_cmd server 9 (codes "PASV") ok typed)

abbrev refused_restart : Ftp Server
refused_restart = state_of (ftp_send_cmd server 9 (codes "REST 1") (codes "3") passive)

typed-ftp_send_cmd : ftp_send_cmd server 9 (codes "TYPE I") ok (client 1) ≡ returns (true, typed)
unfolding ftp_send_cmd read_response read_line readline readline_loop poke end_line starts_with
    behind_parenthesis scan_fields scan_number scan_unsigned scan_digits is_digit scan_comma
    to_address response_at is_among to_string digits
typed-ftp_send_cmd = refl

passive-ftp_send_cmd : ftp_send_cmd server 9 (codes "PASV") ok typed ≡ returns (true, passive)
unfolding ftp_send_cmd read_response read_line readline readline_loop poke end_line starts_with
    behind_parenthesis scan_fields scan_number scan_unsigned scan_digits is_digit scan_comma
    to_address response_at is_among to_string digits
passive-ftp_send_cmd = refl

restart-ftp_send_cmd :
    ftp_send_cmd server 9 (codes "REST " ++ print_offset passive.offset) (codes "3") passive
    ≡ returns (false, refused_restart)
unfolding ftp_send_cmd read_response read_line readline readline_loop poke end_line starts_with
    behind_parenthesis scan_fields scan_number scan_unsigned scan_digits is_digit scan_comma
    to_address response_at is_among to_string digits
restart-ftp_send_cmd = refl

typed-cmode : typed.cmode ≡ pasv
unfolding ftp_send_cmd read_response read_line readline readline_loop poke end_line starts_with
    behind_parenthesis scan_fields scan_number scan_unsigned scan_digits is_digit scan_comma
    to_address response_at is_among to_string digits
typed-cmode = refl

abbrev address_text : Bytes
address_text = elim (behind_parenthesis passive.response) [ none ↦ [] | some cp ↦ cp ]

passive-behind_parenthesis : behind_parenthesis passive.response ≡ some address_text
unfolding ftp_send_cmd read_response read_line readline readline_loop poke end_line starts_with
    behind_parenthesis scan_fields scan_number scan_unsigned scan_digits is_digit scan_comma
    to_address response_at is_among to_string digits
passive-behind_parenthesis = refl

passive-scan_fields : scan_fields 6 address_text ≡ returns (10 ∷ 0 ∷ 0 ∷ 1 ∷ 4 ∷ 1 ∷ [])
unfolding ftp_send_cmd read_response read_line readline readline_loop poke end_line starts_with
    behind_parenthesis scan_fields scan_number scan_unsigned scan_digits is_digit scan_comma
    to_address response_at is_among to_string digits
passive-scan_fields = refl

passive-correctpasv : passive.correctpasv ≡ false
unfolding ftp_send_cmd read_response read_line readline readline_loop poke end_line starts_with
    behind_parenthesis scan_fields scan_number scan_unsigned scan_digits is_digit scan_comma
    to_address response_at is_among to_string digits
passive-correctpasv = refl

passive-to_address :
    to_address (10 ∷ 0 ∷ 0 ∷ 1 ∷ 4 ∷ 1 ∷ []) ≡ returns (4 ∷ 1 ∷ 10 ∷ 0 ∷ 0 ∷ 1 ∷ [])
unfolding to_address
passive-to_address = refl

passive-offset : (passive.offset == 0) ≡ false
unfolding ftp_send_cmd read_response read_line readline readline_loop poke end_line starts_with
    behind_parenthesis scan_fields scan_number scan_unsigned scan_digits is_digit scan_comma
    to_address response_at is_among to_string digits
passive-offset = refl

get_range_refused_restart_example :
    get_range server 9 takes_all (codes "/a") 2 1 (client 0) ≡ undefined
get_range_refused_restart_example =
    get_range_refused_restart server 9 takes_all (codes "/a") address_text
      (10 ∷ 0 ∷ 0 ∷ 1 ∷ 4 ∷ 1 ∷ []) (4 ∷ 1 ∷ 10 ∷ 0 ∷ 0 ∷ 1 ∷ []) 2 1 (client 0) typed passive
      refused_restart (omega arith) (omega arith) typed-ftp_send_cmd typed-cmode
      passive-ftp_send_cmd passive-correctpasv passive-behind_parenthesis passive-scan_fields
      passive-to_address passive-offset restart-ftp_send_cmd

-- A path that `Size` lets through, and that `FtpSendCmd` has no room for.
abbrev long_path : Bytes
long_path = map (λ c. b'x') (zeros 505)

long_path-ftp_send_cmd :
    ftp_send_cmd server 9 (codes "TYPE I") ok (client 0)
    ≡ returns (true, state_of (ftp_send_cmd server 9 (codes "TYPE I") ok (client 0)))
unfolding ftp_send_cmd read_response read_line readline readline_loop poke end_line starts_with
    response_at is_among
long_path-ftp_send_cmd = refl

long_path-handle :
    (state_of (ftp_send_cmd server 9 (codes "TYPE I") ok (client 0))).reader.handle ≡ 3
unfolding ftp_send_cmd read_response read_line readline readline_loop poke end_line starts_with
    response_at is_among
long_path-handle = refl

size_overflow_example : size server 9 long_path (client 0) ≡ undefined
size_overflow_example =
    size_overflow server 9 long_path (client 0)
      (state_of (ftp_send_cmd server 9 (codes "TYPE I") ok (client 0))) refl long_path-ftp_send_cmd
      (ground (arith, long_path-handle))
