-- ===== src/Ftp/Control/Tests.antt =====
-- Tests of the control connection, and the witness.
use ps5_ezremote_server.Prelude.{◌<◌, ◌≡◌, refl, true, false, some, [], ◌∷◌, length, arith}
use ps5_ezremote_server.Words.{Bytes, codes}
use ps5_ezremote_server.Text.{is_among, starts_with}
use ps5_ezremote_server.Ftp.Reader.{has_newline}
use ps5_ezremote_server.Ftp.Address.{is_digit}
use ps5_ezremote_server.Ftp.Samples.{some_sockets, some_reader, Left, some_sockets-Feeds}
use ps5_ezremote_server.Ftp.Control.{Ftp, pasv, read_response}
use ps5_ezremote_server.Ftp.Control.Response.{Came, Fits}
use ps5_ezremote_server.Ftp.Control.Replies.{
  ServerReply, IsReply, last_line, print_reply, read_response-ServerReply,
}
use ps5_ezremote_server.Ftp.Files.{zeros}

abbrev client_at : Bytes → Ftp Bytes
client_at net = record {
  reader = some_reader [];
  cmode = pasv;
  response = zeros 512;
  offset = 0;
  correctpasv = false;
  has_xfercb = false;
  cbbytes = 0;
  is_connected = true;
  sent = [];
  net = net;
}

-- A reply of three lines, whose second begins with another code.
abbrev some_reply : ServerReply
some_reply = record {
  a = b'2';
  b = b'2';
  c = b'0';
  more = some (codes "Hello", codes "221 not yet" ∷ []);
  text = codes "ready";
}

fits : (line : Bytes) → has_newline line ≡ false → 0 < length line → length line < 511 → Fits line
fits line plain some_text room = record { plain = plain; some_text = some_text; room = omega arith }

some_reply-IsReply : IsReply some_reply
unfolding has_newline is_digit starts_with
some_reply-IsReply = record {
  code = (refl, refl, refl);
  fits = fits (last_line some_reply) refl (omega arith) (omega arith);
  continued = (
    fits (codes "220-Hello") refl (omega arith) (omega arith),
    (
      record { fits = fits (codes "221 not yet") refl (omega arith) (omega arith); other = refl },
      tt,
    ),
  );
}

read_response-ServerReply_example :
    Came 3 Left
      (last_line some_reply)
      (codes "150")
      (is_among b'2' (codes "2"))
      (read_response some_sockets 5 (codes "2") (client_at (print_reply some_reply (codes "150"))))
read_response-ServerReply_example =
    read_response-ServerReply some_sockets 3 Left some_sockets-Feeds 5 some_reply (codes "150")
      (codes "2") (client_at (print_reply some_reply (codes "150"))) some_reply-IsReply
      (omega arith)
      (record {
        stream = print_reply some_reply (codes "150");
        joins = refl;
        fed = refl;
        socket_kept = refl;
        size = refl;
      })
