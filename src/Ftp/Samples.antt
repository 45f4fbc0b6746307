-- ===== src/Ftp/Samples.antt =====
-- Sockets that tests run on: a stream that gives a byte at a time.
use ps5_ezremote_server.Prelude.{
  ℕ, ◌<◌, ◌≡◌, refl, true, Option, none, some, [], ◌∷◌, length, arith,
}
use ps5_ezremote_server.Words.{Bytes, codes}
use ps5_ezremote_server.Ftp.Reader.{Sockets, Reader}
use ps5_ezremote_server.Ftp.Reader.Copies.{GivesChunk, Feeds}

abbrev pub byte_at_a_time : Bytes → Option Bytes × Bytes
byte_at_a_time [] = (some [], [])
byte_at_a_time (c ∷ net) = (some (c ∷ []), net)

abbrev pub some_sockets : Sockets Bytes
some_sockets = record {
  recv = λ socket room net. byte_at_a_time net;
  send = λ socket bytes net. (some (length bytes), net);
  data_socket = λ net. (some 4, net);
  connect = λ socket address net. (true, net);
  close = λ socket net. net;
  peer_name = λ socket net. (none, net);
  socket_name = λ socket net. (none, net);
  bind_any = λ socket address net. (true, net);
  listen = λ socket net. (true, net);
  accept = λ socket net. (none, net);
  socket = λ net. (some 3, net);
  reuse_address = λ socket net. (true, net);
  host_address = λ host net. (none, net);
  error_text = λ net. codes "error";
  callback = λ xfered net. (true, net);
}

abbrev pub some_reader : Bytes → Reader
some_reader pending = record { handle = 3; pending = pending; cleft = 0 }

abbrev pub Left : Bytes → Bytes → Type 0
Left stream net = net ≡ stream

gives_byte :
    (c : ℕ) (stream : Bytes) (room : ℕ) (net : Bytes)
    → 0 < room
    → Left (c ∷ stream) net
    → GivesChunk Left room (c ∷ stream) (byte_at_a_time net)
gives_byte c stream room [] some_room at = cc
gives_byte c stream room (x ∷ net) some_room at = record {
  first = x;
  more = [];
  rest = net;
  got = refl;
  fits = omega arith;
  joins = at;
  next = refl;
}

pub some_sockets-Feeds : Feeds some_sockets 3 Left
some_sockets-Feeds = record { gives = gives_byte }
