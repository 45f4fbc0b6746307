-- ===== src/Ftp/Remote/Buffers.antt =====
-- What `GetRange` to a buffer writes.
use ps5_ezremote_server.Prelude.{
  ℕ, zero, suc, ◌+◌, ◌-◌, ◌≤◌, ◌<◌, ◌≡◌, refl, sym, ap, ◌∙◌, Bool, true, false, Option, some, [],
  ◌∷◌, ◌++◌, length, take, drop, leb, inl, inr, Bool-cases, arith, append-nil, append_assoc,
  length-append,
}
use ps5_ezremote_server.Outcome.{Outcome, returns}
use ps5_ezremote_server.Words.{Bytes}
use ps5_ezremote_server.Ftp.Reader.{Sockets}
use ps5_ezremote_server.Ftp.Control.{Ftp}
use ps5_ezremote_server.Ftp.Channel.{fileread, image, DataHandle, ftp_access, ftp_close}
use ps5_ezremote_server.Ftp.Files.{ftp_read}
use ps5_ezremote_server.Ftp.Remote.{buffer_loop, get_range_buffer}
use ps5_ezremote_server.Ftp.Remote.Arrivals.{
  Received, failed, ended, gave, Arrives, reading_from, at_net, read_failed, read_some,
}
use ps5_ezremote_server.Ftp.Remote.Ranges.{some_left}
use ps5_ezremote_server.Ftp.Remote.GetRange.{Closed}

-- What was copied: bytes from the front of the stream that the buffer has room for.
pub record Copied {N : Type 0} (socket : ℕ) (has_ctrl : Bool) (cbbytes : ℕ) (stream copied : Bytes)
    (remaining : ℕ) (s : Ftp N) (m : Outcome ((Bytes × DataHandle) × Ftp N)) : Type 0 where
  pub new : Bytes
  pub rest : Bytes
  pub net : N
  pub xfered : ℕ
  pub done :
      m ≡ returns ((copied ++ new, reading_from socket has_ctrl cbbytes xfered), at_net s net)
  pub part : new ++ rest ≡ stream
  pub most : length new ≤ remaining

take-drop : (n : ℕ) (l : Bytes) → take n l ++ drop n l ≡ l
take-drop zero l = refl
take-drop (suc n) [] = refl
take-drop (suc n) (x ∷ l) = ap (λ t. x ∷ t) (take-drop n l)

length-take-le : (n : ℕ) (l : Bytes) → length (take n l) ≤ n
length-take-le zero l = omega arith
length-take-le (suc n) [] = omega arith
length-take-le (suc n) (x ∷ l) = omega (arith, length-take-le n l)

module _ {N : Type 0} (sockets : Sockets N) (socket : ℕ) (At : Bytes → N → Type 0)
    (arrives : Arrives sockets socket At) (has_ctrl : Bool) (cbbytes : ℕ) where
  module _ (fuel xfered xfered' remaining : ℕ) (copied : Bytes) (s : Ftp N) (net : N) where
    stopped :
        ftp_read sockets 8192 (reading_from socket has_ctrl cbbytes xfered) s
          ≡ returns (([], reading_from socket has_ctrl cbbytes xfered'), at_net s net)
        → buffer_loop sockets
            (suc fuel)
            (reading_from socket has_ctrl cbbytes xfered)
            copied
            remaining
            s
          ≡ returns ((copied, reading_from socket has_ctrl cbbytes xfered'), at_net s net)
    unfolding buffer_loop
    stopped read = rw (buffer_loop, read) refl

    module _ (b : ℕ) (got : Bytes)
        (read : ftp_read sockets 8192 (reading_from socket has_ctrl cbbytes xfered) s
          ≡ returns ((b ∷ got, reading_from socket has_ctrl cbbytes xfered'), at_net s net)) where
      fits :
          leb (length (b ∷ got)) remaining ≡ true
          → buffer_loop sockets
              (suc fuel)
              (reading_from socket has_ctrl cbbytes xfered)
              copied
              remaining
              s
            ≡ buffer_loop sockets fuel
                (reading_from socket has_ctrl cbbytes xfered')
                (copied ++ (b ∷ got))
                (remaining - length (b ∷ got))
                (at_net s net)
      unfolding buffer_loop
      fits e = rw (buffer_loop, read, some_left (length got), e) refl

      cut :
          leb (length (b ∷ got)) remaining ≡ false
          → buffer_loop sockets
              (suc fuel)
              (reading_from socket has_ctrl cbbytes xfered)
              copied
              remaining
              s
            ≡ returns (
              (copied ++ take remaining (b ∷ got), reading_from socket has_ctrl cbbytes xfered'),
              at_net s net,
            )
      unfolding buffer_loop
      cut e = rw (buffer_loop, read, some_left (length got), e) refl

  abbrev pub Rounds : ℕ → Type 0
  Rounds fuel =
      (xfered remaining : ℕ) (stream copied : Bytes) (s : Ftp N)
      → remaining < fuel
      → At stream s.net
      → Copied socket has_ctrl cbbytes stream copied remaining s (
          buffer_loop sockets fuel (reading_from socket has_ctrl cbbytes xfered) copied remaining s)

  nothing :
      (fuel xfered xfered' remaining : ℕ) (stream copied : Bytes) (s : Ftp N) (net : N)
      → ftp_read sockets 8192 (reading_from socket has_ctrl cbbytes xfered) s
        ≡ returns (([], reading_from socket has_ctrl cbbytes xfered'), at_net s net)
      → Copied socket has_ctrl cbbytes stream copied remaining s (
          buffer_loop sockets
            (suc fuel)
            (reading_from socket has_ctrl cbbytes xfered)
            copied
            remaining
            s)
  nothing fuel xfered xfered' remaining stream copied s net read = record {
    new = [];
    rest = stream;
    net = net;
    xfered = xfered';
    done =
        stopped fuel xfered xfered' remaining copied s net read
        ∙ ap (λ l. returns ((l, reading_from socket has_ctrl cbbytes xfered'), at_net s net))
            (sym (append-nil copied));
    part = refl;
    most = omega arith;
  }

  turn :
      (fuel xfered remaining : ℕ) (stream copied : Bytes) (s : Ftp N) (m : Option Bytes × N)
      → Rounds fuel
      → remaining < suc fuel
      → sockets.recv socket 8192 s.net ≡ m
      → Received At 8192 stream m
      → Copied socket has_ctrl cbbytes stream copied remaining s (
          buffer_loop sockets
            (suc fuel)
            (reading_from socket has_ctrl cbbytes xfered)
            copied
            remaining
            s)
  turn fuel xfered remaining stream copied s m more enough e (failed net) =
      nothing fuel xfered xfered remaining stream copied s net
        (read_failed sockets socket has_ctrl cbbytes 8192 xfered s net e)
  turn fuel xfered remaining stream copied s m more enough e (ended net) =
      nothing fuel xfered (xfered + 0) remaining stream copied s net
        (read_some sockets socket has_ctrl cbbytes 8192 xfered s net [] e)
  turn fuel xfered remaining stream copied s m more enough e (gave b got rest net room joins at) =
      let read = read_some sockets socket has_ctrl cbbytes 8192 xfered s net (b ∷ got) e in
      let xfered' = xfered + length (b ∷ got) in
      elim (Bool-cases (leb (length (b ∷ got)) remaining)) [
        | inl inside ↦
            let rec =
              more xfered' (remaining - length (b ∷ got)) rest (copied ++ (b ∷ got)) (at_net s net)
                (ground (arith, inside)) at in
            record {
              new = (b ∷ got) ++ rec.new;
              rest = rec.rest;
              net = rec.net;
              xfered = rec.xfered;
              done =
                  fits fuel xfered xfered' remaining copied s net b got read inside
                  ∙ rec.done
                  ∙ ap
                      (λ l.
                        returns
                          ((l, reading_from socket has_ctrl cbbytes rec.xfered), at_net s rec.net))
                      (append_assoc copied (b ∷ got) rec.new);
              part =
                  append_assoc (b ∷ got) rec.new rec.rest
                  ∙ ap (λ l. (b ∷ got) ++ l) rec.part
                  ∙ joins;
              most = ground (arith, inside, rec.most, length-append (b ∷ got) rec.new);
            }
        | inr outside ↦ record {
          new = take remaining (b ∷ got);
          rest = drop remaining (b ∷ got) ++ rest;
          net = net;
          xfered = xfered';
          done = cut fuel xfered xfered' remaining copied s net b got read outside;
          part =
              sym (append_assoc (take remaining (b ∷ got)) (drop remaining (b ∷ got)) rest)
              ∙ ap (λ l. l ++ rest) (take-drop remaining (b ∷ got))
              ∙ joins;
          most = length-take-le remaining (b ∷ got);
        }
      ]

  buffer_loop-Copied : (fuel : ℕ) → Rounds fuel
  buffer_loop-Copied zero xfered remaining stream copied s enough at = absurd (omega arith)
  buffer_loop-Copied (suc fuel) xfered remaining stream copied s enough at =
      turn fuel xfered remaining stream copied s _ (buffer_loop-Copied fuel) enough refl
        (arrives.gives stream 8192 s.net (omega arith) at)

-- What the caller's buffer gets: a success is reported for any part of the range.
pub record Reported {N : Type 0} (stream : Bytes) (size : ℕ) (m : Outcome ((Bool × Bytes) × Ftp N))
    : Type 0 where
  pub bytes : Bytes
  pub rest : Bytes
  pub state : Ftp N
  pub done : m ≡ returns ((true, bytes), state)
  pub part : bytes ++ rest ≡ stream
  pub most : length bytes ≤ size
  pub reset : state.offset ≡ 0

run :
    {N : Type 0} (sockets : Sockets N) (fuel : ℕ) (path : Bytes) (size offset : ℕ)
    (d d' : DataHandle) (confirmed : Bool) (copied : Bytes) (s s1 s2 s3 : Ftp N)
    → ftp_access sockets fuel path fileread image (record s { offset = offset })
      ≡ returns (some (some d), s1)
    → buffer_loop sockets (size + 2) d [] size s1 ≡ returns ((copied, d'), s2)
    → ftp_close sockets fuel d' s2 ≡ returns (confirmed, s3)
    → get_range_buffer sockets fuel path size offset s
      ≡ returns ((true, copied), record s3 { offset = 0 })
unfolding get_range_buffer
run sockets fuel path size offset d d' confirmed copied s s1 s2 s3 access looped closed =
    rw (get_range_buffer, access, looped, closed) refl

module _ {N : Type 0} (sockets : Sockets N) (socket : ℕ) (At : Bytes → N → Type 0)
    (arrives : Arrives sockets socket At) where
  -- A data connection is open for reading in image mode, without a callback, and the server ends
  -- the transfer with some word, whatever was left of the stream. Whatever `recv` does, `GetRange`
  -- to a buffer returns; it writes the first bytes of the stream, at most `size` of them; the
  -- offset is 0 again; and the result is always 1, also when an error or an early end cut the range
  -- short or the server did not confirm it.
  pub get_range_buffer-Reported :
      (fuel : ℕ) (path : Bytes) (size offset : ℕ) (has_ctrl : Bool) (cbbytes : ℕ) (stream : Bytes)
      (s s1 : Ftp N)
      → ftp_access sockets fuel path fileread image (record s { offset = offset })
        ≡ returns (some (some (reading_from socket has_ctrl cbbytes 0)), s1)
      → At stream s1.net
      → ((xfered : ℕ) (net : N)
          → Closed (
              ftp_close sockets fuel (reading_from socket has_ctrl cbbytes xfered) (at_net s1 net)))
      → Reported stream size (get_range_buffer sockets fuel path size offset s)
  get_range_buffer-Reported fuel path size offset has_ctrl cbbytes stream s s1 access fed closes =
      let got =
        buffer_loop-Copied sockets socket At arrives has_ctrl cbbytes (size + 2) 0 size stream [] s1
          (omega arith) fed in
      let closed = closes got.xfered got.net in
      record {
        bytes = got.new;
        rest = got.rest;
        state = record closed.state { offset = 0 };
        done =
            run sockets fuel path size offset (reading_from socket has_ctrl cbbytes 0)
              (reading_from socket has_ctrl cbbytes got.xfered) closed.confirmed got.new s s1
              (at_net s1 got.net) closed.state access got.done closed.done;
        part = got.part;
        most = got.most;
        reset = refl;
      }
