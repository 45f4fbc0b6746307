-- ===== src/Ftp/Remote/Ranges.antt =====
-- What the loop of `GetRange` hands to the sink.
use ps5_ezremote_server.Prelude.{
  ℕ, zero, suc, ◌+◌, ◌^◌, ◌≤◌, ◌<◌, ◌≡◌, refl, sym, ap, ◌∙◌, Bool, true, false, Option, [], ◌∷◌,
  ◌++◌, length, ◌==◌, inl, inr, Bool-cases, arith, append-nil, append_assoc, length-append,
}
use ps5_ezremote_server.Outcome.{Outcome, returns}
use ps5_ezremote_server.Words.{Bytes, sub64}
use ps5_ezremote_server.Transfer.{Sink, smaller}
use ps5_ezremote_server.Ftp.Reader.{Sockets, ftp_client_bufsiz}
use ps5_ezremote_server.Ftp.Control.{Ftp}
use ps5_ezremote_server.Ftp.Files.{ftp_read}
use ps5_ezremote_server.Ftp.Remote.{Ranged, sink_loop}
use ps5_ezremote_server.Ftp.Remote.Arrivals.{
  Received, failed, ended, gave, Arrives, reading_from, at_net, read_failed, read_some,
}

pub some_left : (left : ℕ) → (suc left == 0) ≡ false
some_left left = ground arith

some_room : (left : ℕ) → 0 < smaller ftp_client_bufsiz (suc left)
some_room left = ground arith

-- What the loop has handed over: bytes from the front of the stream, and the count of the others.
pub record Handed {N : Type 0} (socket : ℕ) (has_ctrl : Bool) (cbbytes : ℕ) (stream sent : Bytes)
    (left : ℕ) (s : Ftp N) (m : Outcome (Ranged × Ftp N)) : Type 0 where
  pub result : Ranged
  pub net : N
  pub done : m ≡ returns (result, at_net s net)
  pub new : Bytes
  pub rest : Bytes
  pub sent_all : result.sent ≡ sent ++ new
  pub part : new ++ rest ≡ stream
  pub most : length new ≤ left
  pub count : result.is_refused ≡ false → length new + result.bytes_remaining ≡ left
  pub xfered : ℕ
  pub same_handle : result.handle ≡ reading_from socket has_ctrl cbbytes xfered

module _ {N : Type 0} (sockets : Sockets N) (socket : ℕ) (At : Bytes → N → Type 0)
    (arrives : Arrives sockets socket At) (sink : Sink) (has_ctrl : Bool) (cbbytes : ℕ) where
  -- A turn that gets nothing, and one that gets a chunk.
  stopped :
      (fuel xfered xfered' left : ℕ) (sent : Bytes) (s : Ftp N) (net : N)
      → ftp_read sockets
          (smaller ftp_client_bufsiz (suc left))
          (reading_from socket has_ctrl cbbytes xfered)
          s
        ≡ returns (([], reading_from socket has_ctrl cbbytes xfered'), at_net s net)
      → sink_loop sockets sink
          (suc fuel)
          (reading_from socket has_ctrl cbbytes xfered)
          sent
          (suc left)
          s
        ≡ returns (
          record {
            handle = reading_from socket has_ctrl cbbytes xfered';
            sent = sent;
            bytes_remaining = suc left;
            is_refused = false;
          },
          at_net s net,
        )
  unfolding sink_loop
  stopped fuel xfered xfered' left sent s net read = rw (sink_loop, some_left left, read) refl

  module _ (fuel xfered xfered' left : ℕ) (sent : Bytes) (b : ℕ) (got : Bytes) (s : Ftp N) (net : N)
      (read : ftp_read sockets
          (smaller ftp_client_bufsiz (suc left))
          (reading_from socket has_ctrl cbbytes xfered)
          s
        ≡ returns ((b ∷ got, reading_from socket has_ctrl cbbytes xfered'), at_net s net)) where
    taken :
        sink sent (b ∷ got) ≡ true
        → sink_loop sockets sink
            (suc fuel)
            (reading_from socket has_ctrl cbbytes xfered)
            sent
            (suc left)
            s
          ≡ sink_loop sockets sink fuel
              (reading_from socket has_ctrl cbbytes xfered')
              (sent ++ (b ∷ got))
              (sub64 (suc left) (suc (length got)))
              (at_net s net)
    unfolding sink_loop
    taken e = rw (sink_loop, some_left left, read, some_left (length got), e) refl

    turned_down :
        sink sent (b ∷ got) ≡ false
        → sink_loop sockets sink
            (suc fuel)
            (reading_from socket has_ctrl cbbytes xfered)
            sent
            (suc left)
            s
          ≡ returns (
            record {
              handle = reading_from socket has_ctrl cbbytes xfered';
              sent = sent;
              bytes_remaining = sub64 (suc left) (suc (length got));
              is_refused = true;
            },
            at_net s net,
          )
    unfolding sink_loop
    turned_down e = rw (sink_loop, some_left left, read, some_left (length got), e) refl

  abbrev pub Rounds : ℕ → Type 0
  Rounds fuel =
      (xfered left : ℕ) (stream sent : Bytes) (s : Ftp N)
      → left < fuel
      → left < 2 ^ 64
      → At stream s.net
      → Handed socket has_ctrl cbbytes stream sent left s
          (sink_loop sockets sink fuel (reading_from socket has_ctrl cbbytes xfered) sent left s)

  nothing :
      (fuel xfered xfered' left : ℕ) (stream sent : Bytes) (s : Ftp N) (net : N)
      → ftp_read sockets
          (smaller ftp_client_bufsiz (suc left))
          (reading_from socket has_ctrl cbbytes xfered)
          s
        ≡ returns (([], reading_from socket has_ctrl cbbytes xfered'), at_net s net)
      → Handed socket has_ctrl cbbytes stream sent (suc left) s (
          sink_loop sockets sink
            (suc fuel)
            (reading_from socket has_ctrl cbbytes xfered)
            sent
            (suc left)
            s)
  nothing fuel xfered xfered' left stream sent s net read = record {
    result = record {
      handle = reading_from socket has_ctrl cbbytes xfered';
      sent = sent;
      bytes_remaining = suc left;
      is_refused = false;
    };
    net = net;
    done = stopped fuel xfered xfered' left sent s net read;
    new = [];
    rest = stream;
    sent_all = sym (append-nil sent);
    part = refl;
    most = omega arith;
    count = λ e. omega arith;
    xfered = xfered';
    same_handle = refl;
  }

  smaller-le : (left : ℕ) → smaller ftp_client_bufsiz (suc left) ≤ suc left
  smaller-le left = ground arith

  turn :
      (fuel xfered left : ℕ) (stream sent : Bytes) (s : Ftp N) (m : Option Bytes × N)
      → Rounds fuel
      → suc left < suc fuel
      → suc left < 2 ^ 64
      → sockets.recv socket (smaller ftp_client_bufsiz (suc left)) s.net ≡ m
      → Received At (smaller ftp_client_bufsiz (suc left)) stream m
      → Handed socket has_ctrl cbbytes stream sent (suc left) s (
          sink_loop sockets sink
            (suc fuel)
            (reading_from socket has_ctrl cbbytes xfered)
            sent
            (suc left)
            s)
  turn fuel xfered left stream sent s m more enough small e (failed net) =
      nothing fuel xfered xfered left stream sent s net (
        read_failed sockets socket has_ctrl cbbytes (smaller ftp_client_bufsiz (suc left)) xfered s
          net e)
  turn fuel xfered left stream sent s m more enough small e (ended net) =
      nothing fuel xfered (xfered + 0) left stream sent s net (
        read_some sockets socket has_ctrl cbbytes (smaller ftp_client_bufsiz (suc left)) xfered s
          net [] e)
  turn fuel xfered left stream sent s m more enough small e (gave b got rest net fits joins at) =
      let read =
        read_some sockets socket has_ctrl cbbytes (smaller ftp_client_bufsiz (suc left)) xfered s
          net (b ∷ got) e in
      let xfered' = xfered + length (b ∷ got) in
      let remaining = sub64 (suc left) (suc (length got)) in
      let less : remaining + suc (length got) ≡ suc left = omega (arith, smaller-le left) in
      elim (Bool-cases (sink sent (b ∷ got))) [
        | inl taken_all ↦
            let rec =
              more xfered' remaining rest (sent ++ (b ∷ got)) (at_net s net) (omega (arith, less))
                (omega (arith, less)) at in
            rw (taken fuel xfered xfered' left sent b got s net read taken_all) (record {
              result = rec.result;
              net = rec.net;
              done = rec.done;
              new = (b ∷ got) ++ rec.new;
              rest = rec.rest;
              sent_all = rec.sent_all ∙ append_assoc sent (b ∷ got) rec.new;
              part =
                  append_assoc (b ∷ got) rec.new rec.rest
                  ∙ ap (λ l. (b ∷ got) ++ l) rec.part
                  ∙ joins;
              most = omega (arith, rec.most, less, length-append (b ∷ got) rec.new);
              count = λ e. omega (arith, rec.count e, less, length-append (b ∷ got) rec.new);
              xfered = rec.xfered;
              same_handle = rec.same_handle;
            })
        | inr turned ↦ record {
          result = record {
            handle = reading_from socket has_ctrl cbbytes xfered';
            sent = sent;
            bytes_remaining = remaining;
            is_refused = true;
          };
          net = net;
          done = turned_down fuel xfered xfered' left sent b got s net read turned;
          new = [];
          rest = stream;
          sent_all = sym (append-nil sent);
          part = refl;
          most = omega arith;
          count = λ e. ground (arith, e);
          xfered = xfered';
          same_handle = refl;
        }
      ]

  pub sink_loop-Handed : (fuel : ℕ) → Rounds fuel
  sink_loop-Handed zero xfered left stream sent s enough small at = absurd (omega arith)
  sink_loop-Handed (suc fuel) xfered zero stream sent s enough small at = record {
    result = record {
      handle = reading_from socket has_ctrl cbbytes xfered;
      sent = sent;
      bytes_remaining = 0;
      is_refused = false;
    };
    net = s.net;
    done = unfold sink_loop in refl;
    new = [];
    rest = stream;
    sent_all = sym (append-nil sent);
    part = refl;
    most = omega arith;
    count = λ e. omega arith;
    xfered = xfered;
    same_handle = refl;
  }
  sink_loop-Handed (suc fuel) xfered (suc left) stream sent s enough small at =
      turn fuel xfered left stream sent s _ (sink_loop-Handed fuel) enough small refl
        (arrives.gives stream (smaller ftp_client_bufsiz (suc left)) s.net (some_room left) at)
