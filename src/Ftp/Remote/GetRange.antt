-- ===== src/Ftp/Remote/GetRange.antt =====
-- `GetRange` to a sink as a whole: the loop, the end of the transfer, and what is reported.
use ps5_ezremote_server.Prelude.{
  ℕ, zero, suc, ◌+◌, ◌*◌, ◌/◌, ◌%◌, ◌^◌, ◌≤◌, ◌<◌, ◌≡◌, refl, ap, ◌∙◌, Bool, true, false, some, [],
  ◌∷◌, ◌++◌, length, drop, ltb, leb, inl, inr, Bool-cases, arith, length-append,
}
use ps5_ezremote_server.Outcome.{Outcome, returns}
use ps5_ezremote_server.Words.{Bytes, codes, add64, sub64, digits, to_string}
use ps5_ezremote_server.Transfer.{Sink}
use ps5_ezremote_server.Ftp.Reader.{Sockets, poke}
use ps5_ezremote_server.Ftp.Control.{Ftp, set_response}
use ps5_ezremote_server.Ftp.Channel.{fileread, image, DataHandle, ftp_access, ftp_close}
use ps5_ezremote_server.Ftp.Remote.{Ranged, sink_loop, end_range, get_range}
use ps5_ezremote_server.Ftp.Remote.Arrivals.{Arrives, reading_from, at_net}
use ps5_ezremote_server.Ftp.Remote.Ranges.{sink_loop-Handed}

ten_to : ℕ → ℕ
ten_to zero = 10
ten_to (suc k) = ten_to k * 10

length-digits : (k fuel n : ℕ) → n < ten_to k → length (digits fuel n) ≤ suc k
unfolding digits ten_to
length-digits k zero n h = omega arith
length-digits zero (suc fuel) n h = ground arith
length-digits (suc k) (suc fuel) n h = elim (Bool-cases (ltb n 10)) [
  | inl small ↦ ground (arith, small)
  | inr large ↦
      let more = length-digits k fuel (n / 10) (omega arith) in
      ground (arith, large, more, length-append (digits fuel (n / 10)) ((b'0' + n % 10) ∷ []))
]

length-to_string : (n : ℕ) → n < 2 ^ 64 → length (to_string n) ≤ 20
unfolding to_string ten_to
length-to_string n h = length-digits 19 (suc n) n (omega arith)

record Told {N : Type 0} (s : Ftp N) (m : Outcome (Unit {0} × Ftp N)) : Type 0 where
  response : Bytes
  done : m ≡ returns (tt, record s { response = response })

set_response-Told :
    {N : Type 0} (text : Bytes) (s : Ftp N)
    → length text + 1 ≤ length s.response
    → Told s (set_response text s)
set_response-Told text s room = record {
  response = (text ++ (0 ∷ [])) ++ drop (0 + length (text ++ (0 ∷ []))) s.response;
  done =
      let fits : leb (0 + length (text ++ (0 ∷ []))) (length s.response) ≡ true =
        ground (arith, length-append text (0 ∷ [])) in
      unfold set_response poke in rw (set_response, poke, fits) refl;
}

-- The end of the transfer, with the server's word on it.
pub record Closed {N : Type 0} (m : Outcome (Bool × Ftp N)) : Type 0 where
  pub confirmed : Bool
  pub state : Ftp N
  pub done : m ≡ returns (confirmed, state)
  pub room : length state.response ≡ 512

record Ends {N : Type 0} (r : Ranged) (confirmed : Bool) (m : Outcome ((Bool × Bytes) × Ftp N))
    : Type 0 where
  success : Bool
  state : Ftp N
  done : m ≡ returns ((success, r.sent), state)
  reset : state.offset ≡ 0
  all : success ≡ true → (r.is_refused ≡ false) × (r.bytes_remaining ≡ 0) × (confirmed ≡ true)

module _ {N : Type 0} (sockets : Sockets N) (fuel size offset : ℕ) (r : Ranged) (s s' : Ftp N) where
  end_refused :
      (confirmed : Bool)
      → ftp_close sockets fuel r.handle s ≡ returns (confirmed, s')
      → r.is_refused ≡ true
      → end_range sockets fuel size offset r s ≡ returns ((false, r.sent), record s' { offset = 0 })
  unfolding end_range
  end_refused confirmed closed refused = rw (end_range, closed, refused) refl

  end_short :
      (confirmed : Bool) (s'' : Ftp N)
      → ftp_close sockets fuel r.handle s ≡ returns (confirmed, s')
      → r.is_refused ≡ false
      → ltb 0 r.bytes_remaining ≡ true
      → set_response
          (codes "Unexpected end of file at offset "
            ++ to_string (add64 offset (sub64 size r.bytes_remaining)))
          (record s' { offset = 0 })
        ≡ returns (tt, s'')
      → end_range sockets fuel size offset r s ≡ returns ((false, r.sent), s'')
  unfolding end_range
  end_short confirmed s'' closed kept short told = rw (end_range, closed, kept, short, told) refl

  end_unconfirmed :
      (s'' : Ftp N)
      → ftp_close sockets fuel r.handle s ≡ returns (false, s')
      → r.is_refused ≡ false
      → ltb 0 r.bytes_remaining ≡ false
      → set_response (codes "FTP transfer did not complete") (record s' { offset = 0 })
        ≡ returns (tt, s'')
      → end_range sockets fuel size offset r s ≡ returns ((false, r.sent), s'')
  unfolding end_range
  end_unconfirmed s'' closed kept full told = rw (end_range, closed, kept, full, told) refl

  end_confirmed :
      ftp_close sockets fuel r.handle s ≡ returns (true, s')
      → r.is_refused ≡ false
      → ltb 0 r.bytes_remaining ≡ false
      → end_range sockets fuel size offset r s ≡ returns ((true, r.sent), record s' { offset = 0 })
  unfolding end_range
  end_confirmed closed kept full = rw (end_range, closed, kept, full) refl

  short-Ends :
      (confirmed : Bool)
      → ftp_close sockets fuel r.handle s ≡ returns (confirmed, s')
      → length s'.response ≡ 512
      → r.is_refused ≡ false
      → ltb 0 r.bytes_remaining ≡ true
      → Ends r confirmed (end_range sockets fuel size offset r s)
  short-Ends confirmed closed room kept short =
      let at = add64 offset (sub64 size r.bytes_remaining) in
      let text = codes "Unexpected end of file at offset " ++ to_string at in
      let fits : length text + 1 ≤ 512 = omega (arith, length-to_string at (omega arith)) in
      let told = set_response-Told text (record s' { offset = 0 }) (omega (arith, room)) in
      record {
        success = false;
        state = record s' { offset = 0; response = told.response };
        done =
            end_short confirmed (record s' { offset = 0; response = told.response }) closed kept
              short told.done;
        reset = refl;
        all = λ e. ground (arith, e);
      }

  unconfirmed-Ends :
      ftp_close sockets fuel r.handle s ≡ returns (false, s')
      → length s'.response ≡ 512
      → r.is_refused ≡ false
      → ltb 0 r.bytes_remaining ≡ false
      → Ends r false (end_range sockets fuel size offset r s)
  unconfirmed-Ends closed room kept full =
      let told =
        set_response-Told (codes "FTP transfer did not complete") (record s' { offset = 0 })
          (omega (arith, room)) in
      record {
        success = false;
        state = record s' { offset = 0; response = told.response };
        done =
            end_unconfirmed (record s' { offset = 0; response = told.response }) closed kept full
              told.done;
        reset = refl;
        all = λ e. ground (arith, e);
      }

  full-Ends :
      (confirmed : Bool)
      → ftp_close sockets fuel r.handle s ≡ returns (confirmed, s')
      → length s'.response ≡ 512
      → r.is_refused ≡ false
      → ltb 0 r.bytes_remaining ≡ false
      → Ends r confirmed (end_range sockets fuel size offset r s)
  full-Ends false closed room kept full = unconfirmed-Ends closed room kept full
  full-Ends true closed room kept full = record {
    success = true;
    state = record s' { offset = 0 };
    done = end_confirmed closed kept full;
    reset = refl;
    all = λ e. (kept, ground (arith, full), refl);
  }

  end_range-Ends :
      (confirmed : Bool)
      → ftp_close sockets fuel r.handle s ≡ returns (confirmed, s')
      → length s'.response ≡ 512
      → Ends r confirmed (end_range sockets fuel size offset r s)
  end_range-Ends confirmed closed room = elim (Bool-cases r.is_refused) [
    | inl refused ↦ record {
      success = false;
      state = record s' { offset = 0 };
      done = end_refused confirmed closed refused;
      reset = refl;
      all = λ e. ground (arith, e);
    }
    | inr kept ↦ elim (Bool-cases (ltb 0 r.bytes_remaining)) [
      | inl short ↦ short-Ends confirmed closed room kept short
      | inr full ↦ full-Ends confirmed closed room kept full
    ]
  ]

-- What `GetRange` gives of the stream: bytes from its front, each once, and all of them for a
-- success.
pub record Got {N : Type 0} (stream : Bytes) (size : ℕ) (m : Outcome ((Bool × Bytes) × Ftp N))
    : Type 0 where
  pub success : Bool
  pub bytes : Bytes
  pub state : Ftp N
  pub done : m ≡ returns ((success, bytes), state)
  pub rest : Bytes
  pub part : bytes ++ rest ≡ stream
  pub most : length bytes ≤ size
  pub all : success ≡ true → length bytes ≡ size
  pub reset : state.offset ≡ 0

module _ {N : Type 0} (sockets : Sockets N) (socket : ℕ) (At : Bytes → N → Type 0)
    (arrives : Arrives sockets socket At) where
  run :
      (fuel : ℕ) (sink : Sink) (path : Bytes) (size offset : ℕ) (d : DataHandle) (r : Ranged)
      (s s1 s2 : Ftp N)
      → ftp_access sockets fuel path fileread image (record s { offset = offset })
        ≡ returns (some (some d), s1)
      → sink_loop sockets sink (size + 1) d [] size s1 ≡ returns (r, s2)
      → get_range sockets fuel sink path size offset s ≡ end_range sockets fuel size offset r s2
  unfolding get_range
  run fuel sink path size offset d r s s1 s2 access looped = rw (get_range, access, looped) refl

  -- A data connection is open for reading in image mode, without a callback, and the server ends
  -- the transfer with some word, whatever was left of the stream. Whatever `recv` does, errors and
  -- an early end included, and whatever the sink does, `GetRange` returns; the sink has taken the
  -- first bytes of the stream, in order and each once, at most `size` of them; they are `size` if
  -- the result is 1; and the offset is 0 again.
  pub get_range-Got :
      (fuel : ℕ) (sink : Sink) (path : Bytes) (size offset : ℕ) (has_ctrl : Bool) (cbbytes : ℕ)
      (stream : Bytes) (s s1 : Ftp N)
      → size < 2 ^ 64
      → ftp_access sockets fuel path fileread image (record s { offset = offset })
        ≡ returns (some (some (reading_from socket has_ctrl cbbytes 0)), s1)
      → At stream s1.net
      → ((xfered : ℕ) (net : N)
          → Closed (
              ftp_close sockets fuel (reading_from socket has_ctrl cbbytes xfered) (at_net s1 net)))
      → Got stream size (get_range sockets fuel sink path size offset s)
  get_range-Got fuel sink path size offset has_ctrl cbbytes stream s s1 small access fed closes =
      let handed =
        sink_loop-Handed sockets socket At arrives sink has_ctrl cbbytes (size + 1) 0 size stream []
          s1 (omega arith) small fed in
      let s2 = at_net s1 handed.net in
      let closed = closes handed.xfered handed.net in
      let closing = ap (λ d. ftp_close sockets fuel d s2) handed.same_handle ∙ closed.done in
      let ended =
        end_range-Ends sockets fuel size offset handed.result s2 closed.state closed.confirmed
          closing closed.room in
      record {
        success = ended.success;
        bytes = handed.result.sent;
        state = ended.state;
        done =
            run fuel sink path size offset (reading_from socket has_ctrl cbbytes 0) handed.result s
              s1 s2 access handed.done
            ∙ ended.done;
        rest = handed.rest;
        part = ap (λ l. l ++ handed.rest) handed.sent_all ∙ handed.part;
        most = omega (arith, handed.most, ap length handed.sent_all);
        all = λ e.
            let ends = ended.all e in
            omega (arith, handed.count ends.0, ends.1, ap length handed.sent_all);
        reset = ended.reset;
      }
