-- ===== src/Ftp/Control/Replies.antt =====
-- Replies of a server, and what `ReadResponse` and `FtpSendCmd` make of them.
use ps5_ezremote_server.Prelude.{
  ℕ, ◌<◌, ◌≡◌, refl, ap, true, false, Option, none, some, List, [], ◌∷◌, ◌++◌, length, get_elem?,
  take, ◌==◌, All, arith,
}
use ps5_ezremote_server.Outcome.{returns}
use ps5_ezremote_server.Words.{Bytes, codes}
use ps5_ezremote_server.Text.{is_among}
use ps5_ezremote_server.Ftp.Reader.{Sockets}
use ps5_ezremote_server.Ftp.Reader.Copies.{Feeds}
use ps5_ezremote_server.Ftp.Control.{Ftp, response_at, read_line, skip_lines, read_response}
use ps5_ezremote_server.Ftp.Control.Response.{
  Fits, Synced, Came, Within, IsCode, reply_line, lines_before, buffer_of_line, read_line-Came,
  skip_lines-Came,
}

-- A reply of one line, or of several: then `more` has the text of the first line, and the lines
-- between it and the last one.
pub record ServerReply : Type 0 where
  pub a : ℕ
  pub b : ℕ
  pub c : ℕ
  pub more : Option (Bytes × List Bytes)
  pub text : Bytes

abbrev pub last_line : ServerReply → Bytes
last_line r = reply_line r.a r.b r.c 32 r.text

abbrev pub first_line : ServerReply → Bytes → Bytes
first_line r first = reply_line r.a r.b r.c b'-' first

-- The bytes of a reply, before others.
unfoldable pub print_reply : ServerReply → Bytes → Bytes
print_reply r rest = elim r.more [
  | none ↦ last_line r ++ (10 ∷ rest)
  | some (first, lines) ↦
      first_line r first ++ (10 ∷ lines_before lines (last_line r ++ (10 ∷ rest)))
]

abbrev pub lines_between : ServerReply → ℕ
lines_between r = elim r.more [ none ↦ 0 | some (first, lines) ↦ length lines ]

abbrev pub IsContinued : ServerReply → Option (Bytes × List Bytes) → Type 0
IsContinued r none = Unit
IsContinued r (some (first, lines)) = Fits (first_line r first) × All (Within r.a r.b r.c) lines

pub record IsReply (r : ServerReply) : Type 0 where
  pub code : IsCode r.a r.b r.c
  pub fits : Fits (last_line r)
  pub continued : IsContinued r r.more

response_at-some :
    {N : Type 0} (i c : ℕ) (s : Ftp N)
    → get_elem? s.response i ≡ some c
    → response_at i s ≡ returns (c, s)
response_at-some i c s e = unfold response_at in rw (response_at, e) refl

module _ {N : Type 0} (sockets : Sockets N) (fuel : ℕ) (expected : Bytes) (a b c : ℕ) where
  one_line :
      (mark : ℕ) (behind : Bytes) (s s' : Ftp N)
      → read_line sockets s ≡ returns (true, s')
      → s'.response ≡ a ∷ b ∷ c ∷ mark ∷ behind
      → (mark == b'-') ≡ false
      → read_response sockets fuel expected s ≡ returns (is_among a expected, s')
  unfolding read_response
  one_line mark behind s s' read e single =
      let third = response_at-some 3 mark s' (ap (λ l. get_elem? l 3) e) in
      let first = response_at-some 0 a s' (ap (λ l. get_elem? l 0) e) in
      rw (read_response, read, third, single, first) refl

  several_lines :
      (behind behind' : Bytes) (s s' s'' : Ftp N)
      → read_line sockets s ≡ returns (true, s')
      → s'.response ≡ a ∷ b ∷ c ∷ b'-' ∷ behind
      → skip_lines sockets fuel (a ∷ b ∷ c ∷ 32 ∷ []) s' ≡ returns (true, s'')
      → s''.response ≡ a ∷ b ∷ c ∷ 32 ∷ behind'
      → read_response sockets fuel expected s ≡ returns (is_among a expected, s'')
  unfolding read_response
  several_lines behind behind' s s' s'' read e skipped e' =
      let third = response_at-some 3 b'-' s' (ap (λ l. get_elem? l 3) e) in
      let match : take 3 s'.response ++ codes " " ≡ a ∷ b ∷ c ∷ 32 ∷ [] =
        ap (λ l. take 3 l ++ codes " ") e in
      let first = response_at-some 0 a s'' (ap (λ l. get_elem? l 0) e') in
      rw (read_response, read, third, match, skipped, first) refl

module _ {N : Type 0} (sockets : Sockets N) (socket : ℕ) (At : Bytes → N → Type 0)
    (feeds : Feeds sockets socket At) where
  read_single :
      (fuel : ℕ) (a b c : ℕ) (text rest expected : Bytes) (s : Ftp N)
      → IsCode a b c
      → Fits (reply_line a b c 32 text)
      → Synced socket At (reply_line a b c 32 text ++ (10 ∷ rest)) s
      → Came socket At
          (reply_line a b c 32 text)
          rest
          (is_among a expected)
          (read_response sockets fuel expected s)
  read_single fuel a b c text rest expected s code fits syn =
      let came =
        read_line-Came sockets socket At feeds (reply_line a b c 32 text) rest s syn fits in
      let (behind, e) =
        buffer_of_line a b c 32 text came.state.response code (λ e. ground arith) came.holds in
      record {
        state = came.state;
        done = one_line sockets fuel expected a b c 32 behind s came.state came.done e refl;
        synced = came.synced;
        holds = came.holds;
      }

  read_several :
      (fuel : ℕ) (a b c : ℕ) (first : Bytes) (lines : List Bytes) (text rest expected : Bytes)
      (s : Ftp N)
      → IsCode a b c
      → Fits (reply_line a b c 32 text)
      → Fits (reply_line a b c b'-' first)
      → All (Within a b c) lines
      → length lines < fuel
      → Synced socket At
          (reply_line a b c b'-' first
            ++ (10 ∷ lines_before lines (reply_line a b c 32 text ++ (10 ∷ rest))))
          s
      → Came socket At
          (reply_line a b c 32 text)
          rest
          (is_among a expected)
          (read_response sockets fuel expected s)
  read_several fuel a b c first lines text rest expected s code fits fits_first within enough syn =
      let last = reply_line a b c 32 text in
      let came =
        read_line-Came sockets socket At feeds (reply_line a b c b'-' first)
          (lines_before lines (last ++ (10 ∷ rest))) s syn fits_first in
      let (behind, e) =
        buffer_of_line a b c b'-' first came.state.response code (λ e. ground arith) came.holds in
      let skipped =
        skip_lines-Came sockets socket At feeds fuel a b c lines text rest came.state code within
          fits enough came.synced in
      let (behind', e') =
        buffer_of_line a b c 32 text skipped.state.response code (λ e. ground arith)
          skipped.holds in
      record {
        state = skipped.state;
        done =
            several_lines sockets fuel expected a b c behind behind' s came.state skipped.state
              came.done e skipped.done e';
        synced = skipped.synced;
        holds = skipped.holds;
      }

  read_either :
      (fuel : ℕ) (a b c : ℕ) (text : Bytes) (more : Option (Bytes × List Bytes))
      (rest expected : Bytes) (s : Ftp N)
      → IsCode a b c
      → Fits (reply_line a b c 32 text)
      → IsContinued (record { a = a; b = b; c = c; more = more; text = text }) more
      → lines_between (record { a = a; b = b; c = c; more = more; text = text }) < fuel
      → Synced socket At
          (print_reply (record { a = a; b = b; c = c; more = more; text = text }) rest)
          s
      → Came socket At
          (reply_line a b c 32 text)
          rest
          (is_among a expected)
          (read_response sockets fuel expected s)
  unfolding print_reply
  read_either fuel a b c text none rest expected s code fits continued enough syn =
      read_single fuel a b c text rest expected s code fits syn
  read_either fuel a b c text (some (first, lines)) rest expected s code fits continued enough syn =
      read_several fuel a b c first lines text rest expected s code fits continued.0 continued.1
        enough syn

  -- The control connection has a reply, of one line or of several, and other bytes behind it, cut
  -- into chunks in any way. No line of the reply is empty or has more than 510 bytes before its
  -- line feed, and no line between the first and the last begins with the code and a space. With
  -- more fuel than there are lines between the first and the last, `ReadResponse` reads the whole
  -- reply and no byte behind it; it answers whether the first digit is one that was expected; and
  -- the response is the last line.
  pub read_response-ServerReply :
      (fuel : ℕ) (r : ServerReply) (rest expected : Bytes) (s : Ftp N)
      → IsReply r
      → lines_between r < fuel
      → Synced socket At (print_reply r rest) s
      → Came socket At
          (last_line r)
          rest
          (is_among r.a expected)
          (read_response sockets fuel expected s)
  read_response-ServerReply fuel r rest expected s is enough syn =
      read_either fuel r.a r.b r.c r.text r.more rest expected s is.code is.fits is.continued enough
        syn
