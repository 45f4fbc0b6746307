-- ===== src/Ftp/Control/Response.antt =====
-- `ReadResponse` reads one reply of the server, of one line or of several, and no more.
use ps5_ezremote_server.Prelude.{
  ℕ, zero, suc, ◌+◌, ◌<◌, ◌≡◌, ◌≢◌, refl, sym, ap, ◌∙◌, true, false, some, List, [], ◌∷◌, ◌++◌,
  length, All, inl, inr, Bool-cases, arith,
}
use ps5_ezremote_server.Outcome.{Outcome, returns}
use ps5_ezremote_server.Words.{Bytes}
use ps5_ezremote_server.Text.{starts_with}
use ps5_ezremote_server.Ftp.Reader.{Sockets, Reader, Line, has_newline, readline}
use ps5_ezremote_server.Ftp.Reader.Lines.{chomp, is_line_feed, Holds}
use ps5_ezremote_server.Ftp.Reader.Copies.{Feeds}
use ps5_ezremote_server.Ftp.Reader.Ends.{readline-NextLine}
use ps5_ezremote_server.Ftp.Address.{is_digit}
use ps5_ezremote_server.Ftp.Control.{Ftp, strncmp_equal, read_line, skip_lines}

-- No end of a string, and no byte that ends a line.
abbrev IsPlain : ℕ → Type 0
IsPlain c = 10 < c × c ≢ 13

strncmp_equal-starts_with :
    (text buf : Bytes)
    → All IsPlain text
    → strncmp_equal (length text) buf text ≡ starts_with text buf
unfolding strncmp_equal starts_with
strncmp_equal-starts_with [] buf plain = refl
strncmp_equal-starts_with (c ∷ text) [] plain = refl
strncmp_equal-starts_with (c ∷ text) (x ∷ buf) (here, plain) =
    ground (arith, strncmp_equal-starts_with text buf plain)

-- A start of the string that a line leaves is a start of the line.
starts_with-chomp :
    (text line behind : Bytes)
    → All IsPlain text
    → starts_with text (chomp (line ++ (10 ∷ [])) ++ (0 ∷ behind)) ≡ true
    → starts_with text line ≡ true
unfolding starts_with chomp is_line_feed
starts_with-chomp [] line behind plain h = refl
starts_with-chomp (c ∷ text) [] behind (here, plain) h = ground arith
starts_with-chomp (c ∷ []) (x ∷ []) behind (here, plain) h = ground arith
starts_with-chomp (c ∷ d ∷ text) (x ∷ []) behind (here, more) h =
    let (there, plain) = more in ground arith
starts_with-chomp (c ∷ text) (x ∷ y ∷ []) behind (here, plain) h =
    ground (arith, starts_with-chomp text (y ∷ []) behind plain)
starts_with-chomp (c ∷ text) (x ∷ y ∷ z ∷ line) behind (here, plain) h =
    ground (arith, starts_with-chomp text (y ∷ z ∷ line) behind plain)

-- The code of a line and the byte behind it are kept.
chomp-code :
    (a b c m : ℕ) (text : Bytes)
    → All IsPlain (a ∷ b ∷ c ∷ [])
    → m ≢ 13
    → chomp ((a ∷ b ∷ c ∷ m ∷ text) ++ (10 ∷ [])) ≡ a ∷ b ∷ c ∷ m ∷ chomp (text ++ (10 ∷ []))
unfolding chomp is_line_feed
chomp-code a b c m [] plain other = ground arith
chomp-code a b c m (x ∷ []) plain other = ground arith
chomp-code a b c m (x ∷ y ∷ text) plain other = ground arith

digit-IsPlain : (c : ℕ) → is_digit c ≡ true → IsPlain c
unfolding is_digit
digit-IsPlain c h = (ground arith, ground arith)

-- The client, with a response that fits and the rest of the stream of its control connection.
pub record Synced {N : Type 0} (socket : ℕ) (At : Bytes → N → Type 0) (rest : Bytes) (s : Ftp N)
    : Type 0 where
  pub stream : Bytes
  pub joins : s.reader.pending ++ stream ≡ rest
  pub fed : At stream s.net
  pub socket_kept : s.reader.handle ≡ socket
  pub size : length s.response ≡ 512

-- A line of the stream that `ReadResponse` has room for.
pub record Fits (line : Bytes) : Type 0 where
  pub plain : has_newline line ≡ false
  pub some_text : 0 < length line
  pub room : length line + 1 < 512

-- The reader has come to a place in the stream, and holds the line before it.
pub record Came {N A : Type 0} (socket : ℕ) (At : Bytes → N → Type 0) (line rest : Bytes) (a : A)
    (m : Outcome (A × Ftp N)) : Type 0 where
  pub state : Ftp N
  pub done : m ≡ returns (a, state)
  pub synced : Synced socket At rest state
  pub holds : Holds state.response (chomp (line ++ (10 ∷ [])))

read_line_step :
    {N : Type 0} (sockets : Sockets N) (s : Ftp N) (line : Line) (reader : Reader) (net : N) (k : ℕ)
    → readline sockets s.response s.reader s.net ≡ returns (line, reader, net)
    → line.count ≡ some k
    → read_line sockets s
      ≡ returns (true, record s { response = line.buf; reader = reader; net = net })
unfolding read_line
read_line_step sockets s line reader net k read counted = rw (read_line, read, counted) refl

module _ {N : Type 0} (sockets : Sockets N) (fuel : ℕ) (match : Bytes) (s s' : Ftp N) where
  skip_more :
      read_line sockets s ≡ returns (true, s')
      → strncmp_equal 4 s'.response match ≡ false
      → skip_lines sockets (suc fuel) match s ≡ skip_lines sockets fuel match s'
  unfolding skip_lines
  skip_more read other = rw (skip_lines, read, other) refl

  skip_ended :
      read_line sockets s ≡ returns (true, s')
      → strncmp_equal 4 s'.response match ≡ true
      → skip_lines sockets (suc fuel) match s ≡ returns (true, s')
  unfolding skip_lines
  skip_ended read same_code = rw (skip_lines, read, same_code) refl

module _ {N : Type 0} (sockets : Sockets N) (socket : ℕ) (At : Bytes → N → Type 0)
    (feeds : Feeds sockets socket At) where
  pub read_line-Came :
      (line rest : Bytes) (s : Ftp N)
      → Synced socket At (line ++ (10 ∷ rest)) s
      → Fits line
      → Came socket At line rest true (read_line sockets s)
  read_line-Came line rest s syn fits =
      let next =
        readline-NextLine sockets socket At feeds s.reader.cleft s.response line rest
          s.reader.pending syn.stream s.net syn.joins fits.plain fits.some_text
          (omega (arith, syn.size, fits.room)) syn.fed in
      let read : readline sockets s.response s.reader s.net
          ≡ returns (next.result, next.reader, next.net) =
        ap (λ h. readline sockets s.response (record s.reader { handle = h }) s.net) syn.socket_kept
        ∙ next.done in
      record {
        state = record s { response = next.result.buf; reader = next.reader; net = next.net };
        done = read_line_step sockets s next.result next.reader next.net _ read next.right.count;
        synced = record {
          stream = next.stream;
          joins = next.joins;
          fed = next.fed;
          socket_kept = next.socket_kept;
          size = next.right.size ∙ syn.size;
        };
        holds = next.right.holds;
      }

-- A line of a reply: a code of three digits, a mark, and a text.
abbrev pub reply_line : ℕ → ℕ → ℕ → ℕ → Bytes → Bytes
reply_line a b c mark text = a ∷ b ∷ c ∷ mark ∷ text

abbrev pub IsCode : ℕ → ℕ → ℕ → Type 0
IsCode a b c = (is_digit a ≡ true) × (is_digit b ≡ true) × (is_digit c ≡ true)

-- A line within a reply, which is none of its last lines.
pub record Within (a b c : ℕ) (line : Bytes) : Type 0 where
  pub fits : Fits line
  pub other : starts_with (a ∷ b ∷ c ∷ 32 ∷ []) line ≡ false

-- Lines, each with its line feed, and what comes behind them.
abbrev pub lines_before : List Bytes → Bytes → Bytes
lines_before [] rest = rest
lines_before (line ∷ lines) rest = line ++ (10 ∷ lines_before lines rest)

code-IsPlain : (a b c : ℕ) → IsCode a b c → All IsPlain (a ∷ b ∷ c ∷ 32 ∷ [])
code-IsPlain a b c code =
    let space : IsPlain 32 = (omega arith, λ e. ground arith) in
    (digit-IsPlain a code.0, (digit-IsPlain b code.1, (digit-IsPlain c code.2, (space, tt))))

matched :
    (a b c : ℕ) (buf line : Bytes)
    → IsCode a b c
    → Holds buf (chomp (line ++ (10 ∷ [])))
    → starts_with (a ∷ b ∷ c ∷ 32 ∷ []) line ≡ false
    → strncmp_equal 4 buf (a ∷ b ∷ c ∷ 32 ∷ []) ≡ false
matched a b c buf line code holds other =
    elim (Bool-cases (strncmp_equal 4 buf (a ∷ b ∷ c ∷ 32 ∷ []))) [
      | inl equal ↦
          let text = a ∷ b ∷ c ∷ 32 ∷ [] in
          let plain = code-IsPlain a b c code in
          let started : starts_with text (chomp (line ++ (10 ∷ [])) ++ (0 ∷ holds.behind)) ≡ true =
            ap (starts_with text) (sym holds.string)
            ∙ sym (strncmp_equal-starts_with text buf plain)
            ∙ equal in
          let begins = starts_with-chomp text line holds.behind plain started in cc (begins, other)
      | inr differs ↦ differs
    ]

pub buffer_of_line :
    (a b c mark : ℕ) (text buf : Bytes)
    → IsCode a b c
    → mark ≢ 13
    → Holds buf (chomp (reply_line a b c mark text ++ (10 ∷ [])))
    → (behind : Bytes) × (buf ≡ a ∷ b ∷ c ∷ mark ∷ behind)
buffer_of_line a b c mark text buf code other holds =
    let plain = code-IsPlain a b c code in
    (
      chomp (text ++ (10 ∷ [])) ++ (0 ∷ holds.behind),
      holds.string
          ∙ ap (λ l. l ++ (0 ∷ holds.behind))
              (chomp-code a b c mark text (plain.0, (plain.1.0, (plain.1.1.0, tt))) other),
    )

ended_match :
    (a b c : ℕ) (behind : Bytes)
    → strncmp_equal 4 (a ∷ b ∷ c ∷ 32 ∷ behind) (a ∷ b ∷ c ∷ 32 ∷ []) ≡ true
unfolding strncmp_equal
ended_match a b c behind = ground arith

module _ {N : Type 0} (sockets : Sockets N) (socket : ℕ) (At : Bytes → N → Type 0)
    (feeds : Feeds sockets socket At) where
  pub skip_lines-Came :
      (fuel a b c : ℕ) (lines : List Bytes) (text rest : Bytes) (s : Ftp N)
      → IsCode a b c
      → All (Within a b c) lines
      → Fits (reply_line a b c 32 text)
      → length lines < fuel
      → Synced socket At (lines_before lines (reply_line a b c 32 text ++ (10 ∷ rest))) s
      → Came socket At
          (reply_line a b c 32 text)
          rest
          true
          (skip_lines sockets fuel (a ∷ b ∷ c ∷ 32 ∷ []) s)
  skip_lines-Came zero a b c lines text rest s code within fits enough syn = absurd (omega arith)
  skip_lines-Came (suc fuel) a b c [] text rest s code within fits enough syn =
      let came =
        read_line-Came sockets socket At feeds (reply_line a b c 32 text) rest s syn fits in
      let (behind, e) =
        buffer_of_line a b c 32 text came.state.response code (λ e. ground arith) came.holds in
      let found = ap (λ l. strncmp_equal 4 l (a ∷ b ∷ c ∷ 32 ∷ [])) e ∙ ended_match a b c behind in
      record {
        state = came.state;
        done = skip_ended sockets fuel (a ∷ b ∷ c ∷ 32 ∷ []) s came.state came.done found;
        synced = came.synced;
        holds = came.holds;
      }
  skip_lines-Came (suc fuel) a b c (line ∷ lines) text rest s code within fits enough syn =
      let last = reply_line a b c 32 text in
      let came =
        read_line-Came sockets socket At feeds line (lines_before lines (last ++ (10 ∷ rest))) s syn
          within.0.fits in
      let other = matched a b c came.state.response line code came.holds within.0.other in
      rw (skip_more sockets fuel (a ∷ b ∷ c ∷ 32 ∷ []) s came.state came.done other) (
        skip_lines-Came fuel a b c lines text rest came.state code within.1 fits (omega arith)
          came.synced)
