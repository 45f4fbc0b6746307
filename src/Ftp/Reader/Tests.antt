-- ===== src/Ftp/Reader/Tests.antt =====
-- Tests of `Readline`, on a socket that gives a byte at a time, and the witnesses.
use ps5_ezremote_server.Prelude.{◌≡◌, refl, some, [], ◌∷◌, ◌++◌, arith}
use ps5_ezremote_server.Outcome.{returns, undefined}
use ps5_ezremote_server.Words.{Bytes, codes}
use ps5_ezremote_server.Ftp.Reader.{poke, has_newline, end_line, readline_loop, readline}
use ps5_ezremote_server.Ftp.Samples.{some_sockets, some_reader, Left, some_sockets-Feeds}
use ps5_ezremote_server.Ftp.Reader.Copies.{NextLine}
use ps5_ezremote_server.Ftp.Reader.Ends.{readline-NextLine}
use ps5_ezremote_server.Ftp.Reader.Turns.{Halts}
use ps5_ezremote_server.Ftp.Reader.Termination.{readline-Halts}
use ps5_ezremote_server.Ftp.Reader.Total.{readline_overflow}

abbrev some_buf : Bytes
some_buf = 7 ∷ 7 ∷ 7 ∷ 7 ∷ 7 ∷ 7 ∷ []

readline_test :
    readline some_sockets some_buf (some_reader (codes "2")) (codes "20" ++ (13 ∷ 10 ∷ b'5' ∷ []))
    ≡ returns (
      record { count = some 4; buf = codes "220" ++ (10 ∷ 0 ∷ 0 ∷ []) },
      record (some_reader []) { cleft = 1_048_575 },
      codes "5",
    )
unfolding readline readline_loop poke end_line
readline_test = refl

-- The end of the stream ends a line, and a return alone does not.
readline_test_end :
    readline some_sockets some_buf (some_reader []) (codes "a" ++ (13 ∷ []))
    ≡ returns (
      record { count = some 2; buf = b'a' ∷ 13 ∷ 0 ∷ 7 ∷ 7 ∷ 7 ∷ [] },
      record (some_reader []) { cleft = 1_048_576 },
      [],
    )
unfolding readline readline_loop poke end_line
readline_test_end = refl

-- The line feed of an empty line is looked for before the buffer.
readline_test_empty : readline some_sockets some_buf (some_reader []) (10 ∷ []) ≡ undefined
unfolding readline readline_loop poke end_line
readline_test_empty = refl

readline-NextLine_example :
    NextLine 3 Left
      (codes "hey" ++ (10 ∷ []))
      6
      (codes "220")
      (readline some_sockets some_buf (some_reader (codes "h")) (codes "ey" ++ (10 ∷ codes "220")))
readline-NextLine_example =
    readline-NextLine some_sockets 3 Left some_sockets-Feeds 0 some_buf (codes "hey") (codes "220")
      (codes "h") (codes "ey" ++ (10 ∷ codes "220")) (codes "ey" ++ (10 ∷ codes "220")) refl
      (unfold has_newline in refl) (omega arith) (omega arith) refl

readline_overflow_example :
    readline some_sockets some_buf (some_reader (codes "220-AB")) [] ≡ undefined
readline_overflow_example =
    readline_overflow some_sockets some_buf (some_reader (codes "220-AB")) [] (omega arith) refl
      (unfold has_newline in refl)

readline-Halts_example :
    Halts (readline some_sockets some_buf (some_reader (codes "22")) (codes "0 ready"))
readline-Halts_example =
    readline-Halts some_sockets some_buf (some_reader (codes "22")) (codes "0 ready")
