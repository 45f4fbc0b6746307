-- ===== src/Ftp/Reader/Ends.antt =====
-- `Readline` gives the next line of the stream, however the stream is cut into chunks.
use ps5_ezremote_server.Prelude.{
  ℕ, zero, suc, ◌+◌, ◌-◌, ◌≤◌, ◌<◌, ◌≡◌, refl, sym, ap, subst, ◌∙◌, false, none, [], ◌∷◌, ◌++◌,
  length, ◌==◌, arith, append_assoc, length-append,
}
use ps5_ezremote_server.Outcome.{returns}
use ps5_ezremote_server.Words.{Bytes}
use ps5_ezremote_server.Ftp.Reader.{
  Sockets, ftp_client_bufsiz, has_newline, Progress, copy_pending, readline_loop, readline,
}
use ps5_ezremote_server.Ftp.Reader.Lines.{Standing}
use ps5_ezremote_server.Ftp.Reader.Copies.{
  recv_step, line_step, Feeds, NextLine, Meets, meet, has_newline-append, has_newline-behind,
  reading, copy_pending-beyond, copy_pending-inside, inside, beyond,
}

-- A turn with the next line in it, and one that asks for more.
module _ {N : Type 0} (sockets : Sockets N) (socket : ℕ) (At : Bytes → N → Type 0)
    (feeds : Feeds sockets socket At) where
  -- Turns that the fuel must allow.
  abbrev turns : Bytes → ℕ
  turns [] = 2
  turns (c ∷ pending) = 1

  abbrev Rest : ℕ → Type 0
  Rest fuel =
      (cleft : ℕ) (before space text rest pending stream : Bytes) (p : Progress) (net : N)
      → Standing before space p
      → pending ++ stream ≡ text ++ (10 ∷ rest)
      → has_newline text ≡ false
      → length text + 1 < length space
      → 0 < length before + length text
      → At stream net
      → length text + turns pending ≤ fuel
      → NextLine socket At ((before ++ text) ++ (10 ∷ [])) (length before + length space) rest
          (readline_loop sockets fuel false p (reading socket pending cleft) net)

  -- Nothing is left of the chunk, and the buffer is not full.
  ask :
      (fuel cleft : ℕ) (before space text rest pending stream : Bytes) (p q : Progress) (net : N)
      → Rest fuel
      → copy_pending p pending ≡ returns (none, q, [])
      → Standing before space q
      → stream ≡ text ++ (10 ∷ rest)
      → has_newline text ≡ false
      → length text + 1 < length space
      → 0 < length before + length text
      → At stream net
      → length text + 1 ≤ fuel
      → NextLine socket At
          ((before ++ text) ++ (10 ∷ []))
          (length before + length space)
          rest
          (readline_loop sockets (suc fuel) false p (reading socket pending cleft) net)
  ask fuel cleft before space text rest pending [] p q net more copied st e plain fits some_text at
        enough =
      absurd (omega (arith, ap length e, length-append text (10 ∷ rest)))
  ask fuel cleft before space text rest pending (c ∷ stream) p q net more copied st e plain fits
        some_text at enough =
      let chunk = feeds.gives c stream ftp_client_bufsiz net (omega arith) at in
      let not_full : (q.max == 1) ≡ false = ground (arith, st.max) in
      rw
        (recv_step sockets fuel socket cleft p net pending q chunk.first chunk.more copied not_full
          chunk.got)
        (more (ftp_client_bufsiz - suc (length chunk.more)) before space text rest
          (chunk.first ∷ chunk.more) chunk.rest q _ st (chunk.joins ∙ e) plain fits some_text
          chunk.next (omega arith))

  turn :
      (fuel cleft : ℕ) (before space text rest : Bytes) (c : ℕ) (pending stream : Bytes)
      (p : Progress) (net : N)
      → Rest fuel
      → Standing before space p
      → has_newline text ≡ false
      → length text + 1 < length space
      → 0 < length before + length text
      → At stream net
      → length text + 1 ≤ suc fuel
      → Meets text (c ∷ pending) stream rest
      → NextLine socket At
          ((before ++ text) ++ (10 ∷ []))
          (length before + length space)
          rest
          (readline_loop sockets (suc fuel) false p (reading socket (c ∷ pending) cleft) net)
  turn fuel cleft before space text rest c pending stream p net more st plain fits some_text at
        enough (inside left e e') =
      let found =
        copy_pending-inside before space text left c pending p st e plain fits some_text in
      rw
        (line_step sockets fuel socket cleft p net (c ∷ pending) left found.next found.line
          found.done)
        (record {
          result = found.line;
          reader = reading socket left cleft;
          net = net;
          done = refl;
          right = found.right;
          stream = stream;
          joins = sym e';
          fed = at;
          socket_kept = refl;
        })
  turn fuel cleft before space text rest c pending stream p net more st plain fits some_text at
        enough (beyond t e e') =
      let chunk = c ∷ pending in
      let sizes : length text ≡ suc (length pending) + length t =
        omega (arith, ap length e, length-append chunk t) in
      let copied =
        copy_pending-beyond before space c pending p st
          (has_newline-append chunk t (ap has_newline (sym e) ∙ plain)) (omega (arith, sizes)) in
      let line : (before ++ chunk) ++ t ≡ before ++ text =
        append_assoc before chunk t ∙ ap (λ l. before ++ l) (sym e) in
      let cap : length (before ++ chunk) + suc (length copied.room) ≡ length before + length space =
        omega (arith, copied.left, length-append before chunk) in
      rw (← line, ← cap)
        (ask fuel cleft (before ++ chunk) (0 ∷ copied.room) t rest chunk stream p copied.next net
          more copied.done copied.standing e'
          (has_newline-behind chunk t (ap has_newline (sym e) ∙ plain))
          (omega (arith, sizes, copied.left)) (omega (arith, length-append before chunk)) at
          (omega (arith, sizes)))

  readline_loop-NextLine : (fuel : ℕ) → Rest fuel
  readline_loop-NextLine zero cleft before space text rest [] stream p net st e plain fits some_text
        at enough =
      absurd (omega arith)
  readline_loop-NextLine zero cleft before space text rest (c ∷ pending) stream p net st e plain
        fits some_text at enough =
      absurd (omega arith)
  readline_loop-NextLine (suc fuel) cleft before space text rest [] stream p net st e plain fits
        some_text at enough =
      ask fuel cleft before space text rest [] stream p p net (readline_loop-NextLine fuel)
        (unfold copy_pending in refl) st e plain fits some_text at (omega arith)
  readline_loop-NextLine (suc fuel) cleft before space text rest (c ∷ pending) stream p net st e
        plain fits some_text at enough =
      turn fuel cleft before space text rest c pending stream p net (readline_loop-NextLine fuel) st
        plain fits some_text at enough (meet text (c ∷ pending) stream rest e)

  turns-le : (pending : Bytes) → turns pending ≤ 2
  turns-le [] = omega arith
  turns-le (c ∷ pending) = omega arith

  -- Over a socket with a stream of bytes, however `recv` cuts it into chunks and whatever is
  -- pending: a line of two bytes or more that leaves a byte of the buffer free is read. The buffer
  -- then holds it as a string, with its line feed and without a return before that; the count is
  -- the string's length; and what comes next is exactly what is behind the line.
  pub readline-NextLine :
      (cleft : ℕ) (buf text rest pending stream : Bytes) (net : N)
      → pending ++ stream ≡ text ++ (10 ∷ rest)
      → has_newline text ≡ false
      → 0 < length text
      → length text + 1 < length buf
      → At stream net
      → NextLine socket At
          (text ++ (10 ∷ []))
          (length buf)
          rest
          (readline sockets buf (reading socket pending cleft) net)
  readline-NextLine cleft buf text rest pending stream net e plain some_text fits at =
      let room : (length buf == 0) ≡ false = ground arith in
      let p : Progress = record { buf = buf; at = 0; max = length buf; retval = 0 } in
      let start : Standing [] buf p = record { buf = refl; at = refl; max = refl; retval = refl } in
      let first_loop =
        readline_loop-NextLine (length buf + 2) cleft [] buf text rest pending stream p net start e
          plain fits (omega arith) at (omega (arith, turns-le pending)) in
      let size : 0 + length buf ≡ length buf = omega arith in
      unfold readline in
      rw room (
        subst
          (λ k.
            NextLine socket At (text ++ (10 ∷ [])) k rest
              (readline_loop sockets (length buf + 2) false p (reading socket pending cleft) net))
          size first_loop)
