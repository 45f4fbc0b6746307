-- ===== src/Ftp/Reader/Total.antt =====
-- `Readline` ends on every network, and what a full buffer does.
use ps5_ezremote_server.Prelude.{
  ℕ, suc, ◌+◌, ◌<◌, ◌≡◌, refl, ap, ◌∙◌, false, [], ◌∷◌, ◌++◌, length, take, leb, ◌==◌, arith,
  length-append,
}
use ps5_ezremote_server.Outcome.{undefined}
use ps5_ezremote_server.Words.{Bytes}
use ps5_ezremote_server.Ftp.Reader.{
  Sockets, Reader, poke, through_newline, has_newline, looked_at, consume, copy_pending,
  readline_loop, readline,
}
use ps5_ezremote_server.Ftp.Reader.Lines.{through_newline-none, take-whole}

pub poke_outside :
    (buf chunk : Bytes) (at : ℕ) → length buf < at + length chunk → poke buf at chunk ≡ undefined
unfolding poke
poke_outside buf chunk at h =
    let outside : leb (at + length chunk) (length buf) ≡ false = ground arith in rw outside refl

copy_pending-full :
    (buf : Bytes) (c : ℕ) (pending : Bytes)
    → length (c ∷ pending) ≡ length buf
    → has_newline (c ∷ pending) ≡ false
    → copy_pending (record { buf = buf; at = 0; max = length buf; retval = 0 }) (c ∷ pending)
      ≡ undefined
copy_pending-full buf c pending full plain =
    let chunk = c ∷ pending in
    let looked : looked_at (length buf) chunk ≡ length chunk = ground arith in
    let seen : take (looked_at (length buf) chunk) chunk ≡ chunk =
      take-whole (looked_at (length buf) chunk) chunk (omega (arith, looked)) in
    let through : through_newline (take (looked_at (length buf) chunk) chunk) ≡ chunk =
      ap through_newline seen ∙ through_newline-none chunk plain in
    let outside =
      poke_outside buf (chunk ++ (0 ∷ [])) 0 (omega (arith, length-append chunk (0 ∷ []))) in
    unfold copy_pending consume in rw (through, outside) refl

readline-full :
    {N : Type 0} (sockets : Sockets N) (buf pending : Bytes) (handle cleft : ℕ) (net : N)
    → 0 < length buf
    → length pending ≡ length buf
    → has_newline pending ≡ false
    → readline sockets buf (record { handle = handle; pending = pending; cleft = cleft }) net
      ≡ undefined
readline-full sockets buf [] handle cleft net some_room full plain = absurd (omega arith)
readline-full sockets buf (c ∷ pending) handle cleft net some_room full plain =
    let room : (length buf == 0) ≡ false = ground arith in
    let more : length buf + 2 ≡ suc (length buf + 1) = omega arith in
    let copied = copy_pending-full buf c pending full plain in
    unfold readline in rw (room, more) (unfold readline_loop in rw copied refl)

-- Exactly as many bytes are pending as the buffer has, and none is a line feed. `Readline` copies
-- them all, and then writes the end of the string behind the buffer.
pub readline_overflow :
    {N : Type 0} (sockets : Sockets N) (buf : Bytes) (r : Reader) (net : N)
    → 0 < length buf
    → length r.pending ≡ length buf
    → has_newline r.pending ≡ false
    → readline sockets buf r net ≡ undefined
readline_overflow sockets buf r net some_room full plain =
    readline-full sockets buf r.pending r.handle r.cleft net some_room full plain
