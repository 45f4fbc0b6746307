-- ===== src/Ftp/Reader/Termination.antt =====
-- `Readline` comes to an end on every network.
use ps5_ezremote_server.Prelude.{
  ℕ, zero, suc, ◌+◌, ◌-◌, ◌≤◌, ◌<◌, ◌≡◌, refl, Bool, true, false, Option, none, some, [], ◌∷◌,
  length, ◌==◌, inl, inr, Bool-cases, arith,
}
use ps5_ezremote_server.Outcome.{Outcome, returns, undefined}
use ps5_ezremote_server.Words.{Bytes}
use ps5_ezremote_server.Ftp.Reader.{
  Sockets, Reader, ftp_client_bufsiz, Progress, Line, copy_pending, overlong, readline_loop,
  readline,
}
use ps5_ezremote_server.Ftp.Reader.Turns.{
  copy_pending-Turned, Halts, if-Halts, bind-Halts, overlong-Halts, Turned, halts, breaks, broken,
  lined, filled, went_on,
}

module _ {N : Type 0} (sockets : Sockets N) (handle : ℕ) where
  abbrev reading : Bytes → ℕ → Reader
  reading pending cleft = record { handle = handle; pending = pending; cleft = cleft }

  full-Halts :
      (fuel cleft : ℕ) (eof : Bool) (p q : Progress) (pending left : Bytes) (net : N)
      → copy_pending p pending ≡ returns (none, q, left)
      → (q.max == 1) ≡ true
      → Halts (readline_loop sockets (suc fuel) eof p (reading pending cleft) net)
  unfolding readline_loop
  full-Halts fuel cleft eof p q pending left net copied full =
      rw (copied, full) (bind-Halts (overlong q) _ (overlong-Halts q) (λ line. halts _))

  broken-Halts :
      (fuel cleft : ℕ) (p : Progress) (pending : Bytes) (net : N)
      → copy_pending p pending ≡ undefined
      → Halts (readline_loop sockets (suc fuel) false p (reading pending cleft) net)
  unfolding readline_loop
  broken-Halts fuel cleft p pending net copied = rw copied breaks

  lined-Halts :
      (fuel cleft : ℕ) (p q : Progress) (pending left : Bytes) (line : Line) (net : N)
      → copy_pending p pending ≡ returns (some line, q, left)
      → Halts (readline_loop sockets (suc fuel) false p (reading pending cleft) net)
  unfolding readline_loop
  lined-Halts fuel cleft p q pending left line net copied = rw copied (halts _)

  ended-Halts :
      (fuel cleft : ℕ) (p : Progress) (net : N)
      → Halts (readline_loop sockets (suc fuel) true p (reading [] cleft) net)
  unfolding readline_loop
  ended-Halts fuel cleft p net =
      if-Halts (p.max == 1) _ _ (bind-Halts (overlong p) _ (overlong-Halts p) (λ line. halts _))
        (halts _)

  abbrev Rounds : ℕ → Type 0
  Rounds fuel =
      (cleft : ℕ) (p : Progress) (c : ℕ) (pending : Bytes) (net : N)
      → 1 ≤ p.max
      → length p.buf ≡ p.at + p.max
      → p.max + 1 ≤ fuel
      → Halts (readline_loop sockets fuel false p (reading (c ∷ pending) cleft) net)

  -- What comes behind an empty rest.
  ask-Halts :
      (fuel cleft : ℕ) (p q : Progress) (pending : Bytes) (net : N) (got : Option Bytes)
      → Rounds fuel
      → (sockets.recv handle ftp_client_bufsiz net).0 ≡ got
      → copy_pending p pending ≡ returns (none, q, [])
      → (q.max == 1) ≡ false
      → 1 ≤ q.max
      → length q.buf ≡ q.at + q.max
      → q.max + 1 ≤ fuel
      → Halts (readline_loop sockets (suc fuel) false p (reading pending cleft) net)
  unfolding readline_loop
  ask-Halts fuel cleft p q pending net none more e copied room some_room size enough =
      rw (copied, room, e) (halts _)
  ask-Halts zero cleft p q pending net (some []) more e copied room some_room size enough =
      absurd (omega arith)
  ask-Halts (suc fuel) cleft p q pending net (some []) more e copied room some_room size enough =
      rw (copied, room, e)
        (ended-Halts fuel ftp_client_bufsiz q (sockets.recv handle ftp_client_bufsiz net).1)
  ask-Halts fuel cleft p q pending net (some (b ∷ bytes)) more e copied room some_room size enough =
      rw (copied, room, e)
        (more (ftp_client_bufsiz - length (b ∷ bytes)) q b bytes
          (sockets.recv handle ftp_client_bufsiz net).1 some_room size enough)

  turn-Halts :
      (fuel cleft : ℕ) (p q : Progress) (pending : Bytes) (net : N)
      → Rounds fuel
      → copy_pending p pending ≡ returns (none, q, [])
      → 1 ≤ q.max
      → length q.buf ≡ q.at + q.max
      → q.max + 1 ≤ fuel
      → Halts (readline_loop sockets (suc fuel) false p (reading pending cleft) net)
  turn-Halts fuel cleft p q pending net more copied some_room size enough =
      elim (Bool-cases (q.max == 1)) [
        | inl full ↦ full-Halts fuel cleft false p q pending [] net copied full
        | inr room ↦
            ask-Halts fuel cleft p q pending net (sockets.recv handle ftp_client_bufsiz net).0 more
              refl copied room some_room size enough
      ]

  copied-Halts :
      (fuel cleft : ℕ) (p : Progress) (pending : Bytes) (net : N)
      (m : Outcome (Option Line × Progress × Bytes))
      → Rounds fuel
      → copy_pending p pending ≡ m
      → p.max ≤ fuel
      → Turned p m
      → Halts (readline_loop sockets (suc fuel) false p (reading pending cleft) net)
  copied-Halts fuel cleft p pending net m more e enough broken =
      broken-Halts fuel cleft p pending net e
  copied-Halts fuel cleft p pending net m more e enough (lined line q left) =
      lined-Halts fuel cleft p q pending left line net e
  copied-Halts fuel cleft p pending net m more e enough (filled q left full) =
      full-Halts fuel cleft false p q pending left net e (ground (arith, full))
  copied-Halts fuel cleft p pending net m more e enough (went_on q less room size) =
      turn-Halts fuel cleft p q pending net more e room size (omega arith)

  rounds : (fuel : ℕ) → Rounds fuel
  rounds zero cleft p c pending net room size enough = absurd (omega arith)
  rounds (suc fuel) cleft p c pending net room size enough =
      copied-Halts fuel cleft p (c ∷ pending) net (copy_pending p (c ∷ pending)) (rounds fuel) refl
        (omega arith) (copy_pending-Turned p c pending room size)

  start-Halts :
      (buf pending : Bytes) (cleft : ℕ) (net : N)
      → 0 < length buf
      → Halts (
          readline_loop sockets
            (length buf + 2)
            false
            (record { buf = buf; at = 0; max = length buf; retval = 0 })
            (reading pending cleft)
            net)
  start-Halts buf [] cleft net some_room =
      let p : Progress = record { buf = buf; at = 0; max = length buf; retval = 0 } in
      let more : length buf + 2 ≡ suc (length buf + 1) = omega arith in
      rw more (
        turn-Halts (length buf + 1) cleft p p [] net (rounds (length buf + 1))
          (unfold copy_pending in refl) (omega arith) (omega arith) (omega arith))
  start-Halts buf (c ∷ pending) cleft net some_room =
      rounds (length buf + 2) cleft (record { buf = buf; at = 0; max = length buf; retval = 0 }) c
        pending net (omega arith) (omega arith) (omega arith)

-- On every network, whatever is pending and whatever `recv` gives, errors included, and into every
-- buffer, `Readline` comes to an end: it returns, or leaves defined behaviour, and its fuel of two
-- turns more than the buffer has bytes is enough.
pub readline-Halts :
    {N : Type 0} (sockets : Sockets N) (buf : Bytes) (r : Reader) (net : N)
    → Halts (readline sockets buf r net)
unfolding readline
readline-Halts sockets buf r net = elim (Bool-cases (length buf == 0)) [
  | inl empty ↦ rw empty (halts _)
  | inr room ↦
      rw room (start-Halts sockets r.handle buf r.pending r.cleft net (ground (arith, room)))
]
