-- ===== src/Ftp/Reader.antt =====
-- `FtpClient::Readline` of source/clients/ftpclient.cpp, over a parameter for the sockets.
-- `pending` is what lies between `cget` and `cput`, and its length is `cavail`. A caller's buffer
-- is the list of its bytes, and a write outside of it is `undefined`.
pub mod Lines
pub mod Copies
pub mod Ends
pub mod Total
pub mod Turns
pub mod Termination
mod Tests
use ps5_ezremote_server.Prelude.{
  ℕ, zero, suc, ◌+◌, ◌-◌, ◌≤◌, ◌<◌, Bool, true, false, ◌&&◌, Option, none, some, List, [], ◌∷◌,
  ◌++◌, length, take, drop, get_elem?, ltb, leb, ◌==◌, if◌then◌else◌,
}
use ps5_ezremote_server.Outcome.{Outcome, returns, undefined, out_of_fuel, ◌>>=◌}
use ps5_ezremote_server.Words.{Bytes}

abbrev pub ftp_client_bufsiz : ℕ
ftp_client_bufsiz = 1_048_576

-- What the client calls of the system, on sockets by their numbers. A result of -1 is `none`.
pub record Sockets (N : Type 0) : Type 0 where
  pub recv : ℕ → ℕ → N → Option Bytes × N
  pub send : ℕ → Bytes → N → Option ℕ × N
  -- `socket` with its four options; a socket whose options fail is closed.
  pub data_socket : N → Option ℕ × N
  pub connect : ℕ → Bytes → N → Bool × N
  pub close : ℕ → N → N
  -- An address is the six bytes of `sa_data`: the port, then the host.
  pub peer_name : ℕ → N → Option Bytes × N
  pub socket_name : ℕ → N → Option Bytes × N
  pub bind_any : ℕ → Bytes → N → Bool × N
  pub listen : ℕ → N → Bool × N
  pub accept : ℕ → N → Option ℕ × N
  pub socket : N → Option ℕ × N
  pub reuse_address : ℕ → N → Bool × N
  -- The four bytes of a host's first address.
  pub host_address : Bytes → N → Option Bytes × N
  -- `strerror(errno)`
  pub error_text : N → Bytes
  -- `xfercb`, the client's callback.
  pub callback : ℕ → N → Bool × N

-- The part of `ftphandle` that `Readline` works on.
pub record Reader : Type 0 where
  pub handle : ℕ
  pub pending : Bytes
  pub cleft : ℕ

-- `memcpy` to an index of a buffer.
unfoldable pub poke : Bytes → ℕ → Bytes → Outcome Bytes
poke buf at bytes =
    if leb (at + length bytes) (length buf)
    then returns (take at buf ++ (bytes ++ drop (at + length bytes) buf))
    else undefined

-- What `memccpy` copies of bytes up to a line feed, and whether it found one.
unfoldable pub through_newline : Bytes → Bytes
through_newline [] = []
through_newline (c ∷ bytes) = if c == 10 then c ∷ [] else c ∷ through_newline bytes

unfoldable pub has_newline : Bytes → Bool
has_newline [] = false
has_newline (c ∷ bytes) = if c == 10 then true else has_newline bytes

-- The variables of the loop: `at` is `bp - buf`.
pub record Progress : Type 0 where
  pub buf : Bytes
  pub at : ℕ
  pub max : ℕ
  pub retval : ℕ

-- A result of `Readline`: the count, and the caller's buffer.
pub record Line : Type 0 where
  pub count : Option ℕ
  pub buf : Bytes

-- `if (end != NULL)`: a return before the line feed is dropped. The pointer is moved back by two
-- first, which a line of one byte does not allow.
unfoldable pub end_line : Progress → Outcome Line
end_line p = if ltb p.at 2 then undefined else elim (get_elem? p.buf (p.at - 2)) [
  | none ↦ undefined
  | some c ↦
      if c == 13
      then (do
        buf ← poke p.buf (p.at - 2) (10 ∷ 0 ∷ [])
        returns (record { count = some (p.retval - 1); buf = buf }))
      else returns (record { count = some p.retval; buf = p.buf })
]

-- How many of the pending bytes are looked at.
abbrev pub looked_at : ℕ → Bytes → ℕ
looked_at max pending = if leb (length pending) max then length pending else max - 1

-- The copy of pending bytes, and the end of the string behind them.
unfoldable pub consume : Progress → Bytes → Outcome Progress
unfolding through_newline
consume p pending = do
  let chunk = through_newline (take (looked_at p.max pending) pending)
  buf ← poke p.buf p.at (chunk ++ (0 ∷ []))
  returns (record {
    buf = buf;
    at = p.at + length chunk;
    max = p.max - length chunk;
    retval = p.retval + length chunk;
  })

-- What stands in the loop before the test of `max`; a line leaves the loop.
unfoldable pub copy_pending : Progress → Bytes → Outcome (Option Line × Progress × Bytes)
unfolding consume has_newline
copy_pending p [] = returns (none, p, [])
copy_pending p (c ∷ pending) = do
  let seen = take (looked_at p.max (c ∷ pending)) (c ∷ pending)
  q ← consume p (c ∷ pending)
  let left = drop (length (through_newline seen)) (c ∷ pending)
  if has_newline seen
      then (do line ← end_line q; returns (some line, q, left))
      else returns (none, q, left)

-- `if (max == 1)`
unfoldable pub overlong : Progress → Outcome Line
overlong p = do buf ← poke p.buf 0 (0 ∷ []); returns (record { count = some p.retval; buf = buf })

abbrev pub at_end : Progress → Line
at_end p = record { count = if p.retval == 0 then none else some p.retval; buf = p.buf }

module _ {N : Type 0} (sockets : Sockets N) where
  unfoldable pub readline_loop : ℕ → Bool → Progress → Reader → N → Outcome (Line × Reader × N)
  unfolding copy_pending
  readline_loop zero eof p r net = out_of_fuel
  readline_loop (suc fuel) eof p r net = do
    (line, q, left) ← copy_pending p r.pending
    let r' = record r { pending = left }
    elim line [
      | some line ↦ returns (line, r', net)
      | none ↦
          if q.max == 1
          then (do line ← overlong q; returns (line, r', net))
          else (let room = if length left == 0 then ftp_client_bufsiz else r.cleft in
              if eof
              then returns (at_end q, record r' { cleft = room }, net)
              else (let (got, net') = sockets.recv r.handle room net in
                  elim got [
                    | none ↦
                        returns
                          (record { count = none; buf = q.buf }, record r' { cleft = room }, net')
                    | some [] ↦ readline_loop fuel true q (record r' { cleft = room }) net'
                    | some (b ∷ bytes) ↦
                        readline_loop fuel false q
                          (record r' {
                            pending = left ++ (b ∷ bytes);
                            cleft = room - length (b ∷ bytes);
                          })
                          net'
                  ]))
    ]

  -- `Readline` into a buffer of `max` bytes. Each turn but the first two and the last takes a byte.
  unfoldable pub readline : Bytes → Reader → N → Outcome (Line × Reader × N)
  readline buf r net =
      if length buf == 0
      then returns (record { count = some 0; buf = buf }, r, net)
      else readline_loop (length buf + 2) false
          (record { buf = buf; at = 0; max = length buf; retval = 0 }) r net
