-- ===== src/Ftp/Reader/Copies.antt =====
-- What a turn of the loop of `Readline` makes of pending bytes and the next line of a stream.
use ps5_ezremote_server.Prelude.{
  ℕ, suc, ◌+◌, ◌-◌, ◌≤◌, ◌<◌, ◌≡◌, refl, sym, ap, subst, ◌∙◌, true, false, Option, none, some, [],
  ◌∷◌, ◌++◌, length, take, drop, ◌==◌, arith, append_assoc, length-append,
}
use ps5_ezremote_server.Outcome.{Outcome, returns}
use ps5_ezremote_server.Words.{Bytes}
use ps5_ezremote_server.Ftp.Reader.{
  Sockets, Reader, ftp_client_bufsiz, through_newline, has_newline, Progress, Line, end_line,
  looked_at, consume, copy_pending, readline_loop,
}
use ps5_ezremote_server.Ftp.Reader.Lines.{
  Standing, consume-Consumed, through_newline-none, through_newline-text, take-longer, take-whole,
  drop-append, IsLine, Ended, end_line-Ended,
}

-- What `recv` gives of a stream: a chunk from its front that fits, and the rest is still to come.
pub record GivesChunk {N : Type 0} (At : Bytes → N → Type 0) (room : ℕ) (stream : Bytes)
    (r : Option Bytes × N) : Type 0 where
  pub first : ℕ
  pub more : Bytes
  pub rest : Bytes
  pub got : r.0 ≡ some (first ∷ more)
  pub fits : suc (length more) ≤ room
  pub joins : (first ∷ more) ++ rest ≡ stream
  pub next : At rest r.1

-- The documented behaviour of `recv` on a socket with a stream; `At` says what is still to come.
pub record Feeds {N : Type 0} (sockets : Sockets N) (socket : ℕ) (At : Bytes → N → Type 0)
    : Type 0 where
  pub gives :
      (c : ℕ) (stream : Bytes) (room : ℕ) (net : N)
      → 0 < room
      → At (c ∷ stream) net
      → GivesChunk At room (c ∷ stream) (sockets.recv socket room net)

-- The next line was read, and `rest` comes behind it.
pub record NextLine {N : Type 0} (socket : ℕ) (At : Bytes → N → Type 0) (line : Bytes) (cap : ℕ)
    (rest : Bytes) (m : Outcome (Line × Reader × N)) : Type 0 where
  pub result : Line
  pub reader : Reader
  pub net : N
  pub done : m ≡ returns (result, reader, net)
  pub right : IsLine line cap result
  pub stream : Bytes
  pub joins : reader.pending ++ stream ≡ rest
  pub fed : At stream net
  pub socket_kept : reader.handle ≡ socket

-- The first line feed is among the pending bytes, or behind them.
pub data Meets (text pending stream rest : Bytes) : Type 0 where
  inside :
      (p : Bytes) → pending ≡ text ++ (10 ∷ p) → rest ≡ p ++ stream → Meets text pending stream rest
  beyond :
      (t : Bytes) → text ≡ pending ++ t → stream ≡ t ++ (10 ∷ rest) → Meets text pending stream rest

pub meet :
    (text pending stream rest : Bytes)
    → pending ++ stream ≡ text ++ (10 ∷ rest)
    → Meets text pending stream rest
meet text [] stream rest e = beyond text refl e
meet [] (c ∷ pending) stream rest e = inside pending (cc e) (cc e)
meet (x ∷ text) (c ∷ pending) stream rest e = elim (meet text pending stream rest (cc e)) [
  | inside p a b ↦ inside p (cc (e, a)) b
  | beyond t a b ↦ beyond t (cc (e, a)) b
]

pub has_newline-append : (xs ys : Bytes) → has_newline (xs ++ ys) ≡ false → has_newline xs ≡ false
unfolding has_newline
has_newline-append [] ys h = refl
has_newline-append (x ∷ xs) ys h = ground (arith, has_newline-append xs ys)

pub has_newline-behind : (xs ys : Bytes) → has_newline (xs ++ ys) ≡ false → has_newline ys ≡ false
unfolding has_newline
has_newline-behind [] ys h = h
has_newline-behind (x ∷ xs) ys h = ground (arith, has_newline-behind xs ys)

abbrev pub reading : ℕ → Bytes → ℕ → Reader
reading socket pending cleft = record { handle = socket; pending = pending; cleft = cleft }

-- Steps of the loop.
module _ {N : Type 0} (sockets : Sockets N) (fuel : ℕ) (socket cleft : ℕ) (p : Progress)
    (net : N) where
  pub recv_step :
      (pending : Bytes) (q : Progress) (first : ℕ) (more : Bytes)
      → copy_pending p pending ≡ returns (none, q, [])
      → (q.max == 1) ≡ false
      → (sockets.recv socket ftp_client_bufsiz net).0 ≡ some (first ∷ more)
      → readline_loop sockets (suc fuel) false p (reading socket pending cleft) net
        ≡ readline_loop sockets fuel false q
            (reading socket (first ∷ more) (ftp_client_bufsiz - suc (length more)))
            (sockets.recv socket ftp_client_bufsiz net).1
  recv_step pending q first more copied not_full got =
      unfold readline_loop in rw (copied, not_full, got) refl

  pub line_step :
      (pending left : Bytes) (q : Progress) (line : Line)
      → copy_pending p pending ≡ returns (some line, q, left)
      → readline_loop sockets (suc fuel) false p (reading socket pending cleft) net
        ≡ returns (line, reading socket left cleft, net)
  line_step pending left q line copied = unfold readline_loop in rw copied refl

-- What the copy gives in the two cases.
pub record Copied (before space chunk : Bytes) (m : Outcome (Option Line × Progress × Bytes))
    : Type 0 where
  pub next : Progress
  pub room : Bytes
  pub done : m ≡ returns (none, next, [])
  pub standing : Standing (before ++ chunk) (0 ∷ room) next
  pub left : suc (length room) + length chunk ≡ length space

pub drop-all : (l : Bytes) → drop (length l) l ≡ []
drop-all [] = refl
drop-all (x ∷ l) = drop-all l

pub copy_pending-beyond :
    (before space : Bytes) (c : ℕ) (pending : Bytes) (p : Progress)
    → Standing before space p
    → has_newline (c ∷ pending) ≡ false
    → length (c ∷ pending) < length space
    → Copied before space (c ∷ pending) (copy_pending p (c ∷ pending))
copy_pending-beyond before space c pending p st plain fits =
    let chunk = c ∷ pending in
    let all_looked : looked_at p.max chunk ≡ length chunk = ground (arith, st.max) in
    let seen : take (looked_at p.max chunk) chunk ≡ chunk =
      take-whole (looked_at p.max chunk) chunk (omega (arith, all_looked)) in
    let through : through_newline (take (looked_at p.max chunk) chunk) ≡ chunk =
      ap through_newline seen ∙ through_newline-none chunk plain in
    let none_found : has_newline (take (looked_at p.max chunk) chunk) ≡ false =
      ap has_newline seen ∙ plain in
    let q = consume-Consumed before space chunk chunk p st through fits in
    let none_left = drop-all chunk in
    record {
      next = q.next;
      room = q.room;
      done = unfold copy_pending in rw (q.done, none_found, through, none_left) refl;
      standing = q.standing;
      left = q.left;
    }

pub record Found (before space text left : Bytes) (m : Outcome (Option Line × Progress × Bytes))
    : Type 0 where
  pub line : Line
  pub next : Progress
  pub done : m ≡ returns (some line, next, left)
  pub right : IsLine ((before ++ text) ++ (10 ∷ [])) (length before + length space) line

-- The end of a line of two bytes or more.
line_end :
    (line room : Bytes) (cap : ℕ) (p : Progress)
    → 0 < length line
    → Standing (line ++ (10 ∷ [])) (0 ∷ room) p
    → length line + 2 + length room ≡ cap
    → Ended (line ++ (10 ∷ [])) cap (end_line p)
line_end [] room cap p some_text st size = absurd (omega arith)
line_end (x ∷ line) room cap p some_text st size =
    subst (λ k. Ended ((x ∷ line) ++ (10 ∷ [])) k (end_line p)) (omega (arith, size))
      (end_line-Ended x line room p st)

ended :
    (before text room : Bytes) (cap : ℕ) (p : Progress)
    → 0 < length before + length text
    → Standing (before ++ (text ++ (10 ∷ []))) (0 ∷ room) p
    → length before + length text + 2 + length room ≡ cap
    → Ended ((before ++ text) ++ (10 ∷ [])) cap (end_line p)
ended before text room cap p some_text st size =
    line_end (before ++ text) room cap p (omega (arith, length-append before text))
      (subst (λ l. Standing l (0 ∷ room) p) (sym (append_assoc before text (10 ∷ []))) st)
      (omega (arith, length-append before text))

copied_line :
    (p q : Progress) (c : ℕ) (pending chunk left : Bytes) (line : Line)
    → consume p (c ∷ pending) ≡ returns q
    → has_newline (take (looked_at p.max (c ∷ pending)) (c ∷ pending)) ≡ true
    → through_newline (take (looked_at p.max (c ∷ pending)) (c ∷ pending)) ≡ chunk
    → drop (length chunk) (c ∷ pending) ≡ left
    → end_line q ≡ returns line
    → copy_pending p (c ∷ pending) ≡ returns (some line, q, left)
unfolding copy_pending
copied_line p q c pending chunk left line consumed found through behind closed =
    rw (consumed, found, through, behind, closed) refl

pub copy_pending-inside :
    (before space text left : Bytes) (c : ℕ) (pending : Bytes) (p : Progress)
    → Standing before space p
    → c ∷ pending ≡ text ++ (10 ∷ left)
    → has_newline text ≡ false
    → length text + 1 < length space
    → 0 < length before + length text
    → Found before space text left (copy_pending p (c ∷ pending))
copy_pending-inside before space text left c pending p st e plain fits some_text =
    let n = looked_at p.max (c ∷ pending) in
    let enough : length text < n =
      ground (arith, st.max, ap length e, length-append text (10 ∷ left)) in
    let (more, taken) = take-longer n text left enough in
    let seen : take n (c ∷ pending) ≡ text ++ (10 ∷ more) = ap (take n) e ∙ taken in
    let (through, found) = through_newline-text text more plain in
    let through' : through_newline (take n (c ∷ pending)) ≡ text ++ (10 ∷ []) =
      ap through_newline seen ∙ through in
    let found' : has_newline (take n (c ∷ pending)) ≡ true = ap has_newline seen ∙ found in
    let len = length-append text (10 ∷ []) in
    let q =
      consume-Consumed before space (c ∷ pending) (text ++ (10 ∷ [])) p st through'
        (omega (arith, len)) in
    let behind : drop (length (text ++ (10 ∷ []))) (c ∷ pending) ≡ left =
      ap (λ k. drop k (c ∷ pending)) len
      ∙ ap (drop (length text + 1)) e
      ∙ drop-append text (10 ∷ left) 1 in
    let closed =
      ended before text q.room (length before + length space) q.next some_text q.standing
        (omega (arith, q.left, len)) in
    record {
      line = closed.result;
      next = q.next;
      done =
          copied_line p q.next c pending (text ++ (10 ∷ [])) left closed.result q.done found'
            through' behind closed.done;
      right = closed.right;
    }
