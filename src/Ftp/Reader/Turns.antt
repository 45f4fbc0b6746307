-- ===== src/Ftp/Reader/Turns.antt =====
-- A turn of the loop of `Readline` never runs out of fuel, and takes a byte or ends the loop.
use ps5_ezremote_server.Prelude.{
  ℕ, zero, suc, ◌+◌, ◌-◌, ◌≤◌, ◌<◌, ◌≡◌, refl, ap, ◌∙◌, Bool, true, false, Option, none, some, [],
  ◌∷◌, ◌++◌, length, take, drop, get_elem?, ltb, leb, ◌==◌, if◌then◌else◌, inl, inr, Bool-cases,
  arith, length-append,
}
use ps5_ezremote_server.Outcome.{Outcome, returns, undefined, out_of_fuel, ◌>>=◌}
use ps5_ezremote_server.Words.{Bytes}
use ps5_ezremote_server.Ftp.Reader.{
  poke, through_newline, has_newline, Progress, Line, end_line, looked_at, consume, copy_pending,
  overlong,
}
use ps5_ezremote_server.Ftp.Reader.Lines.{through_newline-none, take-whole, length-drop}
use ps5_ezremote_server.Ftp.Reader.Copies.{drop-all}
use ps5_ezremote_server.Ftp.Reader.Total.{poke_outside}

-- Defined or not, but not out of fuel.
pub data Halts {A : Type 0} : Outcome A → Type 0 where
  halts : (a : A) → Halts (returns a)
  breaks : Halts undefined

pub if-Halts :
    {A : Type 0} (b : Bool) (x y : Outcome A) → Halts x → Halts y → Halts (if b then x else y)
if-Halts true x y h k = h
if-Halts false x y h k = k

poke-Halts : (buf : Bytes) (at : ℕ) (bytes : Bytes) → Halts (poke buf at bytes)
unfolding poke
poke-Halts buf at bytes = if-Halts (leb (at + length bytes) (length buf)) _ _ (halts _) breaks

pub bind-Halts :
    {A B : Type 0} (m : Outcome A) (f : A → Outcome B)
    → Halts m
    → ((a : A) → Halts (f a))
    → Halts (m >>= f)
bind-Halts (returns a) f h more = more a
bind-Halts undefined f h more = breaks
bind-Halts out_of_fuel f h more = elim h [ ]

pub overlong-Halts : (p : Progress) → Halts (overlong p)
unfolding overlong
overlong-Halts p =
    bind-Halts (poke p.buf 0 (0 ∷ [])) _ (poke-Halts p.buf 0 (0 ∷ [])) (λ buf. halts _)

end_line-Halts : (p : Progress) → Halts (end_line p)
unfolding end_line
end_line-Halts p =
    if-Halts (ltb p.at 2) _ _ breaks
      (elim (get_elem? p.buf (p.at - 2))
        as (λ m. Halts (elim m as (λ x. Outcome Line) [
          | none ↦ undefined
          | some c ↦
              if c == 13
              then poke p.buf (p.at - 2) (10 ∷ 0 ∷ [])
                >>= (λ buf. returns (record { count = some (p.retval - 1); buf = buf }))
              else returns (record { count = some p.retval; buf = p.buf })
        ])) [
          | none ↦ breaks
          | some c ↦
              if-Halts (c == 13) _ _
                (bind-Halts (poke p.buf (p.at - 2) (10 ∷ 0 ∷ [])) _
                  (poke-Halts p.buf (p.at - 2) (10 ∷ 0 ∷ [])) (λ buf. halts _))
                (halts _)
        ])

length-take : (n : ℕ) (l : Bytes) → n ≤ length l → length (take n l) ≡ n
length-take zero l h = refl
length-take (suc n) [] h = absurd (omega arith)
length-take (suc n) (x ∷ l) h = omega (arith, length-take n l (omega arith))

length-poke :
    (buf chunk : Bytes) (at : ℕ)
    → at + length chunk ≤ length buf
    → (buf' : Bytes) × (poke buf at chunk ≡ returns buf') × (length buf' ≡ length buf)
unfolding poke
length-poke buf chunk at h =
    let inside : leb (at + length chunk) (length buf) ≡ true = ground arith in
    (
      take at buf ++ (chunk ++ drop (at + length chunk) buf),
      rw inside refl,
      omega (
        arith,
        length-append (take at buf) (chunk ++ drop (at + length chunk) buf),
        length-append chunk (drop (at + length chunk) buf),
        length-take at buf (omega arith),
        length-drop (at + length chunk) buf,
      ),
    )

-- What a turn makes of pending bytes.
pub data Turned (p : Progress) : Outcome (Option Line × Progress × Bytes) → Type 0 where
  broken : Turned p undefined
  lined : (line : Line) (q : Progress) (left : Bytes) → Turned p (returns (some line, q, left))
  filled : (q : Progress) (left : Bytes) → q.max ≡ 1 → Turned p (returns (none, q, left))
  went_on :
      (q : Progress)
      → q.max < p.max
      → 1 ≤ q.max
      → length q.buf ≡ q.at + q.max
      → Turned p (returns (none, q, []))

length-through_newline : (l : Bytes) → length (through_newline l) ≤ length l
unfolding through_newline
length-through_newline [] = omega arith
length-through_newline (c ∷ l) = ground (arith, length-through_newline l)

through_newline-some : (c : ℕ) (l : Bytes) → 0 < length (through_newline (c ∷ l))
unfolding through_newline
through_newline-some c l = ground arith

looked_at-le : (max : ℕ) (pending : Bytes) → looked_at max pending ≤ length pending
looked_at-le max pending = ground arith

line-Turned :
    (p q : Progress) (left : Bytes) (m : Outcome Line)
    → Halts m
    → Turned p (m >>= λ line. returns (some line, q, left))
line-Turned p q left m (halts line) = lined line q left
line-Turned p q left m breaks = broken

-- A turn with pending bytes.
module _ (p : Progress) (c : ℕ) (pending : Bytes) (room : 1 ≤ p.max)
    (size : length p.buf ≡ p.at + p.max) where
  abbrev seen : Bytes
  seen = take (looked_at p.max (c ∷ pending)) (c ∷ pending)

  abbrev left : Bytes
  left = drop (length (through_newline seen)) (c ∷ pending)

  abbrev next : Bytes → Progress
  next buf = record {
    buf = buf;
    at = p.at + length (through_newline seen);
    max = p.max - length (through_newline seen);
    retval = p.retval + length (through_newline seen);
  }

  ended_turn :
      (q : Progress)
      → consume p (c ∷ pending) ≡ returns q
      → has_newline seen ≡ true
      → Turned p (copy_pending p (c ∷ pending))
  unfolding copy_pending
  ended_turn q consumed found =
      rw (consumed, found) (line-Turned p q left (end_line q) (end_line-Halts q))

  plain_turn :
      (q : Progress)
      → consume p (c ∷ pending) ≡ returns q
      → has_newline seen ≡ false
      → Turned p (returns (none, q, left))
      → Turned p (copy_pending p (c ∷ pending))
  unfolding copy_pending
  plain_turn q consumed plain turned = rw (consumed, plain) turned

  broken_turn : consume p (c ∷ pending) ≡ undefined → Turned p (copy_pending p (c ∷ pending))
  unfolding copy_pending
  broken_turn consumed = rw consumed broken

  consumes :
      (buf : Bytes)
      → poke p.buf p.at (through_newline seen ++ (0 ∷ [])) ≡ returns buf
      → consume p (c ∷ pending) ≡ returns (next buf)
  unfolding consume
  consumes buf poked = rw poked refl

  consumes_outside :
      poke p.buf p.at (through_newline seen ++ (0 ∷ [])) ≡ undefined
      → consume p (c ∷ pending) ≡ undefined
  unfolding consume
  consumes_outside poked = rw poked refl

  rest_turn :
      (buf : Bytes)
      → has_newline seen ≡ false
      → length buf ≡ length p.buf
      → length (through_newline seen) + 1 ≤ p.max
      → Turned p (returns (none, next buf, left))
  rest_turn buf plain same inside =
      let chunk : through_newline seen ≡ seen = through_newline-none seen plain in
      elim (Bool-cases (leb (length (c ∷ pending)) p.max)) [
        | inl whole ↦
            let all : looked_at p.max (c ∷ pending) ≡ length (c ∷ pending) =
              ground (arith, whole) in
            let seen_all : seen ≡ c ∷ pending =
              take-whole (looked_at p.max (c ∷ pending)) (c ∷ pending) (omega (arith, all)) in
            let count : length (through_newline seen) ≡ suc (length pending) =
              ap length (chunk ∙ seen_all) in
            let none_left : left ≡ [] =
              ap (λ k. drop k (c ∷ pending)) count ∙ drop-all (c ∷ pending) in
            rw none_left (
              went_on (next buf) (omega (arith, count, room)) (omega (arith, inside))
                (omega (arith, same, size, inside)))
        | inr longer ↦
            let part : looked_at p.max (c ∷ pending) ≡ p.max - 1 = ground (arith, longer) in
            let count : length (through_newline seen) ≡ p.max - 1 =
              ap length chunk
              ∙ length-take (looked_at p.max (c ∷ pending)) (c ∷ pending)
                  (looked_at-le p.max (c ∷ pending))
              ∙ part in
            filled (next buf) left (omega (arith, count, room))
      ]

  pub copy_pending-Turned : Turned p (copy_pending p (c ∷ pending))
  copy_pending-Turned =
      let len = length-append (through_newline seen) (0 ∷ []) in
      elim (Bool-cases (leb (p.at + length (through_newline seen ++ (0 ∷ []))) (length p.buf))) [
        | inr outside ↦ broken_turn (
            consumes_outside (
              poke_outside p.buf (through_newline seen ++ (0 ∷ [])) p.at (ground (arith, outside))))
        | inl inside ↦
            let (buf, poked, same) =
              length-poke p.buf (through_newline seen ++ (0 ∷ [])) p.at (ground (arith, inside)) in
            let consumed = consumes buf poked in
            elim (Bool-cases (has_newline seen)) [
              | inl found ↦ ended_turn (next buf) consumed found
              | inr plain ↦
                  plain_turn (next buf) consumed plain
                    (rest_turn buf plain same (ground (arith, inside, len, size)))
            ]
      ]
