-- ===== src/Ftp/Reader/Lines.antt =====
-- Parts of a line: the copy of a chunk into the buffer, and the end of the line.
use ps5_ezremote_server.Prelude.{
  ℕ, zero, suc, ◌+◌, ◌-◌, ◌≤◌, ◌<◌, ◌≡◌, refl, sym, ap, ◌∙◌, Bool, true, false, ◌&&◌, some, [], ◌∷◌,
  ◌++◌, length, take, drop, get_elem?, ltb, leb, ◌==◌, if◌then◌else◌, inl, inr, Bool-cases, arith,
  append_assoc, length-append, get_elem?-append,
}
use ps5_ezremote_server.Outcome.{Outcome, returns}
use ps5_ezremote_server.Words.{Bytes}
use ps5_ezremote_server.Ftp.Reader.{
  poke, through_newline, has_newline, Progress, Line, end_line, looked_at, consume,
}

-- The line without a return before its line feed.
unfoldable pub is_line_feed : Bytes → Bool
is_line_feed (c ∷ []) = c == 10
is_line_feed _ = false

unfoldable pub chomp : Bytes → Bytes
chomp [] = []
chomp (c ∷ line) = let rest = chomp line in if c == 13 && is_line_feed line then line else c ∷ rest

take-append : (xs ys : Bytes) → take (length xs) (xs ++ ys) ≡ xs
take-append [] ys = refl
take-append (x ∷ xs) ys = ap (λ l. x ∷ l) (take-append xs ys)

pub drop-append : (xs ys : Bytes) (n : ℕ) → drop (length xs + n) (xs ++ ys) ≡ drop n ys
drop-append [] ys n = ap (λ k. drop k ys) (omega arith)
drop-append (x ∷ xs) ys n =
    let e : suc (length xs) + n ≡ suc (length xs + n) = omega arith in rw e (drop-append xs ys n)

pub poke_behind :
    (before space chunk : Bytes)
    → length chunk ≤ length space
    → poke (before ++ space) (length before) chunk
      ≡ returns (before ++ (chunk ++ drop (length chunk) space))
poke_behind before space chunk h =
    let fits : leb (length before + length chunk) (length (before ++ space)) ≡ true =
      ground (arith, length-append before space) in
    unfold poke in rw (fits, take-append before space, drop-append before space (length chunk)) refl

pub length-drop : (n : ℕ) (l : Bytes) → length (drop n l) ≡ length l - n
length-drop zero l = omega arith
length-drop (suc n) [] = omega arith
length-drop (suc n) (x ∷ l) = omega (arith, length-drop n l)

-- Where the loop stands: what it has copied, and the rest of the buffer.
pub record Standing (before space : Bytes) (p : Progress) : Type 0 where
  pub buf : p.buf ≡ before ++ space
  pub at : p.at ≡ length before
  pub max : p.max ≡ length space
  pub retval : p.retval ≡ length before

pub record Consumed (before space chunk : Bytes) (m : Outcome Progress) : Type 0 where
  pub next : Progress
  pub done : m ≡ returns next
  pub room : Bytes
  pub standing : Standing (before ++ chunk) (0 ∷ room) next
  pub left : suc (length room) + length chunk ≡ length space

-- The bytes up to a line feed, or to the end of the chunk, are copied if a byte is left behind
-- them.
pub consume-Consumed :
    (before space pending chunk : Bytes) (p : Progress)
    → Standing before space p
    → through_newline (take (looked_at p.max pending) pending) ≡ chunk
    → length chunk < length space
    → Consumed before space chunk (consume p pending)
consume-Consumed before space pending chunk p st seen fits =
    let len = length-append chunk (0 ∷ []) in
    let poked = poke_behind before space (chunk ++ (0 ∷ [])) (omega (arith, len)) in
    record {
      next = record {
        buf = before ++ ((chunk ++ (0 ∷ [])) ++ drop (length (chunk ++ (0 ∷ []))) space);
        at = p.at + length chunk;
        max = p.max - length chunk;
        retval = p.retval + length chunk;
      };
      done = unfold consume in rw (seen, st.buf, st.at, poked) refl;
      room = drop (length (chunk ++ (0 ∷ []))) space;
      standing = record {
        buf =
            ap (λ l. before ++ l)
              (append_assoc chunk (0 ∷ []) (drop (length (chunk ++ (0 ∷ []))) space))
            ∙ sym (append_assoc before chunk (0 ∷ drop (length (chunk ++ (0 ∷ []))) space));
        at = omega (arith, st.at, length-append before chunk);
        max = omega (arith, st.max, len, length-drop (length (chunk ++ (0 ∷ []))) space);
        retval = omega (arith, st.retval, length-append before chunk);
      };
      left = omega (arith, len, length-drop (length (chunk ++ (0 ∷ []))) space);
    }

-- A chunk without a line feed, and one with its first behind `text`.
pub through_newline-none :
    (chunk : Bytes) → has_newline chunk ≡ false → through_newline chunk ≡ chunk
unfolding through_newline has_newline
through_newline-none [] h = refl
through_newline-none (c ∷ chunk) h = ground (arith, through_newline-none chunk)

pub through_newline-text :
    (text more : Bytes)
    → has_newline text ≡ false
    → (through_newline (text ++ (10 ∷ more)) ≡ text ++ (10 ∷ []))
      × (has_newline (text ++ (10 ∷ more)) ≡ true)
unfolding through_newline has_newline
through_newline-text [] more h = (refl, refl)
through_newline-text (c ∷ text) more h = ground (arith, through_newline-text text more)

pub take-longer :
    (n : ℕ) (text more : Bytes)
    → length text < n
    → (more' : Bytes) × (take n (text ++ (10 ∷ more)) ≡ text ++ (10 ∷ more'))
take-longer zero text more h = absurd (omega arith)
take-longer (suc n) [] more h = (take n more, refl)
take-longer (suc n) (c ∷ text) more h =
    let (more', e) = take-longer n text more (omega arith) in (more', ap (λ l. c ∷ l) e)

pub take-whole : (n : ℕ) (l : Bytes) → length l ≤ n → take n l ≡ l
take-whole zero [] h = refl
take-whole zero (x ∷ l) h = absurd (omega arith)
take-whole (suc n) [] h = refl
take-whole (suc n) (x ∷ l) h = ap (λ t. x ∷ t) (take-whole n l (omega arith))

two_more : (init : Bytes) (c d y : ℕ) → is_line_feed (y ∷ (init ++ (c ∷ d ∷ []))) ≡ false
unfolding is_line_feed
two_more [] c d y = refl
two_more (x ∷ init) c d y = refl

chomp-append : (init : Bytes) (c d : ℕ) → chomp (init ++ (c ∷ d ∷ [])) ≡ init ++ chomp (c ∷ d ∷ [])
unfolding chomp
chomp-append [] c d = refl
chomp-append (x ∷ []) c d = unfold is_line_feed in ground arith
chomp-append (x ∷ y ∷ init) c d =
    let kept = two_more init c d y in ground (arith, kept, chomp-append (y ∷ init) c d)

-- The buffer holds a string, with its end.
pub record Holds (buf text : Bytes) : Type 0 where
  pub behind : Bytes
  pub string : buf ≡ text ++ (0 ∷ behind)

-- What `Readline` gives for a line.
pub record IsLine (line : Bytes) (cap : ℕ) (l : Line) : Type 0 where
  pub count : l.count ≡ some (length (chomp line))
  pub holds : Holds l.buf (chomp line)
  pub size : length l.buf ≡ cap

pub record Ended (line : Bytes) (cap : ℕ) (m : Outcome Line) : Type 0 where
  pub result : Line
  pub done : m ≡ returns result
  pub right : IsLine line cap result

last_two : (c : ℕ) (text : Bytes) → (init : Bytes) × (d : ℕ) × (c ∷ text ≡ init ++ (d ∷ []))
last_two c [] = ([], c, refl)
last_two c (x ∷ text) = let (init, d, e) = last_two x text in (c ∷ init, d, ap (λ l. c ∷ l) e)

chomp-return : (init : Bytes) → chomp (init ++ (13 ∷ 10 ∷ [])) ≡ init ++ (10 ∷ [])
chomp-return init = chomp-append init 13 10 ∙ (unfold chomp is_line_feed in refl)

chomp-other :
    (init : Bytes) (c : ℕ)
    → (c == 13) ≡ false
    → chomp (init ++ (c ∷ 10 ∷ [])) ≡ init ++ (c ∷ 10 ∷ [])
chomp-other init c other =
    chomp-append init c 10
    ∙ ap (λ l. init ++ l) (unfold chomp is_line_feed in ground (arith, other))

-- A line of two bytes or more that stands at the start of the buffer is ended well.
module _ (init room : Bytes) (c : ℕ) (p : Progress)
    (st : Standing (init ++ (c ∷ 10 ∷ [])) (0 ∷ room) p) where
  at_last : p.at ≡ length init + 2
  at_last = omega (arith, st.at, length-append init (c ∷ 10 ∷ []))

  whole : p.buf ≡ init ++ (c ∷ 10 ∷ 0 ∷ room)
  whole = st.buf ∙ append_assoc init (c ∷ 10 ∷ []) (0 ∷ room)

  long_enough : ltb p.at 2 ≡ false
  long_enough = ground (arith, at_last)

  back_two : p.at - 2 ≡ length init
  back_two = omega (arith, at_last)

  read_back : get_elem? p.buf (p.at - 2) ≡ some c
  read_back =
      ap (λ i. get_elem? p.buf i) (back_two ∙ omega arith)
      ∙ ap (λ l. get_elem? l (length init + 0)) whole
      ∙ get_elem?-append init (c ∷ 10 ∷ 0 ∷ room) 0

  poked : poke p.buf (p.at - 2) (10 ∷ 0 ∷ []) ≡ returns (init ++ (10 ∷ 0 ∷ 0 ∷ room))
  poked =
      ap (λ i. poke p.buf i (10 ∷ 0 ∷ [])) back_two
      ∙ ap (λ l. poke l (length init) (10 ∷ 0 ∷ [])) whole
      ∙ poke_behind init (c ∷ 10 ∷ 0 ∷ room) (10 ∷ 0 ∷ []) (omega arith)

  end_line-return :
      (c ≡ 13) → Ended (init ++ (c ∷ 10 ∷ [])) (length init + 3 + length room) (end_line p)
  end_line-return e = record {
    result = record { count = some (p.retval - 1); buf = init ++ (10 ∷ 0 ∷ 0 ∷ room) };
    done =
        let is_return : (c == 13) ≡ true = ground (arith, e) in
        unfold end_line in rw (long_enough, read_back, is_return, poked) refl;
    right = rw e (record {
      count = ap some (
          omega (
            arith,
            ap length (chomp-return init),
            length-append init (10 ∷ []),
            st.retval,
            st.at,
            at_last,
          ));
      holds = record {
        behind = 0 ∷ room;
        string = rw (chomp-return init) (sym (append_assoc init (10 ∷ []) (0 ∷ 0 ∷ room)));
      };
      size = omega (arith, length-append init (10 ∷ 0 ∷ 0 ∷ room));
    });
  }

  end_line-other :
      (c == 13) ≡ false → Ended (init ++ (c ∷ 10 ∷ [])) (length init + 3 + length room) (end_line p)
  end_line-other other = record {
    result = record { count = some p.retval; buf = p.buf };
    done = unfold end_line in rw (long_enough, read_back, other) refl;
    right = record {
      count = ap some (
          omega (
            arith,
            ap length (chomp-other init c other),
            length-append init (c ∷ 10 ∷ []),
            st.retval,
            st.at,
            at_last,
          ));
      holds = record { behind = room; string = rw (chomp-other init c other) st.buf };
      size = omega (arith, ap length whole, length-append init (c ∷ 10 ∷ 0 ∷ room));
    };
  }

pub end_line-Ended :
    (x : ℕ) (text room : Bytes) (p : Progress)
    → Standing ((x ∷ text) ++ (10 ∷ [])) (0 ∷ room) p
    → Ended ((x ∷ text) ++ (10 ∷ [])) (length text + 3 + length room) (end_line p)
end_line-Ended x text room p st =
    let (init, c, e) = last_two x text in
    let line : (x ∷ text) ++ (10 ∷ []) ≡ init ++ (c ∷ 10 ∷ []) =
      ap (λ l. l ++ (10 ∷ [])) e ∙ append_assoc init (c ∷ []) (10 ∷ []) in
    let len : length text + 3 + length room ≡ length init + 3 + length room =
      omega (arith, ap length e, length-append init (c ∷ [])) in
    let st' = rw line at st in
    rw (line, len)
      (elim (Bool-cases (c == 13)) [
        | inl is_return ↦ end_line-return init room c p st' (ground (arith, is_return))
        | inr other ↦ end_line-other init room c p st' other
      ])
