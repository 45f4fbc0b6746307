-- ===== src/Text/Escape.antt =====
-- `append_json_escaped` against the reading of JSON strings.
use ps5_ezremote_server.Prelude.{
  ℕ, ◌+◌, ◌<◌, ◌≡◌, ◌⊎◌, refl, sym, ap, ◌∙◌, Bool, true, false, not, ◌&&◌, ◌||◌, All, ◌≤◌, Option,
  none, some, [], ◌∷◌, ◌++◌, length, ltb, leb, ◌==◌, if◌then◌else◌, inl, inr, arith, if-elim,
  append-nil, append_assoc, length-append,
}
use ps5_ezremote_server.Words.{Bytes}
use ps5_ezremote_server.Text.{json_escape, escape_loop, append_json_escaped}

-- The bytes of a string, escaped one by one.
unfoldable pub escaped : Bytes → Bytes
escaped [] = []
escaped (c ∷ src) = json_escape c ++ escaped src

-- The escapes of RFC 8259 that are two characters, `\c`.
unfoldable pub unescape_pair : ℕ → Option ℕ
unescape_pair c =
    if c == b'\\'
    then some b'\\'
    else if c == b'"'
    then some b'"'
    else if c == b'/'
    then some b'/'
    else if c == b'b'
    then some 8
    else if c == b'f'
    then some 12
    else if c == b'n'
    then some 10
    else if c == b'r'
    then some 13
    else if c == b't'
    then some 9
    else none

abbrev put_front : Option ℕ → Option Bytes → Option Bytes
put_front (some c) (some rest) = some (c ∷ rest)
put_front _ _ = none

-- Not a quote, not a backslash and not a control character: what RFC 8259 lets stand unescaped.
abbrev pub is_unescaped : ℕ → Bool
is_unescaped c = leb 32 c && not (c == b'"') && not (c == b'\\')

-- A reader of the inside of a JSON string, byte by byte, by the grammar of RFC 8259; `\u` alone,
-- which is not written here, it refuses as well. Whether the bytes from 128 on are UTF-8 is not
-- looked at.
unfoldable pub unescape : Bytes → Option Bytes
unescape [] = some []
unescape (c ∷ []) = if is_unescaped c then some (c ∷ []) else none
unescape (c ∷ d ∷ rest) =
    let pair = put_front (unescape_pair d) (unescape rest) in
    let single = put_front (some c) (unescape (d ∷ rest)) in
    if is_unescaped c then single else if c == b'\\' then pair else none

-- No control character but a tab, a line feed and a return.
abbrev pub IsText : ℕ → Type 0
IsText c = (leb 32 c || c == 9 || c == 10 || c == 13) ≡ true

-- Either a backslash and a character that a reader takes for this one, or the character itself.
abbrev Escapes : ℕ → Bytes → Type 0
Escapes c l =
    ((d : ℕ) × (l ≡ b'\\' ∷ d ∷ []) × (unescape_pair d ≡ some c))
    ⊎ ((l ≡ c ∷ []) × (is_unescaped c ≡ true))

json_escape-Escapes : (c : ℕ) → IsText c → Escapes c (json_escape c)
unfolding json_escape unescape_pair
json_escape-Escapes c text =
    if-elim (Escapes c) (c == b'\\') _ _ (λ h. inl (b'\\', refl, ap some (ground (arith, h))))
      (λ no_backslash.
        if-elim (Escapes c) (c == b'"') _ _ (λ h. inl (b'"', refl, ap some (ground (arith, h))))
          (λ no_quote.
            if-elim (Escapes c) (c == 10) _ _ (λ h. inl (b'n', refl, ap some (ground (arith, h))))
              (λ no_feed.
                if-elim (Escapes c) (c == 13) _ _
                  (λ h. inl (b'r', refl, ap some (ground (arith, h))))
                  (λ no_return.
                    if-elim (Escapes c) (c == 9) _ _
                      (λ h. inl (b't', refl, ap some (ground (arith, h))))
                      (λ no_tab. inr (
                        refl,
                        ground (arith, text, no_backslash, no_quote, no_feed, no_return, no_tab),
                      ))))))

unescape-plain :
    (c : ℕ) (rest : Bytes)
    → is_unescaped c ≡ true
    → unescape (c ∷ rest) ≡ put_front (some c) (unescape rest)
unfolding unescape
unescape-plain c [] plain = simp plain
unescape-plain c (d ∷ rest) plain = simp plain

unescape-Escapes :
    (c : ℕ) (l rest read : Bytes)
    → Escapes c l
    → unescape rest ≡ some read
    → unescape (l ++ rest) ≡ some (c ∷ read)
unescape-Escapes c l rest read (inl (d, e, pair)) h = rw e (unfold unescape in rw (pair, h) refl)
unescape-Escapes c l rest read (inr (e, plain)) h =
    rw e (unescape-plain c rest plain ∙ ap (put_front (some c)) h)

pub unescape-escaped : (src : Bytes) → All IsText src → unescape (escaped src) ≡ some src
unfolding escaped
unescape-escaped [] text = unfold unescape in refl
unescape-escaped (c ∷ src) (here, text) =
    unescape-Escapes c (json_escape c) (escaped src) src (json_escape-Escapes c here)
      (unescape-escaped src text)

-- The next character, escaped, would reach the buffer's last byte.
abbrev pub NoRoom : ℕ → Bytes → Bytes → Type 0
NoRoom dst_size result [] = Unit
NoRoom dst_size result (c ∷ dropped) = dst_size ≤ length result + length (json_escape c)

-- What is written of a message: all of it, or a beginning of it whose next character has no room.
pub record Written (dst : Bytes) (dst_size : ℕ) (src result : Bytes) : Type 0 where
  pub shown : Bytes
  pub dropped : Bytes
  pub whole : shown ++ dropped ≡ src
  pub appended : result ≡ dst ++ escaped shown
  pub fits : length result < dst_size
  pub longest : NoRoom dst_size result dropped
  pub reads_back : unescape (escaped shown) ≡ some shown

length-Escapes : (c : ℕ) (l : Bytes) → Escapes c l → 0 < length l
length-Escapes c l (inl (d, e, pair)) = rw e (omega arith)
length-Escapes c l (inr (e, _)) = rw e (omega arith)

nothing_shown :
    (dst : Bytes) (dst_size : ℕ) (src : Bytes)
    → length dst < dst_size
    → NoRoom dst_size dst src
    → Written dst dst_size src dst
nothing_shown dst dst_size src room full = record {
  shown = [];
  dropped = src;
  whole = refl;
  appended = unfold escaped in sym (append-nil dst);
  fits = room;
  longest = full;
  reads_back = unescape-escaped [] tt;
}

one_more :
    (dst_size c : ℕ) (dst src result : Bytes)
    → IsText c
    → Written (dst ++ json_escape c) dst_size src result
    → Written dst dst_size (c ∷ src) result
one_more dst_size c dst src result text w = record {
  shown = c ∷ w.shown;
  dropped = w.dropped;
  whole = ap (λ l. c ∷ l) w.whole;
  appended = unfold escaped in w.appended ∙ append_assoc dst (json_escape c) (escaped w.shown);
  fits = w.fits;
  longest = w.longest;
  reads_back =
      unfold escaped in
      unescape-Escapes c (json_escape c) (escaped w.shown) w.shown (json_escape-Escapes c text)
        w.reads_back;
}

escape_loop-Written :
    (dst_size : ℕ) (dst src : Bytes)
    → All IsText src
    → length dst < dst_size
    → Written dst dst_size src (escape_loop dst_size dst src)
unfolding escape_loop
escape_loop-Written dst_size dst [] text room = nothing_shown dst dst_size [] room tt
escape_loop-Written dst_size dst (c ∷ src) (here, text) room =
    let some_byte = length-Escapes c (json_escape c) (json_escape-Escapes c here) in
    if-elim (Written dst dst_size (c ∷ src)) (ltb (length dst + 1) dst_size) _ _
      (λ _.
        if-elim (Written dst dst_size (c ∷ src))
          (leb dst_size (length dst + length (json_escape c))) _ _
          (λ h. nothing_shown dst dst_size (c ∷ src) room (ground (arith, h)))
          (λ h. one_more dst_size c dst src _ here (
            escape_loop-Written dst_size (dst ++ json_escape c) src text
              (ground (arith, h, length-append dst (json_escape c))))))
      (λ h. nothing_shown dst dst_size (c ∷ src) room (ground (arith, h, some_byte)))

-- Into a buffer whose string ends inside of it, and of a message without control characters other
-- than tabs, line feeds and returns, `append_json_escaped` writes a beginning, escaped: never a
-- part of an escape, never as far as the buffer's last byte, which the string's end needs, and no
-- less than that, since the next character, if there is one, would reach that byte. A strict reader
-- of JSON strings gives that beginning back.
pub append_json_escaped-Written :
    (dst : Bytes) (dst_size : ℕ) (src : Bytes)
    → All IsText src
    → length dst < dst_size
    → Written dst dst_size src (append_json_escaped dst dst_size src)
append_json_escaped-Written dst dst_size src text room =
    let inside : leb dst_size (length dst) ≡ false = ground arith in
    unfold append_json_escaped in rw inside (escape_loop-Written dst_size dst src text room)

escape_loop-all :
    (dst_size : ℕ) (dst src : Bytes)
    → All IsText src
    → length dst + length (escaped src) < dst_size
    → escape_loop dst_size dst src ≡ dst ++ escaped src
unfolding escape_loop escaped
escape_loop-all dst_size dst [] text room = sym (append-nil dst)
escape_loop-all dst_size dst (c ∷ src) (here, text) room =
    let total = length-append (json_escape c) (escaped src) in
    let longer = length-append dst (json_escape c) in
    let some_byte : 0 < length (json_escape c) =
      length-Escapes c (json_escape c) (json_escape-Escapes c here) in
    let goes_on : ltb (length dst + 1) dst_size ≡ true = ground (arith, total, some_byte) in
    let has_room : leb dst_size (length dst + length (json_escape c)) ≡ false =
      ground (arith, total) in
    let rest =
      escape_loop-all dst_size (dst ++ json_escape c) src text (omega (arith, total, longer)) in
    rw (goes_on, has_room) (rest ∙ append_assoc dst (json_escape c) (escaped src))

-- A message without control characters other than tabs, line feeds and returns that fits, escaped,
-- before the buffer's last byte is written whole, and a strict reader of JSON strings gives it
-- back.
pub append_json_escaped-whole :
    (dst : Bytes) (dst_size : ℕ) (src : Bytes)
    → All IsText src
    → length dst + length (escaped src) < dst_size
    → (append_json_escaped dst dst_size src ≡ dst ++ escaped src)
      × (unescape (escaped src) ≡ some src)
append_json_escaped-whole dst dst_size src text room =
    let inside : leb dst_size (length dst) ≡ false = ground arith in
    (
      unfold append_json_escaped in rw inside (escape_loop-all dst_size dst src text room),
      unescape-escaped src text,
    )
