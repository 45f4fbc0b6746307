-- ===== src/Transfer/Contract.antt =====
-- What is asked of a protocol library, what a transfer promises, and parts of a file.
use ps5_ezremote_server.Prelude.{
  ℕ, zero, suc, ◌+◌, ◌≤◌, ◌<◌, ◌≡◌, refl, sym, ap, ◌∙◌, ◌⊎◌, true, false, Option, none, some, [],
  ◌∷◌, ◌++◌, length, take, drop, arith, length-append,
}
use ps5_ezremote_server.Outcome.{Outcome, returns}
use ps5_ezremote_server.Words.{Bytes}
use ps5_ezremote_server.Transfer.{Library, Transferred}

-- What a read of at most `n` bytes at a position of a file gives: an error, or the bytes that stand
-- there, none only at the end of the file, with the position behind them.
pub data ReadGives {S : Type 0} (content : Bytes) (At : ℕ → S → Type 0) (n pos : ℕ)
    : Option Bytes × S → Type 0 where
  failed : (s : S) → ReadGives content At n pos (none, s)
  ended : (s : S) → length content ≤ pos → At pos s → ReadGives content At n pos (some [], s)
  gave :
      (b : ℕ) (got : Bytes) (s : S)
      → suc (length got) ≤ n
      → b ∷ got ≡ take (suc (length got)) (drop pos content)
      → At (pos + suc (length got)) s
      → ReadGives content At n pos (some (b ∷ got), s)

-- The library's documented behaviour for a file of this content; `At` says at which position the
-- open file is.
pub record Serves {S : Type 0} (library : Library S) (content : Bytes) (At : ℕ → S → Type 0)
    : Type 0 where
  pub opens : (path : Bytes) (s s' : S) → library.open_file path s ≡ some s' → At 0 s'
  pub seeks :
      (offset pos : ℕ) (s : S)
      → At pos s
      → (library.seek offset s).0 ≡ true
      → At offset (library.seek offset s).1
  pub reads : (n pos : ℕ) (s : S) → 0 < n → At pos s → ReadGives content At n pos (library.read n s)

-- A result, with bytes from the range alone, in order and each once; all of them if it is a
-- success.
pub record Delivers (content : Bytes) (size offset : ℕ) (m : Outcome Transferred) : Type 0 where
  pub result : Transferred
  pub done : m ≡ returns result
  pub part : result.bytes ≡ take (length result.bytes) (drop offset content)
  pub most : length result.bytes ≤ size
  pub all : (result.success ≡ false) ⊎ (length result.bytes ≡ size)

drop-nil : (k : ℕ) → drop {A = ℕ} k [] ≡ []
drop-nil zero = refl
drop-nil (suc k) = refl

take-nil : (k : ℕ) → take {A = ℕ} k [] ≡ []
take-nil zero = refl
take-nil (suc k) = refl

pub drop-drop : (a b : ℕ) (l : Bytes) → drop b (drop a l) ≡ drop (a + b) l
drop-drop zero b l = ap (λ k. drop k l) (omega arith)
drop-drop (suc a) b [] = drop-nil b ∙ sym (drop-nil (suc a + b))
drop-drop (suc a) b (x ∷ l) =
    let e : suc a + b ≡ suc (a + b) = omega arith in rw e (drop-drop a b l)

pub take-add : (a b : ℕ) (l : Bytes) → take (a + b) l ≡ take a l ++ take b (drop a l)
take-add zero b l = ap (λ k. take k l) (omega arith)
take-add (suc a) b [] = take-nil (suc a + b) ∙ sym (take-nil b)
take-add (suc a) b (x ∷ l) =
    let e : suc a + b ≡ suc (a + b) = omega arith in rw e (ap (λ k. x ∷ k) (take-add a b l))

-- What was sent and what is read next, together.
pub longer_part :
    (content sent got : Bytes) (offset : ℕ)
    → sent ≡ take (length sent) (drop offset content)
    → got ≡ take (length got) (drop (offset + length sent) content)
    → sent ++ got ≡ take (length (sent ++ got)) (drop offset content)
longer_part content sent got offset part more =
    let front = ap (λ l. l ++ got) part in
    let next = more ∙ ap (take (length got)) (sym (drop-drop offset (length sent) content)) in
    let back = ap (λ l. take (length sent) (drop offset content) ++ l) next in
    let joined = sym (take-add (length sent) (length got) (drop offset content)) in
    let len = ap (λ k. take k (drop offset content)) (sym (length-append sent got)) in
    front ∙ back ∙ joined ∙ len
