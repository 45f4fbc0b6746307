-- ===== src/Text/Replace.antt =====
-- `ReplaceAll` against the pieces between the occurrences.
use ps5_ezremote_server.Prelude.{
  ℕ, zero, suc, ◌+◌, ◌<◌, ◌≡◌, refl, sym, ap, ◌∙◌, Option, none, some, List, [], ◌∷◌, ◌++◌, length,
  All, take, drop, arith, append_assoc,
}
use ps5_ezremote_server.Outcome.{Outcome, returns}
use ps5_ezremote_server.Words.{Bytes}
use ps5_ezremote_server.Text.{find, starts_with, replace_loop, replace_all}
use ps5_ezremote_server.Text.Find.{Found, find-Found}
use ps5_ezremote_server.Text.Split.{joined, behind-shorter}

-- The text is cut at occurrences of the searched string, and none is left in a piece. The same
-- pieces, with the replacement between them, are what follows `passed` in the result.
pub record Replaces (search replace passed text : Bytes) (m : Outcome Bytes) : Type 0 where
  pub piece : Bytes
  pub pieces : List Bytes
  pub joins : joined search piece pieces ≡ text
  pub apart : All (λ p. find search p ≡ none) (piece ∷ pieces)
  pub done : m ≡ returns (passed ++ joined replace piece pieces)

pub replace_loop-none :
    (fuel : ℕ) (search replace passed rest : Bytes)
    → find search rest ≡ none
    → replace_loop (suc fuel) search replace passed rest ≡ returns (passed ++ rest)
unfolding replace_loop
replace_loop-none fuel search replace passed rest h = ground arith

replace_loop-some :
    (fuel : ℕ) (search replace passed rest : Bytes) (pos : ℕ)
    → find search rest ≡ some pos
    → replace_loop (suc fuel) search replace passed rest
      ≡ replace_loop fuel search replace
          (passed ++ (take pos rest ++ replace))
          (drop (pos + length search) rest)
unfolding replace_loop
replace_loop-some fuel search replace passed rest pos h = ground arith

last_piece-Replaces :
    (search replace passed rest : Bytes)
    → find search rest ≡ none
    → Replaces search replace passed rest (returns (passed ++ rest))
unfolding joined
last_piece-Replaces search replace passed rest h = record {
  piece = rest;
  pieces = [];
  joins = refl;
  apart = (h, tt);
  done = refl;
}

piece-Replaces :
    (x : ℕ) (needle replace passed text : Bytes) (pos : ℕ) (m : Outcome Bytes)
    → Found (x ∷ needle) text pos
    → Replaces
        (x ∷ needle)
        replace
        (passed ++ (take pos text ++ replace))
        (drop (pos + length (x ∷ needle)) text)
        m
    → Replaces (x ∷ needle) replace passed text m
unfolding joined
piece-Replaces x needle replace passed text pos m found rest = record {
  piece = take pos text;
  pieces = rest.piece ∷ rest.pieces;
  joins = ap (λ l. take pos text ++ ((x ∷ needle) ++ l)) rest.joins ∙ sym found.around;
  apart = (found.first, rest.apart);
  done =
      rest.done
      ∙ ap returns (
          append_assoc passed (take pos text ++ replace) (joined replace rest.piece rest.pieces)
          ∙ ap (λ l. passed ++ l)
              (append_assoc (take pos text) replace (joined replace rest.piece rest.pieces)));
}

replace_loop-Replaces :
    (fuel x : ℕ) (needle replace passed text : Bytes)
    → length text < fuel
    → (found : Option ℕ) → find (x ∷ needle) text ≡ found
    → Replaces (x ∷ needle) replace passed text (replace_loop fuel (x ∷ needle) replace passed text)
replace_loop-Replaces zero x needle replace passed text enough found h = absurd (omega arith)
replace_loop-Replaces (suc fuel) x needle replace passed text enough none h =
    rw (replace_loop-none fuel (x ∷ needle) replace passed text h)
      (last_piece-Replaces (x ∷ needle) replace passed text h)
replace_loop-Replaces (suc fuel) x needle replace passed text enough (some pos) h =
    let at = find-Found x needle text pos h in
    rw (replace_loop-some fuel (x ∷ needle) replace passed text pos h) (
      piece-Replaces x needle replace passed text pos _ at (
        replace_loop-Replaces fuel x needle replace (passed ++ (take pos text ++ replace))
          (drop (pos + length (x ∷ needle)) text)
          (omega (arith, behind-shorter x needle text pos at)) _ refl))

-- With a searched string that is not empty, `ReplaceAll` ends, whatever the replacement, even one
-- that has the searched string in it. The text is pieces with the searched string between them and
-- in none of them; the result is the same pieces with the replacement between them.
pub replace_all-Replaces :
    (to_search replace_str text : Bytes)
    → 0 < length to_search
    → Replaces to_search replace_str [] text (replace_all text to_search replace_str)
replace_all-Replaces [] replace_str text h = absurd (omega arith)
replace_all-Replaces (x ∷ to_search) replace_str text h =
    unfold replace_all in
    replace_loop-Replaces (suc (length text)) x to_search replace_str [] text (omega arith) _ refl

find-empty : (text : Bytes) → find [] text ≡ some 0
unfolding find starts_with
find-empty [] = refl
find-empty (y ∷ text) = refl

-- An empty searched string is found wherever the search begins, so that the loop of `ReplaceAll`
-- goes on for ever: no fuel is enough.
pub replace_loop-empty :
    (fuel : ℕ) (replace passed rest : Bytes)
    → replace_loop fuel [] replace passed rest ≡ Outcome.out_of_fuel
replace_loop-empty zero replace passed rest = unfold replace_loop in refl
replace_loop-empty (suc fuel) replace passed rest =
    replace_loop-some fuel [] replace passed rest 0 (find-empty rest)
    ∙ replace_loop-empty fuel replace _ _
