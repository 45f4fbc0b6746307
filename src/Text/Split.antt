-- ===== src/Text/Split.antt =====
-- `Split` against the pieces between the delimiters.
use ps5_ezremote_server.Prelude.{
  ℕ, zero, suc, ◌+◌, ◌<◌, ◌≡◌, refl, sym, ap, ◌∙◌, Option, none, some, List, [], ◌∷◌, ◌++◌, length,
  All, take, drop, arith, append-nil, append_assoc, length-append,
}
use ps5_ezremote_server.Outcome.{Outcome, returns}
use ps5_ezremote_server.Words.{Bytes}
use ps5_ezremote_server.Text.{find, push_token, split_loop, split}
use ps5_ezremote_server.Text.Find.{Found, find-Found}

-- A piece, and others behind it, with the delimiter between any two.
unfoldable pub joined : Bytes → Bytes → List Bytes → Bytes
joined delimiter piece [] = piece
joined delimiter piece (next ∷ pieces) = piece ++ (delimiter ++ joined delimiter next pieces)

unfoldable pub not_empty : List Bytes → List Bytes
not_empty [] = []
not_empty ([] ∷ pieces) = not_empty pieces
not_empty ((x ∷ piece) ∷ pieces) = (x ∷ piece) ∷ not_empty pieces

-- The text is cut at its delimiters, none of which is left in a piece; the tokens are the pieces
-- that are not empty, in their order.
pub record Tokens (delimiter text : Bytes) (tokens : List Bytes) : Type 0 where
  pub piece : Bytes
  pub pieces : List Bytes
  pub joins : joined delimiter piece pieces ≡ text
  pub apart : All (λ p. find delimiter p ≡ none) (piece ∷ pieces)
  pub kept : tokens ≡ not_empty (piece ∷ pieces)

push_token-not_empty :
    (tokens : List Bytes) (piece : Bytes) (pieces : List Bytes)
    → push_token tokens piece ++ not_empty pieces ≡ tokens ++ not_empty (piece ∷ pieces)
unfolding not_empty
push_token-not_empty tokens [] pieces = refl
push_token-not_empty tokens (x ∷ piece) pieces =
    append_assoc tokens ((x ∷ piece) ∷ []) (not_empty pieces)

-- What a call of the loop returns, behind the tokens that it was given.
record Splits (delimiter text : Bytes) (tokens : List Bytes) (m : Outcome (List Bytes))
    : Type 0 where
  more : List Bytes
  done : m ≡ returns (tokens ++ more)
  right : Tokens delimiter text more

last_piece :
    (delimiter text : Bytes) (tokens : List Bytes)
    → find delimiter text ≡ none
    → Splits delimiter text tokens (returns (push_token tokens text))
last_piece delimiter text tokens h = record {
  more = not_empty (text ∷ []);
  done = ap returns (
      sym (append-nil (push_token tokens text))
      ∙ (unfold not_empty in push_token-not_empty tokens text []));
  right = record {
    piece = text;
    pieces = [];
    joins = unfold joined in refl;
    apart = (h, tt);
    kept = refl;
  };
}

module _ (x : ℕ) (needle text : Bytes) (pos : ℕ) (found : Found (x ∷ needle) text pos) where
  abbrev pub behind : Bytes
  behind = drop (pos + length (x ∷ needle)) text

  pub behind-shorter : length behind < length text
  behind-shorter = omega (
    arith,
    ap length found.around,
    length-append (take pos text) ((x ∷ needle) ++ behind),
    length-append (x ∷ needle) behind,
  )

  joins :
      {tokens : List Bytes} {m : Outcome (List Bytes)} (rest : Splits (x ∷ needle) behind tokens m)
      → joined (x ∷ needle) (take pos text) (rest.right.piece ∷ rest.right.pieces) ≡ text
  unfolding joined
  joins rest = ap (λ l. take pos text ++ ((x ∷ needle) ++ l)) rest.right.joins ∙ sym found.around

  one_piece :
      (tokens : List Bytes) (m : Outcome (List Bytes))
      → Splits (x ∷ needle) behind (push_token tokens (take pos text)) m
      → Splits (x ∷ needle) text tokens m
  one_piece tokens m rest = record {
    more = not_empty (take pos text ∷ rest.right.piece ∷ rest.right.pieces);
    done =
        rest.done
        ∙ ap (λ l. returns (push_token tokens (take pos text) ++ l)) rest.right.kept
        ∙ ap returns
            (push_token-not_empty tokens (take pos text) (rest.right.piece ∷ rest.right.pieces));
    right = record {
      piece = take pos text;
      pieces = rest.right.piece ∷ rest.right.pieces;
      joins = joins rest;
      apart = (found.first, rest.right.apart);
      kept = refl;
    };
  }

split_loop-none :
    (fuel : ℕ) (delimiter text : Bytes) (tokens : List Bytes)
    → find delimiter text ≡ none
    → split_loop (suc fuel) delimiter text tokens ≡ returns (push_token tokens text)
unfolding split_loop
split_loop-none fuel delimiter text tokens h = ground arith

split_loop-some :
    (fuel : ℕ) (delimiter text : Bytes) (tokens : List Bytes) (pos : ℕ)
    → find delimiter text ≡ some pos
    → split_loop (suc fuel) delimiter text tokens
      ≡ split_loop fuel delimiter
          (drop (pos + length delimiter) text)
          (push_token tokens (take pos text))
unfolding split_loop
split_loop-some fuel delimiter text tokens pos h = ground arith

split_loop-Splits :
    (fuel x : ℕ) (needle text : Bytes) (tokens : List Bytes)
    → length text < fuel
    → (found : Option ℕ) → find (x ∷ needle) text ≡ found
    → Splits (x ∷ needle) text tokens (split_loop fuel (x ∷ needle) text tokens)
split_loop-Splits zero x needle text tokens enough found h = absurd (omega arith)
split_loop-Splits (suc fuel) x needle text tokens enough none h =
    rw (split_loop-none fuel (x ∷ needle) text tokens h) (last_piece (x ∷ needle) text tokens h)
split_loop-Splits (suc fuel) x needle text tokens enough (some pos) h =
    let at = find-Found x needle text pos h in
    rw (split_loop-some fuel (x ∷ needle) text tokens pos h) (
      one_piece x needle text pos at tokens _ (
        split_loop-Splits fuel x needle (drop (pos + length (x ∷ needle)) text)
          (push_token tokens (take pos text)) (omega (arith, behind-shorter x needle text pos at)) _
          refl))

-- What `Split` returns.
pub record SplitsInto (delimiter text : Bytes) (m : Outcome (List Bytes)) : Type 0 where
  pub tokens : List Bytes
  pub done : m ≡ returns tokens
  pub right : Tokens delimiter text tokens

-- With a delimiter that is not empty, `Split` ends, and its tokens are those of `Tokens`: the
-- pieces between the delimiters that are not empty, in their order.
pub split-SplitsInto :
    (delimiter str : Bytes) → 0 < length delimiter → SplitsInto delimiter str (split str delimiter)
split-SplitsInto [] str h = absurd (omega arith)
split-SplitsInto (x ∷ delimiter) str h =
    let all = split_loop-Splits (suc (length str)) x delimiter str [] (omega arith) _ refl in
    unfold split in record { tokens = all.more; done = all.done; right = all.right }
