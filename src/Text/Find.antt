-- ===== src/Text/Find.antt =====
-- What `find` finds: the first occurrence.
use ps5_ezremote_server.Prelude.{
  ℕ, suc, ◌+◌, ◌≡◌, refl, ap, subst, ◌∙◌, true, false, Option, none, some, [], ◌∷◌, ◌++◌, length,
  take, drop, Bool-cases, inl, inr, arith,
}
use ps5_ezremote_server.Words.{Bytes}
use ps5_ezremote_server.Text.{starts_with, one_later, find}

pub starts_with-split :
    (needle text : Bytes)
    → starts_with needle text ≡ true
    → text ≡ needle ++ drop (length needle) text
unfolding starts_with
starts_with-split [] text h = refl
starts_with-split (x ∷ needle) [] h = cc
starts_with-split (x ∷ needle) (y ∷ text) h =
    let e : x ≡ y = ground (arith, h) in
    let rest : starts_with needle text ≡ true = ground (arith, h) in
    cc (e, starts_with-split needle text rest)

-- A needle that stands at the start of a longer text.
pub starts_with-append :
    (needle text more : Bytes)
    → starts_with needle text ≡ true
    → starts_with needle (text ++ more) ≡ true
unfolding starts_with
starts_with-append [] text more h = refl
starts_with-append (x ∷ needle) [] more h = cc
starts_with-append (x ∷ needle) (y ∷ text) more h =
    ground (arith, starts_with-append needle text more)

-- The text around the first occurrence, and that there is none before it.
pub record Found (needle text : Bytes) (pos : ℕ) : Type 0 where
  pub around : text ≡ take pos text ++ (needle ++ drop (pos + length needle) text)
  pub first : find needle (take pos text) ≡ none

-- The character at the start belongs to no occurrence.
find-cons :
    (x y : ℕ) (needle text : Bytes)
    → starts_with (x ∷ needle) (y ∷ text) ≡ false
    → find (x ∷ needle) (y ∷ text) ≡ one_later (find (x ∷ needle) text)
unfolding find
find-cons x y needle text h = simp h

none_in_front :
    (x y : ℕ) (needle text : Bytes) (pos : ℕ)
    → starts_with (x ∷ needle) (y ∷ text) ≡ false
    → Found (x ∷ needle) text pos
    → starts_with (x ∷ needle) (y ∷ take pos text) ≡ false
none_in_front x y needle text pos h found =
    elim (Bool-cases (starts_with (x ∷ needle) (y ∷ take pos text))) [
      | inr elsewhere ↦ elsewhere
      | inl here ↦
          let more = (x ∷ needle) ++ drop (pos + length (x ∷ needle)) text in
          let longer = starts_with-append (x ∷ needle) (y ∷ take pos text) more here in
          let same = ap (λ l. starts_with (x ∷ needle) (y ∷ l)) found.around in cc (longer, same, h)
    ]

-- The first occurrence behind the first character.
Found-later :
    (x y : ℕ) (needle text : Bytes) (pos : ℕ) (o : Option ℕ)
    → ((i : ℕ) → o ≡ some i → Found (x ∷ needle) text i)
    → starts_with (x ∷ needle) (y ∷ text) ≡ false
    → find (x ∷ needle) text ≡ o
    → find (x ∷ needle) (y ∷ text) ≡ some pos
    → Found (x ∷ needle) (y ∷ text) pos
Found-later x y needle text pos none later elsewhere e h =
    let n = find-cons x y needle text elsewhere in cc (n, e, h)
Found-later x y needle text pos (some i) later elsewhere e h =
    let n = find-cons x y needle text elsewhere in
    let next : suc i ≡ pos = cc (n, e, h) in
    let found = later i refl in
    let index : suc i + length (x ∷ needle) ≡ suc (i + length (x ∷ needle)) = omega arith in
    subst (Found (x ∷ needle) (y ∷ text)) next (record {
      around = rw index (ap (λ l. y ∷ l) found.around);
      first =
          find-cons x y needle (take i text) (none_in_front x y needle text i elsewhere found)
          ∙ ap one_later found.first;
    })

pub find-Found :
    (x : ℕ) (needle text : Bytes) (pos : ℕ)
    → find (x ∷ needle) text ≡ some pos
    → Found (x ∷ needle) text pos
find-Found x needle [] pos h = unfold find starts_with in cc
find-Found x needle (y ∷ text) pos h = elim (Bool-cases (starts_with (x ∷ needle) (y ∷ text))) [
  | inl here ↦
      let at_start : 0 ≡ pos = unfold find in ground (arith, here, h) in
      let index : 0 + length (x ∷ needle) ≡ length (x ∷ needle) = omega arith in
      subst (Found (x ∷ needle) (y ∷ text)) at_start (record {
        around = rw index (starts_with-split (x ∷ needle) (y ∷ text) here);
        first = unfold find starts_with in refl;
      })
  | inr elsewhere ↦
      Found-later x y needle text pos (find (x ∷ needle) text) (find-Found x needle text) elsewhere
        refl h
]
