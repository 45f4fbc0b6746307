-- ===== src/Words.antt =====
-- Bytes and 64-bit sizes as the code computes them, and checks over a whole small range.
use ps5_ezremote_server.Prelude.{
  ◌≤◌, inl, inr, Bool-cases, ap, sym, ◌∙◌, ◌↔◌, ◌++◌, ◌==◌, ltb, false, ℕ, zero, suc, ◌+◌, ◌-◌, ◌/◌,
  ◌%◌, ◌^◌, ◌<◌, ◌≡◌, Bool, true, ◌&&◌, List, [], ◌∷◌, String, All, arith,
}
use Prim.Native.Char.{code}

abbrev pub Bytes : Type 0
Bytes = List ℕ

abbrev pub IsByte : ℕ → Type 0
IsByte b = b < 256

abbrev pub AreBytes : Bytes → Type 0
AreBytes = All IsByte

-- The bytes of an ASCII literal.
abbrev pub codes : String → Bytes
codes String.[] = []
codes (String.◌∷◌ c s) = code c ∷ codes s

-- `size_t` sums and differences.
abbrev pub add64 : ℕ → ℕ → ℕ
add64 a b = (a + b) % 2 ^ 64

abbrev pub sub64 : ℕ → ℕ → ℕ
sub64 a b = (a + 2 ^ 64 - b) % 2 ^ 64

-- x >> k, and x & (2^k - 1).
abbrev pub shr : ℕ → ℕ → ℕ
shr x k = x / 2 ^ k

abbrev pub low_bits : ℕ → ℕ → ℕ
low_bits x k = x % 2 ^ k

-- A test passes on each of `count` numbers, from `first` on.
unfoldable pub passes_from : ℕ → ℕ → (ℕ → Bool) → Bool
passes_from first zero test = true
passes_from first (suc count) test = test first && passes_from (first + 1) count test

pub passes_from_at :
    (count first : ℕ) (test : ℕ → Bool)
    → passes_from first count test ≡ true
    → (x : ℕ) → first ≤ x
    → x < first + count
    → test x ≡ true
unfolding passes_from
passes_from_at zero first test passed x from below = absurd (omega arith)
passes_from_at (suc count) first test passed x from below = elim (Bool-cases (first == x)) [
  | inl here ↦
      let e : first ≡ x = ground (arith, here) in
      let now : test first ≡ true = ground arith in ap test (sym e) ∙ now
  | inr elsewhere ↦
      passes_from_at count (first + 1) test (ground arith) x (ground (arith, elsewhere))
        (omega arith)
]

-- `==` of strings.
unfoldable pub same : Bytes → Bytes → Bool
same [] [] = true
same (x ∷ xs) (y ∷ ys) = x == y && same xs ys
same _ _ = false

pub same_iff : (a b : Bytes) → (same a b ≡ true) ↔ (a ≡ b)
unfolding same
same_iff (x ∷ a) (y ∷ b) = ground (arith, same_iff a b)
same_iff _ _ = ground arith

-- `std::to_string` of a number; the fuel bounds the digits.
unfoldable pub digits : ℕ → ℕ → Bytes
digits zero n = []
digits (suc fuel) n = elim (ltb n 10) [
  | true ↦ (b'0' + n) ∷ []
  | false ↦ digits fuel (n / 10) ++ ((b'0' + n % 10) ∷ [])
]

unfoldable pub to_string : ℕ → Bytes
unfolding digits
to_string n = digits (suc n) n
