-- ===== src/Pool/Counts.antt =====
-- How often a client stands in a list, in a vector and in the whole pool.
use mathlib.Core.List.{reverse, reverse-cons}
use ps5_ezremote_server.Prelude.{
  ℕ, ◌+◌, ◌≤◌, ◌⊎◌, inl, ◌≡◌, refl, List, [], ◌∷◌, ◌++◌, ◌==◌, if◌then◌else◌, arith,
}
use ps5_ezremote_server.Words.{Bytes, same, same_iff}
use ps5_ezremote_server.Pool.{Idle, bucket_of, set_bucket, put_back, all_idle}

pub occurs : ℕ → List ℕ → ℕ
occurs c [] = 0
occurs c (d ∷ l) = (if c == d then 1 else 0) + occurs c l

pub occurs-cons : (c d : ℕ) (l : List ℕ) → occurs c (d ∷ l) ≡ (if c == d then 1 else 0) + occurs c l
unfolding occurs
occurs-cons c d l = refl

pub occurs-nil : (c : ℕ) → occurs c [] ≡ 0
unfolding occurs
occurs-nil c = refl

pub occurs-append : (c : ℕ) (l m : List ℕ) → occurs c (l ++ m) ≡ occurs c l + occurs c m
unfolding occurs
occurs-append c [] m = omega arith
occurs-append c (d ∷ l) m = omega (arith, occurs-append c l m)

pub occurs-snoc :
    (c d : ℕ) (l : List ℕ) → occurs c (l ++ (d ∷ [])) ≡ (if c == d then 1 else 0) + occurs c l
occurs-snoc c d l = omega (arith, occurs-append c l (d ∷ []), occurs-cons c d [], occurs-nil c)

pub occurs-reverse : (c : ℕ) (l : List ℕ) → occurs c (reverse l) ≡ occurs c l
occurs-reverse c [] = refl
occurs-reverse c (d ∷ l) =
    rw reverse-cons
      (omega (arith, occurs-snoc c d (reverse l), occurs-reverse c l, occurs-cons c d l))

pub occurs-bucket_of-le :
    (c : ℕ) (k : Bytes) (idle : Idle) → occurs c (bucket_of k idle) ≤ occurs c (all_idle idle)
unfolding bucket_of all_idle
occurs-bucket_of-le c k [] = omega arith
occurs-bucket_of-le c k ((j, clients) ∷ idle) = ground (
  arith,
  occurs-append c (reverse clients) (all_idle idle),
  occurs-reverse c clients,
  occurs-bucket_of-le c k idle,
)

-- What a vector loses or gains is what the pool loses or gains.
pub occurs-put_back :
    (c : ℕ) (k : Bytes) (clients : List ℕ) (idle : Idle)
    → occurs c clients ≤ occurs c (bucket_of k idle)
    → occurs c (all_idle (put_back k clients idle)) + occurs c (bucket_of k idle)
      ≡ occurs c (all_idle idle) + occurs c clients
unfolding bucket_of all_idle put_back occurs
occurs-put_back c k clients [] h = omega arith
occurs-put_back c k clients ((j, old) ∷ idle) h = ground (
  arith,
  occurs-append c (reverse old) (all_idle idle),
  occurs-append c (reverse clients) (all_idle idle),
  occurs-append c (reverse old) (all_idle (put_back k clients idle)),
  occurs-reverse c old,
  occurs-reverse c clients,
  occurs-put_back c k clients idle,
)

pub occurs-set_bucket :
    (c : ℕ) (k : Bytes) (clients : List ℕ) (idle : Idle)
    → occurs c (all_idle (set_bucket k clients idle)) + occurs c (bucket_of k idle)
      ≡ occurs c (all_idle idle) + occurs c clients
unfolding bucket_of all_idle set_bucket occurs
occurs-set_bucket c k clients [] =
    omega (arith, occurs-append c (reverse clients) [], occurs-reverse c clients)
occurs-set_bucket c k clients ((j, old) ∷ idle) = ground (
  arith,
  occurs-append c (reverse old) (all_idle idle),
  occurs-append c (reverse clients) (all_idle idle),
  occurs-append c (reverse old) (all_idle (set_bucket k clients idle)),
  occurs-reverse c old,
  occurs-reverse c clients,
  occurs-set_bucket c k clients idle,
)

pub bucket_of-set_bucket :
    (j k : Bytes) (clients : List ℕ) (idle : Idle)
    → bucket_of j (set_bucket k clients idle) ≡ (if same k j then clients else bucket_of j idle)
unfolding bucket_of set_bucket
bucket_of-set_bucket j k clients [] = refl
bucket_of-set_bucket j k clients ((i, old) ∷ idle) =
    ground (arith, same_iff k j, same_iff i k, same_iff i j, bucket_of-set_bucket j k clients idle)

pub bucket_of-put_back :
    (j k : Bytes) (clients : List ℕ) (idle : Idle)
    → (bucket_of j (put_back k clients idle) ≡ bucket_of j idle)
      ⊎ ((k ≡ j) × (bucket_of j (put_back k clients idle) ≡ clients))
unfolding bucket_of put_back
bucket_of-put_back j k clients [] = inl refl
bucket_of-put_back j k clients ((i, old) ∷ idle) =
    ground (arith, same_iff i k, same_iff i j, bucket_of-put_back j k clients idle)
