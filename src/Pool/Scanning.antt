-- ===== src/Pool/Scanning.antt =====
-- The loop of `AcquireRemoteClient` over a vector: it divides the vector into what stays, what is
-- too old and what is handed out, and reads no client that is gone.
use ps5_ezremote_server.Prelude.{
  ℕ, ◌+◌, ◌-◌, ◌≤◌, ◌<◌, ◌≡◌, ◌≢◌, refl, ap, ◌∙◌, ◌⊎◌, inl, inr, Bool, true, false, Option, none,
  some, Option-cases, Bool-cases, List, [], ◌∷◌, ◌++◌, length, ltb, arith,
}
use ps5_ezremote_server.Outcome.{returns}
use ps5_ezremote_server.Host.{get_max_idle_timeout}
use ps5_ezremote_server.Pool.{Pool, update, Scan, too_old, scan_idle}
use ps5_ezremote_server.Pool.Counts.{occurs, occurs-cons, occurs-nil, occurs-snoc}

abbrev pub one_or_none : Option ℕ → List ℕ
one_or_none none = []
one_or_none (some c) = c ∷ []

abbrev pub AreLive : List ℕ → Pool → Type 0
AreLive clients s = (c : ℕ) → 0 < occurs c clients → s.object c ≢ none

abbrev pub AreErased : List ℕ → Pool → Type 0
AreErased clients s = (c : ℕ) → 0 < occurs c clients → s.key_of c ≡ none

pub record Divides (clients expired : List ℕ) (s : Pool) (r : Scan) : Type 0 where
  pub split :
      (c : ℕ)
      → occurs c r.rest + occurs c r.expired + occurs c (one_or_none r.found)
        ≡ occurs c clients + occurs c expired
  pub object : r.pool.object ≡ s.object
  pub idle : r.pool.idle ≡ s.idle
  pub shorter : length r.rest ≤ length clients
  pub erased : AreErased r.expired r.pool
  pub only_erased : (c : ℕ) → (r.pool.key_of c ≡ none) ⊎ (r.pool.key_of c ≡ s.key_of c)

too_old-returns :
    (now : ℕ) (s : Pool) (c : ℕ)
    → s.object c ≢ none
    → (old : Bool) × (too_old now s c ≡ returns old)
too_old-returns now s c live =
    unfold too_old in
    elim (Option-cases (s.idle_since c)) [
      | inl never ↦ (false, ground arith)
      | inr (since, put) ↦ elim (Option-cases (s.object c)) [
        | inl gone ↦ absurd (live gone)
        | inr (o, there) ↦ (ltb (get_max_idle_timeout o.kind) (now - since), ground arith)
      ]
    ]

abbrev dropped : ℕ → Pool → Pool
dropped c s = record s { idle_since = update s.idle_since c none; key_of = update s.key_of c none }

abbrev pub popped : ℕ → Pool → Pool
popped c s = record s { idle_since = update s.idle_since c none }

scan_idle-old :
    (now c : ℕ) (clients expired : List ℕ) (s : Pool)
    → too_old now s c ≡ returns true
    → scan_idle now (c ∷ clients) expired s
      ≡ scan_idle now clients (expired ++ (c ∷ [])) (dropped c s)
scan_idle-old now c clients expired s h = unfold scan_idle in rw (h, scan_idle) refl

pub scan_idle-fresh :
    (now c : ℕ) (clients expired : List ℕ) (s : Pool)
    → too_old now s c ≡ returns false
    → scan_idle now (c ∷ clients) expired s
      ≡ returns (record { rest = clients; expired = expired; found = some c; pool = popped c s })
scan_idle-fresh now c clients expired s h = unfold scan_idle in rw (h, scan_idle) refl

module _ (c : ℕ) (clients expired : List ℕ) (s : Pool) where
  Divides-found :
      AreErased expired s
      → Divides
          (c ∷ clients)
          expired
          s
          (record { rest = clients; expired = expired; found = some c; pool = popped c s })
  Divides-found gone = record {
    split = λ d. omega (arith, occurs-cons d c clients, occurs-cons d c [], occurs-nil d);
    object = refl;
    idle = refl;
    shorter = omega arith;
    erased = gone;
    only_erased = λ d. inr refl;
  }

  Divides-dropped :
      (r : Scan)
      → Divides clients (expired ++ (c ∷ [])) (dropped c s) r
      → Divides (c ∷ clients) expired s r
  Divides-dropped r h = record {
    split = λ d. omega (arith, h.split d, occurs-cons d c clients, occurs-snoc d c expired);
    object = h.object;
    idle = h.idle;
    shorter = omega (arith, h.shorter);
    erased = h.erased;
    only_erased = λ d. ground (arith, h.only_erased d);
  }

pub scan_idle-Divides :
    (now : ℕ) (clients expired : List ℕ) (s : Pool)
    → AreLive clients s
    → AreErased expired s
    → (r : Scan) × (scan_idle now clients expired s ≡ returns r) × Divides clients expired s r
scan_idle-Divides now [] expired s live gone = (
  record { rest = []; expired = expired; found = none; pool = s },
  (unfold scan_idle in refl),
  record {
    split = λ c. omega (arith, occurs-nil c);
    object = refl;
    idle = refl;
    shorter = omega arith;
    erased = gone;
    only_erased = λ c. inr refl;
  },
)
scan_idle-Divides now (c ∷ clients) expired s live gone =
    let (old, asked) = too_old-returns now s c (live c (ground (arith, occurs-cons c c clients))) in
    let (r, done, divides) =
      scan_idle-Divides now clients (expired ++ (c ∷ [])) (dropped c s)
        (λ d h. live d (omega (arith, occurs-cons d c clients)))
        (λ d h. ground (arith, gone d, occurs-snoc d c expired)) in
    elim (Bool-cases old) [
      | inl e ↦ (
        r,
        scan_idle-old now c clients expired s (asked ∙ ap returns e) ∙ done,
        Divides-dropped c clients expired s r divides,
      )
      | inr e ↦ (
        record { rest = clients; expired = expired; found = some c; pool = popped c s },
        scan_idle-fresh now c clients expired s (asked ∙ ap returns e),
        Divides-found c clients expired s gone,
      )
    ]
