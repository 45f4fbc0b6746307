-- ===== src/Pool/Invariant.antt =====
-- The pool's invariant: each client that is in memory is idle in the pool once, or lent out once,
-- and the maps agree with what the clients were connected to. What `delete` does to it.
use ps5_ezremote_server.Prelude.{
  ℕ, ◌+◌, ◌≤◌, ◌<◌, ◌≡◌, refl, ◌⊎◌, inl, inr, Option, none, some, Option-cases, List, [], ◌∷◌, ◌++◌,
  length, arith,
}
use ps5_ezremote_server.Outcome.{returns}
use ps5_ezremote_server.Words.{Bytes}
use ps5_ezremote_server.Host.{client_pool_key}
use ps5_ezremote_server.Pool.{
  ClientObject, Pool, client_pool_max_idle, update, bucket_of, destroy, destroy_all, all_idle,
}
use ps5_ezremote_server.Pool.Counts.{occurs, occurs-cons, occurs-bucket_of-le}

abbrev pub allocated : Option ClientObject → ℕ
allocated none = 0
allocated (some o) = 1

-- The pool key of the host that the client at an address was connected to.
abbrev pub target_key : Option ClientObject → Option Bytes
target_key none = none
target_key (some o) = some (client_pool_key o.target)

-- `held` are the clients that are in memory and not idle in the pool.
abbrev pub Balanced : List ℕ → Pool → Type 0
Balanced held s = (c : ℕ) → occurs c (all_idle s.idle) + occurs c held ≡ allocated (s.object c)

-- The maps agree with what the clients were connected to, and no vector is too long. A key that is
-- recorded for an address is that of the client there: no entry outlives its client.
pub record IsSound (s : Pool) : Type 0 where
  pub bounded : (k : Bytes) → length (bucket_of k s.idle) ≤ client_pool_max_idle
  pub keyed :
      (k : Bytes) (c : ℕ) → 0 < occurs c (bucket_of k s.idle) → target_key (s.object c) ≡ some k
  pub tagged : (c : ℕ) (k : Bytes) → s.key_of c ≡ some k → target_key (s.object c) ≡ some k

-- A client that is held is in memory, in no vector, and held once.
pub held_once :
    (c : ℕ) (held : List ℕ) (s : Pool)
    → Balanced (c ∷ held) s
    → (o : ClientObject) × (s.object c ≡ some o)
      × (occurs c held ≡ 0)
      × (occurs c (all_idle s.idle) ≡ 0)
held_once c held s b = elim (Option-cases (s.object c)) [
  | inl gone ↦ absurd (ground (arith, b c, occurs-cons c c held))
  | inr (o, there) ↦ (
    o,
    there,
    ground (arith, b c, occurs-cons c c held),
    ground (arith, b c, occurs-cons c c held),
  )
]

abbrev pub without_object : ℕ → Pool → Pool
without_object c s = record s { object = update s.object c none }

module _ (c : ℕ) (held : List ℕ) (s : Pool) (b : Balanced (c ∷ held) s) where
  pub destroy-returns : destroy c s ≡ returns (without_object c s)
  destroy-returns = let (o, there, _, _) = held_once c held s b in unfold destroy in ground arith

  pub destroy-Balanced : Balanced held (without_object c s)
  destroy-Balanced d =
      let (o, there, once, not_idle) = held_once c held s b in
      ground (arith, b d, occurs-cons d c held)

  pub destroy-IsSound : IsSound s → s.key_of c ≡ none → IsSound (without_object c s)
  destroy-IsSound sound erased =
      let (o, there, once, not_idle) = held_once c held s b in
      record {
        bounded = sound.bounded;
        keyed = λ k d h. ground (arith, sound.keyed k d h, occurs-bucket_of-le d k s.idle);
        tagged = λ d k h. ground (arith, sound.tagged d k h);
      }

pub destroy_all-IsSound :
    (cs held : List ℕ) (s : Pool)
    → Balanced (cs ++ held) s
    → IsSound s
    → ((c : ℕ) → 0 < occurs c cs → s.key_of c ≡ none)
    → (s' : Pool) × (destroy_all cs s ≡ returns s')
      × Balanced held s'
      × IsSound s'
      × (s'.idle ≡ s.idle)
      × (s'.key_of ≡ s.key_of)
      × ((c : ℕ) → (s'.object c ≡ none) ⊎ (s'.object c ≡ s.object c))
unfolding destroy_all
destroy_all-IsSound [] held s b sound erased = (s, refl, b, sound, refl, refl, λ c. inr refl)
destroy_all-IsSound (c ∷ cs) held s b sound erased =
    let key_gone : s.key_of c ≡ none = erased c (ground (arith, occurs-cons c c cs)) in
    let (s', done, b', sound', idle_same, key_same, gone) =
      destroy_all-IsSound cs held (without_object c s) (destroy-Balanced c (cs ++ held) s b)
        (destroy-IsSound c (cs ++ held) s b sound key_gone)
        (λ d h. erased d (omega (arith, occurs-cons d c cs))) in
    (
      s',
      rw (destroy-returns c (cs ++ held) s b) done,
      b',
      sound',
      idle_same,
      key_same,
      λ d. ground (arith, gone d),
    )
