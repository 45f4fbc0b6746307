-- ===== src/Pool/Acquiring.antt =====
-- The two halves of `AcquireRemoteClient`: what it takes from the pool, and what it connects anew.
use ps5_ezremote_server.Prelude.{
  ℕ, ◌≤◌, ◌<◌, ◌≡◌, refl, sym, ap, ◌∙◌, ◌⊎◌, inl, inr, Bool, Option, none, some, List, [], ◌∷◌,
  ◌++◌, length, arith,
}
use ps5_ezremote_server.Outcome.{returns}
use ps5_ezremote_server.Words.{Bytes}
use ps5_ezremote_server.Host.{HostInfo, client_kind, client_pool_key}
use ps5_ezremote_server.Pool.{
  Pool, bucket_of, put_back, destroy_all, create_pooled_client, Scan, take_idle, connect_new,
  all_idle,
}
use ps5_ezremote_server.Pool.Counts.{
  occurs, occurs-cons, occurs-nil, occurs-append, occurs-bucket_of-le, occurs-put_back,
  bucket_of-put_back,
}
use ps5_ezremote_server.Pool.Invariant.{
  target_key, Balanced, IsSound, held_once, destroy_all-IsSound,
}
use ps5_ezremote_server.Pool.Scanning.{one_or_none, AreLive, Divides, scan_idle-Divides}

bucket_of-AreLive : (k : Bytes) (s : Pool) → IsSound s → AreLive (bucket_of k s.idle) s
bucket_of-AreLive k s sound c h gone = ground (arith, sound.keyed k c h)

abbrev taken : Bytes → Scan → Pool
taken key r = let s = r.pool in record s { idle = put_back key r.rest s.idle }

module _ (key : Bytes) (held : List ℕ) (s : Pool) (b : Balanced held s) (sound : IsSound s)
    (r : Scan) (divides : Divides (bucket_of key s.idle) [] s r) where
  taken-Balanced : Balanced (r.expired ++ (one_or_none r.found ++ held)) (taken key r)
  taken-Balanced c =
      rw (divides.object, divides.idle)
        (omega (
          arith,
          b c,
          divides.split c,
          occurs-nil c,
          occurs-put_back c key r.rest s.idle (omega (arith, divides.split c, occurs-nil c)),
          occurs-append c r.expired (one_or_none r.found ++ held),
          occurs-append c (one_or_none r.found) held,
        ))

  -- Every vector keeps its length, or loses, and holds no client that it did not hold.
  bucket_of-taken :
      (k : Bytes)
      → (length (bucket_of k (taken key r).idle) ≤ length (bucket_of k s.idle))
        × ((c : ℕ) → occurs c (bucket_of k (taken key r).idle) ≤ occurs c (bucket_of k s.idle))
  bucket_of-taken k = rw divides.idle (elim (bucket_of-put_back k key r.rest s.idle) [
    | inl same_vector ↦ rw same_vector (omega arith, λ c. omega arith)
    | inr (at_key, rest_of) ↦
        rw rest_of
          (rw (← at_key) (divides.shorter, λ c. omega (arith, divides.split c, occurs-nil c)))
  ])

  taken-IsSound : IsSound (taken key r)
  taken-IsSound = record {
    bounded = λ k. omega (arith, sound.bounded k, (bucket_of-taken k).0);
    keyed = λ k c h. rw divides.object (sound.keyed k c (omega (arith, (bucket_of-taken k).1 c)));
    tagged = λ c k h. rw divides.object (elim (divides.only_erased c) [
      | inl gone ↦ cc
      | inr kept ↦ sound.tagged c k (sym kept ∙ h)
    ]);
  }

-- What the part under the mutex leaves, with the clients that are too old already deleted.
module _ (key : Bytes) (now : ℕ) (held : List ℕ) (s : Pool) (b : Balanced held s)
    (sound : IsSound s) where
  found_key :
      (c : ℕ) (r : Scan) (s' : Pool)
      → Divides (bucket_of key s.idle) [] s r
      → Balanced (c ∷ held) s'
      → r.found ≡ some c
      → (s'.object c ≡ none) ⊎ (s'.object c ≡ s.object c)
      → target_key (s'.object c) ≡ some key
  found_key c r s' divides b' found kept =
      let (o, there, _, _) = held_once c held s' b' in
      let was_idle : 0 < occurs c (bucket_of key s.idle) =
        ground (arith, divides.split c, occurs-nil c, occurs-cons c c []) in
      ground (arith, kept, sound.keyed key c was_idle)

  pub take_idle-IsSound :
      (scan : Scan) × (s' : Pool) × (take_idle key now s ≡ returns scan)
      × (destroy_all scan.expired scan.pool ≡ returns s')
      × Balanced (one_or_none scan.found ++ held) s'
      × IsSound s'
      × ((c : ℕ) → s.object c ≡ none → s'.object c ≡ none)
      × ((c : ℕ) → scan.found ≡ some c → target_key (s'.object c) ≡ some key)
  take_idle-IsSound =
      let (r, scanned, divides) =
        scan_idle-Divides now (bucket_of key s.idle) [] s (bucket_of-AreLive key s sound)
          (λ c h. absurd (omega (arith, occurs-nil c))) in
      let (s', destroyed, b', sound', idle_same, key_same, gone) =
        destroy_all-IsSound r.expired (one_or_none r.found ++ held) (taken key r)
          (taken-Balanced key held s b sound r divides) (taken-IsSound key held s b sound r divides)
          divides.erased in
      (
        record r { pool = taken key r },
        s',
        (unfold take_idle in rw scanned refl),
        destroyed,
        b',
        sound',
        (λ c h. ground (arith, gone c, ap (λ f. f c) divides.object)),
        λ c h. found_key c r s' divides (rw h at b') h (rw divides.object at (gone c)),
      )

-- Whom the result serves: a client that was connected to a host with the same pool key, and a null
-- pointer only where the host's type is unknown.
abbrev pub Serves : HostInfo → Option ℕ → Pool → Type 0
Serves host none s = client_kind host ≡ none
Serves host (some c) s = target_key (s.object c) ≡ some (client_pool_key host)

module _ (host : HostInfo) (reusable : Bool) (address : ℕ) (held : List ℕ) (s : Pool)
    (b : Balanced held s) (sound : IsSound s) (free : s.object address ≡ none) where
  abbrev pub connected : Option ℕ × Pool
  connected = connect_new host reusable address s

  address_not_idle : occurs address (all_idle s.idle) ≡ 0
  address_not_idle = ground (arith, b address)

  pub connect_new-Balanced : Balanced (one_or_none connected.0 ++ held) connected.1
  unfolding connect_new create_pooled_client
  connect_new-Balanced c = ground (arith, b c, occurs-cons c address held)

  pub connect_new-Serves : Serves host connected.0 connected.1
  unfolding connect_new create_pooled_client
  connect_new-Serves = ground arith

  -- The address is in no vector, so only entries for it change.
  connect_new-idle : connected.1.idle ≡ s.idle
  unfolding connect_new create_pooled_client
  connect_new-idle = ground arith

  connect_new-keyed :
      (k : Bytes) (c : ℕ)
      → 0 < occurs c (bucket_of k s.idle)
      → target_key (connected.1.object c) ≡ some k
  unfolding connect_new create_pooled_client
  connect_new-keyed k c h =
      ground (arith, sound.keyed k c h, occurs-bucket_of-le c k s.idle, address_not_idle)

  connect_new-tagged :
      (c : ℕ) (k : Bytes)
      → connected.1.key_of c ≡ some k
      → target_key (connected.1.object c) ≡ some k
  unfolding connect_new create_pooled_client
  connect_new-tagged c k h = ground (arith, sound.tagged c k)

  pub connect_new-IsSound : IsSound connected.1
  connect_new-IsSound = record {
    bounded = λ k. rw connect_new-idle (sound.bounded k);
    keyed = λ k c h. connect_new-keyed k c (rw connect_new-idle at h);
    tagged = connect_new-tagged;
  }
