-- ===== src/Pool/Returning.antt =====
-- `ReleaseRemoteClient` and `ClearClientPool`: clients come back to the pool, or are deleted.
use ps5_ezremote_server.Prelude.{
  ℕ, ◌<◌, ◌≡◌, refl, ap, ◌⊎◌, inl, inr, Bool, true, false, ◌&&◌, none, some, Option-cases,
  Bool-cases, List, [], ◌∷◌, length, ltb, arith,
}
use ps5_ezremote_server.Outcome.{Outcome, returns}
use ps5_ezremote_server.Words.{Bytes, same_iff}
use ps5_ezremote_server.Pool.{
  ClientObject, Pool, client_pool_max_idle, update, bucket_of, set_bucket, may_pool,
  release_pooled_client, release_remote_client, all_idle, clear_client_pool,
}
use ps5_ezremote_server.Pool.Counts.{
  occurs, occurs-cons, occurs-nil, occurs-append, occurs-set_bucket, bucket_of-set_bucket,
}
use ps5_ezremote_server.Pool.Invariant.{
  Balanced, IsSound, held_once, destroy-returns, destroy-Balanced, destroy-IsSound,
  destroy_all-IsSound, without_object,
}
use ps5_ezremote_server.Pool.Safety.{InOrder}

-- When `ReleasePooledClient` keeps a client, and in which vector.
record Keeps (c : ℕ) (success connected : Bool) (s : Pool) (key : Bytes) : Type 0 where
  tagged : s.key_of c ≡ some key
  succeeded : success ≡ true
  still_connected : connected ≡ true
  room : length (bucket_of key s.idle) < client_pool_max_idle

may_pool-returns :
    (c : ℕ) (success connected : Bool) (s : Pool)
    → {o : ClientObject} → s.object c ≡ some o
    → (may_pool c success connected s ≡ returns none)
      ⊎ ((key : Bytes) × (may_pool c success connected s ≡ returns (some key))
          × Keeps c success connected s key)
unfolding may_pool
may_pool-returns c success connected s there = elim (Option-cases (s.key_of c)) [
  | inl untagged ↦ inl (ground arith)
  | inr (key, tagged) ↦
      elim (Bool-cases
        (success && (connected && ltb (length (bucket_of key s.idle)) client_pool_max_idle))) [
          | inl all_hold ↦ inr (
            key,
            ground arith,
            record {
              tagged = tagged;
              succeeded = ground arith;
              still_connected = ground arith;
              room = ground arith;
            },
          )
          | inr one_fails ↦ inl (ground arith)
        ]
]

module _ (c : ℕ) (held : List ℕ) (s : Pool) (order : InOrder (c ∷ held) s) where
  abbrev erased : Pool
  erased = record s { key_of = update s.key_of c none }

  erased-InOrder : InOrder (c ∷ held) erased
  erased-InOrder = (
    order.0,
    record {
      bounded = order.1.bounded;
      keyed = order.1.keyed;
      tagged = λ d k h. ground (arith, order.1.tagged d k);
    },
  )

  deleted-InOrder : InOrder held (without_object c erased)
  deleted-InOrder =
      let (b, sound) = erased-InOrder in
      (destroy-Balanced c held erased b, destroy-IsSound c held erased b sound (ground arith))

  module _ (success connected : Bool) (now : ℕ) (key : Bytes)
      (keeps : Keeps c success connected s key) where
    abbrev kept : Pool
    kept = record s {
      idle = set_bucket key (c ∷ bucket_of key s.idle) s.idle;
      idle_since = update s.idle_since c (some now);
    }

    kept-Balanced : Balanced held kept
    kept-Balanced d = omega (
      arith,
      order.0 d,
      occurs-set_bucket d key (c ∷ bucket_of key s.idle) s.idle,
      occurs-cons d c (bucket_of key s.idle),
      occurs-cons d c held,
    )

    kept-IsSound : IsSound kept
    kept-IsSound = record {
      bounded = λ k. rw bucket_of-set_bucket (ground (arith, keeps.room, order.1.bounded k));
      keyed = λ k d h. ground (
        arith,
        rw bucket_of-set_bucket at h,
        same_iff key k,
        order.1.keyed k d,
        order.1.tagged c key keeps.tagged,
        occurs-cons d c (bucket_of key s.idle),
      );
      tagged = order.1.tagged;
    }

-- What `ReleaseRemoteClient` promises: it is defined, the client is lent out no more, and the pool
-- is in order. A client whose operation failed, that lost its connection or that has no key (it was
-- not acquired as reusable, or the pool was cleared since) is deleted, and no key stays behind for
-- it.
pub record Releases (c : ℕ) (success connected : Bool) (held : List ℕ) (s : Pool) (m : Outcome Pool)
    : Type 0 where
  pub pool : Pool
  pub done : m ≡ returns pool
  pub order : InOrder held pool
  pub deletes :
      (success ≡ false) ⊎ ((connected ≡ false) ⊎ (s.key_of c ≡ none))
      → (pool.object c ≡ none) × (pool.key_of c ≡ none)

-- In a pool in order, releasing a client that is lent out keeps the promise that `Releases` lists,
-- whatever became of the client and at any time.
pub release-Releases :
    (c : ℕ) (success connected : Bool) (now : ℕ) (held : List ℕ) (s : Pool)
    → InOrder (c ∷ held) s
    → Releases c success connected held s (release_remote_client (some c) success connected now s)
release-Releases c success connected now held s order =
    let (o, there, _, _) = held_once c held s order.0 in
    elim (may_pool-returns c success connected s there) [
      | inl refused ↦ record {
        pool = without_object c (erased c held s order);
        done =
            unfold release_remote_client release_pooled_client in
            rw refused
              (destroy-returns c held (erased c held s order) (erased-InOrder c held s order).0);
        order = deleted-InOrder c held s order;
        deletes = λ h. (ground arith, ground arith);
      }
      | inr (key, allowed, keeps) ↦ record {
        pool = kept c held s order success connected now key keeps;
        done = unfold release_remote_client release_pooled_client in rw allowed refl;
        order = (
          kept-Balanced c held s order success connected now key keeps,
          kept-IsSound c held s order success connected now key keeps,
        );
        deletes = λ h. absurd (ground arith);
      }
    ]

-- `ClearClientPool` is defined and deletes exactly the idle clients. Those that are lent out stay
-- as they are, and lose their keys, so that their release deletes them.
pub clear-InOrder :
    (held : List ℕ) (s : Pool)
    → InOrder held s
    → (s' : Pool) × (clear_client_pool s ≡ returns s')
      × InOrder held s'
      × (s'.idle ≡ [])
      × ((c : ℕ) → s'.key_of c ≡ none)
      × ((c : ℕ) → 0 < occurs c held → s'.object c ≡ s.object c)
clear-InOrder held s (b, sound) =
    let (s', done, b', sound', idle_same, key_same, gone) =
      destroy_all-IsSound (all_idle s.idle) held
        (record s { idle = []; key_of = λ _. none; idle_since = λ _. none })
        (λ c.
          unfold all_idle in
          omega (arith, b c, occurs-nil c, occurs-append c (all_idle s.idle) held))
        (record {
          bounded = λ k. unfold bucket_of in omega arith;
          keyed = λ k c h. unfold bucket_of in absurd (omega (arith, occurs-nil c));
          tagged = λ c k h. cc;
        })
        (λ c h. refl) in
    (
      s',
      (unfold clear_client_pool in done),
      (b', sound'),
      idle_same,
      (λ c. ap (λ f. f c) key_same),
      λ c h. ground (arith, gone c, b' c),
    )
