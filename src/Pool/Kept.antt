-- ===== src/Pool/Kept.antt =====
-- A client that comes back well is used again.
use ps5_ezremote_server.Prelude.{
  ℕ, ◌-◌, ◌≤◌, ◌<◌, ◌≡◌, refl, ap, ◌∙◌, true, false, none, some, [], ◌∷◌, length, if◌then◌else◌,
  arith,
}
use ps5_ezremote_server.Outcome.{returns, ◌>>=◌}
use ps5_ezremote_server.Words.{Bytes, same_iff}
use ps5_ezremote_server.Host.{HostInfo, client_pool_key, get_max_idle_timeout}
use ps5_ezremote_server.Pool.Counts.{bucket_of-set_bucket}
use ps5_ezremote_server.Pool.Scanning.{scan_idle-fresh}
use ps5_ezremote_server.Pool.{
  ClientObject, Pool, client_pool_max_idle, update, bucket_of, set_bucket, put_back, deref,
  destroy_all, too_old, take_idle, finish_acquire, acquire_remote_client, may_pool,
  release_pooled_client, release_remote_client,
}

module _ (c now : ℕ) (key : Bytes) (o : ClientObject) (s : Pool) where
  -- The pool with the client waiting in it.
  abbrev pub with_waiting : Pool
  with_waiting = record s {
    idle = set_bucket key (c ∷ bucket_of key s.idle) s.idle;
    idle_since = update s.idle_since c (some now);
  }

  release-with_waiting :
      s.object c ≡ some o
      → s.key_of c ≡ some key
      → length (bucket_of key s.idle) < client_pool_max_idle
      → release_remote_client (some c) true true now s ≡ returns with_waiting
  release-with_waiting there tagged room =
      let pooled : may_pool c true true s ≡ returns (some key) =
        unfold may_pool deref in ground arith in
      unfold release_remote_client release_pooled_client in rw pooled refl

  fresh :
      (later : ℕ)
      → s.object c ≡ some o
      → later - now ≤ get_max_idle_timeout o.kind
      → too_old later with_waiting c ≡ returns false
  fresh later there in_time = unfold too_old deref in ground arith

  waiting_first : bucket_of key with_waiting.idle ≡ c ∷ bucket_of key s.idle
  waiting_first =
      bucket_of-set_bucket key key (c ∷ bucket_of key s.idle) s.idle
      ∙ ap (λ b. if b then c ∷ bucket_of key s.idle else bucket_of key s.idle)
          ((same_iff key key).1 refl)

-- A client that was acquired as reusable for a host, whose operation succeeded, that is still
-- connected and whose vector has room, is released; it is the client that the next request for a
-- host with the same pool key gets, if that comes no later than the client may be idle. Nothing is
-- deleted or connected in between.
pub release-acquire :
    (host : HostInfo) (c now later address : ℕ) (o : ClientObject) (s : Pool)
    → s.object c ≡ some o
    → s.key_of c ≡ some (client_pool_key host)
    → length (bucket_of (client_pool_key host) s.idle) < client_pool_max_idle
    → later - now ≤ get_max_idle_timeout o.kind
    → (s' : Pool) × (release_remote_client (some c) true true now s
          >>= acquire_remote_client host true later address
        ≡ returns (some c, s'))
      × (s'.object ≡ s.object)
release-acquire host c now later address o s there tagged room in_time =
    let key = client_pool_key host in
    let waiting = with_waiting c now key o s in
    (
      record waiting {
        idle_since = update waiting.idle_since c none;
        idle = put_back key (bucket_of key s.idle) waiting.idle;
      },
      rw (release-with_waiting c now key o s there tagged room) (
          unfold acquire_remote_client take_idle destroy_all finish_acquire in
          rw
            (
              waiting_first c now key o s,
              scan_idle-fresh later c (bucket_of key s.idle) [] waiting
                  (fresh c now key o s later there in_time),
            )
            refl),
      refl,
    )
