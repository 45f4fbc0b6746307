-- ===== src/Pool/Tests.antt =====
-- The pool on small runs, and the theorems about it at them.
use ps5_ezremote_server.Prelude.{
  ℕ, ◌-◌, ◌≤◌, length, ◌<◌, ◌≡◌, refl, true, false, Option, none, some, List, [], ◌∷◌, ◌==◌,
  if◌then◌else◌, arith,
}
use ps5_ezremote_server.Outcome.{Outcome, returns, ◌>>=◌}
use ps5_ezremote_server.Words.{Bytes, codes, same}
use ps5_ezremote_server.Host.{
  HostInfo, base, archive_org, client_kind, client_pool_key, get_max_idle_timeout,
}
use ps5_ezremote_server.Pool.{
  ClientObject, Pool, bucket_of, acquire_remote_client, release_remote_client, clear_client_pool,
  too_old, create_pooled_client, connect_new, finish_acquire, take_idle, scan_idle, destroy,
  destroy_all, all_idle, put_back, deref,
}
use ps5_ezremote_server.Pool.Counts.{occurs, occurs-cons, occurs-nil}
use ps5_ezremote_server.Pool.Invariant.{Balanced}
use ps5_ezremote_server.Pool.Safety.{InOrder, Acquires, acquire-Acquires}
use ps5_ezremote_server.Pool.Returning.{Releases, release-Releases, clear-InOrder}
use ps5_ezremote_server.Pool.Reachable.{
  new_pool, new_pool-InOrder, acquire, release, perform, Reach, start, later, perform-Reach,
}
use ps5_ezremote_server.Pool.Kept.{release-acquire}
use ps5_ezremote_server.Pool.Reuse.{as_archive_org, acquire-as_archive_org}

abbrev web_host : HostInfo
web_host = record {
  type = 4;
  url = codes "http://h";
  http_server_type = codes "Apache";
  username = codes "u";
  password = codes "p";
}

acquire-Acquires_example : Acquires web_host [] (acquire_remote_client web_host true 100 7 new_pool)
acquire-Acquires_example = acquire-Acquires web_host true 100 7 [] new_pool new_pool-InOrder refl

abbrev web_client : ClientObject
web_client = record { kind = base; path_encoding = true; target = web_host }

-- The client at address 7 is lent out.
abbrev lent_pool : Pool
lent_pool = record {
  idle = [];
  key_of = λ c. if 7 == c then some (client_pool_key web_host) else none;
  idle_since = λ _. none;
  object = λ c. if 7 == c then some web_client else none;
}

lent_pool-InOrder : InOrder (7 ∷ []) lent_pool
unfolding bucket_of all_idle
lent_pool-InOrder = (
  λ c. ground (arith, occurs-nil c, occurs-cons c 7 []),
  record {
    bounded = λ k. omega arith;
    keyed = λ k c h. absurd (omega (arith, occurs-nil c));
    tagged = λ c k h. ground arith;
  },
)

release-Releases_example :
    Releases 7 true true [] lent_pool (release_remote_client (some 7) true true 100 lent_pool)
release-Releases_example = release-Releases 7 true true 100 [] lent_pool lent_pool-InOrder

clear-InOrder_example :
    (s' : Pool) × (clear_client_pool lent_pool ≡ returns s')
    × InOrder (7 ∷ []) s'
    × (s'.idle ≡ [])
    × ((c : ℕ) → s'.key_of c ≡ none)
    × ((c : ℕ) → 0 < occurs c (7 ∷ []) → s'.object c ≡ lent_pool.object c)
clear-InOrder_example = clear-InOrder (7 ∷ []) lent_pool lent_pool-InOrder

-- The client at address 7 waits since second 100.
abbrev waiting_pool : Pool
waiting_pool = record lent_pool {
  idle = (client_pool_key web_host, 7 ∷ []) ∷ [];
  idle_since = λ c. if 7 == c then some 100 else none;
}

waiting_bucket : bucket_of (client_pool_key web_host) waiting_pool.idle ≡ 7 ∷ []
unfolding bucket_of client_pool_key same
waiting_bucket = refl

waiting_fresh : too_old 200 waiting_pool 7 ≡ returns false
unfolding too_old get_max_idle_timeout
waiting_fresh = refl

acquire-as_archive_org_example :
    (s' : Pool) × (acquire_remote_client (as_archive_org web_host) true 200 8 waiting_pool
      ≡ returns (some 7, s'))
    × (s'.object ≡ waiting_pool.object)
    × (client_kind (as_archive_org web_host) ≡ some archive_org)
acquire-as_archive_org_example =
    acquire-as_archive_org web_host 200 8 7 [] waiting_pool refl waiting_bucket waiting_fresh

-- A client that is too old is deleted, and a new one is connected.
abbrev client_of : Outcome (Option ℕ × Pool) → Option ℕ
client_of (returns (c, s)) = c
client_of _ = none

old_client_replaced :
    client_of (acquire_remote_client web_host true 700_000 8 waiting_pool) ≡ some 8
unfolding acquire_remote_client take_idle scan_idle too_old destroy_all destroy finish_acquire
    connect_new create_pooled_client client_kind client_pool_key bucket_of put_back
    get_max_idle_timeout deref same
old_client_replaced = refl

lent_room : length (bucket_of (client_pool_key web_host) lent_pool.idle) < 12
unfolding bucket_of
lent_room = omega arith

lent_in_time : 200 - 100 ≤ get_max_idle_timeout web_client.kind
unfolding get_max_idle_timeout
lent_in_time = omega arith

release-acquire_example :
    (s' : Pool) × (release_remote_client (some 7) true true 100 lent_pool
        >>= acquire_remote_client web_host true 200 8
      ≡ returns (some 7, s'))
    × (s'.object ≡ lent_pool.object)
release-acquire_example =
    release-acquire web_host 7 100 200 8 web_client lent_pool refl refl lent_room lent_in_time

-- A client is connected for a host, and then released.
abbrev pool_after : Outcome (List ℕ × Pool) → Pool
pool_after (returns (held, s)) = s
pool_after _ = new_pool

abbrev lent : Pool
lent = pool_after (perform (acquire web_host true 100 7) [] new_pool)

lent-Reach : Reach (7 ∷ []) lent
unfolding perform acquire_remote_client take_idle scan_idle destroy_all finish_acquire connect_new
    create_pooled_client client_kind client_pool_key bucket_of put_back same
lent-Reach = later (acquire web_host true 100 7) start refl refl

perform-Reach_example :
    (held' : List ℕ) × (s' : Pool) × (perform (release 7 true true 150) (7 ∷ []) lent
      ≡ returns (held', s'))
    × Balanced held' s'
    × ((k : Bytes) → length (bucket_of k s'.idle) ≤ 12)
perform-Reach_example =
    perform-Reach (7 ∷ []) lent (release 7 true true 150) lent-Reach
      (ground (arith, occurs-cons 7 7 [], occurs-nil 7))
