-- ===== src/Pool/Safety.antt =====
-- The operations of the pool, at any time and whatever clients are lent out.
use ps5_ezremote_server.Prelude.{ℕ, ◌≡◌, refl, Bool, true, false, Option, none, some, List, ◌++◌}
use ps5_ezremote_server.Outcome.{Outcome, returns}
use ps5_ezremote_server.Host.{HostInfo, client_pool_key}
use ps5_ezremote_server.Pool.{Pool, connect_new, finish_acquire, acquire_remote_client, all_idle}
use ps5_ezremote_server.Pool.Counts.{occurs}
use ps5_ezremote_server.Pool.Invariant.{target_key, Balanced, IsSound, held_once}
use ps5_ezremote_server.Pool.Scanning.{one_or_none}
use ps5_ezremote_server.Pool.Acquiring.{
  Serves, take_idle-IsSound, connect_new-Balanced, connect_new-Serves, connect_new-IsSound,
}

-- What an operation leaves behind: `held` are lent out, and the pool is in order.
abbrev pub InOrder : List ℕ → Pool → Type 0
InOrder held s = Balanced held s × IsSound s

module _ (host : HostInfo) (reusable : Bool) (address : ℕ) (held : List ℕ) (s : Pool) where
  acquire-new :
      InOrder held s
      → s.object address ≡ none
      → InOrder
          (one_or_none (connect_new host reusable address s).0 ++ held)
          (connect_new host reusable address s).1
        × Serves host
            (connect_new host reusable address s).0
            (connect_new host reusable address s).1
  acquire-new (b, sound) free = (
    (
      connect_new-Balanced host reusable address held s b sound free,
      connect_new-IsSound host reusable address held s b sound free,
    ),
    connect_new-Serves host reusable address held s b sound free,
  )

-- What was found idle is handed out, and otherwise a new client is connected.
acquire-finish :
    (host : HostInfo) (reusable : Bool) (address : ℕ) (held : List ℕ) (found : Option ℕ) (s : Pool)
    → InOrder (one_or_none found ++ held) s
    → s.object address ≡ none
    → ((c : ℕ) → found ≡ some c → target_key (s.object c) ≡ some (client_pool_key host))
    → InOrder
        (one_or_none (finish_acquire host reusable address found s).0 ++ held)
        (finish_acquire host reusable address found s).1
      × Serves host
          (finish_acquire host reusable address found s).0
          (finish_acquire host reusable address found s).1
unfolding finish_acquire
acquire-finish host reusable address held none s order free key =
    acquire-new host reusable address held s order free
acquire-finish host reusable address held (some c) s order free key = (order, key c refl)

exclusive :
    (client : Option ℕ) (held : List ℕ) (s : Pool)
    → InOrder (one_or_none client ++ held) s
    → (c : ℕ) → client ≡ some c
    → (occurs c held ≡ 0) × (occurs c (all_idle s.idle) ≡ 0)
exclusive none held s order c e = absurd (cc)
exclusive (some d) held s (b, sound) c e =
    let (o, there, once, not_idle) = held_once d held s b in
    let same_client : d ≡ c = cc in rw (← same_client) (once, not_idle)

-- What `AcquireRemoteClient` promises: it never reads a client that is gone. The client it hands
-- out, if any, was lent to nobody and is in no vector any more, and it was connected to a host with
-- the same pool key; a null pointer comes only for an unknown type. The pool stays in order.
pub record Acquires (host : HostInfo) (held : List ℕ) (m : Outcome (Option ℕ × Pool)) : Type 0 where
  pub client : Option ℕ
  pub pool : Pool
  pub done : m ≡ returns (client, pool)
  pub order : InOrder (one_or_none client ++ held) pool
  pub serves : Serves host client pool
  pub exclusive_to :
      (c : ℕ) → client ≡ some c → (occurs c held ≡ 0) × (occurs c (all_idle pool.idle) ≡ 0)

acquire-reusable :
    (host : HostInfo) (now address : ℕ) (held : List ℕ) (s : Pool)
    → InOrder held s
    → s.object address ≡ none
    → Acquires host held (acquire_remote_client host true now address s)
acquire-reusable host now address held s (b, sound) free =
    let (scan, s', taken, destroyed, b', sound', gone, key) =
      take_idle-IsSound (client_pool_key host) now held s b sound in
    let (order, serves) =
      acquire-finish host true address held scan.found s' (b', sound') (gone address free) key in
    let (client, pool) = finish_acquire host true address scan.found s' in
    record {
      client = client;
      pool = pool;
      done = unfold acquire_remote_client in rw (taken, destroyed) refl;
      order = order;
      serves = serves;
      exclusive_to = exclusive client held pool order;
    }

-- In a pool in order, with any clients lent out, `AcquireRemoteClient` keeps its promise: what
-- `Acquires` lists, for a reusable client or not, at any time and wherever `new` finds room.
pub acquire-Acquires :
    (host : HostInfo) (reusable : Bool) (now address : ℕ) (held : List ℕ) (s : Pool)
    → InOrder held s
    → s.object address ≡ none
    → Acquires host held (acquire_remote_client host reusable now address s)
acquire-Acquires host true now address held s order free =
    acquire-reusable host now address held s order free
acquire-Acquires host false now address held s order free =
    let (order', serves) =
      acquire-finish host false address held none s order free (λ c e. absurd (cc)) in
    let (client, pool) = finish_acquire host false address none s in
    record {
      client = client;
      pool = pool;
      done = unfold acquire_remote_client in refl;
      order = order';
      serves = serves;
      exclusive_to = exclusive client held pool order';
    }
