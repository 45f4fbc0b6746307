-- ===== src/Pool.antt =====
-- The client pool of source/server/http_server.cpp. A client pointer is a number, and `object` is
-- the heap: what stands at an address, until it is deleted. The pool's mutex makes the steps
-- between blocking calls atomic; they are functions of the state here. `time(NULL)` is the argument
-- `now`.
mod Counts
pub mod Invariant
mod Scanning
mod Acquiring
pub mod Safety
pub mod Returning
pub mod Reuse
pub mod Kept
pub mod Reachable
mod Tests
use ps5_ezremote_server.Prelude.{
  ℕ, zero, suc, ◌+◌, ◌-◌, ◌<◌, Bool, true, false, not, ◌&&◌, Option, none, some, List, [], ◌∷◌,
  ◌++◌, length, ltb, ◌==◌, if◌then◌else◌,
}
use mathlib.Core.List.{reverse}
use ps5_ezremote_server.Outcome.{Outcome, returns, undefined, ◌>>=◌}
use ps5_ezremote_server.Words.{Bytes, same}
use ps5_ezremote_server.Host.{
  HostInfo, ClientKind, get_max_idle_timeout, client_kind, client_pool_key, client_type_http_server,
  http_server_github,
}

abbrev pub client_pool_max_idle : ℕ
client_pool_max_idle = 12

-- A client in memory: its class, whether it encodes paths, and what `Connect` was called with.
pub record ClientObject : Type 0 where
  pub kind : ClientKind
  pub path_encoding : Bool
  pub target : HostInfo

-- `client_pool_idle` is an association list. A vector stands with its back first, where the code
-- pushes and pops.
abbrev pub Idle : Type 0
Idle = List (Bytes × List ℕ)

pub record Pool : Type 0 where
  pub idle : Idle
  pub key_of : ℕ → Option Bytes
  pub idle_since : ℕ → Option ℕ
  pub object : ℕ → Option ClientObject

abbrev pub update {ℓ} : {A : Type ℓ} → (ℕ → Option A) → ℕ → Option A → ℕ → Option A
update f a v b = if a == b then v else f b

-- The vector at a key; a missing one has nothing to hand out, like an empty one.
unfoldable pub bucket_of : Bytes → Idle → List ℕ
bucket_of k [] = []
bucket_of k ((j, clients) ∷ idle) = if same j k then clients else bucket_of k idle

-- The vector at a key is changed, or made.
unfoldable pub set_bucket : Bytes → List ℕ → Idle → Idle
set_bucket k clients [] = (k, clients) ∷ []
set_bucket k clients ((j, old) ∷ idle) =
    if same j k then (j, clients) ∷ idle else (j, old) ∷ set_bucket k clients idle

-- What is popped of the vector at a key; where `find` gave `end()`, there is nothing to change.
unfoldable pub put_back : Bytes → List ℕ → Idle → Idle
put_back k clients [] = []
put_back k clients ((j, old) ∷ idle) =
    if same j k then (j, clients) ∷ idle else (j, old) ∷ put_back k clients idle

-- A pointer that is read through.
unfoldable pub deref : Pool → ℕ → Outcome ClientObject
deref s c = elim (s.object c) [ none ↦ undefined | some o ↦ returns o ]

-- `DestroyPooledClient`: `Quit` and `delete`.
unfoldable pub destroy : ℕ → Pool → Outcome Pool
unfolding deref
destroy c s = do _ ← deref s c; returns (record s { object = update s.object c none })

unfoldable pub destroy_all : List ℕ → Pool → Outcome Pool
destroy_all [] s = returns s
destroy_all (c ∷ cs) s = do s ← destroy c s; destroy_all cs s

-- `CreatePooledClient`, with the address that `new` returns. The result of `Connect` is dropped.
unfoldable pub create_pooled_client : ℕ → HostInfo → Pool → Option ℕ × Pool
create_pooled_client address host s = elim (client_kind host) [
  | none ↦ (none, s)
  | some kind ↦
      let github =
        host.type == client_type_http_server && same host.http_server_type http_server_github in
      let client : ClientObject = record {
        kind = kind;
        path_encoding = not github;
        target = host;
      } in
      (some address, record s { object = update s.object address (some client) })
]

-- What the loop over a vector leaves: the rest of it, the clients that are too old, the one found.
pub record Scan : Type 0 where
  pub rest : List ℕ
  pub expired : List ℕ
  pub found : Option ℕ
  pub pool : Pool

-- `idle_since` is there and longer ago than the client allows. A clock that was set back gives a
-- negative difference, which is not longer; here it is 0.
unfoldable pub too_old : ℕ → Pool → ℕ → Outcome Bool
unfolding deref
too_old now s c = elim (s.idle_since c) [
  | none ↦ returns false
  | some since ↦ do o ← deref s c; returns (ltb (get_max_idle_timeout o.kind) (now - since))
]

-- `while (idle != end && !idle->second.empty())`
unfoldable pub scan_idle : ℕ → List ℕ → List ℕ → Pool → Outcome Scan
scan_idle now [] expired s =
    returns (record { rest = []; expired = expired; found = none; pool = s })
scan_idle now (c ∷ clients) expired s = do
  old ← too_old now s c
  let s' = record s { idle_since = update s.idle_since c none }
  let next =
      scan_idle now clients (expired ++ (c ∷ [])) (record s' { key_of = update s.key_of c none })
  if old
      then next
      else returns (record { rest = clients; expired = expired; found = some c; pool = s' })

-- The part of `AcquireRemoteClient` under the pool's mutex.
unfoldable pub take_idle : Bytes → ℕ → Pool → Outcome Scan
take_idle key now s = do
  scan ← scan_idle now (bucket_of key s.idle) [] s
  let s' = scan.pool
  returns (record scan { pool = record s' { idle = put_back key scan.rest s'.idle } })

-- `if (client == nullptr)` at the end of `AcquireRemoteClient`.
unfoldable pub connect_new : HostInfo → Bool → ℕ → Pool → Option ℕ × Pool
connect_new host reusable address s =
    let (client, s') = create_pooled_client address host s in
    elim client [
      | none ↦ (none, s')
      | some c ↦ (
        some c,
        if reusable
            then record s' { key_of = update s'.key_of c (some (client_pool_key host)) }
            else s',
      )
    ]

unfoldable pub finish_acquire : HostInfo → Bool → ℕ → Option ℕ → Pool → Option ℕ × Pool
finish_acquire host reusable address none s = connect_new host reusable address s
finish_acquire host reusable address (some c) s = (some c, s)

unfoldable pub acquire_remote_client : HostInfo → Bool → ℕ → ℕ → Pool → Outcome (Option ℕ × Pool)
acquire_remote_client host reusable now address s =
    if reusable
    then (do
      scan ← take_idle (client_pool_key host) now s
      s' ← destroy_all scan.expired scan.pool
      returns (finish_acquire host reusable address scan.found s'))
    else returns (finish_acquire host reusable address none s)

-- Whether `ReleasePooledClient` may keep the client: it has a key, the operation succeeded and
-- `IsConnected()` says yes. The result is the key of the vector it goes to.
unfoldable pub may_pool : ℕ → Bool → Bool → Pool → Outcome (Option Bytes)
unfolding deref
may_pool c success connected s = elim (s.key_of c) [
  | none ↦ returns none
  | some key ↦
      if success
      then (do
        _ ← deref s c
        let idle = bucket_of key s.idle
        returns (if connected && ltb (length idle) client_pool_max_idle then some key else none))
      else returns none
]

unfoldable pub release_pooled_client : ℕ → Bool → Bool → ℕ → Pool → Outcome Pool
release_pooled_client c success connected now s = do
  pooled ← may_pool c success connected s
  elim pooled [
    | some key ↦ returns (record s {
      idle = set_bucket key (c ∷ bucket_of key s.idle) s.idle;
      idle_since = update s.idle_since c (some now);
    })
    | none ↦ destroy c (record s { key_of = update s.key_of c none })
  ]

-- `ReleaseRemoteClient`: a null pointer is passed over.
unfoldable pub release_remote_client : Option ℕ → Bool → Bool → ℕ → Pool → Outcome Pool
release_remote_client none success connected now s = returns s
release_remote_client (some c) success connected now s =
    release_pooled_client c success connected now s

-- All idle clients, in the order of `ClearClientPool`.
unfoldable pub all_idle : Idle → List ℕ
all_idle [] = []
all_idle ((k, clients) ∷ idle) = reverse clients ++ all_idle idle

unfoldable pub clear_client_pool : Pool → Outcome Pool
clear_client_pool s =
    destroy_all (all_idle s.idle)
      (record s { idle = []; key_of = λ _. none; idle_since = λ _. none })
