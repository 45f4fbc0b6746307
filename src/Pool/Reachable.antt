-- ===== src/Pool/Reachable.antt =====
-- The pool over any sequence of calls, from the empty one that the server starts with.
use ps5_ezremote_server.Prelude.{
  ℕ, ◌≤◌, ◌<◌, ◌≡◌, refl, subst, Bool, none, some, List, [], ◌∷◌, ◌++◌, length, ◌==◌, if◌then◌else◌,
  Bool-cases, inl, inr, arith,
}
use ps5_ezremote_server.Outcome.{Outcome, returns, ◌>>=◌}
use ps5_ezremote_server.Words.{Bytes}
use ps5_ezremote_server.Host.{HostInfo}
use ps5_ezremote_server.Pool.{
  Pool, client_pool_max_idle, bucket_of, all_idle, acquire_remote_client, release_remote_client,
  clear_client_pool,
}
use ps5_ezremote_server.Pool.Counts.{occurs, occurs-nil, occurs-cons}
use ps5_ezremote_server.Pool.Invariant.{Balanced}
use ps5_ezremote_server.Pool.Scanning.{one_or_none}
use ps5_ezremote_server.Pool.Safety.{InOrder, acquire-Acquires}
use ps5_ezremote_server.Pool.Returning.{release-Releases, clear-InOrder}

abbrev pub new_pool : Pool
new_pool = record { idle = []; key_of = λ _. none; idle_since = λ _. none; object = λ _. none }

pub new_pool-InOrder : InOrder [] new_pool
unfolding bucket_of all_idle
new_pool-InOrder = (
  λ c. omega (arith, occurs-nil c),
  record {
    bounded = λ k. omega arith;
    keyed = λ k c h. absurd (omega (arith, occurs-nil c));
    tagged = λ c k h. cc;
  },
)

-- A call of the download thread or of a handler, with what the network, the clock and `new` answer.
pub data Call : Type 0 where
  acquire : HostInfo → Bool → ℕ → ℕ → Call
  release : ℕ → Bool → Bool → ℕ → Call
  clear : Call

-- `new` finds room at an address that is free, and a caller releases a client that is lent out.
abbrev pub IsAllowed : List ℕ → Pool → Call → Type 0
IsAllowed held s (acquire host reusable now address) = s.object address ≡ none
IsAllowed held s (release c success connected now) = 0 < occurs c held
IsAllowed held s clear = Unit

unfoldable pub returned : ℕ → List ℕ → List ℕ
returned c [] = []
returned c (d ∷ held) = if c == d then held else d ∷ returned c held

-- A call, with the clients that are lent out before and after it.
unfoldable pub perform : Call → List ℕ → Pool → Outcome (List ℕ × Pool)
perform (acquire host reusable now address) held s = do
  (client, s') ← acquire_remote_client host reusable now address s
  returns (one_or_none client ++ held, s')
perform (release c success connected now) held s = do
  s' ← release_remote_client (some c) success connected now s
  returns (returned c held, s')
perform clear held s = do s' ← clear_client_pool s; returns (held, s')

-- What calls that are allowed lead to.
pub data Reach : List ℕ → Pool → Type 0 where
  start : Reach [] new_pool
  later :
      {held held' : List ℕ} {s s' : Pool} (call : Call)
      → Reach held s
      → IsAllowed held s call
      → perform call held s ≡ returns (held', s')
      → Reach held' s'

occurs-returned :
    (c d : ℕ) (held : List ℕ) → 0 < occurs c held → occurs d (c ∷ returned c held) ≡ occurs d held
unfolding returned
occurs-returned c d [] lent = absurd (omega (arith, occurs-nil c))
occurs-returned c d (e ∷ held) lent =
    let here = occurs-cons c e held in
    let there = occurs-cons d e held in
    elim (Bool-cases (c == e)) [
      | inl same ↦ ground (arith, same, there, occurs-cons d c held)
      | inr other ↦
          let more = occurs-returned c d held (ground (arith, lent, other, here)) in
          ground (
            arith,
            other,
            more,
            there,
            occurs-cons d c (e ∷ returned c held),
            occurs-cons d e (returned c held),
            occurs-cons d c (returned c held),
          )
    ]

-- A call is defined and leaves the pool in order.
abbrev Performs : Call → List ℕ → Pool → Type 0
Performs call held s =
    (held' : List ℕ) × (s' : Pool) × (perform call held s ≡ returns (held', s')) × InOrder held' s'

perform-Performs :
    (call : Call) (held : List ℕ) (s : Pool)
    → InOrder held s
    → IsAllowed held s call
    → Performs call held s
unfolding perform
perform-Performs (acquire host reusable now address) held s order free =
    let a = acquire-Acquires host reusable now address held s order free in
    (one_or_none a.client ++ held, a.pool, rw a.done refl, a.order)
perform-Performs (release c success connected now) held s order lent =
    let at_front : InOrder (c ∷ returned c held) s =
      (λ d. omega (arith, order.0 d, occurs-returned c d held lent), order.1) in
    let r = release-Releases c success connected now (returned c held) s at_front in
    (returned c held, r.pool, rw r.done refl, r.order)
perform-Performs clear held s order allowed =
    let (s', done, order', _, _, _) = clear-InOrder held s order in (held, s', rw done refl, order')

Reach-InOrder : {held : List ℕ} {s : Pool} → Reach held s → InOrder held s
Reach-InOrder start = new_pool-InOrder
Reach-InOrder (later {held} {held'} {s} {s'} call before allowed done) =
    let (held'', s'', done', order) = perform-Performs call held s (Reach-InOrder before) allowed in
    subst (λ (p : List ℕ × Pool). InOrder p.0 p.1) (cc (done, done')) order

-- After any sequence of allowed calls from the empty pool, whatever the operations, the connections
-- and the clock answer: each call that is allowed next is defined, so that no client is read or
-- deleted after its deletion. Behind it each client in memory is idle in the pool once or lent out
-- once, and not both, a client that was deleted is neither, and no vector is longer than its bound.
-- A call is allowed if `new` finds room at a free address, and if a client that is released is lent
-- out.
pub perform-Reach :
    (held : List ℕ) (s : Pool) (call : Call)
    → Reach held s
    → IsAllowed held s call
    → (held' : List ℕ) × (s' : Pool) × (perform call held s ≡ returns (held', s'))
      × Balanced held' s'
      × ((k : Bytes) → length (bucket_of k s'.idle) ≤ client_pool_max_idle)
perform-Reach held s call reach allowed =
    let (held', s', done, (balanced, sound)) =
      perform-Performs call held s (Reach-InOrder reach) allowed in
    (held', s', done, balanced, sound.bounded)
