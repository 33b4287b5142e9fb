-- ===== src/Auth/DutyCache/Laws.antt =====
-- When the duty cache answers by itself, and what it does when it has to ask.
use justice_flow.Base.{
  ◌⊎◌, refl, ℕ, ◌+◌, ◌<◌, ◌≤◌, ◌≡◌, ℤ, int_eq, Bool, true, Option, none, some, arith, inl, inr,
  Option-cases,
}
use justice_flow.Base.Dict.{lookup, lookup-insert_self}
use justice_flow.Types.{ok}
use justice_flow.OsLayer.UnixSocket.{returns, blocks, Rows, UnixSocket, execute}
use justice_flow.Auth.DutyCache.{
  fresh_entry, asked_entry, DutyCacheEntry, DutyCache, check, ttl_seconds,
}

-- An answer less than five minutes old is given again without the database: whatever the server
-- would say and whether or not the connection is locked.
pub check_hit :
    (officer : ℤ) (now : ℕ) (answer : Option Rows) (cache : DutyCache) (socket : UnixSocket)
    (e : DutyCacheEntry)
    → lookup officer cache ≡ some e
    → now < e.cached_at + ttl_seconds
    → check officer now answer cache socket ≡ returns (ok, some e.is_active, cache, socket)
unfolding check
check_hit officer now answer cache socket e found young = ground arith

-- Without an entry, or with one of five minutes or more, the database is asked, so that the call
-- never returns where this thread holds the connection's lock already.
pub check_miss_locked :
    (officer : ℤ) (now : ℕ) (answer : Option Rows) (cache : DutyCache) (socket : UnixSocket)
    → ((e : DutyCacheEntry) → lookup officer cache ≡ some e → e.cached_at + ttl_seconds ≤ now)
    → socket.locked ≡ true
    → check officer now answer cache socket ≡ blocks
unfolding check execute
check_miss_locked officer now answer cache socket stale held =
    elim (Option-cases (lookup officer cache)) [
      | inl missing ↦ ground arith
      | inr (e, found) ↦ ground (arith, stale e found)
    ]

-- A successful check is answered from the cache for the next five minutes.
pub check_then_hit :
    (officer : ℤ) (now later : ℕ) (answer : Option Rows) (cache : DutyCache) (socket : UnixSocket)
    (active : Bool) (cache' : DutyCache) (socket' : UnixSocket)
    → lookup officer cache ≡ none
    → check officer now answer cache socket ≡ returns (ok, some active, cache', socket')
    → later < now + ttl_seconds
    → (other : Option Rows)
    → check officer later other cache' socket' ≡ returns (ok, some active, cache', socket')
unfolding check execute
check_then_hit officer now later answer cache socket active cache' socket' missing asked soon
      other =
    ground (arith, lookup-insert_self officer (asked_entry active now) cache)

-- Under the lock, the call waits for ever or answers from the cache.
pub check_locked :
    (officer : ℤ) (now : ℕ) (answer : Option Rows) (cache : DutyCache) (socket : UnixSocket)
    → socket.locked ≡ true
    → (check officer now answer cache socket ≡ blocks)
      ⊎ ((active : Bool) × (check officer now answer cache socket
            ≡ returns (ok, some active, cache, socket)))
unfolding check execute
check_locked officer now answer cache socket held =
    elim (Option-cases (fresh_entry now (lookup officer cache))) [
      | inl asks ↦ inl (rw (asks, held) refl)
      | inr (active, fresh) ↦ inr (active, rw fresh refl)
    ]
