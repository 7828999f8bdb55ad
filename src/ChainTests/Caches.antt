-- ===== src/ChainTests/Caches.antt =====
-- packages/chain-tests/src/lib/ring-cascade.ts and chain-cascade.ts: what one test file leaves for the
-- later ones of a run: the ring location, the drift of the derived key, and the chains that failed.
use polkadot_pop_e2e.Common.{
  String, Bool, true, false, Option, none, some, List, [], ◌∷◌, if◌then◌else◌, Result, ok, err,
}
use polkadot_pop_e2e.ChainTests.Task.{Failure, Task, pure, throw}
use polkadot_pop_e2e.ChainTests.Ring.Inclusion.{MemberLocation}

pub record RingCache : Type 0 where
  pub cached_ring_location : Option MemberLocation
  pub ring_key_drift : Option Failure

abbrev pub empty_ring_cache : RingCache
empty_ring_cache = record { cached_ring_location = none; ring_key_drift = none }

unfoldable pub set_ring_key_drift : Failure → RingCache → RingCache
set_ring_key_drift e cache = record cache { ring_key_drift = some e }

unfoldable pub set_cached_ring_location : MemberLocation → RingCache → RingCache
set_cached_ring_location location cache = record cache { cached_ring_location = some location }

unfoldable pub get_cached_ring_location : RingCache → Task (Option MemberLocation)
get_cached_ring_location cache = check cache.ring_key_drift
  where
    check : Option Failure → Task (Option MemberLocation)
    check none = pure cache.cached_ring_location
    check (some e) = throw e

pub data ChainName : Type 0 where
  people asset_hub bulletin : ChainName

abbrev pub is_chain : ChainName → ChainName → Bool
is_chain people people = true
is_chain asset_hub asset_hub = true
is_chain bulletin bulletin = true
is_chain _ _ = false

-- The `Map` of the chains that failed, the last entry of a chain first.
abbrev pub Unhealthy : Type 0
Unhealthy = List (ChainName × String)

unfoldable pub mark_chain_unhealthy : ChainName → String → Unhealthy → Unhealthy
mark_chain_unhealthy chain reason unhealthy = (chain, reason) ∷ unhealthy

unfoldable pub get_chain_unhealthy_reason : ChainName → Unhealthy → Option String
get_chain_unhealthy_reason chain [] = none
get_chain_unhealthy_reason chain ((marked, reason) ∷ rest) =
    if is_chain marked chain then some reason else get_chain_unhealthy_reason chain rest

-- The cascade error, with the chain and the probe's verdict.
pub record Cascade : Type 0 where
  pub chain : ChainName
  pub verdict : String

unfoldable pub assert_chain_healthy : ChainName → Unhealthy → Result Cascade (Unit {0})
unfolding get_chain_unhealthy_reason
assert_chain_healthy chain unhealthy = check (get_chain_unhealthy_reason chain unhealthy)
  where
    check : Option String → Result Cascade (Unit {0})
    check none = ok tt
    check (some reason) = err (record { chain = chain; verdict = reason })
