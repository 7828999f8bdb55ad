-- ===== src/ChainTests/Claims.antt =====
-- What the claims of packages/chain-tests/src/lib/alias-claim.ts and lts-claim.ts share: the chain and
-- the packages behind them, the lookup of the ring, and the test for errors that a new snapshot can
-- cure.
pub mod Alias
pub mod LongTermStorage
use Prim.Native.Char.{code}
use Prim.Native.String
use mathlib.Core.Option
use polkadot_pop_e2e.Common.{
  ℕ, zero, suc, ◌+◌, ◌-◌, ◌*◌, String, Bool, true, false, ◌&&◌, ◌||◌, Option, none, some, List, [],
  ◌∷◌, ltb, leb, eqb, if◌then◌else◌, Result, ok, err, any, occurs,
}
use polkadot_pop_e2e.ChainTests.Bytes.{Bytes}
use polkadot_pop_e2e.ChainTests.Task.{
  Failure, rejected, thrown, inclusion_timeout, out_of_fuel, World, Task, pure, throw, continue,
  ◌>>=◌, remote,
}
use polkadot_pop_e2e.ChainTests.Ring.{lite_people, Position, People, Codec}
use polkadot_pop_e2e.ChainTests.Ring.Inclusion.{MemberLocation, Wait, wait_for_inclusion}
use polkadot_pop_e2e.ChainTests.Identity.{Derivation}
use polkadot_pop_e2e.ChainTests.Contexts.{Hashing}
use polkadot_pop_e2e.ChainTests.Caches.{RingCache, get_cached_ring_location}

pub record OneShot : Type 0 where
  pub proof : Bytes
  pub alias : Bytes

-- The chain, the packages, and the answers of `Members.Collections` by the number of the call.
-- `member_key_hex` is `Binary.toHex(member_from_entropy(…))`.
pub record ClaimEnv : Type 0 where
  pub people : People
  pub codec : Codec
  pub derivation : Derivation
  pub hashing : Hashing
  pub member_key_hex : Bytes → String
  pub one_shot : (exponent : ℕ) → (entropy members context message : Bytes) → OneShot
  pub ring_size : ℕ → Option String

abbrev pub message_of : Failure → String
message_of (rejected message) = message
message_of (thrown message) = message
message_of (inclusion_timeout verdict last) = "not Included after the timeout"
message_of out_of_fuel = ""

-- `try { … } catch (err) { … }`, with the outcome as a value.
abbrev caught {ℓ} :
    {A : Type ℓ} → Result Failure A × World → Result Failure (Result Failure A) × World
caught (r, w) = (ok r, w)

abbrev pub attempt_of {ℓ} : {A : Type ℓ} → Task A → Task (Result Failure A)
attempt_of m w = caught (m w)

abbrev pub or_throw {ℓ} : {A : Type ℓ} → String → Option A → Task A
or_throw message none = throw (thrown message)
or_throw message (some a) = pure a

abbrev digit_value : ℕ → Option ℕ
digit_value c = if leb 48 c && leb c 57 then some (c - 48) else none

unfoldable pub number_of : (value : ℕ) → String → Option ℕ
unfolding Option.bind
number_of value String.[] = some value
number_of value (String.◌∷◌ c s) =
    Option.bind (digit_value (code c)) (λ d. number_of (10 * value + d) s)

-- `/^R2e(\d+)$/`, and `!exponent`.
unfoldable pub exponent_of : Option String → Option ℕ
unfolding number_of
exponent_of (some (String.◌∷◌ a (String.◌∷◌ b (String.◌∷◌ c s)))) =
    if eqb (code a) 82 && (eqb (code b) 50 && eqb (code c) 101)
    then nonzero (number_of 0 s)
    else none
  where
    nonzero : Option ℕ → Option ℕ
    nonzero none = none
    nonzero (some zero) = none
    nonzero (some (suc n)) = some (suc n)
exponent_of size = none

unfoldable pub ring_exponent : ClaimEnv → Task ℕ
unfolding remote exponent_of
ring_exponent env = do
  size ← remote env.people.network env.ring_size
  or_throw "No ring size for LitePeople" (exponent_of size)

-- The options that the claims leave out have their defaults.
abbrev pub claim_wait : ClaimEnv → (verifiable_entropy : Bytes) → Wait
claim_wait env verifiable_entropy = record {
  people = env.people;
  collection = lite_people;
  own_key = env.member_key_hex verifiable_entropy;
  has_client = true;
  timeout_ms = 300000;
  poll_ms = 5000;
}

-- `getCachedRingLocation() ?? (await waitForInclusion(…))`
unfoldable pub find_location :
    ClaimEnv → (fuel : ℕ) → RingCache → (verifiable_entropy : Bytes) → Task MemberLocation
unfolding get_cached_ring_location wait_for_inclusion
find_location env fuel cache verifiable_entropy = do
  cached ← get_cached_ring_location cache
  or_wait cached
  where
    or_wait : Option MemberLocation → Task MemberLocation
    or_wait none = wait_for_inclusion (claim_wait env verifiable_entropy) fuel
    or_wait (some location) = pure location

abbrev pub max_proof_attempts : ℕ
max_proof_attempts = 3
