-- ===== src/ChainTests/Claims/LongTermStorage.antt =====
-- packages/chain-tests/src/lib/lts-claim.ts and people-claim.ts, and `productContextSuffix` of
-- individuality-compat.ts: a claim of long-term storage. The events of a submitted transaction end, as
-- the client documents, with its finalization or with an error.
pub mod Proofs
use Prim.Native.Char.{code}
use Prim.Native.String
use mathlib.Core.Option
use polkadot_pop_e2e.Common.{
  ℕ, zero, suc, ◌+◌, ◌-◌, ◌*◌, ◌/◌, String, Bool, true, false, not, ◌&&◌, ◌||◌, Option, none, some,
  List, [], ◌∷◌, length, any, eqb, if◌then◌else◌, Result, ok, err, occurs,
}
use polkadot_pop_e2e.ChainTests.Bytes.{Bytes}
use polkadot_pop_e2e.ChainTests.Task.{
  Failure, rejected, thrown, Task, pure, throw, continue, ◌>>=◌, remote, date_now,
}
use polkadot_pop_e2e.ChainTests.Ring.{People, RingSnapshot, take_ring_snapshot}
use polkadot_pop_e2e.ChainTests.Ring.Inclusion.{MemberLocation}
use polkadot_pop_e2e.ChainTests.Identity.{PersonCreds, person_ring_entropy}
use polkadot_pop_e2e.ChainTests.Contexts.{
  long_term_storage_context, long_term_storage_context_v012,
  long_term_storage_period_from_timestamp,
}
use polkadot_pop_e2e.ChainTests.Caches.{RingCache}
use polkadot_pop_e2e.ChainTests.Claims.{
  ClaimEnv, message_of, attempt_of, or_throw, ring_exponent, find_location, max_proof_attempts,
}

-- `/BadProof|Future|Stale/i.test(msg)`
unfoldable pub is_retryable_claim : Failure → Bool
is_retryable_claim e =
    any (λ part. occurs part (message_of e)) ("BadProof" ∷ "Future" ∷ "Stale" ∷ [])

abbrev strip_prefix : String → String → Option String
strip_prefix String.[] s = some s
strip_prefix (String.◌∷◌ p ps) String.[] = none
strip_prefix (String.◌∷◌ p ps) (String.◌∷◌ c s) =
    if eqb (code p) (code c) then strip_prefix ps s else none

abbrev is_some {ℓ} : {A : Type ℓ} → Option A → Bool
is_some none = false
is_some (some a) = true

abbrev is_line_end : ℕ → Bool
is_line_end c = eqb c 10 || (eqb c 13 || (eqb c 8232 || eqb c 8233))

-- `.+\) not found`, with whether a character was taken.
abbrev closes : (taken : Bool) → String → Bool
closes taken String.[] = false
closes taken (String.◌∷◌ c s) =
    (taken && is_some (strip_prefix ") not found" (String.◌∷◌ c s)))
    || (not (is_line_end (code c)) && closes true s)

abbrev closes_after : Option String → Bool
closes_after none = false
closes_after (some rest) = closes false rest

-- `/Runtime entry Storage\(.+\) not found/`
unfoldable pub is_missing_entry : String → Bool
is_missing_entry String.[] = false
is_missing_entry (String.◌∷◌ c s) =
    closes_after (strip_prefix "Runtime entry Storage(" (String.◌∷◌ c s)) || is_missing_entry s

pub record BlockRef : Type 0 where
  pub number : ℕ
  pub hash : String

-- `TxEvent`: the events before the last one, with their blocks, and the last one.
pub data TxEnd : Type 0 where
  finalized : (is_ok : Bool) → (block : Option BlockRef) → TxEnd
  failed : String → TxEnd

pub record Watched : Type 0 where
  pub blocks : List (Option BlockRef)
  pub end : TxEnd

pub record FinalizedClaim : Type 0 where
  pub is_ok : Bool
  pub block : Option BlockRef

-- `if ("block" in e && e.block) last = e.block`
abbrev later_block : Option BlockRef → Option BlockRef → Option BlockRef
later_block last none = last
later_block last (some block) = some block

abbrev last_block : Option BlockRef → List (Option BlockRef) → Option BlockRef
last_block last [] = last
last_block last (block ∷ blocks) = last_block (later_block last block) blocks

unfoldable pub submit_until_finalized : Watched → Result Failure FinalizedClaim
submit_until_finalized watched = end_of watched.end
  where
    end_of : TxEnd → Result Failure FinalizedClaim
    end_of (finalized is_ok block) =
        ok (record { is_ok = is_ok; block = later_block (last_block none watched.blocks) block })
    end_of (failed message) = err (rejected message)

pub record LtsClaimResult : Type 0 where
  pub is_ok : Bool
  pub block : Option BlockRef
  pub period : ℕ
  pub attempts : ℕ

-- The transaction: the proof's context, exponent, entropy and members, the reference of the ring, and
-- the arguments of `claim_long_term_storage`.
pub record LtsTx : Type 0 where
  pub context : Bytes
  pub exponent : ℕ
  pub verifiable_entropy : Bytes
  pub encoded_members : Bytes
  pub ring_index : ℕ
  pub revision : ℕ
  pub period : ℕ
  pub counter : ℕ
  pub account_id : String

-- `creds` and `counter`, and the answers of the chain by the number of the call. `recode` decodes
-- bytes to text and encodes the text again.
pub record LtsArgs : Type 0 where
  pub creds : PersonCreds
  pub address : String
  pub counter : ℕ
  pub period_duration : ℕ → ℕ
  pub network_suffix : ℕ → Option Bytes
  pub recode : Bytes → Bytes
  pub submit : LtsTx → ℕ → Watched

module _ (env : ClaimEnv) (fuel : ℕ) (args : LtsArgs) where
  open env use {people, codec}

  -- `suffix?.length ? new TextDecoder().decode(suffix) : undefined`
  abbrev pub decoded : Option Bytes → Option Bytes
  decoded none = none
  decoded (some []) = none
  decoded (some (b ∷ bs)) = some (args.recode (b ∷ bs))

  after_suffix : Result Failure (Option Bytes) → Task (Option Bytes)
  unfolding is_missing_entry
  after_suffix (ok suffix) = pure (decoded suffix)
  after_suffix (err e) = if is_missing_entry (message_of e) then pure none else throw e

  unfoldable pub product_context_suffix : Task (Option Bytes)
  unfolding remote after_suffix
  product_context_suffix = do
    outcome ← attempt_of (remote people.network args.network_suffix)
    after_suffix outcome

  -- `suffix ? longTermStorageContextV012(…) : longTermStorageContext(…)`
  unfoldable pub claim_context : Option Bytes → (period : ℕ) → Option Bytes
  unfolding long_term_storage_context
  claim_context (some (b ∷ bs)) period =
      long_term_storage_context_v012 env.hashing.blake2b256 (b ∷ bs) period args.counter
  claim_context suffix period = long_term_storage_context period args.counter

  abbrev pub task_of {ℓ} : {A : Type ℓ} → Result Failure A → Task A
  task_of (ok a) = pure a
  task_of (err e) = throw e

  unfoldable pub submit_people_claim : LtsTx → Task FinalizedClaim
  unfolding remote submit_until_finalized
  submit_people_claim tx = do
    watched ← remote people.network (args.submit tx)
    task_of (submit_until_finalized watched)

  abbrev pub lts_tx : (context : Bytes) → (exponent period : ℕ) → RingSnapshot → LtsTx
  lts_tx context exponent period snap = record {
    context = context;
    exponent = exponent;
    verifiable_entropy = person_ring_entropy env.derivation args.creds;
    encoded_members = snap.encoded_members;
    ring_index = snap.ring_index;
    revision = snap.revision_index;
    period = period;
    counter = args.counter;
    account_id = args.address;
  }

  settle_claim :
      (period attempt : ℕ)
      → Task LtsClaimResult
      → Result Failure FinalizedClaim
      → Task LtsClaimResult
  unfolding is_retryable_claim
  settle_claim period attempt again (ok claim) =
      pure
        (record { is_ok = claim.is_ok; block = claim.block; period = period; attempts = attempt })
  settle_claim period attempt again (err e) =
      if not (is_retryable_claim e) || eqb attempt max_proof_attempts then throw e else again

  unfoldable pub claim_attempts :
      (left : ℕ)
      → (context : Bytes) → (exponent ring_index period attempt : ℕ) → Task LtsClaimResult
  unfolding take_ring_snapshot submit_people_claim settle_claim
  claim_attempts zero context exponent ring_index period attempt =
      throw (thrown "[lts-claim] exhausted retry budget")
  claim_attempts (suc left) context exponent ring_index period attempt =
      let again = claim_attempts left context exponent ring_index period (attempt + 1) in
      do
        snap ← take_ring_snapshot people codec fuel ring_index
        outcome ← attempt_of (submit_people_claim (lts_tx context exponent period snap))
        settle_claim period attempt again outcome

  unfoldable pub claim_long_term_storage : RingCache → Task LtsClaimResult
  unfolding find_location product_context_suffix claim_context ring_exponent claim_attempts remote
  claim_long_term_storage cache = do
    location ← find_location env fuel cache (person_ring_entropy env.derivation args.creds)
    period_duration_secs ← remote people.network args.period_duration
    now ← date_now
    let period = long_term_storage_period_from_timestamp (now / 1000) period_duration_secs
    suffix ← product_context_suffix
    context ← or_throw "counter must fit in u8" (claim_context suffix period)
    exponent ← ring_exponent env
    claim_attempts max_proof_attempts context exponent location.place.ring_index period 1
