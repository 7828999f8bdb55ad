-- ===== src/ChainTests/Claims/Alias.antt =====
-- packages/chain-tests/src/lib/alias-claim.ts: an alias is registered for a context, with a proof from
-- a new snapshot of the ring on every attempt. The clock is past the first minute of 1970, where a
-- subtraction of 60 seconds does not go below zero. Hex strings are modelled by their bytes.
pub mod Bound
use mathlib.Core.Option
use polkadot_pop_e2e.Common.{
  ℕ, zero, suc, ◌+◌, ◌-◌, ◌*◌, ◌/◌, String, Bool, true, false, not, ◌&&◌, ◌||◌, Option, none, some,
  List, [], ◌∷◌, length, any, eqb, if◌then◌else◌, Result, ok, err, occurs,
}
use polkadot_pop_e2e.ChainTests.Bytes.{Bytes}
use polkadot_pop_e2e.ChainTests.Task.{
  Failure, thrown, Task, pure, throw, continue, ◌>>=◌, remote, date_now,
}
use polkadot_pop_e2e.ChainTests.Ring.{
  lite_people, MembersState, People, Block, get_finalized_block, read, fetch_ring_members,
  encode_members,
}
use polkadot_pop_e2e.ChainTests.Ring.Inclusion.{MemberLocation}
use polkadot_pop_e2e.ChainTests.Identity.{PersonCreds, person_key, person_ring_entropy}
use polkadot_pop_e2e.ChainTests.Contexts.{proof_message}
use polkadot_pop_e2e.ChainTests.Caches.{RingCache}
use polkadot_pop_e2e.ChainTests.Claims.{
  ClaimEnv, OneShot, message_of, attempt_of, or_throw, ring_exponent, find_location,
  max_proof_attempts,
}
use Prim.Native.String

-- `/BadProof|AncientBirthBlock|Future|Stale/i.test(msg)`
unfoldable pub is_retryable_alias : Failure → Bool
is_retryable_alias e =
    any (λ part. occurs part (message_of e))
      ("BadProof" ∷ "AncientBirthBlock" ∷ "Future" ∷ "Stale" ∷ [])

pub record SetAliasResult : Type 0 where
  pub block : ℕ
  pub alias : Bytes
  pub ring_index : ℕ
  pub ring_revision : ℕ
  pub proof_valid_at : ℕ
  pub attempts : ℕ

pub record Snapshot : Type 0 where
  pub at : String
  pub ring_revision : ℕ
  pub encoded_members : Bytes
  pub member_count : ℕ

-- The arguments of `set_alias_account`, and the result of its submission.
pub record AliasTx : Type 0 where
  pub proof : Bytes
  pub ring_index : ℕ
  pub ring_revision : ℕ
  pub context : Bytes
  pub proof_valid_at : ℕ

pub record Submitted : Type 0 where
  pub is_ok : Bool
  pub block : ℕ
  pub dispatch_error : String

-- `args`, and Asset Hub's answers to the submission by the number of the call.
pub record AliasArgs : Type 0 where
  pub creds : PersonCreds
  pub public_key : Bytes
  pub context : Bytes
  pub submit : AliasTx → ℕ → Submitted

abbrev bytes_match : Bytes → Bytes → Bool
bytes_match [] [] = true
bytes_match (x ∷ xs) (y ∷ ys) = eqb x y && bytes_match xs ys
bytes_match _ _ = false

unfoldable pub check_key : (derived given : Bytes) → Task (Unit {0})
check_key derived given =
    if bytes_match derived given
    then pure tt
    else throw (thrown "[alias-claim] keypair pubkey != creds.publicKey")

module _ (env : ClaimEnv) (fuel : ℕ) where
  open env use {people, codec}

  unfoldable pub take_snapshot : (ring_index : ℕ) → Task Snapshot
  unfolding get_finalized_block read fetch_ring_members encode_members
  take_snapshot ring_index = do
    fin ← get_finalized_block people
    root ← read people lite_people (some fin.hash) (λ s. s.revision ring_index)
    member_keys ← fetch_ring_members people codec lite_people ring_index (some fin.hash) fuel
    encoded_members ←
        or_throw "RangeError: offset is out of bounds" (encode_members codec member_keys)
    pure (record {
      at = fin.hash;
      ring_revision = Option.get_or root 0;
      encoded_members = encoded_members;
      member_count = length member_keys;
    })

  module _ (args : AliasArgs) where
    -- The call inside the `try`: a result that is not `ok` is thrown.
    unfoldable pub submit_alias : AliasTx → Task ℕ
    unfolding remote
    submit_alias tx = do
      result ← remote people.network (args.submit tx)
      if result.is_ok
          then pure result.block
          else throw (
              thrown (String.◌++◌ "[alias-claim] set_alias_account failed: " result.dispatch_error))

    -- What the attempt comes to: the result, the error, or the next attempt.
    settle_attempt :
        (attempt : ℕ)
        → (ℕ → SetAliasResult)
        → Task SetAliasResult
        → Result Failure ℕ
        → Task SetAliasResult
    unfolding is_retryable_alias
    settle_attempt attempt result again (ok block) = pure (result block)
    settle_attempt attempt result again (err e) =
        if not (is_retryable_alias e) || eqb attempt max_proof_attempts then throw e else again

    abbrev pub shot_of : (exponent : ℕ) → Snapshot → (message : Bytes) → OneShot
    shot_of exponent snap message =
        env.one_shot exponent (person_ring_entropy env.derivation args.creds) snap.encoded_members
          args.context message

    abbrev pub alias_tx : (ring_index proof_valid_at : ℕ) → Snapshot → OneShot → AliasTx
    alias_tx ring_index proof_valid_at snap shot = record {
      proof = shot.proof;
      ring_index = ring_index;
      ring_revision = snap.ring_revision;
      context = args.context;
      proof_valid_at = proof_valid_at;
    }

    abbrev pub alias_result :
        (ring_index proof_valid_at attempt : ℕ) → Snapshot → OneShot → (block : ℕ) → SetAliasResult
    alias_result ring_index proof_valid_at attempt snap shot block = record {
      block = block;
      alias = shot.alias;
      ring_index = ring_index;
      ring_revision = snap.ring_revision;
      proof_valid_at = proof_valid_at;
      attempts = attempt;
    }

    -- The body of the loop, with the attempts that may follow it.
    unfoldable pub alias_attempt :
        (exponent ring_index attempt : ℕ) → Task SetAliasResult → Task SetAliasResult
    unfolding take_snapshot proof_message submit_alias settle_attempt
    alias_attempt exponent ring_index attempt again = do
      snap ← take_snapshot ring_index
      now ← date_now
      let proof_valid_at = now / 1000 - 60
      message ←
          or_throw "Expected 32-byte account public key"
            (proof_message env.hashing args.public_key proof_valid_at)
      let shot = shot_of exponent snap message
      outcome ← attempt_of (submit_alias (alias_tx ring_index proof_valid_at snap shot))
      settle_attempt attempt (alias_result ring_index proof_valid_at attempt snap shot) again
          outcome

    -- `left` attempts from `attempt` on, and the throw behind the loop.
    unfoldable pub alias_attempts : (left exponent ring_index attempt : ℕ) → Task SetAliasResult
    unfolding alias_attempt
    alias_attempts zero exponent ring_index attempt =
        throw (thrown "[alias-claim] exhausted retry budget")
    alias_attempts (suc left) exponent ring_index attempt =
        alias_attempt exponent ring_index attempt
          (alias_attempts left exponent ring_index (attempt + 1))

    unfoldable pub set_alias_account : RingCache → Task SetAliasResult
    unfolding find_location check_key ring_exponent alias_attempts
    set_alias_account cache =
        if not (eqb (length args.context) 32)
        then throw (thrown "context must be 32 bytes")
        else (do
          location ← find_location env fuel cache (person_ring_entropy env.derivation args.creds)
          same_key ← check_key (person_key env.derivation args.creds).public_key args.public_key
          exponent ← ring_exponent env
          alias_attempts max_proof_attempts exponent location.place.ring_index 1)
