-- ===== src/ChainTests/RuntimeReads.antt =====
-- packages/chain-tests/src/lib/individuality-compat.ts: reads of Asset Hub that fall back from one
-- runtime version's shape to the other's. A missing entry is a call that is rejected.
pub mod Fee
use polkadot_pop_e2e.Common.{ℕ, String, Option, none, some, List, [], Result, ok, err}
use polkadot_pop_e2e.ChainTests.Task.{Failure, Network, Task, pure, throw, continue, ◌>>=◌, remote}
use polkadot_pop_e2e.ChainTests.Claims.{attempt_of}

-- The answers of Asset Hub by the number of the call; a window is the list of its revisions.
pub record AssetHub : Type 0 where
  pub network : Network
  pub current_generation : ℕ → ℕ
  pub ring_roots :
      (generation : ℕ) → (collection_hex : String) → (ring_index : ℕ) → ℕ → Option (List ℕ)
  pub legacy_ring_roots : (collection_hex : String) → (ring_index : ℕ) → ℕ → Option (List ℕ)
  pub fee_constant : ℕ → Option ℕ
  pub fee_storage : ℕ → Option ℕ

module _ (hub : AssetHub) where
  abbrev records_or_empty : Option (List ℕ) → List ℕ
  records_or_empty none = []
  records_or_empty (some records) = records

  unfoldable pub generation_window :
      (collection_hex : String) → (ring_index : ℕ) → Task (Option (List ℕ))
  unfolding remote
  generation_window collection_hex ring_index = do
    generation ← remote hub.network hub.current_generation
    remote hub.network (hub.ring_roots generation collection_hex ring_index)

  legacy_window :
      (collection_hex : String)
      → (ring_index : ℕ) → Result Failure (Option (List ℕ))
      → Task (Option (List ℕ))
  unfolding remote
  legacy_window collection_hex ring_index (ok records) = pure records
  legacy_window collection_hex ring_index (err e) =
      remote hub.network (hub.legacy_ring_roots collection_hex ring_index)

  unfoldable pub ring_roots_window : (collection_hex : String) → (ring_index : ℕ) → Task (List ℕ)
  unfolding generation_window legacy_window
  ring_roots_window collection_hex ring_index = do
    outcome ← attempt_of (generation_window collection_hex ring_index)
    records ← legacy_window collection_hex ring_index outcome
    pure (records_or_empty records)

  abbrev fee_or_unknown : Result Failure (Option ℕ) → Task (Option ℕ)
  fee_or_unknown (ok fee) = pure fee
  fee_or_unknown (err e) = pure none

  storage_fee : Result Failure (Option ℕ) → Task (Option ℕ)
  unfolding remote
  storage_fee (ok fee) = pure fee
  storage_fee (err e) = do
    outcome ← attempt_of (remote hub.network hub.fee_storage)
    fee_or_unknown outcome

  unfoldable pub alias_fee : Task (Option ℕ)
  unfolding remote storage_fee
  alias_fee = do outcome ← attempt_of (remote hub.network hub.fee_constant); storage_fee outcome
