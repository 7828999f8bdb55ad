-- ===== src/ChainTests/RuntimeReads/Fee.antt =====
-- individuality-compat.ts, `aliasFee`: the value of each way through it.
use polkadot_pop_e2e.Common.{
  ℕ, suc, ◌≡◌, refl, String, Option, none, some, Option-cases, inl, inr, ok,
}
use polkadot_pop_e2e.ChainTests.Task.{World}
use polkadot_pop_e2e.ChainTests.RuntimeReads.{AssetHub, alias_fee}

-- The fee by whether the constant's read and then the storage's read are rejected.
abbrev pub fee_by : AssetHub → (call : ℕ) → Option String → Option String → Option ℕ
fee_by hub call none storage = hub.fee_constant call
fee_by hub call (some e) none = hub.fee_storage (suc call)
fee_by hub call (some e) (some f) = none

-- The fee is always returned, never an error: the constant's when that read succeeds, else the
-- storage's, and unknown when both reads are rejected.
pub alias_fee_lem :
    (hub : AssetHub) (w : World)
    → (alias_fee hub w).0
      ≡ ok
          (fee_by hub w.calls (hub.network.rejection w.calls) (hub.network.rejection (suc w.calls)))
unfolding alias_fee
alias_fee_lem hub w = elim (Option-cases (hub.network.rejection w.calls)) [
  | inl read ↦ rw read refl
  | inr (e, first) ↦ elim (Option-cases (hub.network.rejection (suc w.calls))) [
    | inl read ↦ rw (first, read) refl
    | inr (f, second) ↦ rw (first, second) refl
  ]
]
