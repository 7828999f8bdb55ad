-- ===== src/RuntimeDiff/Entries/Severities.antt =====
-- entries.ts: which grade an entry gets, as the comment on `Severity` describes it.
use polkadot_pop_e2e.Common.{Bool, true, ◌≡◌, ◌≢◌, ◌⊎◌, ◌↔◌, arith}
use polkadot_pop_e2e.RuntimeDiff.Papi.{
  CompatibilityLevel, incompatible, backwards_compatible, identical, Papi,
}
use polkadot_pop_e2e.RuntimeDiff.Entries.{breaking, partial, severity_of}

module _ (papi : Papi) where
  -- An entry is graded breaking exactly when the SDK's code reads it, the candidate is
  -- incompatible with it and live was not; it is graded partial exactly when the SDK's code
  -- reads it, the candidate fits it partially, and live fitted it at least backwards compatibly.
  pub severity_of_iff :
      (live candidate : CompatibilityLevel) (sdk_ref : Bool)
      → ((severity_of papi live candidate sdk_ref ≡ breaking)
          ↔ ((sdk_ref ≡ true) × (candidate ≡ incompatible) × (live ≢ incompatible)))
        × ((severity_of papi live candidate sdk_ref ≡ partial) ↔ (
            (sdk_ref ≡ true)
            × (candidate ≡ CompatibilityLevel.partial)
            × ((live ≡ backwards_compatible) ⊎ (live ≡ identical))))
  unfolding severity_of
  severity_of_iff incompatible incompatible r =
      ground (
        arith, papi.incompatible-lt-partial, papi.partial-lt-backwards, papi.backwards-lt-identical,
      )
  severity_of_iff live candidate r =
      ground (
        arith, papi.incompatible-lt-partial, papi.partial-lt-backwards, papi.backwards-lt-identical,
      )
