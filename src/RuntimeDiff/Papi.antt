-- ===== src/RuntimeDiff/Papi.antt =====
-- What the diff takes from polkadot-api's metadata packages and from the collation of the host:
-- parameters of the model, with the behaviour that their documentation states.
use polkadot_pop_e2e.Common.{ℕ, ◌<◌, String, Bool, List, IsTotalOrder}

-- The levels that the source names; their numbers are the package's.
pub data CompatibilityLevel : Type 0 where
  incompatible partial backwards_compatible identical : CompatibilityLevel

-- One side of a compatibility result: its level and the paths that changed.
pub record SideResult : Type 0 where
  pub level : CompatibilityLevel
  pub changes : List String

pub record CompatResult : Type 0 where
  pub args : SideResult
  pub values : SideResult

-- `NodeLookup` stands for a `(id: number) => TypedefNode`, which the source only hands on. The
-- last argument of `are_compatible` is `includeChanges`. `lookup_entry` makes an entry point of two
-- type references.
pub record Papi : Type 1 where
  pub EntryPoint : Type 0
  pub NodeLookup : Type 0
  pub level_value : CompatibilityLevel → ℕ
  pub are_compatible : EntryPoint → NodeLookup → EntryPoint → NodeLookup → Bool → CompatResult
  pub lookup_entry : ℕ → ℕ → EntryPoint
  pub incompatible-lt-partial : level_value incompatible < level_value partial
  pub partial-lt-backwards : level_value partial < level_value backwards_compatible
  pub backwards-lt-identical : level_value backwards_compatible < level_value identical

-- `a.localeCompare(b) <= 0`.
pub record Collation : Type 0 where
  pub locale_le : String → String → Bool
  pub locale_order : IsTotalOrder locale_le
