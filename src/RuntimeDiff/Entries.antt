-- ===== src/RuntimeDiff/Entries.antt =====
-- environments/runtime-diff/entries.ts: the entries of the SDK's descriptor, graded against the
-- live runtime and against the candidate.
pub mod Severities
pub mod Paths
pub mod Rows
use Prim.Native.String
use text.Mathlib.Text.{starts_with}
use polkadot_pop_e2e.Common.{
  ℕ, String, Bool, true, false, not, ◌&&◌, ◌||◌, Option, none, some, List, [], ◌∷◌, ◌++◌, flat_map,
  map, if◌then◌else◌, ltb, keep, any, take, find?, includes, sort, ◌==◌,
}
use polkadot_pop_e2e.RuntimeDiff.Papi.{
  CompatibilityLevel, incompatible, backwards_compatible, identical, CompatResult, Papi, Collation,
}

pub data Kind : Type 0 where
  storage tx events constants view_fns apis : Kind

abbrev pub kinds : List Kind
kinds = storage ∷ tx ∷ events ∷ constants ∷ view_fns ∷ apis ∷ []

abbrev pub prefix : Kind → String
prefix storage = "query"
prefix tx = "tx"
prefix events = "event"
prefix constants = "constant"
prefix view_fns = "view"
prefix apis = "api"

-- `KINDS.find((kind) => PREFIX[kind] === prefix)`
unfoldable pub kind_of : String → Option Kind
kind_of p = find? (λ kind. prefix kind == p) kinds

abbrev pub selector_of : Kind → String → String → String
selector_of kind group name =
    String.◌++◌ (prefix kind) (String.◌++◌ ":" (String.◌++◌ group (String.◌++◌ "." name)))

pub data Severity : Type 0 where
  breaking partial other : Severity

pub data Side : Type 0 where
  args value : Side

abbrev pub same_side : Side → Side → Bool
same_side args args = true
same_side value value = true
same_side args value = false
same_side value args = false

pub record ChangePath : Type 0 where
  pub side : Side
  pub path : String

pub data Change : Type 0 where
  added removed changed : Change

pub record EntryDiff : Type 0 where
  pub selector : String
  pub change : Change
  pub severity : Severity
  pub sdk_live : String
  pub sdk_candidate : String
  pub paths : List ChangePath
  pub sdk_ref : Bool

-- `LEVEL`
abbrev pub level_name : CompatibilityLevel → String
level_name incompatible = "Incompatible"
level_name CompatibilityLevel.partial = "Partial"
level_name backwards_compatible = "BackwardsCompatible"
level_name identical = "Identical"

-- `===` on levels.
abbrev pub same_level : CompatibilityLevel → CompatibilityLevel → Bool
same_level incompatible incompatible = true
same_level CompatibilityLevel.partial CompatibilityLevel.partial = true
same_level backwards_compatible backwards_compatible = true
same_level identical identical = true
same_level _ _ = false

-- `RANK`
abbrev pub rank : Severity → ℕ
rank breaking = 0
rank partial = 1
rank other = 2

abbrev pub on_side : Side → List String → List ChangePath
on_side s = map (λ p. record { side = s; path = p })

-- `q.side === p.side && q.path.startsWith(`${p.path}.`)`. The source's `q !== p` adds nothing:
-- no path starts with itself and a dot.
abbrev pub is_deeper : ChangePath → ChangePath → Bool
is_deeper q p = same_side q.side p.side && starts_with q.path (String.◌++◌ p.path ".")

abbrev pub deepest : List ChangePath → List ChangePath
deepest paths = keep (λ p. not (any (λ q. is_deeper q p) paths)) paths

abbrev bool_value : Bool → ℕ
bool_value true = 1
bool_value false = 0

module _ (papi : Papi) where
  open papi use {EntryPoint, NodeLookup, level_value, are_compatible}

  -- One side of a comparison: a runtime, or the SDK's descriptor.
  pub record Ctx : Type 0 where
    pub node : NodeLookup
    pub entry : Kind → String → String → Option EntryPoint

  pub record RuntimeCtx : Type 0 where
    pub ctx : Ctx
    pub has_group : Kind → String → Bool

  pub record DescriptorCtx : Type 0 where
    pub ctx : Ctx
    pub names : Kind → List (String × String)

  unfoldable pub lower_level : CompatibilityLevel → CompatibilityLevel → CompatibilityLevel
  lower_level a b = if ltb (level_value a) (level_value b) then a else b

  -- The level that decides an entry of the kind.
  unfoldable pub level_for : Kind → CompatResult → CompatibilityLevel
  unfolding lower_level
  level_for tx r = r.args.level
  level_for constants r = r.values.level
  level_for events r = r.values.level
  level_for _ r = lower_level r.args.level r.values.level

  unfoldable pub sdk_level : Kind → Ctx → EntryPoint → Ctx → String → String → CompatibilityLevel
  unfolding level_for
  sdk_level kind sdk sdk_entry runtime group name = elim (runtime.entry kind group name) [
    | none ↦ incompatible
    | some runtime_entry ↦
        level_for kind (are_compatible sdk_entry sdk.node runtime_entry runtime.node false)
  ]

  unfoldable pub is_breaking : CompatibilityLevel → CompatibilityLevel → Bool
  is_breaking live candidate =
      ltb (level_value candidate) (level_value live)
      && ltb (level_value candidate) (level_value backwards_compatible)

  unfoldable pub severity_of : CompatibilityLevel → CompatibilityLevel → Bool → Severity
  unfolding is_breaking
  severity_of live candidate sdk_ref =
      if not sdk_ref || not (is_breaking live candidate)
      then other
      else if same_level candidate incompatible
      then breaking
      else partial

  unfoldable pub changed_paths : EntryPoint → Ctx → EntryPoint → Ctx → Option (List ChangePath)
  changed_paths a live b candidate =
      let result = are_compatible a live.node b candidate.node true in
      if same_level result.args.level identical && same_level result.values.level identical
      then none
      else some (
          take 8
            (deepest (on_side args result.args.changes ++ on_side value result.values.changes)))

  -- `a && b ? changedPaths(a, live, b, candidate) : []`
  paths_between : Option EntryPoint → Ctx → Option EntryPoint → Ctx → Option (List ChangePath)
  paths_between (some a) live (some b) candidate = changed_paths a live b candidate
  paths_between none live b candidate = some []
  paths_between a live none candidate = some []

  -- `!b ? "removed" : !a ? "added" : "changed"`
  change_of : Option EntryPoint → Option EntryPoint → Change
  change_of a none = removed
  change_of none (some b) = added
  change_of (some a) (some b) = changed

  -- `!a && !b`
  abbrev both_missing : Option EntryPoint → Option EntryPoint → Bool
  both_missing none none = true
  both_missing _ _ = false

  module _ (sdk : DescriptorCtx) (live candidate : Ctx) (sdk_refs : List String) where
    graded : Kind → String → String → EntryPoint → List ChangePath → EntryDiff
    unfolding severity_of sdk_level change_of
    graded kind group name sdk_entry paths =
        let before = sdk_level kind sdk.ctx sdk_entry live group name in
        let after = sdk_level kind sdk.ctx sdk_entry candidate group name in
        let selector = selector_of kind group name in
        let sdk_ref = includes sdk_refs selector in
        record {
          selector = selector;
          change = change_of (live.entry kind group name) (candidate.entry kind group name);
          severity = severity_of before after sdk_ref;
          sdk_live = level_name before;
          sdk_candidate = level_name after;
          paths = paths;
          sdk_ref = sdk_ref;
        }

    -- The body of the inner loop: the row that it pushes, if any.
    row_for : Kind → String × String → List EntryDiff
    unfolding graded paths_between changed_paths
    row_for kind (group, name) = elim (sdk.ctx.entry kind group name) [
      | none ↦ []
      | some sdk_entry ↦
          let a = live.entry kind group name in
          let b = candidate.entry kind group name in
          let rows : List EntryDiff = elim (paths_between a live b candidate) [
            | none ↦ []
            | some paths ↦ graded kind group name sdk_entry paths ∷ []
          ] in
          if both_missing a b then [] else rows
    ]

    -- `out` before it is sorted.
    pub unsorted_rows : List EntryDiff
    unfolding row_for
    unsorted_rows = flat_map (λ kind. flat_map (row_for kind) (sdk.names kind)) kinds

  -- The comparator's result is at most 0.
  unfoldable pub row_le : Collation → EntryDiff → EntryDiff → Bool
  row_le collation x y =
      if ltb (rank x.severity) (rank y.severity)
      then true
      else if ltb (rank y.severity) (rank x.severity)
      then false
      else if ltb (bool_value y.sdk_ref) (bool_value x.sdk_ref)
      then true
      else if ltb (bool_value x.sdk_ref) (bool_value y.sdk_ref)
      then false
      else collation.locale_le x.selector y.selector

  unfoldable pub diff_entries : Collation → DescriptorCtx → Ctx → Ctx → List String → List EntryDiff
  unfolding unsorted_rows row_le
  diff_entries collation sdk live candidate sdk_refs =
      sort (row_le collation) (unsorted_rows sdk live candidate sdk_refs)
