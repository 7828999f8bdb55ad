-- ===== src/RuntimeDiff/Tests.antt =====
-- entries.ts and extensions.ts on small runtimes.
use polkadot_pop_e2e.Common.{
  ℕ, ◌<◌, ◌≤◌, ◌≡◌, ◌≢◌, ◌↔◌, ◌⊎◌, refl, arith, String, Bool, true, false, Option, none, some, List,
  [], ◌∷◌, map, eqb, ◌==◌, if◌then◌else◌, All, Any, inl, Perm, contains, ◌||◌,
}
use polkadot_pop_e2e.RuntimeDiff.Papi.{
  CompatibilityLevel, incompatible, backwards_compatible, identical, CompatResult, Papi, Collation,
}
use polkadot_pop_e2e.RuntimeDiff.Entries.{
  Kind, tx, breaking, partial, severity_of, args, Ctx, DescriptorCtx, changed_paths, diff_entries,
  unsorted_rows,
}
use polkadot_pop_e2e.RuntimeDiff.Entries.Severities.{severity_of_iff}
use polkadot_pop_e2e.RuntimeDiff.Entries.Paths.{changed_paths-deepest, IsBelow, Covers, reported}
use polkadot_pop_e2e.RuntimeDiff.Entries.Rows.{
  diff_entries_sound, diff_entries_complete, diff_entries-order, IsReported, Describes, AllPrecede,
}
use polkadot_pop_e2e.RuntimeDiff.Extensions.{
  Extension, UnifiedMetadata, compare_row, diff_pipelines, versions_of, same, ids,
}
use polkadot_pop_e2e.RuntimeDiff.Extensions.Joined.{IsPlain}
use polkadot_pop_e2e.RuntimeDiff.Extensions.Pipelines.{
  compare_row-breaking_iff, compare_row-same_iff, IsCompatible, level_of,
}
use polkadot_pop_e2e.RuntimeDiff.Extensions.Summary.{diff_pipelines-no_change_iff}
use polkadot_pop_e2e.RuntimeDiff.Extensions.Versions.{diff_pipelines-versions, IsAscending}
use polkadot_pop_e2e.RuntimeDiff.Views.{Shapes, RuntimeMetadata, runtime_ctx}
use polkadot_pop_e2e.RuntimeDiff.Views.Entries.{IsEntry, runtime_ctx-IsEntry}

abbrev level_number : CompatibilityLevel → ℕ
level_number incompatible = 0
level_number CompatibilityLevel.partial = 1
level_number backwards_compatible = 2
level_number identical = 3

abbrev compared : Bool → CompatResult
compared true = record {
  args = record { level = identical; changes = [] };
  values = record { level = identical; changes = [] };
}
compared false = record {
  args = record { level = incompatible; changes = "call" ∷ "call.amount" ∷ [] };
  values = record { level = identical; changes = [] };
}

-- Types are numbers, and two of them fit when they are the same.
abbrev papi : Papi
papi = record {
  EntryPoint = ℕ;
  NodeLookup = Unit;
  level_value = level_number;
  are_compatible = λ a from b to detailed. compared (eqb a b);
  lookup_entry = λ a b. a;
  incompatible-lt-partial = omega arith;
  partial-lt-backwards = omega arith;
  backwards-lt-identical = omega arith;
}

abbrev collation : Collation
collation = record {
  locale_le = λ a b. true;
  locale_order = record { total = λ x y h. refl; trans = λ x y z h k. refl };
}

abbrev one_call : ℕ → Kind → String → String → Option ℕ
one_call type tx group name = if name == "transfer" then some type else none
one_call type kind group name = none

abbrev one_name : Kind → List (String × String)
one_name tx = ("Balances", "transfer") ∷ []
one_name kind = []

abbrev sdk : DescriptorCtx papi
sdk = record { ctx = record { node = tt; entry = one_call 1 }; names = one_name }

abbrev live : Ctx papi
live = record { node = tt; entry = one_call 1 }

abbrev candidate : Ctx papi
candidate = record { node = tt; entry = one_call 2 }

abbrev refs : List String
refs = "tx:Balances.transfer" ∷ []

severity_of_iff_example :
    ((severity_of papi identical incompatible true ≡ breaking)
      ↔ ((true ≡ true) × (incompatible ≡ incompatible) × (identical ≢ incompatible)))
    × ((severity_of papi identical incompatible true ≡ partial) ↔ (
        (true ≡ true)
        × (incompatible ≡ CompatibilityLevel.partial)
        × ((identical ≡ backwards_compatible) ⊎ (identical ≡ identical))))
severity_of_iff_example = severity_of_iff papi identical incompatible true

changed_paths-deepest_example :
    (1 ≤ 8)
    × All
        (λ p. All (λ q. ¬ IsBelow q p) (reported papi 1 live 2 candidate))
        (record { side = args; path = "call.amount" } ∷ [])
    × (1 < 8
        → All
            (Covers (record { side = args; path = "call.amount" } ∷ []))
            (reported papi 1 live 2 candidate))
unfolding changed_paths
changed_paths-deepest_example =
    changed_paths-deepest papi 1 live 2 candidate
      (record { side = args; path = "call.amount" } ∷ []) refl

diff_entries_sound_example :
    All
      (IsReported papi sdk live candidate refs)
      (diff_entries papi collation sdk live candidate refs)
diff_entries_sound_example = diff_entries_sound papi sdk live candidate refs collation

diff_entries_complete_example :
    Any
      (Describes papi sdk live candidate refs tx "Balances" "transfer")
      (diff_entries papi collation sdk live candidate refs)
diff_entries_complete_example =
    diff_entries_complete papi sdk live candidate refs collation tx "Balances" "transfer" 1
      (inl refl) refl (λ (a, b). cc)

diff_entries-order_example :
    AllPrecede papi collation (diff_entries papi collation sdk live candidate refs)
    × Perm
        (diff_entries papi collation sdk live candidate refs)
        (unsorted_rows papi sdk live candidate refs)
diff_entries-order_example = diff_entries-order papi sdk live candidate refs collation

IsPlain-ids : All IsPlain ("A" ∷ "B" ∷ [])
IsPlain-ids = (((λ e. cc), ((λ e. omega arith), tt)), (((λ e. cc), ((λ e. omega arith), tt)), tt))

IsPlain-swapped : All IsPlain ("B" ∷ "A" ∷ [])
IsPlain-swapped = (IsPlain-ids.1.0, (IsPlain-ids.0, tt))

abbrev extension : String → Extension
extension name = record { identifier = name; type = 1; additional_signed = 0 }

abbrev before : List Extension
before = extension "A" ∷ extension "B" ∷ []

abbrev after : List Extension
after = extension "B" ∷ extension "A" ∷ []

abbrev metadata : List Extension → UnifiedMetadata papi
metadata list = record {
  extensions_by_version = (0, list) ∷ [];
  extrinsic_versions = 4 ∷ 5 ∷ [];
  node = tt;
  encode_undefined = λ type. some 0;
}

compare_row-breaking_iff_example :
    ((compare_row papi (metadata before) (metadata after) 0 before after).breaking ≡ false)
    ↔ IsCompatible papi (metadata before) (metadata after) before after
compare_row-breaking_iff_example =
    compare_row-breaking_iff papi (metadata before) (metadata after) 0 before after IsPlain-ids
      IsPlain-swapped

compare_row-same_iff_example :
    ((compare_row papi (metadata before) (metadata after) 0 before after).status ≡ same) ↔ (
      (ids before ≡ ids after)
      × All (λ e. level_of papi (metadata before) (metadata after) after e ≡ identical) before)
compare_row-same_iff_example =
    compare_row-same_iff papi (metadata before) (metadata after) 0 before after IsPlain-ids
      IsPlain-swapped

diff_pipelines-no_change_iff_example :
    ((diff_pipelines papi (metadata before) (metadata after)).summary ≡ []) ↔ (
      All (λ r. r.status ≡ same) (diff_pipelines papi (metadata before) (metadata after)).versions
      × ((diff_pipelines papi (metadata before) (metadata after)).moved ≡ []))
diff_pipelines-no_change_iff_example =
    diff_pipelines-no_change_iff papi (metadata before) (metadata after)

diff_pipelines-versions_example :
    IsAscending
      (map (λ r. r.version) (diff_pipelines papi (metadata before) (metadata after)).versions)
    × ((v : ℕ)
        → contains eqb
            (map (λ r. r.version) (diff_pipelines papi (metadata before) (metadata after)).versions)
            v
          ≡ (contains eqb (versions_of (metadata before).extensions_by_version) v
              || contains eqb (versions_of (metadata after).extensions_by_version) v))
diff_pipelines-versions_example = diff_pipelines-versions papi (metadata before) (metadata after)

abbrev shapes : Shapes papi
shapes = record {
  Node = ℕ;
  Item = ℕ;
  Variant = ℕ;
  Method = ℕ;
  variants_of = λ type. some (("transfer", 1) ∷ []);
  nodes = tt;
  storage_entry = λ item. item;
  enum_value_node = λ v. v;
  void_node = 0;
  entry_of = λ a b. a;
  single_value_entry = λ type. type;
  runtime_call_entry = λ method. method;
}

abbrev balances : RuntimeMetadata papi shapes
balances = record {
  pallets =
      record {
        name = "Balances";
        storage_items = none;
        calls = some 3;
        event_type = none;
        constant_types = [];
        view_methods = none;
      }
      ∷ [];
  api_methods = [];
}

runtime_ctx-IsEntry_example :
    ((runtime_ctx papi shapes balances).ctx.entry tx "Balances" "transfer" ≡ some 1)
    ↔ IsEntry papi shapes balances tx "Balances" "transfer" 1
runtime_ctx-IsEntry_example = runtime_ctx-IsEntry papi shapes balances tx "Balances" "transfer" 1
