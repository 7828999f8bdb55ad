-- ===== src/RuntimeDiff/Views.antt =====
-- entries.ts, `runtimeCtx` and `descriptorCtx`: the lookups of a runtime's metadata and of an SDK
-- descriptor. The shapes of the metadata and its entry points are the packages'.
pub mod Entries
use polkadot_pop_e2e.Common.{
  ℕ, String, Bool, true, false, Option, none, some, List, [], ◌∷◌, map, flat_map, get_elem?,
  if◌then◌else◌, ◌==◌,
}
use polkadot_pop_e2e.RuntimeDiff.Papi.{Papi}
use polkadot_pop_e2e.RuntimeDiff.Entries.{
  Kind, storage, tx, events, constants, view_fns, apis, RuntimeCtx, DescriptorCtx,
}

-- A `Map` from a list of pairs: the last pair of a key counts.
abbrev pub get {ℓ} : {A : Type ℓ} → List (String × A) → String → Option A
get [] key = none
get ((k, a) ∷ rest) key = elim (get rest key) [
  | some b ↦ some b
  | none ↦ if k == key then some a else none
]

abbrev pub has {ℓ} : {A : Type ℓ} → List (String × A) → String → Bool
has [] key = false
has ((k, a) ∷ rest) key = if k == key then true else has rest key

-- An object: one value for a key.
abbrev pub field {ℓ} : {A : Type ℓ} → List (String × A) → String → Option A
field [] key = none
field ((k, a) ∷ rest) key = if k == key then some a else field rest key

-- The package's functions that make an entry point or a node of a part of the metadata.
pub record Shapes (papi : Papi) : Type 1 where
  pub Node : Type 0
  pub Item : Type 0
  pub Variant : Type 0
  pub Method : Type 0
  pub variants_of : ℕ → Option (List (String × Variant))
  pub nodes : papi.NodeLookup
  pub storage_entry : Item → papi.EntryPoint
  pub enum_value_node : Variant → Node
  pub void_node : Node
  pub entry_of : (args values : Node) → papi.EntryPoint
  pub single_value_entry : ℕ → papi.EntryPoint
  pub runtime_call_entry : Method → papi.EntryPoint

module _ (papi : Papi) (shapes : Shapes papi) where
  open papi use {EntryPoint}

  -- `none` where the metadata has no such part.
  pub record Pallet : Type 0 where
    pub name : String
    pub storage_items : Option (List (String × shapes.Item))
    pub calls : Option ℕ
    pub event_type : Option ℕ
    pub constant_types : List (String × ℕ)
    pub view_methods : Option (List (String × shapes.Method))

  pub record RuntimeMetadata : Type 0 where
    pub pallets : List Pallet
    pub api_methods : List (String × List (String × shapes.Method))

  abbrev pub or_empty {ℓ} : {A : Type ℓ} → Option (List A) → List A
  or_empty none = []
  or_empty (some list) = list

  -- An entry of a type that is not an enum has no variants.
  abbrev pub variants : Option ℕ → List (String × shapes.Variant)
  variants none = []
  variants (some type) = or_empty (shapes.variants_of type)

  abbrev each {ℓ} : {A : Type ℓ} → (A → EntryPoint) → List (String × A) → List (String × EntryPoint)
  each f = map (λ p. (p.0, f p.1))

  -- What the loop over the pallets sets for a kind.
  abbrev pub pallet_entries : Kind → Pallet → List (String × EntryPoint)
  pallet_entries storage p = each shapes.storage_entry (or_empty p.storage_items)
  pallet_entries tx p =
      each (λ v. shapes.entry_of (shapes.enum_value_node v) shapes.void_node) (variants p.calls)
  pallet_entries events p =
      each (λ v. shapes.entry_of shapes.void_node (shapes.enum_value_node v))
        (variants p.event_type)
  pallet_entries constants p = each shapes.single_value_entry p.constant_types
  pallet_entries view_fns p = each shapes.runtime_call_entry (or_empty p.view_methods)
  pallet_entries apis p = []

  abbrev pub entries_of : RuntimeMetadata → Kind → List (String × List (String × EntryPoint))
  entries_of metadata apis =
      map (λ api. (api.0, each shapes.runtime_call_entry api.1)) metadata.api_methods
  entries_of metadata kind = map (λ p. (p.name, pallet_entries kind p)) metadata.pallets

  -- `entries[kind].get(group)?.get(name)`
  abbrev pub get_in : Option (List (String × EntryPoint)) → String → Option EntryPoint
  get_in none name = none
  get_in (some group) name = get group name

  unfoldable pub runtime_ctx : RuntimeMetadata → RuntimeCtx papi
  runtime_ctx metadata = record {
    ctx = record {
      node = shapes.nodes;
      entry = λ kind group name. get_in (get (entries_of metadata kind) group) name;
    };
    has_group = λ kind group. has (entries_of metadata kind) group;
  }

  -- The decoded parts of a descriptor: its entry points, and the index of each name by kind and group.
  pub record Decoded : Type 0 where
    pub entry_points : List EntryPoint
    pub values : Kind → Option (List (String × List (String × ℕ)))
    pub node : papi.NodeLookup

  abbrev index_in : Option (List (String × ℕ)) → String → Option ℕ
  index_in none name = none
  index_in (some members) name = field members name

  -- `values[kind]?.[group]?.[name]`
  abbrev pub index_of : Decoded → Kind → String → String → Option ℕ
  index_of d kind group name = index_in (field (or_empty (d.values kind)) group) name

  abbrev point_at : Decoded → Option ℕ → Option EntryPoint
  point_at d none = none
  point_at d (some index) = get_elem? d.entry_points index

  abbrev group_names : String × List (String × ℕ) → List (String × String)
  group_names (group, members) = map (λ m. (group, m.0)) members

  unfoldable pub descriptor_ctx : Decoded → DescriptorCtx papi
  descriptor_ctx d = record {
    ctx = record {
      node = d.node;
      entry = λ kind group name. point_at d (index_of d kind group name);
    };
    names = λ kind. flat_map group_names (or_empty (d.values kind));
  }
