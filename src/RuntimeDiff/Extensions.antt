-- ===== src/RuntimeDiff/Extensions.antt =====
-- environments/runtime-diff/extensions.ts: the transaction extension pipelines of two runtimes,
-- compared version by version. The summary is the list of its sentences; the text is left out.
pub mod Joined
pub mod Pipelines
pub mod Summary
pub mod Versions
use polkadot_pop_e2e.Common.{
  ℕ, String, Bool, true, false, not, ◌&&◌, ◌||◌, Option, none, some, List, [], ◌∷◌, ◌++◌, map,
  if◌then◌else◌, leb, eqb, keep, any, all, find?, includes, sort, flat_map, unique, contains, join,
  ◌==◌,
}
use polkadot_pop_e2e.RuntimeDiff.Papi.{CompatibilityLevel, identical, Papi}
use polkadot_pop_e2e.RuntimeDiff.Entries.{same_level, lower_level, is_breaking}

pub record Extension : Type 0 where
  pub identifier : String
  pub type : ℕ
  pub additional_signed : ℕ

-- `extensionsByVersion`: an object with integer keys.
abbrev pub Pipelines : Type 0
Pipelines = List (ℕ × List Extension)

pub data Status : Type 0 where
  same changed added removed : Status

pub record PipelineRow : Type 0 where
  pub version : ℕ
  pub before : List String
  pub after : List String
  pub status : Status
  pub breaking : Bool
  pub added : List String
  pub removed : List String
  pub reordered : Bool
  pub retyped : List String

pub record Moved : Type 0 where
  pub identifier : String
  pub from : List ℕ
  pub to : List ℕ

-- The clauses of a sentence about a changed version.
pub data Bit : Type 0 where
  gained lost : List String → Bit
  order : Bit
  types : List String → Bit

-- The sentences of the summary. Where there is none it reads "No change.".
pub data Part : Type 0 where
  new_pipeline gone_pipeline : ℕ → Part
  route : List ℕ → List ℕ → List String → Part
  version_change : ℕ → List Bit → Part

abbrev pub ids : List Extension → List String
ids = map (λ e. e.identifier)

unfoldable pub pipeline_at : ℕ → Pipelines → Option (List Extension)
pipeline_at version [] = none
pipeline_at version ((v, list) ∷ rest) =
    if eqb v version then some list else pipeline_at version rest

abbrev pub versions_of : Pipelines → List ℕ
versions_of = map (λ p. p.0)

unfoldable pub all_versions : Pipelines → Pipelines → List ℕ
all_versions live candidate = sort leb (unique eqb (versions_of live ++ versions_of candidate))

abbrev pub ids_of : Option (List Extension) → List String
ids_of none = []
ids_of (some list) = ids list

-- The row before its comparison: `{ version, before, after, added: [], … }`.
abbrev pub empty_row : ℕ → Option (List Extension) → Option (List Extension) → PipelineRow
empty_row version before after = record {
  version = version;
  before = ids_of before;
  after = ids_of after;
  status = same;
  breaking = false;
  added = [];
  removed = [];
  reordered = false;
  retyped = [];
}

abbrev pub is_nonempty {ℓ} : {A : Type ℓ} → List A → Bool
is_nonempty [] = false
is_nonempty (x ∷ xs) = true

-- `a` without the identifiers of `b`, and those that both have.
abbrev pub without : List String → List String → List String
without a b = keep (λ id. not (includes b id)) a

abbrev pub shared : List String → List String → List String
shared a b = keep (λ id. includes b id) a

unfoldable pub is_reordered : List String → List String → Bool
is_reordered before after = not (join "," (shared before after) == join "," (shared after before))

-- `after.find((x) => x.identifier === e.identifier)`
abbrev pub counterpart : List Extension → Extension → Option Extension
counterpart after e = find? (λ x. x.identifier == e.identifier) after

module _ (papi : Papi) where
  -- What the comparison reads of a runtime's metadata: the pipelines, the extrinsic versions, the
  -- type lookup, and the length of `undefined` encoded at a type (`none` where that throws).
  pub record UnifiedMetadata : Type 0 where
    pub extensions_by_version : Pipelines
    pub extrinsic_versions : List ℕ
    pub node : papi.NodeLookup
    pub encode_undefined : ℕ → Option ℕ

  abbrev pub encodes_to_nothing : UnifiedMetadata → ℕ → Bool
  encodes_to_nothing meta id = elim (meta.encode_undefined id) [
    | none ↦ false
    | some size ↦ eqb size 0
  ]

  unfoldable pub empty_in : UnifiedMetadata → Extension → Bool
  empty_in meta e = encodes_to_nothing meta e.type && encodes_to_nothing meta e.additional_signed

  module _ (live_meta candidate_meta : UnifiedMetadata) where
    unfoldable pub type_level : Extension → Option Extension → CompatibilityLevel
    unfolding lower_level
    type_level a none = identical
    type_level a (some b) =
        let r =
          papi.are_compatible (papi.lookup_entry a.type a.additional_signed) live_meta.node
            (papi.lookup_entry b.type b.additional_signed) candidate_meta.node false in
        lower_level papi r.args.level r.values.level

    -- `levels`: the extensions of both sides whose type is not identical, with its level.
    unfoldable pub levels :
        List Extension → List Extension → List String → List (String × CompatibilityLevel)
    unfolding type_level
    levels before after common =
        keep (λ l. not (same_level l.1 identical))
          (map (λ e. (e.identifier, type_level e (counterpart after e)))
            (keep (λ e. includes common e.identifier) before))

    unfoldable pub compare_row : ℕ → List Extension → List Extension → PipelineRow
    unfolding levels is_reordered empty_in is_breaking
    compare_row version before after =
        let added = without (ids after) (ids before) in
        let removed = without (ids before) (ids after) in
        let common = shared (ids before) (ids after) in
        let reordered = is_reordered (ids before) (ids after) in
        let found = levels before after common in
        let retyped = map (λ l. l.0) found in
        let breaking =
          any (λ e. includes added e.identifier && not (empty_in candidate_meta e)) after
          || any (λ e. includes removed e.identifier && not (empty_in live_meta e)) before
          || reordered
          || any (λ l. is_breaking papi identical l.1) found in
        let is_changed =
          breaking
          || is_nonempty added
          || is_nonempty removed
          || reordered
          || is_nonempty retyped in
        record {
          version = version;
          before = ids before;
          after = ids after;
          status = if is_changed then changed else same;
          breaking = breaking;
          added = added;
          removed = removed;
          reordered = reordered;
          retyped = retyped;
        }

    unfoldable pub row_of : ℕ → Option (List Extension) → Option (List Extension) → PipelineRow
    unfolding compare_row
    row_of version none after = record (empty_row version none after) { status = added }
    row_of version (some before) none = record (empty_row version (some before) none) {
      status = removed;
      breaking = true;
    }
    row_of version (some before) (some after) = compare_row version before after

    unfoldable pub row_at : ℕ → PipelineRow
    unfolding row_of pipeline_at
    row_at version =
        row_of version (pipeline_at version live_meta.extensions_by_version)
          (pipeline_at version candidate_meta.extensions_by_version)

    unfoldable pub rows : List PipelineRow
    unfolding all_versions row_at
    rows =
        map row_at
          (all_versions live_meta.extensions_by_version candidate_meta.extensions_by_version)

-- The versions whose pipeline has the extension.
unfoldable pub versions_with : Pipelines → String → List ℕ
versions_with pipelines id = versions_of (keep (λ p. includes (ids p.1) id) pipelines)

-- Some version of the first list is not in the second.
abbrev pub leaves : List ℕ → List ℕ → Bool
leaves from to = any (λ v. not (contains eqb to v)) from

unfoldable pub moved_between : Pipelines → Pipelines → List Moved
unfolding versions_with
moved_between live candidate =
    keep (λ m. leaves m.from m.to && leaves m.to m.from)
      (map
        (λ id. record {
          identifier = id;
          from = versions_with live id;
          to = versions_with candidate id;
        })
        (unique ◌==◌ (flat_map (λ p. ids p.1) live)))

unfoldable pub new_or_gone : PipelineRow → List Part
new_or_gone r = elim r.status [
  | added ↦ new_pipeline r.version ∷ []
  | removed ↦ gone_pipeline r.version ∷ []
  | same ↦ []
  | changed ↦ []
]

abbrev pub same_numbers : List ℕ → List ℕ → Bool
same_numbers [] [] = true
same_numbers (x ∷ xs) (y ∷ ys) = eqb x y && same_numbers xs ys
same_numbers _ _ = false

-- One `routes.set(route, [...(routes.get(route) ?? []), m.identifier])`. The key is the text of the
-- two lists of versions, which determines them.
unfoldable pub add_route :
    List (List ℕ × List ℕ × List String) → Moved → List (List ℕ × List ℕ × List String)
add_route [] m = (m.from, m.to, m.identifier ∷ []) ∷ []
add_route ((from, to, list) ∷ rest) m =
    if same_numbers from m.from && same_numbers to m.to
    then (from, to, list ++ m.identifier ∷ []) ∷ rest
    else (from, to, list) ∷ add_route rest m

unfoldable pub routes_from :
    List (List ℕ × List ℕ × List String) → List Moved → List (List ℕ × List ℕ × List String)
unfolding add_route
routes_from routes [] = routes
routes_from routes (m ∷ ms) = routes_from (add_route routes m) ms

abbrev pub bit_if : Bool → Bit → List Bit
bit_if true b = b ∷ []
bit_if false b = []

unfoldable pub bits_of : List String → PipelineRow → List Bit
bits_of was_moved r =
    let added = without r.added was_moved in
    let removed = without r.removed was_moved in
    bit_if (is_nonempty added) (gained added)
    ++ (bit_if (is_nonempty removed) (lost removed)
        ++ (bit_if r.reordered order ++ bit_if (is_nonempty r.retyped) (types r.retyped)))

unfoldable pub version_part : List String → PipelineRow → List Part
unfolding bits_of
version_part was_moved r = elim r.status [
  | changed ↦
      let bits = bits_of was_moved r in
      if is_nonempty bits then version_change r.version bits ∷ [] else []
  | added ↦ []
  | removed ↦ []
  | same ↦ []
]

unfoldable pub pipeline_summary : List PipelineRow → List Moved → List Part
unfolding new_or_gone routes_from version_part
pipeline_summary rows moved =
    let was_moved = map (λ (m : Moved). m.identifier) moved in
    flat_map new_or_gone rows
    ++ (map (λ r. route r.0 r.1 r.2) (routes_from [] moved)
        ++ flat_map (version_part was_moved) rows)

pub record PipelineDiff : Type 0 where
  pub versions : List PipelineRow
  pub moved : List Moved
  pub summary : List Part
  pub versions_removed : List ℕ
  pub versions_added : List ℕ

module _ (papi : Papi) where
  unfoldable pub diff_pipelines : UnifiedMetadata papi → UnifiedMetadata papi → PipelineDiff
  unfolding rows moved_between pipeline_summary
  diff_pipelines live_meta candidate_meta =
      let versions = rows papi live_meta candidate_meta in
      let moved =
        moved_between live_meta.extensions_by_version candidate_meta.extensions_by_version in
      record {
        versions = versions;
        moved = moved;
        summary = pipeline_summary versions moved;
        versions_removed =
            keep (λ v. not (contains eqb candidate_meta.extrinsic_versions v))
              live_meta.extrinsic_versions;
        versions_added =
            keep (λ v. not (contains eqb live_meta.extrinsic_versions v))
              candidate_meta.extrinsic_versions;
      }
