-- ===== src/ReleaseGate/Artifacts.antt =====
-- environments/artifact-pins.mjs: the file that a pin of an artifact means. A thrown error ends the
-- program, which then writes no manifest.
use polkadot_pop_e2e.Common.{
  String, Bool, true, false, not, ◌||◌, Option, none, some, List, [], ◌∷◌, map, keep, find?,
  flat_map, if◌then◌else◌, ◌==◌, Result, ok, err, ◌>>=◌, for_each, field, or_empty, unique, sort,
  is_blank, has_suffix, starts, cat, join,
}
use polkadot_pop_e2e.ReleaseGate.Chains.{chains}
use polkadot_pop_e2e.ReleaseGate.Pins.{
  Manifest, ChainPin, Ref, local, artifact, release, Invalid, parse_release_ref, artifact_prefix,
  file_prefix,
}

pub record Spec : Type 0 where
  pub spec_name : Option String
  pub compressed : Bool

-- `io`: `spec_of` is `none` where it throws.
pub record Io : Type 0 where
  pub list : String → List String
  pub spec_of : String → Option Spec
  pub live_spec_name : String → Option String

pub data Unresolved : Type 0 where
  invalid_pin : (why : Invalid) → Unresolved
  not_in_artifact : (chain within : String) → Unresolved
  no_live_name : (chain : String) → Unresolved
  none_declares : (chain expected : String) → Unresolved

pub data Resolution : Type 0 where
  named_outright : (chain file : String) → Resolution
  declares : (chain file expected : String) (several : Bool) → Resolution

pub record Declared : Type 0 where
  pub file : String
  pub spec : Spec

-- `safeSpec`
abbrev pub safe_spec : Io → String → Spec
safe_spec io file = elim (io.spec_of file) [
  | none ↦ record { spec_name = none; compressed = false }
  | some spec ↦ spec
]

abbrev pub declared_files : Io → List String → List Declared
declared_files io files =
    map (λ file. record { file = file; spec = safe_spec io file }) (keep (has_suffix ".wasm") files)

abbrev pub declares_name : String → Declared → Bool
declares_name expected d = elim d.spec.spec_name [ none ↦ false | some name ↦ name == expected ]

-- `Number(b.compressed) - Number(a.compressed) <= 0`
abbrev pub compressed_first : Declared → Declared → Bool
compressed_first a b = a.spec.compressed || not b.spec.compressed

abbrev pub hits_of : Io → List String → String → List Declared
hits_of io files expected = keep (declares_name expected) (declared_files io files)

abbrev pub file_pin : String → String
file_pin file = cat (file_prefix ∷ file ∷ [])

-- The new pin, and the note.
abbrev pub by_spec : Io → String → List String → String → Result Unresolved (String × Resolution)
by_spec io chain files expected = elim (sort compressed_first (hits_of io files expected)) [
  | [] ↦ err (none_declares chain expected)
  | hit ∷ more ↦ elim more [
    | [] ↦ ok (file_pin hit.file, declares chain hit.file expected false)
    | _ ∷ _ ↦ ok (file_pin hit.file, declares chain hit.file expected true)
  ]
]

abbrev pub by_name : String → List String → String → Result Unresolved (String × Resolution)
by_name chain files within = elim (find? (has_suffix within) files) [
  | none ↦ err (not_in_artifact chain within)
  | some hit ↦ ok (file_pin hit, named_outright chain hit)
]

abbrev pub by_live_name : Io → String → List String → Result Unresolved (String × Resolution)
by_live_name io chain files = elim (io.live_spec_name chain) [
  | none ↦ err (no_live_name chain)
  | some expected ↦
      if is_blank expected then err (no_live_name chain) else by_spec io chain files expected
]

abbrev pub within_path : Option String → Option String
within_path none = none
within_path (some path) = if is_blank path then none else some path

-- A pin that starts with `artifact:` parses to an artifact, so the other forms are not reached.
abbrev pub resolve_ref : Io → String → Ref → Result Unresolved (String × Resolution)
resolve_ref io chain (artifact name within) = elim (within_path within) [
  | some path ↦ by_name chain (io.list name) path
  | none ↦ by_live_name io chain (io.list name)
]
resolve_ref io chain (local file) = by_live_name io chain (io.list "undefined")
resolve_ref io chain (release repo tag) = by_live_name io chain (io.list "undefined")

abbrev pub resolve_pin : Io → String → String → Result Unresolved (String × Resolution)
resolve_pin io chain pin = elim (parse_release_ref pin) [
  | err why ↦ err (invalid_pin why)
  | ok ref ↦ resolve_ref io chain ref
]

abbrev pub artifact_pin : ChainPin → Option String
artifact_pin entry = elim entry.runtime [
  | none ↦ none
  | some pin ↦ if starts artifact_prefix pin then some pin else none
]

abbrev pub resolve_chain :
    Io → String × ChainPin → Result Unresolved ((String × ChainPin) × List Resolution)
resolve_chain io (chain, entry) = elim (artifact_pin entry) [
  | none ↦ ok ((chain, entry), [])
  | some pin ↦ do
    found ← resolve_pin io chain pin
    ok ((chain, record entry { runtime = some found.0 }), found.1 ∷ [])
]

-- The manifest as the loop leaves it, and the notes.
unfoldable pub resolve_artifact_pins :
    Manifest → Io → Result Unresolved (Manifest × List Resolution)
resolve_artifact_pins manifest io = elim manifest.chains [
  | none ↦ ok (manifest, [])
  | some entries ↦ do
    rounds ← for_each (resolve_chain io) entries
    ok (record manifest { chains = some (map (λ r. r.0) rounds) }, flat_map (λ r. r.1) rounds)
]

-- The command line: the artifacts that a manifest needs, as one pattern of a download.
abbrev pub name_of_ref : Ref → String
name_of_ref (artifact name within) = name
name_of_ref _ = "undefined"

abbrev pub artifact_names : Manifest → Result Invalid (List String)
artifact_names manifest = do
  names ←
      for_each (λ pin. parse_release_ref pin >>= λ ref. ok (name_of_ref ref))
        (flat_map (λ entry. elim (artifact_pin entry.1) [ none ↦ [] | some pin ↦ pin ∷ [] ])
          (or_empty manifest.chains))
  ok (unique (λ a b. a == b) names)

unfoldable pub download_pattern : Manifest → Result Invalid String
download_pattern manifest = artifact_names manifest >>= λ names. elim names [
  | [] ↦ ok ""
  | name ∷ more ↦ elim more [
    | [] ↦ ok name
    | other ∷ rest ↦ ok (cat ("{" ∷ join "," (name ∷ other ∷ rest) ∷ "}" ∷ []))
  ]
]

-- `list` and `liveSpecName` of the command line, over the files below a directory and the call of
-- a node.
unfoldable pub list_artifact : (walk : Option String → List String) → String → List String
list_artifact walk name = elim (walk (some name)) [ [] ↦ walk none | file ∷ files ↦ file ∷ files ]

unfoldable pub live_name : (rpc : String → Option String) → Manifest → String → Option String
live_name rpc manifest chain = elim (field (or_empty (field chains manifest.network)) chain) [
  | none ↦ none
  | some entry ↦ if is_blank entry.ws then none else rpc entry.ws
]
