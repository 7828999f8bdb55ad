-- ===== src/ReleaseGate/Pins.antt =====
-- environments/release-map.mjs, `parseReleaseRef`, `assertNoLocalPins` and `platformAssetSuffix`:
-- the forms of a pin, and the manifest that holds them. Pins are texts.
mod Spans
mod Words
pub mod Local
pub mod Printed
use Prim.Native.String
use polkadot_pop_e2e.Common.{
  ℕ, String, Bool, false, not, ◌&&◌, ◌||◌, Option, none, some, List, [], ◌∷◌, ◌++◌, flat_map, any,
  if◌then◌else◌, ◌==◌, eqb, leb, Result, ok, err, Object, or_empty, trim, span, every, is_space,
  is_blank, starts, after_prefix, cat,
}

-- An entry of `manifest.chains`; `binary` is a key that no manifest may have.
pub record ChainPin : Type 0 where
  pub binary : Option String
  pub runtime : Option String

-- `none` where the manifest has no such key.
pub record Manifest : Type 0 where
  pub network : String
  pub base : String
  pub chains : Option (Object ChainPin)
  pub binaries : Option (Object String)
  pub services : Option (Object String)
  pub tests : Option (List String)

-- A parsed pin: a file, an artifact with the path inside it, a release.
pub data Ref : Type 0 where
  local : (file : String) → Ref
  artifact : (name : String) (within : Option String) → Ref
  release : (repo tag : String) → Ref

pub data Invalid : Type 0 where
  needs_path : (ref : String) → Invalid
  needs_name : (ref : String) → Invalid
  not_a_ref : (ref : String) → Invalid

abbrev pub file_prefix : String
file_prefix = "file:"

abbrev pub artifact_prefix : String
artifact_prefix = "artifact:"

-- `[\w.-]`
abbrev pub is_word : ℕ → Bool
is_word c =
    leb 48 c && leb c 57
    || leb 65 c && leb c 90
    || leb 97 c && leb c 122
    || eqb c 95
    || eqb c 46
    || eqb c 45

abbrev pub is_not_slash : ℕ → Bool
is_not_slash c = not (eqb c 47)

abbrev pub is_not_space : ℕ → Bool
is_not_space c = not (is_space c)

-- `rest` behind `artifact:`, cut at its first slash.
abbrev pub artifact_of : String × String → Ref
artifact_of (name, String.[]) = artifact name none
artifact_of (name, String.◌∷◌ slash within) = artifact name (some within)

abbrev pub artifact_ref : String → Ref
artifact_ref rest = artifact_of (span is_not_slash rest)

-- A non-empty run of word characters, the separator, and what follows.
pub word_before : String → String → Option (String × String)
word_before separator s =
    let parts = span is_word s in
    if is_blank parts.0
    then none
    else elim (after_prefix separator parts.1) [ none ↦ none | some rest ↦ some (parts.0, rest) ]

-- `/^([\w.-]+\/[\w.-]+)@(\S+)$/`: no character of the first group is a slash or an at sign, so the
-- match is the only one.
pub release_ref : String → Option Ref
unfolding word_before
release_ref raw = elim (word_before "/" raw) [
  | none ↦ none
  | some (owner, behind) ↦ elim (word_before "@" behind) [
    | none ↦ none
    | some (name, tag) ↦
        if not (is_blank tag) && every is_not_space tag
        then some (release (cat (owner ∷ "/" ∷ name ∷ [])) tag)
        else none
  ]
]

-- The forms of a pin, of which `raw` is the trimmed text.
abbrev pub parse_release : String → String → Result Invalid Ref
parse_release ref raw = elim (release_ref raw) [
  | some parsed ↦ ok parsed
  | none ↦ err (not_a_ref ref)
]

abbrev pub parse_artifact : String → String → Result Invalid Ref
parse_artifact ref raw = elim (after_prefix artifact_prefix raw) [
  | some rest ↦ if is_blank rest then err (needs_name ref) else ok (artifact_ref rest)
  | none ↦ parse_release ref raw
]

abbrev pub parse_trimmed : String → String → Result Invalid Ref
parse_trimmed ref raw = elim (after_prefix file_prefix raw) [
  | some file ↦ if is_blank file then err (needs_path ref) else ok (local file)
  | none ↦ parse_artifact ref raw
]

unfoldable pub parse_release_ref : String → Result Invalid Ref
unfolding release_ref
parse_release_ref ref = parse_trimmed ref (trim ref)

-- `EPHEMERAL_PREFIXES`
abbrev pub ephemeral_prefixes : List String
ephemeral_prefixes = file_prefix ∷ artifact_prefix ∷ []

abbrev pub is_ephemeral : Option String → Bool
is_ephemeral none = false
is_ephemeral (some pin) = any (λ prefix. starts prefix pin) ephemeral_prefixes

-- The fields that `assertNoLocalPins` names.
pub data PinField : Type 0 where
  runtime_of : (chain : String) → PinField
  binary_of : (slot : String) → PinField
  service_of : (name : String) → PinField

abbrev pub ephemeral_fields {ℓ} :
    {A : Type ℓ} → (A → Option String) → (String → PinField) → Object A → List PinField
ephemeral_fields pin_of named object =
    flat_map (λ entry. if is_ephemeral (pin_of entry.1) then named entry.0 ∷ [] else []) object

abbrev pub local_pins : Manifest → List PinField
local_pins manifest =
    ephemeral_fields (λ pin. pin.runtime) runtime_of (or_empty manifest.chains)
    ++ ephemeral_fields some binary_of (or_empty manifest.binaries)
    ++ ephemeral_fields some service_of (or_empty manifest.services)

unfoldable pub assert_no_local_pins : Manifest → Result (List PinField) Manifest
assert_no_local_pins manifest =
    let bad = local_pins manifest in elim bad [ [] ↦ ok manifest | pin ∷ pins ↦ err (pin ∷ pins) ]

-- `none` where no release assets exist.
abbrev pub platform_asset_suffix : String → String → Option String
platform_asset_suffix platform arch =
    if platform == "linux" && arch == "x64"
    then some ""
    else if platform == "darwin" && arch == "arm64"
    then some "-aarch64-apple-darwin"
    else none
