-- ===== src/ReleaseGate/Builds.antt =====
-- environments/client-builds.mjs: the client packages that a run requests, and the package files
-- that pin them. The versions that npm resolves are given.
use Prim.Native.Char.{code}
use polkadot_pop_e2e.Common.{
  ℕ, String, Bool, false, not, ◌&&◌, ◌||◌, Option, none, some, List, [], ◌∷◌, ◌++◌, map, keep,
  if◌then◌else◌, ◌==◌, eqb, leb, Result, ok, err, ◌>>=◌, require, Object, field, put, put_all,
  has_key, or_empty, keys, unique, sort, span, every, is_space, is_blank, is_set, starts, mentions,
  after_prefix, cat, join, text_or,
}
use polkadot_pop_e2e.ReleaseGate.Candidates.{text_le}

abbrev pub truapi_package : String
truapi_package = "@parity/truapi"

abbrev pub scope : String
scope = "@parity/"

pub data BuildError : Type 0 where
  not_a_spec : (spec : String) → BuildError
  has_a_field : BuildError
  twice : (name : String) → BuildError
  not_installed : (name : String) → BuildError

-- `(text ?? '').split(/[\s,]+/).filter(Boolean)`
abbrev pub is_separator : ℕ → Bool
is_separator c = is_space c || eqb c 44

abbrev pub words_from : String → String × List String
words_from String.[] = ("", [])
words_from (String.◌∷◌ c s) =
    let rest = words_from s in
    if is_separator (code c)
    then ("", if is_blank rest.0 then rest.1 else rest.0 ∷ rest.1)
    else (String.◌∷◌ c rest.0, rest.1)

abbrev pub words : String → List String
words text = let all = words_from text in if is_blank all.0 then all.1 else all.0 ∷ all.1

abbrev pub is_lower : ℕ → Bool
is_lower c = leb 48 c && leb c 57 || leb 97 c && leb c 122

abbrev pub is_package_name : String → Bool
is_package_name String.[] = false
is_package_name (String.◌∷◌ c s) = is_lower (code c) && every (λ d. is_lower d || eqb d 45) s

-- `SPEC`: the first group ends at its at sign, since it has no other.
unfoldable pub match_spec : String → Option (String × String)
match_spec spec = elim (after_prefix scope spec) [
  | none ↦ none
  | some rest ↦
      let parts = span (λ c. not (eqb c 64)) rest in
      elim (after_prefix "@" parts.1) [
        | none ↦ none
        | some version ↦
            if is_package_name parts.0 && not (is_blank version)
            then some (cat (scope ∷ parts.0 ∷ []), version)
            else none
      ]
]

abbrev pub add_spec : Object String → String → Result BuildError (Object String)
add_spec specs spec = elim (match_spec spec) [
  | none ↦ err (not_a_spec spec)
  | some (name, version) ↦ do
    _ ← require (not (name == truapi_package)) has_a_field
    _ ← require (not (has_key specs name)) (twice name)
    ok (put specs name version)
]

abbrev pub specs_from : Object String → List String → Result BuildError (Object String)
specs_from specs [] = ok specs
specs_from specs (spec ∷ rest) = add_spec specs spec >>= λ next. specs_from next rest

unfoldable pub parse_specs : Option String → Result BuildError (Object String)
unfolding match_spec
parse_specs none = ok []
parse_specs (some text) = specs_from [] (words text)

-- `CLIENT_PACKAGE`
abbrev pub is_client_package : String → Bool
is_client_package name =
    starts "@parity/product-sdk" name
    || starts "@parity/bulletin-sdk" name
    || name == truapi_package

-- The parts of the package files that are read or written.
pub record TestsPackage : Type 0 where
  pub dependencies : Option (Object String)
  pub dev_dependencies : Option (Object String)

pub record Row : Type 0 where
  pub name : String
  pub pinned : Option String
  pub tested : Option String

-- `root` is `pnpm.overrides` of the root file.
pub record Applied : Type 0 where
  pub root : Option (Object String)
  pub tests : TestsPackage
  pub rows : List Row

abbrev pub repinned : String → String → Option (Object String) → Option (Object String)
repinned name version none = none
repinned name version (some deps) =
    if is_set (field deps name) then some (put deps name version) else some deps

abbrev pub pin_build : String × String → Applied → Applied
pin_build (name, version) next = record next {
  root = some (put (or_empty next.root) name version);
  tests = record {
    dependencies = repinned name version next.tests.dependencies;
    dev_dependencies = repinned name version next.tests.dev_dependencies;
  };
}

abbrev pub pin_builds : String → Object String → Applied → Result BuildError Applied
pin_builds lockfile [] next = ok next
pin_builds lockfile ((name, version) ∷ rest) next = do
  _ ← require (mentions (cat (name ∷ "@" ∷ [])) lockfile) (not_installed name)
  pin_builds lockfile rest (pin_build (name, version) next)

abbrev pub pinned_builds : TestsPackage → Object String
pinned_builds tests = put_all [] (
    keep (λ e. is_client_package e.0)
      (or_empty tests.dependencies ++ or_empty tests.dev_dependencies))

abbrev pub requested_builds : Object String → Option String → Object String
requested_builds product_sdk none = product_sdk
requested_builds product_sdk (some version) =
    if is_blank version then product_sdk else put product_sdk truapi_package version

abbrev pub build_row : Object String → Object String → String → Row
build_row pinned requested name = record {
  name = name;
  pinned = field pinned name;
  tested = elim (field requested name) [ some version ↦ some version | none ↦ field pinned name ];
}

abbrev pub rows_of : Object String → Object String → List Row
rows_of pinned requested =
    map (build_row pinned requested)
      (sort text_le (unique (λ a b. a == b) (keys pinned ++ keys requested)))

unfoldable pub apply_builds :
    Object String
    → Option String
    → Option (Object String)
    → TestsPackage
    → String
    → Result BuildError Applied
apply_builds product_sdk truapi root tests lockfile =
    let pinned = pinned_builds tests in
    let requested = requested_builds product_sdk truapi in
    pin_builds lockfile requested
      (record { root = root; tests = tests; rows = rows_of pinned requested })

-- A row's version that is tested is never absent.
abbrev pub cell : Row → String
cell row =
    let tested = text_or "undefined" row.tested in
    elim row.pinned [
      | none ↦ cat ("`" ∷ row.name ∷ "` **" ∷ tested ∷ "** (requested, pinned none)" ∷ [])
      | some pinned ↦
          if tested == pinned
          then cat ("`" ∷ row.name ∷ "` " ∷ tested ∷ [])
          else cat ("`" ∷ row.name ∷ "` **" ∷ tested ∷ "** (requested, pinned " ∷ pinned ∷ ")" ∷ [])
    ]

abbrev pub summary_line : List Row → String
summary_line rows =
    cat ("**product-sdk and truapi under test:** " ∷ join " · " (map cell rows) ∷ [])
