-- ===== src/ReleaseGate/Plans.antt =====
-- environments/release-map.mjs, `runtimePlan`, `binaryPlan`, `ppnOverrides`, `envTagPins` and
-- `validateManifest`: what a manifest may pin, and what is delivered for it. The keys of an object
-- are its own.
pub mod Pinned
pub mod Valid
use polkadot_pop_e2e.Common.{
  String, Bool, true, false, not, Option, none, some, List, [], ◌∷◌, ◌++◌, map, flat_map,
  if◌then◌else◌, ◌==◌, Result, ok, err, ◌>>=◌, for_each, require, demand, Done, Object, field, keys,
  put, or_empty, includes, unique, is_set, is_blank, join, cat,
}
use polkadot_pop_e2e.ReleaseGate.Chains.{Chain, chains}
use polkadot_pop_e2e.ReleaseGate.Services.{Service, node_binaries, services}
use polkadot_pop_e2e.ReleaseGate.Pins.{
  ChainPin, Manifest, Ref, local, artifact, release, Invalid, parse_release_ref,
}

-- What the functions throw; `type_error` is a read of a property of `undefined`. A repository is
-- `none` for a pin that is no release.
pub data PlanError : Type 0 where
  unknown_network : (network : String) → PlanError
  unsupported_base : (base : String) → PlanError
  no_chains : PlanError
  unknown_chain : (chain : String) → PlanError
  pins_a_binary : (chain : String) → PlanError
  no_runtime : (chain : String) → PlanError
  unknown_slot : (slot : String) → PlanError
  unpinned_slot : (slot : String) → PlanError
  no_tests : PlanError
  invalid : (pin : Invalid) → PlanError
  wrong_runtime : (chain : String) (repo : Option String) → PlanError
  wrong_binary : (slot : String) (repo : Option String) → PlanError
  unknown_service : (name : String) → PlanError
  wrong_service : (name : String) (repo : Option String) → PlanError
  type_error : PlanError

abbrev pub parsed : String → Result PlanError Ref
parsed pin = elim (parse_release_ref pin) [ ok ref ↦ ok ref | err why ↦ err (invalid why) ]

-- `String(pin)`
abbrev pub pin_text : Option String → String
pin_text none = "undefined"
pin_text (some pin) = pin

pub data PlanEntry : Type 0 where
  from_file : (chain file : String) → PlanEntry
  from_artifact : (chain name : String) (within : Option String) → PlanEntry
  from_release : (chain repo tag asset : String) → PlanEntry

-- The branches on a parsed pin; an empty name of an artifact counts as none.
abbrev pub plan_ref : String → Object String → Ref → Result PlanError PlanEntry
plan_ref chain sources (local file) = ok (from_file chain file)
plan_ref chain sources (artifact name within) =
    if is_blank name then err (wrong_runtime chain none) else ok (from_artifact chain name within)
plan_ref chain sources (release repo tag) = elim (field sources repo) [
  | none ↦ err (wrong_runtime chain (some repo))
  | some asset ↦ ok (from_release chain repo tag asset)
]

abbrev pub plan_chain : Option (Object Chain) → String × ChainPin → Result PlanError PlanEntry
plan_chain known (chain, pin) = do
  listed ← demand known type_error
  entry ← demand (field listed chain) type_error
  ref ← parsed (pin_text pin.runtime)
  plan_ref chain entry.runtime ref

unfoldable pub runtime_plan : Manifest → Result PlanError (List PlanEntry)
runtime_plan manifest = do
  entries ← demand manifest.chains type_error
  for_each (plan_chain (field chains manifest.network)) entries

abbrev pub repo_of : Ref → Option String
repo_of (release repo tag) = some repo
repo_of _ = none

abbrev pub is_allowed : List String → Option String → Bool
is_allowed repos none = false
is_allowed repos (some repo) = includes repos repo

abbrev pub check_binary : String × String → Result PlanError Done
check_binary (slot, pin) = do
  source ← demand (field node_binaries slot) (unknown_slot slot)
  ref ← parsed pin
  require (is_allowed source.repos (repo_of ref)) (wrong_binary slot (repo_of ref))

-- The names that are recorded only.
abbrev pub check_service :
    Option (Object Service) → String × String → Result PlanError (List String)
check_service known (name, pin) = do
  listed ← demand known type_error
  source ← demand (field listed name) (unknown_service name)
  ref ← parsed pin
  _ ← require (is_allowed source.repos (repo_of ref)) (wrong_service name (repo_of ref))
  ok (if source.recorded_only then name ∷ [] else [])

-- The field `plan` of the result is always empty; this is the field `recorded`.
unfoldable pub binary_plan : Manifest → Result PlanError (List String)
binary_plan manifest = do
  _ ← for_each check_binary (or_empty manifest.binaries)
  names ← for_each (check_service (field services manifest.network)) (or_empty manifest.services)
  ok (flat_map (λ recorded. recorded) names)

abbrev pub override_of : Object Service → String × String → List String
override_of known (name, pin) = elim (field known name) [
  | none ↦ []
  | some service ↦ elim service.override [
    | none ↦ []
    | some binary ↦ cat (binary ∷ "=" ∷ pin ∷ []) ∷ []
  ]
]

unfoldable pub ppn_overrides : Manifest → Result PlanError String
ppn_overrides manifest = do
  _ ← binary_plan manifest
  let slots = map (λ entry. cat (entry.0 ∷ "=" ∷ entry.1 ∷ [])) (or_empty manifest.binaries)
  let known = or_empty (field services manifest.network)
  ok (join "," (slots ++ flat_map (override_of known) (or_empty manifest.services)))

abbrev pub tag_of_ref : Ref → Option String
tag_of_ref (release repo tag) = some tag
tag_of_ref _ = none

-- `out[svc.envTag] = parseReleaseRef(ref).tag`, entry by entry.
abbrev pub env_tags_from :
    Object Service
    → Object (Option String)
    → Object String
    → Result PlanError (Object (Option String))
env_tags_from known out [] = ok out
env_tags_from known out ((name, pin) ∷ rest) = elim (field known name) [
  | none ↦ env_tags_from known out rest
  | some service ↦ elim service.env_tag [
    | none ↦ env_tags_from known out rest
    | some variable ↦
        parsed pin >>= λ ref. env_tags_from known (put out variable (tag_of_ref ref)) rest
  ]
]

unfoldable pub env_tag_pins : Manifest → Result PlanError (Object (Option String))
env_tag_pins manifest =
    env_tags_from (or_empty (field services manifest.network)) [] (or_empty manifest.services)

abbrev pub check_chain : Object Chain → String × ChainPin → Result PlanError String
check_chain known (chain, pin) = do
  entry ← demand (field known chain) (unknown_chain chain)
  _ ← require (not (is_set pin.binary)) (pins_a_binary chain)
  _ ← require (is_set pin.runtime) (no_runtime chain)
  ok entry.node

abbrev pub check_slots : Manifest → List String → Result PlanError Done
check_slots manifest slots = do
  _ ←
      for_each (λ slot. require (includes slots slot) (unknown_slot slot))
        (keys (or_empty manifest.binaries))
  _ ←
      for_each
        (λ slot. require (is_set (field (or_empty manifest.binaries) slot)) (unpinned_slot slot))
        slots
  ok tt

abbrev pub names_some {ℓ} : {A : Type ℓ} → Option (List A) → Bool
names_some (some (x ∷ xs)) = true
names_some _ = false

-- The checks of a manifest for a known network.
abbrev pub validate_pins : Manifest → Object Chain → Result PlanError Manifest
validate_pins manifest known = do
  nodes ← for_each (check_chain known) (or_empty manifest.chains)
  _ ← check_slots manifest (unique (λ a b. a == b) nodes)
  _ ← require (names_some manifest.tests) no_tests
  _ ← runtime_plan manifest
  _ ← binary_plan manifest
  ok manifest

unfoldable pub validate_manifest : Manifest → Result PlanError Manifest
validate_manifest manifest = do
  known ← demand (field chains manifest.network) (unknown_network manifest.network)
  _ ← require (manifest.base == "fork") (unsupported_base manifest.base)
  _ ← require (names_some manifest.chains) no_chains
  validate_pins manifest known
