-- ===== src/ReleaseGate/Overlay.antt =====
-- environments/release-map.mjs, `mergeTarget` and `transitions`: a sparse target laid over the
-- canonical manifest, and the pins that a manifest moves.
pub mod Merged
use polkadot_pop_e2e.Common.{
  String, Bool, true, false, not, ◌||◌, Option, none, some, List, [], ◌∷◌, ◌++◌, flat_map,
  if◌then◌else◌, ◌==◌, Result, ok, err, ◌>>=◌, require, Object, field, has_key, has_or_inherits,
  includes, inherited_keys, put, or_empty, is_set, is_blank,
}
use polkadot_pop_e2e.ReleaseGate.Services.{services}
use polkadot_pop_e2e.ReleaseGate.Pins.{ChainPin, Manifest}

-- The keys of an overlay that `mergeTarget` reads.
pub record Target : Type 0 where
  pub chains : Option (Object ChainPin)
  pub binaries : Option (Object String)
  pub services : Option (Object String)
  pub tests : Option (List String)

pub data Mismatch : Type 0 where
  absent_slot : (slot : String) → Mismatch
  absent_chain : (chain : String) → Mismatch
  patches_binary : (chain : String) → Mismatch
  absent_service : (name : String) → Mismatch

-- The writes of these loops are those of a target without a key `__proto__`, whose write sets the
-- prototype of an object.
pub merge_binaries : Object String → Object String → Result Mismatch (Object String)
merge_binaries binaries [] = ok binaries
merge_binaries binaries ((slot, pin) ∷ rest) = do
  _ ← require (has_or_inherits binaries slot) (absent_slot slot)
  merge_binaries (put binaries slot pin) rest

abbrev pub or_else {ℓ} : {A : Type ℓ} → Option A → Option A → Option A
or_else (some a) other = some a
or_else none other = other

-- `{ ...entry, ...patch }`
abbrev pub patched : ChainPin → ChainPin → ChainPin
patched entry patch = record {
  binary = or_else patch.binary entry.binary;
  runtime = or_else patch.runtime entry.runtime;
}

-- `{ ...f, ...patch }` of an inherited function `f` has the patch's keys only.
abbrev pub no_pin : ChainPin
no_pin = record { binary = none; runtime = none }

abbrev pub own_or_empty : Option ChainPin → Bool → Option ChainPin
own_or_empty (some entry) inherits = some entry
own_or_empty none true = some no_pin
own_or_empty none false = none

-- `chains[chain]`, where an inherited name gives a function.
abbrev pub entry_of : Object ChainPin → String → Option ChainPin
entry_of chains chain = own_or_empty (field chains chain) (includes inherited_keys chain)

pub merge_chains : Object ChainPin → Object ChainPin → Result Mismatch (Object ChainPin)
merge_chains chains [] = ok chains
merge_chains chains ((chain, patch) ∷ rest) = elim (entry_of chains chain) [
  | none ↦ err (absent_chain chain)
  | some entry ↦ do
    _ ← require (not (is_set patch.binary)) (patches_binary chain)
    merge_chains (put chains chain (patched entry patch)) rest
]

-- A service that the network declares may be named though the canonical does not pin it.
pub merge_services : String → Object String → Object String → Result Mismatch (Object String)
merge_services network pins [] = ok pins
merge_services network pins ((name, pin) ∷ rest) = do
  _ ←
      require (has_or_inherits pins name || has_key (or_empty (field services network)) name)
        (absent_service name)
  merge_services network (put pins name pin) rest

unfoldable pub merge_target : Manifest → Option Target → Result Mismatch Manifest
unfolding merge_binaries merge_chains merge_services
merge_target canonical none = ok canonical
merge_target canonical (some target) = do
  binaries ← merge_binaries (or_empty canonical.binaries) (or_empty target.binaries)
  chains ← merge_chains (or_empty canonical.chains) (or_empty target.chains)
  pins ← merge_services canonical.network (or_empty canonical.services) (or_empty target.services)
  ok (record canonical {
    binaries = some binaries;
    chains = some chains;
    services = some pins;
    tests = or_else target.tests canonical.tests;
  })

-- The sentences of `transitions`.
pub data Transition : Type 0 where
  binary_moves : (slot from to : String) → Transition
  runtime_moves : (chain : String) (from to : Option String) → Transition
  service_moves : (name from to : String) → Transition
  service_set : (name to : String) → Transition
  steady_state : Transition

abbrev pub same_option : Option String → Option String → Bool
same_option none none = true
same_option (some a) (some b) = a == b
same_option _ _ = false

abbrev pub moved_binary : Object String → String × String → List Transition
moved_binary before (slot, pin) = elim (field before slot) [
  | none ↦ []
  | some from ↦ if is_blank from || from == pin then [] else binary_moves slot from pin ∷ []
]

abbrev pub moved_runtime : Object ChainPin → String × ChainPin → List Transition
moved_runtime before (chain, entry) = elim (field before chain) [
  | none ↦ []
  | some from ↦
      if same_option from.runtime entry.runtime
      then []
      else runtime_moves chain from.runtime entry.runtime ∷ []
]

abbrev pub moved_service : Object String → String × String → List Transition
moved_service before (name, pin) = elim (field before name) [
  | none ↦ service_set name pin ∷ []
  | some from ↦
      if is_blank from
      then service_set name pin ∷ []
      else if from == pin
      then []
      else service_moves name from pin ∷ []
]

abbrev pub moves : Manifest → Manifest → List Transition
moves canonical manifest =
    flat_map (moved_binary (or_empty canonical.binaries)) (or_empty manifest.binaries)
    ++ flat_map (moved_runtime (or_empty canonical.chains)) (or_empty manifest.chains)
    ++ flat_map (moved_service (or_empty canonical.services)) (or_empty manifest.services)

unfoldable pub transitions : Manifest → Manifest → List Transition
transitions canonical manifest = elim (moves canonical manifest) [
  | [] ↦ steady_state ∷ []
  | move ∷ more ↦ move ∷ more
]
