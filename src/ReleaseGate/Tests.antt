-- ===== src/ReleaseGate/Tests.antt =====
-- The release gate on small manifests and blobs.
pub mod Scans
use polkadot_pop_e2e.Common.{
  ℕ, ◌≡◌, ◌≢◌, ◌↔◌, refl, arith, String, Bool, true, false, Option, none, some, List, [], ◌∷◌, ◌==◌,
  map, if◌then◌else◌, Result, ok, err, Object,
}
use polkadot_pop_e2e.ChainTests.Bytes.{Bytes, ascii}
use polkadot_pop_e2e.ReleaseGate.Pins.{
  Manifest, ChainPin, Ref, release, artifact, parse_release_ref,
}
use polkadot_pop_e2e.ReleaseGate.Plans.{PlanError, validate_manifest, runtime_plan, binary_plan}
use polkadot_pop_e2e.ReleaseGate.Plans.Valid.{IsValid, validate_manifest-IsValid}
use polkadot_pop_e2e.ReleaseGate.Candidates.{
  candidate_matrix, finish, target_candidate, binaries_only, runtimes_only, runtime_dim,
}
use polkadot_pop_e2e.ReleaseGate.Candidates.Matrix.{Splits, builds_of, candidate_matrix_lem}
use polkadot_pop_e2e.ReleaseGate.Upgrades.{plan_upgrades, Upgrades}
use polkadot_pop_e2e.ReleaseGate.Upgrades.Kept.{Sifts, plan_upgrades-Sifts}
use polkadot_pop_e2e.ReleaseGate.Wasm.{
  custom_section, out_of_fuel, RuntimeSpec, spec_of_payload, WasmError,
}
use polkadot_pop_e2e.ReleaseGate.Wasm.Sections.{custom_section-Completes}
use polkadot_pop_e2e.ReleaseGate.Wasm.Versions.{encode_version, spec_of_payload-encode_version}

abbrev pub pinned : String → ChainPin
pinned pin = record { binary = none; runtime = some pin }

-- A manifest of two chains that run the same node binary.
abbrev people_manifest : String → String → Manifest
people_manifest node runtime = record {
  network = "paseo-next-v2";
  base = "fork";
  chains = some (("people", pinned runtime) ∷ ("asset-hub", pinned "artifact:builds/ah.wasm") ∷ []);
  binaries = some (("polkadot-omni-node", node) ∷ []);
  services = some (("eth-rpc", "paritytech/release-automation@v2") ∷ []);
  tests = some ("test:people" ∷ []);
}

abbrev pub deployed : Manifest
deployed = people_manifest "paritytech/polkadot-sdk@stable1" "paritytech/individuality-community@v1"

abbrev candidate : Manifest
candidate =
    people_manifest "paritytech/polkadot-sdk@stable2" "paritytech/individuality-community@v2"

parse_pins :
    (parse_release_ref " owner/re.po@v1 " ≡ ok (release "owner/re.po" "v1"))
    × (parse_release_ref "artifact:builds/x/y.wasm" ≡ ok (artifact "builds" (some "x/y.wasm")))
unfolding parse_release_ref
parse_pins = (refl, refl)

pub deployed-accepted : validate_manifest deployed ≡ ok deployed
unfolding validate_manifest parse_release_ref runtime_plan binary_plan
deployed-accepted = refl

validate_manifest-IsValid_example : (deployed ≡ deployed) × IsValid deployed
validate_manifest-IsValid_example = validate_manifest-IsValid deployed deployed-accepted

candidate_matrix_lem_example :
    (Splits deployed candidate
      → candidate_matrix (some deployed) candidate
        ≡ map (finish deployed) (
            target_candidate candidate
            ∷ binaries_only deployed candidate
            ∷ runtimes_only deployed candidate
            ∷ []))
    × ((Splits deployed candidate → ⊥)
        → candidate_matrix (some deployed) candidate
          ≡ map (finish deployed) (target_candidate candidate ∷ []))
    × (((finish deployed (target_candidate candidate)).steady ≡ true)
        ↔ (builds_of deployed ≡ builds_of candidate)
          × (runtime_dim deployed ≡ runtime_dim candidate))
candidate_matrix_lem_example = candidate_matrix_lem deployed candidate

-- One chain of two is supplied, with a greater version.
abbrev running : Object ℕ
running = ("people", 5) ∷ ("relay", 7) ∷ []

abbrev offered_by : String → Option ℕ
offered_by wasm = if wasm == "people.wasm" then some 6 else none

abbrev two_lines : List (String × String)
two_lines = ("people", "people.wasm") ∷ ("relay", "relay.wasm") ∷ []

plan_upgrades-Sifts_example :
    let result = plan_upgrades false running ("people" ∷ []) offered_by two_lines in
    let steady = plan_upgrades true running ("people" ∷ []) offered_by two_lines in
    Sifts running ("people" ∷ []) offered_by two_lines result.keep result.errors
    × (steady.keep ≡ [])
    × (steady.errors ≡ [])
plan_upgrades-Sifts_example = plan_upgrades-Sifts running ("people" ∷ []) offered_by two_lines

abbrev tiny_blob : Bytes
tiny_blob = 0 ∷ 97 ∷ 115 ∷ 109 ∷ 1 ∷ 0 ∷ 0 ∷ 0 ∷ 0 ∷ 3 ∷ 1 ∷ 65 ∷ 9 ∷ []

tiny_section : custom_section tiny_blob (ascii "A") ≡ ok (some (9 ∷ []))
unfolding custom_section
tiny_section = refl

custom_section-Completes_example : custom_section tiny_blob (ascii "A") ≢ err out_of_fuel
custom_section-Completes_example = custom_section-Completes tiny_blob (ascii "A")

spec_of_payload-encode_version_example :
    spec_of_payload (encode_version (ascii "people") (ascii "people-impl") 1 1000021 (7 ∷ []))
    ≡ ok (record { spec_name = ascii "people"; spec_version = 1000021 })
spec_of_payload-encode_version_example =
    spec_of_payload-encode_version (ascii "people") (ascii "people-impl") (7 ∷ []) 1 1000021
      (omega arith) (omega arith) (omega arith)
