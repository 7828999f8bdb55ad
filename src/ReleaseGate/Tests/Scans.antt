-- ===== src/ReleaseGate/Tests/Scans.antt =====
-- Pins, overlays and scans on concrete values.
use polkadot_pop_e2e.Common.{
  ℕ, ◌≡◌, ◌↔◌, refl, inl, true, if◌then◌else◌, ◌==◌, String, none, some, List, [], ◌∷◌, ok, err,
  trim, Object,
}
use polkadot_pop_e2e.ReleaseGate.Pins.{Manifest, release, parse_release_ref}
use polkadot_pop_e2e.ReleaseGate.Pins.Printed.{IsRef, print_ref, parse_release_ref-printed}
use polkadot_pop_e2e.ReleaseGate.Pins.{assert_no_local_pins}
use polkadot_pop_e2e.ReleaseGate.Pins.Local.{IsRelease, assert_no_local_pins-IsRelease}
use polkadot_pop_e2e.ReleaseGate.Engine.{Agreement, EngineBinary, Show, assert_engine_agrees}
use polkadot_pop_e2e.ReleaseGate.Engine.Agreed.{Agrees, assert_engine_agrees-Agrees}
use polkadot_pop_e2e.ReleaseGate.Overlay.{Target, merge_target}
use polkadot_pop_e2e.ReleaseGate.Overlay.Merged.{IsMerged, merge_target-IsMerged}
use polkadot_pop_e2e.ReleaseGate.Scan.{Live, Asset, Release, Io, attribute}
use polkadot_pop_e2e.ReleaseGate.Scan.Attributed.{IsAttributed, attribute-IsAttributed}
use polkadot_pop_e2e.ReleaseGate.Tests.{deployed-accepted, deployed, pinned}

parse_release_ref-printed_example :
    let ref = release "owner/re.po" "v1" in
    (parse_release_ref " owner/re.po@v1 " ≡ ok ref)
    ↔ (IsRef ref × (print_ref ref ≡ trim " owner/re.po@v1 "))
parse_release_ref-printed_example =
    parse_release_ref-printed " owner/re.po@v1 " (release "owner/re.po" "v1")

abbrev next_target : Target
next_target = record {
  chains = some (("people", pinned "artifact:builds/people.wasm") ∷ []);
  binaries = some (("polkadot-omni-node", "paritytech/polkadot-sdk@stable2") ∷ []);
  services = none;
  tests = some ("test:ring" ∷ []);
}

abbrev overlaid : Manifest
overlaid = record deployed {
  chains = some (
      ("people", pinned "artifact:builds/people.wasm")
      ∷ ("asset-hub", pinned "artifact:builds/ah.wasm")
      ∷ []);
  binaries = some (("polkadot-omni-node", "paritytech/polkadot-sdk@stable2") ∷ []);
  tests = some ("test:ring" ∷ []);
}

deployed-overlaid : merge_target deployed (some next_target) ≡ ok overlaid
unfolding merge_target
deployed-overlaid = refl

merge_target-IsMerged_example : IsMerged deployed next_target overlaid
merge_target-IsMerged_example = merge_target-IsMerged deployed next_target refl deployed-overlaid

-- Two repositories: the releases of the first carry another blob, the second release of the other
-- carries the live one.
abbrev wasm_asset : String → ℕ → Asset
wasm_asset url size = record { name = "people.wasm"; size = size; url = url }

abbrev with_assets : String → List Asset → Release
with_assets tag assets = record { tag_name = tag; assets = some assets }

abbrev listed : String → List Release
listed repo =
    if repo == "owner/first"
    then with_assets "v2" (wasm_asset "other" 2 ∷ []) ∷ with_assets "v1" [] ∷ []
    else with_assets "v4" (wasm_asset "short" 1 ∷ [])
      ∷ with_assets "v3" (wasm_asset "live" 2 ∷ [])
      ∷ []

abbrev live_chain : Live
live_chain = record { spec_name = 112 ∷ []; spec_version = 3; block = 9; code = 1 ∷ 2 ∷ [] }

abbrev small_io : Io
small_io = record {
  observe_chain = λ url. ok live_chain;
  get_release = λ repo tag. err "no such release";
  list_releases = λ repo per_page. ok (listed repo);
  download_asset_bytes = λ asset. if asset.url == "live" then ok (1 ∷ 2 ∷ []) else ok (1 ∷ 3 ∷ []);
  decompress = λ bytes. none;
}

abbrev two_sources : Object String
two_sources = ("owner/first", "people.wasm") ∷ ("owner/second", "people.wasm") ∷ []

second-attributed :
    attribute small_io two_sources live_chain "bytes" ≡ ok (some ("owner/second", "v3"))
unfolding attribute
second-attributed = refl

attribute-IsAttributed_example :
    IsAttributed small_io "bytes" live_chain two_sources (some ("owner/second", "v3"))
attribute-IsAttributed_example =
    attribute-IsAttributed small_io "bytes" live_chain two_sources (some ("owner/second", "v3"))
      second-attributed

-- A manifest that pins releases only.
abbrev committed : Manifest
committed = record deployed {
  chains = some (("people", pinned "paritytech/individuality-community@v1") ∷ []);
}

committed-accepted : assert_no_local_pins committed ≡ ok committed
unfolding assert_no_local_pins
committed-accepted = refl

committed-read :
    parse_release_ref "paritytech/individuality-community@v1"
    ≡ ok (release "paritytech/individuality-community" "v1")
unfolding parse_release_ref
committed-read = refl

assert_no_local_pins-IsRelease_example :
    IsRelease (release "paritytech/individuality-community" "v1")
assert_no_local_pins-IsRelease_example =
    assert_no_local_pins-IsRelease committed "paritytech/individuality-community@v1"
      (release "paritytech/individuality-community" "v1") committed-accepted (inl (inl refl)) refl
      committed-read

-- An engine that runs one chain of the map.
abbrev node_binary : EngineBinary
node_binary = record {
  name = "polkadot-omni-node";
  repo = "paritytech/polkadot-sdk";
  tag = "stable1";
  overridden = true;
}

abbrev small_show : Show
small_show = record {
  chains = some (record { key = "people"; binary = some node_binary } ∷ []);
  binaries = some (node_binary ∷ []);
}

assert_engine_agrees-Agrees_example :
    (agreement : Agreement) × (assert_engine_agrees deployed small_show ≡ ok agreement)
    × ((agreement.errors ≡ []) ↔ Agrees deployed small_show)
assert_engine_agrees-Agrees_example =
    assert_engine_agrees-Agrees deployed small_show deployed-accepted
