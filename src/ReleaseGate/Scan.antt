-- ===== src/ReleaseGate/Scan.antt =====
-- environments/baseline-scan.mjs: whether the pins of a manifest are what the chains run. The calls
-- of a node and of the releases are the record `Io`, whose errors are texts; a name of a
-- specification is the list of its bytes.
pub mod Attributed
use polkadot_pop_e2e.Common.{
  ℕ, String, Bool, true, false, not, ◌&&◌, Option, none, some, List, [], ◌∷◌, any, find?, length,
  if◌then◌else◌, ◌==◌, eqb, Result, ok, err, ◌>>=◌, for_each, demand, Object, field, or_empty,
  is_blank, cat, text_or,
}
use polkadot_pop_e2e.ChainTests.Bytes.{Bytes}
use polkadot_pop_e2e.ReleaseGate.Chains.{Chain, chains}
use polkadot_pop_e2e.ReleaseGate.Pins.{ChainPin, Manifest}
use polkadot_pop_e2e.ReleaseGate.Plans.{
  PlanError, PlanEntry, from_file, from_artifact, from_release, runtime_plan,
}
use polkadot_pop_e2e.ReleaseGate.Wasm.{same_bytes, runtime_spec_of}

-- `observeChain`: what production runs.
pub record Live : Type 0 where
  pub spec_name : Bytes
  pub spec_version : ℕ
  pub block : ℕ
  pub code : Bytes

pub record Asset : Type 0 where
  pub name : String
  pub size : ℕ
  pub url : String

pub record Release : Type 0 where
  pub tag_name : String
  pub assets : Option (List Asset)

pub record Io : Type 0 where
  pub observe_chain : String → Result String Live
  pub get_release : (repo tag : String) → Result String Release
  pub list_releases : (repo : String) (per_page : ℕ) → Result String (List Release)
  pub download_asset_bytes : Asset → Result String Bytes
  pub decompress : Bytes → Option Bytes

-- `RELEASE_WALK`
abbrev pub release_walk : ℕ
release_walk = 15

module _ (io : Io) where
  abbrev pub spec_matches : Bytes → Live → Bool
  spec_matches artifact live = elim (runtime_spec_of io.decompress artifact) [
    | err why ↦ false
    | ok spec ↦ same_bytes spec.spec_name live.spec_name && eqb spec.spec_version live.spec_version
  ]

  -- The comparison of a blob with the live chain under a policy.
  abbrev pub is_live : String → Live → Bytes → Bool
  is_live policy live bytes =
      if policy == "bytes" then same_bytes bytes live.code else spec_matches bytes live

  abbrev pub named_asset : Release → String → Option Asset
  named_asset release name = find? (λ asset. asset.name == name) (or_empty release.assets)

  -- An asset of another size is not downloaded under `bytes`.
  abbrev pub is_live_asset : String → Live → Asset → Result String Bool
  is_live_asset policy live asset =
      if policy == "bytes" && not (eqb asset.size (length live.code))
      then ok false
      else io.download_asset_bytes asset >>= λ bytes. ok (is_live policy live bytes)

  abbrev pub is_live_release : String → Live → String → Release → Result String Bool
  is_live_release policy live name release = elim (named_asset release name) [
    | none ↦ ok false
    | some asset ↦ is_live_asset policy live asset
  ]

  -- The first release, newest first, that carries what is live.
  abbrev pub first_live : String → Live → String → List Release → Result String (Option String)
  first_live policy live name [] = ok none
  first_live policy live name (release ∷ more) =
      is_live_release policy live name release >>= λ same.
      if same then ok (some release.tag_name) else first_live policy live name more

  unfoldable pub attribute :
      Object String → Live → String → Result String (Option (String × String))
  attribute [] live policy = ok none
  attribute ((repo, name) ∷ sources) live policy =
      io.list_releases repo release_walk >>= λ releases.
      first_live policy live name releases >>= λ found. elim found [
        | some tag ↦ ok (some (repo, tag))
        | none ↦ attribute sources live policy
      ]

pub record Base : Type 0 where
  pub chain : String
  pub policy : String
  pub pin : String
  pub live : Live

pub data ScanVerdict : Type 0 where
  no_endpoint : (chain pin : String) → ScanVerdict
  unreachable : (chain pin error : String) → ScanVerdict
  match : Base → ScanVerdict
  drift : Base → (attributed : String) → ScanVerdict
  unattributed : Base → ScanVerdict

pub data ScanError : Type 0 where
  refused : PlanError → ScanError
  failed : (message : String) → ScanError
  no_such_chain : (chain : String) → ScanError

abbrev pub lifted {ℓ} : {A : Type ℓ} → Result String A → Result ScanError A
lifted (ok a) = ok a
lifted (err message) = err (failed message)

-- The fields of an entry of the plan; those that an entry lacks read as `undefined`.
abbrev pub chain_of : PlanEntry → String
chain_of (from_file chain file) = chain
chain_of (from_artifact chain name within) = chain
chain_of (from_release chain repo tag asset) = chain

abbrev pub repo_of_entry : PlanEntry → String
repo_of_entry (from_release chain repo tag asset) = repo
repo_of_entry _ = "undefined"

abbrev pub tag_of_entry : PlanEntry → String
tag_of_entry (from_release chain repo tag asset) = tag
tag_of_entry _ = "undefined"

abbrev pub asset_of : PlanEntry → Release → Option Asset
asset_of (from_release chain repo tag asset) release =
    find? (λ a. a.name == asset) (or_empty release.assets)
asset_of _ release = none

abbrev pub written_pin : String → String → String
written_pin repo tag = cat (repo ∷ "@" ∷ tag ∷ [])

abbrev pub pin_of_entry : PlanEntry → String
pin_of_entry entry = written_pin (repo_of_entry entry) (tag_of_entry entry)

abbrev pub base_of : PlanEntry → String → Live → Base
base_of entry policy live = record {
  chain = chain_of entry;
  policy = policy;
  pin = pin_of_entry entry;
  live = live;
}

module _ (io : Io) where
  abbrev pub is_current : String → Live → Option Asset → Result String Bool
  is_current policy live none = ok false
  is_current policy live (some asset) =
      io.download_asset_bytes asset >>= λ bytes. ok (is_live io policy live bytes)

  abbrev pub attributed_verdict : Base → Option (String × String) → ScanVerdict
  attributed_verdict base none = unattributed base
  attributed_verdict base (some (repo, tag)) = drift base (written_pin repo tag)

  abbrev pub judge : PlanEntry → Chain → Live → Result String ScanVerdict
  judge entry chain live = do
    let policy = text_or "bytes" chain.scan_policy
    let base = base_of entry policy live
    release ← io.get_release (repo_of_entry entry) (tag_of_entry entry)
    current ← is_current policy live (asset_of entry release)
    if current
        then ok (match base)
        else (attribute io chain.runtime live policy >>= λ found.
            ok (attributed_verdict base found))

  abbrev pub scan_entry : PlanEntry → Chain → Result String ScanVerdict
  scan_entry entry chain =
      if is_blank chain.ws
      then ok (no_endpoint (chain_of entry) (pin_of_entry entry))
      else elim (io.observe_chain chain.ws) [
        | err message ↦ ok (
            unreachable (chain_of entry) (pin_of_entry entry)
              (cat (chain.ws ∷ ": " ∷ message ∷ [])))
        | ok live ↦ judge entry chain live
      ]

  abbrev pub scan_known : Object Chain → PlanEntry → Result ScanError ScanVerdict
  scan_known known entry =
      demand (field known (chain_of entry)) (no_such_chain (chain_of entry)) >>= λ chain.
      lifted (scan_entry entry chain)

  unfoldable pub scan_manifest : Manifest → Result ScanError (List ScanVerdict)
  scan_manifest manifest = elim (runtime_plan manifest) [
    | err why ↦ err (refused why)
    | ok plan ↦ for_each (scan_known (or_empty (field chains manifest.network))) plan
  ]

-- `manifest.chains[r.chain].runtime = r.attributed`
abbrev pub set_runtime : Object ChainPin → String → String → Object ChainPin
set_runtime [] chain pin = []
set_runtime ((key, entry) ∷ rest) chain pin =
    if key == chain
    then (key, record entry { runtime = some pin }) ∷ rest
    else (key, entry) ∷ set_runtime rest chain pin

abbrev pub drift_chains : Object ChainPin → List ScanVerdict → Object ChainPin × List String
drift_chains entries [] = (entries, [])
drift_chains entries (drift base pin ∷ results) =
    let rest = drift_chains (set_runtime entries base.chain pin) results in
    (rest.0, base.chain ∷ rest.1)
drift_chains entries (no_endpoint _ _ ∷ results) = drift_chains entries results
drift_chains entries (unreachable _ _ _ ∷ results) = drift_chains entries results
drift_chains entries (match _ ∷ results) = drift_chains entries results
drift_chains entries (unattributed _ ∷ results) = drift_chains entries results

-- A scanned manifest has chains, among them those of its results.
unfoldable pub apply_drift : Manifest → List ScanVerdict → Manifest × List String
apply_drift manifest results =
    let changed = drift_chains (or_empty manifest.chains) results in
    (record manifest { chains = some changed.0 }, changed.1)

-- The exit code of a scan of the manifests with these results.
abbrev pub is_broken : ScanVerdict → Bool
is_broken (unattributed _) = true
is_broken (unreachable _ _ _) = true
is_broken _ = false

abbrev pub has_drifted : ScanVerdict → Bool
has_drifted (drift _ _) = true
has_drifted _ = false

unfoldable pub exit_code : Bool → List (List ScanVerdict) → ℕ
exit_code write results =
    if any (any is_broken) results
    then 1
    else if any (any has_drifted) results && not write
    then 2
    else 0
