-- ===== src/ChainTests/Networks/Configuration.antt =====
-- stack-config.ts, `buildNetworkConfig`: what gates the tests of attestation and of forks.
use mathlib.Core.Path.{subst}
use polkadot_pop_e2e.Common.{
  ◌≡◌, ◌↔◌, refl, ap, String, Bool, true, false, Option, some, none, Result, ok, err, ◌>>=◌,
  has_suffix, if◌then◌else◌,
}
use polkadot_pop_e2e.ChainTests.Networks.{
  NetworkEntry, NetworkConfig, Descriptor, Reader, fork_suffix, optional_url, first_url,
  build_network_config,
}

bind-eq-ok :
    {E A B : Type 0} (r : Result E A) (f : A → Result E B) {b : B}
    → (r >>= f) ≡ ok b
    → (a : A) × (f a ≡ ok b)
bind-eq-ok (ok a) f e = (a, e)
bind-eq-ok (err x) f e = cc

abbrev alice : Option String
alice = some "//Alice"

if-some_iff : (b : Bool) → ((if b then alice else none) ≡ alice) ↔ (b ≡ true)
if-some_iff true = (λ e. refl, λ e. refl)
if-some_iff false = (λ e. cc, λ e. cc)

pub record IsConfigOf (entry : NetworkEntry) (descriptor : Descriptor) (config : NetworkConfig)
    : Type 0 where
  pub same_features : config.features ≡ entry.features
  pub same_backend :
      config.identity_backend
      ≡ (if entry.features.identity then optional_url descriptor "dub" else none)
  pub alice_iff :
      (config.test_account_uri ≡ some "//Alice") ↔ (has_suffix fork_suffix descriptor.id ≡ true)

abbrev configured : Result String NetworkConfig → NetworkConfig → NetworkConfig
configured (ok c) d = c
configured (err e) d = d

-- A configuration that is returned has the network's flags; it has an identity backend only on a
-- network that attests and when its stack lists one, and the test account exactly on a fork.
pub build_network_config_lem :
    (reader : Reader) (entry : NetworkEntry) (descriptor : Descriptor) (config : NetworkConfig)
    → build_network_config reader entry descriptor ≡ ok config
    → IsConfigOf entry descriptor config
unfolding build_network_config
build_network_config_lem reader entry descriptor config e =
    let (asset_hub, e1) = bind-eq-ok (reader.chain descriptor "AssetHub") _ e in
    let (people, e2) = bind-eq-ok (reader.chain descriptor "People") _ e1 in
    let (bulletin, e3) = bind-eq-ok (reader.chain descriptor "Bulletin") _ e2 in
    let (gateway, e4) = bind-eq-ok (reader.service descriptor "ipfs-gateway") _ e3 in
    let (url, e5) = bind-eq-ok (first_url gateway.urls) _ e4 in
    let same = ap (λ r. configured r config) e5 in
    subst (IsConfigOf entry descriptor) same (record {
      same_features = refl;
      same_backend = refl;
      alice_iff = if-some_iff (has_suffix fork_suffix descriptor.id);
    })
