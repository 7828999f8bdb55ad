-- ===== src/ReleaseGate/Chains.antt =====
-- environments/release-map.mjs, `CHAINS` and `NETWORK_META`: the chains of each network with the
-- repositories that may provide a runtime, and how the gate obtains a fork.
use polkadot_pop_e2e.Common.{ℕ, String, Bool, true, false, Option, none, some, [], ◌∷◌, Object}

-- `scan_policy` is absent for all chains but the public relays.
pub record Chain : Type 0 where
  pub node : String
  pub ws : String
  pub scan_policy : Option String
  pub runtime : Object String

pub record NetworkMeta : Type 0 where
  pub fresh_bite : Bool
  pub wait_seconds : ℕ
  pub gateable : Bool
  pub blocked_by : Option String

abbrev previewnet_chains : Object Chain
previewnet_chains =
    (
      "relay",
      record {
        node = "polkadot";
        ws = "wss://previewnet.substrate.dev/relay/alice";
        scan_policy = none;
        runtime = (("paseo-network/runtimes", "paseo_fast_runtime.compressed.wasm") ∷ []);
      },
    )
    ∷ (
      "asset-hub",
      record {
        node = "polkadot-omni-node";
        ws = "wss://previewnet.substrate.dev/asset-hub";
        scan_policy = none;
        runtime =
            ((
              "paritytech/individuality-community",
              "next_asset_hub_paseo_runtime.compact.compressed.wasm",
            )
              ∷ []);
      },
    )
    ∷ (
      "people",
      record {
        node = "polkadot-omni-node";
        ws = "wss://previewnet.substrate.dev/people";
        scan_policy = none;
        runtime =
            ((
              "paritytech/individuality-community",
              "next_people_paseo_runtime.compact.compressed.wasm",
            )
              ∷ []);
      },
    )
    ∷ (
      "bulletin",
      record {
        node = "polkadot-omni-node";
        ws = "wss://previewnet.substrate.dev/bulletin";
        scan_policy = none;
        runtime =
            ((
              "paritytech/polkadot-bulletin-chain",
              "bulletin_paseo_runtime.compact.compressed.wasm",
            )
              ∷ []);
      },
    )
    ∷ (
      "web3-storage",
      record {
        node = "polkadot-omni-node";
        ws = "wss://previewnet.substrate.dev/web3-storage";
        scan_policy = none;
        runtime =
            (("paritytech/web3-storage", "storage_paseo_runtime.compact.compressed.wasm") ∷ []);
      },
    )
    ∷ []

abbrev paseo_next_v2_chains : Object Chain
paseo_next_v2_chains =
    (
      "relay",
      record {
        node = "polkadot";
        ws = "wss://paseo-rpc.n.dwellir.com";
        scan_policy = some "spec";
        runtime = (("paseo-network/runtimes", "paseo_runtime.compressed.wasm") ∷ []);
      },
    )
    ∷ (
      "asset-hub",
      record {
        node = "polkadot-omni-node";
        ws = "wss://paseo-asset-hub-next-rpc.polkadot.io";
        scan_policy = none;
        runtime =
            ((
              "paritytech/individuality-community",
              "next_asset_hub_paseo_runtime.compact.compressed.wasm",
            )
              ∷ []);
      },
    )
    ∷ (
      "people",
      record {
        node = "polkadot-omni-node";
        ws = "wss://paseo-people-next-system-rpc.polkadot.io";
        scan_policy = none;
        runtime =
            ((
              "paritytech/individuality-community",
              "next_people_paseo_runtime.compact.compressed.wasm",
            )
              ∷ []);
      },
    )
    ∷ (
      "bulletin",
      record {
        node = "polkadot-omni-node";
        ws = "wss://paseo-bulletin-next-rpc.polkadot.io";
        scan_policy = none;
        runtime =
            ((
              "paritytech/polkadot-bulletin-chain",
              "bulletin_paseo_runtime.compact.compressed.wasm",
            )
              ∷ []);
      },
    )
    ∷ []

abbrev devnet_chains : Object Chain
devnet_chains =
    (
      "relay",
      record {
        node = "polkadot";
        ws = "wss://paseo-rpc.n.dwellir.com";
        scan_policy = some "spec";
        runtime = (("paseo-network/runtimes", "paseo_runtime.compressed.wasm") ∷ []);
      },
    )
    ∷ (
      "asset-hub",
      record {
        node = "polkadot-omni-node";
        ws = "wss://asset-hub-paseo-rpc.n.dwellir.com";
        scan_policy = none;
        runtime = (("paseo-network/runtimes", "asset-hub-paseo_runtime.compressed.wasm") ∷ []);
      },
    )
    ∷ (
      "people",
      record {
        node = "polkadot-omni-node";
        ws = "wss://people-paseo.rotko.net";
        scan_policy = none;
        runtime = (("paseo-network/runtimes", "people-paseo_runtime.compressed.wasm") ∷ []);
      },
    )
    ∷ (
      "bulletin",
      record {
        node = "polkadot-omni-node";
        ws = "wss://bulletin-paseo.tservices.es:8443";
        scan_policy = none;
        runtime =
            ((
              "paritytech/polkadot-bulletin-chain",
              "bulletin_paseo_runtime.compact.compressed.wasm",
            )
              ∷ []);
      },
    )
    ∷ []

-- `CHAINS`
abbrev pub chains : Object (Object Chain)
chains =
    ("previewnet", previewnet_chains)
    ∷ ("paseo-next-v2", paseo_next_v2_chains)
    ∷ ("devnet", devnet_chains)
    ∷ []

-- `NETWORK_META`
abbrev pub network_meta : Object NetworkMeta
network_meta =
    (
      "previewnet",
      record { fresh_bite = true; wait_seconds = 900; gateable = true; blocked_by = none },
    )
    ∷ (
      "paseo-next-v2",
      record { fresh_bite = true; wait_seconds = 900; gateable = true; blocked_by = none },
    )
    ∷ (
      "devnet",
      record {
        fresh_bite = true;
        wait_seconds = 900;
        gateable = false;
        blocked_by =
            some
              "engine: devnet asset-hub bite fails on the smol spec — needs a full raw chain-spec";
      },
    )
    ∷ []
