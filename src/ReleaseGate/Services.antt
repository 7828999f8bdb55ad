-- ===== src/ReleaseGate/Services.antt =====
-- environments/release-map.mjs, `NODE_BINARIES` and `SERVICES`: the binary slots and the services,
-- with the repositories that may provide them.
use polkadot_pop_e2e.Common.{String, Bool, true, false, Option, none, some, List, [], ◌∷◌, Object}

pub record NodeBinary : Type 0 where
  pub repos : List String

-- An absent `recordedOnly` is `false`.
pub record Service : Type 0 where
  pub override : Option String
  pub env_tag : Option String
  pub recorded_only : Bool
  pub repos : List String

-- `NODE_BINARIES`
abbrev pub node_binaries : Object NodeBinary
node_binaries =
    (
      "polkadot",
      record { repos = ("paritytech/polkadot-sdk" ∷ "paritytech/release-automation" ∷ []) },
    )
    ∷ (
      "polkadot-omni-node",
      record { repos = ("paritytech/polkadot-sdk" ∷ "paritytech/release-automation" ∷ []) },
    )
    ∷ []

abbrev previewnet_services : Object Service
previewnet_services =
    (
      "eth-rpc",
      record {
        override = some "eth-rpc";
        env_tag = none;
        recorded_only = false;
        repos = ("paritytech/polkadot-sdk" ∷ "paritytech/release-automation" ∷ []);
      },
    )
    ∷ (
      "identity-backend",
      record {
        override = none;
        env_tag = some "DUB_TAG";
        recorded_only = false;
        repos = ("paritytech/device-uniqueness-backend" ∷ []);
      },
    )
    ∷ (
      "storage-provider-node",
      record {
        override = none;
        env_tag = none;
        recorded_only = true;
        repos = ("paritytech/web3-storage" ∷ []);
      },
    )
    ∷ (
      "kubo",
      record { override = none; env_tag = none; recorded_only = true; repos = ("ipfs/kubo" ∷ []) },
    )
    ∷ []

abbrev paseo_next_v2_services : Object Service
paseo_next_v2_services =
    (
      "eth-rpc",
      record {
        override = some "eth-rpc";
        env_tag = none;
        recorded_only = false;
        repos = ("paritytech/polkadot-sdk" ∷ "paritytech/release-automation" ∷ []);
      },
    )
    ∷ (
      "identity-backend",
      record {
        override = none;
        env_tag = some "DUB_TAG";
        recorded_only = false;
        repos = ("paritytech/device-uniqueness-backend" ∷ []);
      },
    )
    ∷ []

abbrev devnet_services : Object Service
devnet_services =
    (
      "eth-rpc",
      record {
        override = some "eth-rpc";
        env_tag = none;
        recorded_only = false;
        repos = ("paritytech/polkadot-sdk" ∷ "paritytech/release-automation" ∷ []);
      },
    )
    ∷ []

-- `SERVICES`
abbrev pub services : Object (Object Service)
services =
    ("previewnet", previewnet_services)
    ∷ ("paseo-next-v2", paseo_next_v2_services)
    ∷ ("devnet", devnet_services)
    ∷ []
