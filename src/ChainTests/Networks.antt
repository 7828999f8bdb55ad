-- ===== src/ChainTests/Networks.antt =====
-- packages/chain-tests/src/config/stack-config.ts: the network that a run tests, and its
-- configuration. A stack's pointer and descriptor come from the package trinity-stack, whose readers
-- `chain` and `service` are parameters.
pub mod Selection
pub mod Configuration
use Prim.Native.String
use polkadot_pop_e2e.Common.{
  ℕ, String, Bool, true, false, ◌||◌, not, Option, none, some, List, [], ◌∷◌, ◌++◌, map, find?,
  includes, inherited_keys, get_elem?, if◌then◌else◌, ◌==◌, Result, ok, err, ◌>>=◌, drop_suffix,
  has_suffix,
}

pub record NetworkFeatures : Type 0 where
  pub resources : Bool
  pub pgas : Bool
  pub hop : Bool
  pub dotns : Bool
  pub identity : Bool
  pub game : Bool

pub record NetworkEntry : Type 0 where
  pub key : String
  pub stack_url : String
  pub stack_key : String
  pub features : NetworkFeatures

-- `Service`, `Descriptor` and `Pointer`, as far as they are read.
pub record Service : Type 0 where
  pub kind : String
  pub urls : List String

pub record Descriptor : Type 0 where
  pub id : String
  pub name : String
  pub tld : String
  pub fork_of : Option String
  pub services : List Service

pub record Stack : Type 0 where
  pub url : String
  pub descriptor : Descriptor

abbrev pub next_features : NetworkFeatures
next_features = record {
  resources = true;
  pgas = true;
  hop = true;
  dotns = true;
  identity = true;
  game = true;
}

-- `NETWORKS`, in the order of its keys.
abbrev pub networks : List NetworkEntry
networks =
    record {
      key = "paseo-next-v2";
      stack_url =
          "https://stack-paseo-next.parity-testnet.parity.io/.well-known/trinity-stack.json";
      stack_key = "0x2b89d8ca74aa2e11ab55f5af1168cd6929b88d1998aecd979b42cfc1078d5377";
      features = next_features;
    }
    ∷ record {
      key = "previewnet";
      stack_url = "https://previewnet.substrate.dev/.well-known/trinity-stack.json";
      stack_key = "0x4d43362f03d5511632a210632d1fb7760b5a663580f12ffca34619f79357e239";
      features = next_features;
    }
    ∷ record {
      key = "devnet";
      stack_url = "https://stack.api.polkadotcommunity.foundation/.well-known/trinity-stack.json";
      stack_key = "0x1fbc5eed0deb09fe4eeefdf45350b4b4cf36370d9bbb93ca2818b076737a0ed3";
      features = record {
        resources = false;
        pgas = false;
        hop = false;
        dotns = false;
        identity = false;
        game = true;
      };
    }
    ∷ []

abbrev pub network_keys : List String
network_keys = map (λ entry. entry.key) networks

abbrev pub is_in_networks : String → Bool
is_in_networks key = includes network_keys key || includes inherited_keys key

abbrev pub default_network : String
default_network = "paseo-next-v2"

abbrev pub fork_suffix : String
fork_suffix = "-fork"

-- `urls.includes(url)` for the stack's URL and that of the stack it forks.
abbrev pub is_url : Option String → String → Bool
is_url none published = false
is_url (some url) published = url == published

abbrev pub is_published_at : Stack → NetworkEntry → Bool
is_published_at stack entry =
    stack.url == entry.stack_url || is_url stack.descriptor.fork_of entry.stack_url

abbrev by_url_or_id : Option NetworkEntry → String → Option String
by_url_or_id (some entry) by_id = some entry.key
by_url_or_id none by_id = if is_in_networks by_id then some by_id else none

unfoldable pub network_of_stack : Stack → Option String
network_of_stack stack =
    by_url_or_id (find? (is_published_at stack) networks)
      (drop_suffix fork_suffix stack.descriptor.id)

pub data Refusal : Type 0 where
  unknown_network : String → Refusal
  other_network : (network stack_url stack_network : String) → Refusal
  no_match : (stack_url : String) → Refusal

-- `network` as a condition: a string that is set and is not empty.
abbrev pub truthy : Option String → Option String
truthy none = none
truthy (some s) = if s == "" then none else some s

abbrev is_known : Option String → Bool
is_known none = true
is_known (some network) = is_in_networks network

-- `network ?? DEFAULT_NETWORK`
abbrev pub or_default : Option String → String
or_default none = default_network
or_default (some network) = network

abbrev with_stack : Option String → Stack → Option String → Result Refusal String
with_stack (some network) stack (some found) =
    if network == found then ok network else err (other_network network stack.url found)
with_stack (some network) stack none = ok network
with_stack none stack (some found) = ok found
with_stack none stack none = err (no_match stack.url)

abbrev refusal_of : Option String → Refusal
refusal_of none = unknown_network ""
refusal_of (some network) = unknown_network network

unfoldable pub select_network : Option String → Option Stack → Result Refusal String
unfolding network_of_stack
select_network network stack =
    if not (is_known (truthy network)) then err (refusal_of network) else from_stack stack
  where
    from_stack : Option Stack → Result Refusal String
    from_stack none = ok (or_default network)
    from_stack (some s) = with_stack (truthy network) s (network_of_stack s)

pub record NetworkConfig : Type 0 where
  pub name : String
  pub asset_hub_ws : Option String
  pub people_ws : Option String
  pub bulletin_ws : Option String
  pub hop_ws : Option String
  pub identity_backend : Option String
  pub ipfs_gateway : String
  pub tld : String
  pub features : NetworkFeatures
  pub test_account_uri : Option String

-- The readers of the package: the `rpc` list of a chain and the service of a kind, or an exception.
pub record Reader : Type 0 where
  pub chain : Descriptor → String → Result String (List String)
  pub service : Descriptor → String → Result String Service

abbrev pub without_slash : String → String
without_slash = drop_suffix "/"

abbrev url_of : Option Service → Option String
url_of none = none
url_of (some s) = trimmed (get_elem? s.urls 0)
  where
    trimmed : Option String → Option String
    trimmed none = none
    trimmed (some url) = some (without_slash url)

abbrev pub optional_url : Descriptor → String → Option String
optional_url descriptor kind = url_of (find? (λ s. s.kind == kind) descriptor.services)

-- `urls[0].replace(…)`: a `TypeError` when there is no first one.
abbrev pub first_url : List String → Result String String
first_url [] = err "TypeError: Cannot read properties of undefined (reading 'replace')"
first_url (url ∷ urls) = ok (without_slash url)

unfoldable pub build_network_config :
    Reader → NetworkEntry → Descriptor → Result String NetworkConfig
build_network_config reader entry descriptor = do
  asset_hub ← reader.chain descriptor "AssetHub"
  people ← reader.chain descriptor "People"
  bulletin ← reader.chain descriptor "Bulletin"
  gateway ← reader.service descriptor "ipfs-gateway"
  ipfs_gateway ← first_url gateway.urls
  ok (record {
    name = descriptor.name;
    asset_hub_ws = get_elem? asset_hub 0;
    people_ws = get_elem? people 0;
    bulletin_ws = get_elem? bulletin 0;
    hop_ws = truthy (optional_url descriptor "hop");
    identity_backend = if entry.features.identity then optional_url descriptor "dub" else none;
    ipfs_gateway = ipfs_gateway;
    tld = descriptor.tld;
    features = entry.features;
    test_account_uri = if has_suffix fork_suffix descriptor.id then some "//Alice" else none;
  })
