-- ===== src/ChainTests/Identity.antt =====
-- packages/chain-tests/src/lib/truapi-identity.ts: the keys of a person, derived from the root
-- entropy. The hashes, the key derivation and the encodings come from packages.
use Prim.Native.String
use mathlib.Core.Option
use polkadot_pop_e2e.Common.{ℕ, String, Option, none, some, [], length, if◌then◌else◌, ltb}
use polkadot_pop_e2e.ChainTests.Bytes.{Bytes, zeroed, write_at, ascii}

-- `blake2b` with `dkLen` 32, `str.enc`, `contextSuffixBytes`, and `HDKD` with its keys.
pub record Derivation : Type 0 where
  pub blake2b : Bytes → (key : Option Bytes) → Bytes
  pub str_enc : String → Bytes
  pub index_bytes : ℕ → Bytes
  pub secret_from_entropy : Bytes → Bytes
  pub secret_hard : Bytes → Bytes → Bytes
  pub secret_soft : Bytes → Bytes → Bytes
  pub public_key_of : Bytes → Bytes
  pub address_of : Bytes → String

pub record PersonCreds : Type 0 where
  pub entropy : Bytes
  pub network_suffix : String

pub record IdentityKey : Type 0 where
  pub secret_key : Bytes
  pub public_key : Bytes
  pub address : String

module _ (d : Derivation) where
  unfoldable pub chain_code : String → Bytes
  unfolding write_at
  chain_code junction =
      let encoded = d.str_enc junction in
      if ltb 32 (length encoded)
      then d.blake2b encoded none
      else Option.get_or (write_at (zeroed 32) 0 encoded) []

  unfoldable pub identity_key : (entropy : Bytes) → (network_suffix : String) → IdentityKey
  unfolding chain_code
  identity_key entropy network_suffix =
      let secret = d.secret_from_entropy entropy in
      let product = d.secret_hard secret (chain_code "product") in
      let person = d.secret_hard product (chain_code (String.◌++◌ "uid." network_suffix)) in
      let secret_key = d.secret_soft person (d.index_bytes 0) in
      record {
        secret_key = secret_key;
        public_key = d.public_key_of secret_key;
        address = d.address_of (d.public_key_of secret_key);
      }

  unfoldable pub ring_entropy_at :
      (entropy : Bytes) → (network_suffix : String) → (index : ℕ) → Bytes
  unfolding chain_code
  ring_entropy_at entropy network_suffix index =
      let root = d.blake2b entropy (some (ascii "ring-vrf")) in
      let domain = d.blake2b root (some (chain_code (String.◌++◌ "peopl." network_suffix))) in
      d.blake2b domain (some (d.index_bytes index))

  abbrev pub lite_ring_entropy : Bytes → String → Bytes
  lite_ring_entropy entropy network_suffix = ring_entropy_at entropy network_suffix 1

  abbrev pub person_key : PersonCreds → IdentityKey
  person_key creds = identity_key creds.entropy creds.network_suffix

  abbrev pub person_ring_entropy : PersonCreds → Bytes
  person_ring_entropy creds = lite_ring_entropy creds.entropy creds.network_suffix
