-- ===== src/ChainTests/Contexts.antt =====
-- packages/chain-tests/src/lib/allowances.ts, individuality-compat.ts and alias-claim.ts: the 32-byte
-- contexts that ring proofs are bound to, and the message of an alias proof. The hash is a parameter.
pub mod Layout
pub mod Distinct
use Prim.Native.String
use mathlib.Core.Option
use polkadot_pop_e2e.Common.{
  ℕ, ◌+◌, ◌%◌, ◌/◌, String, Bool, true, Option, none, some, List, [], ◌∷◌, ◌++◌, length,
  if◌then◌else◌, ltb, eqb, not,
}
use polkadot_pop_e2e.ChainTests.Bytes.{Bytes, zeroed, write_at, u32_be, u32_le, u64_le, ascii}

-- `new TextEncoder().encode("pop:polkadot.net/rsc-lts")`
abbrev pub long_term_storage_prefix : Bytes
long_term_storage_prefix = ascii "pop:polkadot.net/rsc-lts"

-- `none` is an exception.
unfoldable pub long_term_storage_context : (period counter : ℕ) → Option Bytes
unfolding Option.bind write_at u32_be
long_term_storage_context period counter =
    if ltb 255 counter
    then none
    else Option.bind (write_at (zeroed 32) 0 long_term_storage_prefix) λ out.
      Option.bind (write_at out 24 (u32_be period)) λ out'. write_at out' 28 (counter % 256 ∷ [])

abbrev pub long_term_storage_period_from_timestamp : (now_secs period_duration_secs : ℕ) → ℕ
long_term_storage_period_from_timestamp now_secs period_duration_secs =
    now_secs / period_duration_secs

pub data Tail : Type 0 where
  u32 u8 : Tail

abbrev tail_bytes : Tail → ℕ → Bytes
tail_bytes u32 b = u32_le b
tail_bytes u8 b = b % 256 ∷ []

-- The `suffix` of `productContext`, and the bytes that are hashed.
unfoldable pub product_suffix : (family a b : ℕ) → Tail → Option Bytes
unfolding Option.bind write_at u32_le
product_suffix family a b tail = Option.bind (write_at (zeroed 32) 0 (ascii "sys/")) λ s0.
    Option.bind (write_at s0 4 (u32_le family))
      λ s1. Option.bind (write_at s1 8 (u32_le a)) λ s2. write_at s2 12 (tail_bytes tail b)

abbrev pub product_head : Bytes → Bytes
product_head network_suffix = ascii "product/peopl." ++ (network_suffix ++ ascii "/")

unfoldable pub product_preimage : (network_suffix : Bytes) → (family a b : ℕ) → Tail → Option Bytes
unfolding product_suffix write_at Option.bind
product_preimage network_suffix family a b tail =
    let head = product_head network_suffix in
    Option.bind (product_suffix family a b tail) λ suffix.
      Option.bind (write_at (zeroed (length head + 32)) 0 head)
        λ preimage. write_at preimage (length head) suffix

unfoldable pub product_context :
    (blake2b256 : Bytes → Bytes) → (network_suffix : Bytes) → (family a b : ℕ) → Tail → Option Bytes
unfolding product_preimage
product_context blake2b256 network_suffix family a b tail =
    Option.map blake2b256 (product_preimage network_suffix family a b tail)

abbrev pub long_term_storage_context_v012 :
    (blake2b256 : Bytes → Bytes) → (network_suffix : Bytes) → (period counter : ℕ) → Option Bytes
long_term_storage_context_v012 blake2b256 network_suffix period counter =
    product_context blake2b256 network_suffix 3 period counter u8

-- The label's bytes at the start of 32.
unfoldable pub custom_alias_context : (label : Bytes) → Option Bytes
unfolding write_at
custom_alias_context label = if ltb 32 (length label) then none else write_at (zeroed 32) 0 label

abbrev pub proof_prefix : Bytes
proof_prefix = ascii "alias-accounts"

-- `mergeUint8` and `blake2b256` of the packages.
pub record Hashing : Type 0 where
  pub merge_uint8 : List Bytes → Bytes
  pub blake2b256 : Bytes → Bytes

unfoldable pub proof_message :
    Hashing → (account_public_key : Bytes) → (proof_valid_at : ℕ) → Option Bytes
unfolding write_at u64_le
proof_message hashing account_public_key proof_valid_at =
    if not (eqb (length account_public_key) 32)
    then none
    else Option.map
        (λ valid_at_bytes.
          hashing.blake2b256
            (hashing.merge_uint8 (proof_prefix ∷ account_public_key ∷ valid_at_bytes ∷ [])))
        (write_at (zeroed 8) 0 (u64_le proof_valid_at))
