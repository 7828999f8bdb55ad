-- ===== src/ChainTests/Contexts/Layout.antt =====
-- allowances.ts, individuality-compat.ts and alias-claim.ts: the bytes of each context, field by field.
use mathlib.Core.Option
use mathlib.Core.List.{append-nil}
use polkadot_pop_e2e.Common.{
  ℕ, ◌+◌, ◌-◌, ◌%◌, ◌<◌, ◌≤◌, ◌≡◌, ◌↔◌, refl, ◌∙◌, arith, some, [], ◌∷◌, ◌++◌, length, Bool-cases,
  inl, inr, ltb, ltb→lt, ltb-false→le,
}
use polkadot_pop_e2e.ChainTests.Bytes.{Bytes, zeroed, write_at, u32_be, u32_le, ascii}
use polkadot_pop_e2e.ChainTests.Bytes.Writes.{write_at-append, write_at-fill}
use polkadot_pop_e2e.ChainTests.Contexts.{
  long_term_storage_prefix, long_term_storage_context, product_suffix, product_head,
  product_preimage, custom_alias_context, u8,
}

-- The prefix, the period and the counter stand at their places, and zeros fill the 32 bytes.
pub long_term_storage_context_lem :
    (period counter : ℕ)
    → counter < 256
    → long_term_storage_context period counter
      ≡ some (long_term_storage_prefix ++ (u32_be period ++ (counter ∷ 0 ∷ 0 ∷ 0 ∷ [])))
unfolding long_term_storage_context write_at u32_be Option.bind
long_term_storage_context_lem period counter h = elim (Bool-cases (ltb 255 counter)) [
  | inl over ↦ absurd (let no = ltb→lt _ _ over in omega arith)
  | inr fits ↦ let e : counter % 256 ≡ counter = omega arith in rw (fits, e) refl
]

product_suffix_lem :
    (family a b : ℕ)
    → product_suffix family a b u8
      ≡ some (ascii "sys/" ++ (u32_le family ++ (u32_le a ++ (b % 256 ∷ zeroed 19))))
unfolding product_suffix write_at u32_le Option.bind
product_suffix_lem family a b = refl

-- Two writes, one behind the other, fill an array of their length.
two_writes :
    (head suffix : Bytes)
    → length suffix ≡ 32
    → Option.bind
        (write_at (zeroed (length head + 32)) 0 head)
        (λ preimage. write_at preimage (length head) suffix)
      ≡ some (head ++ suffix)
unfolding Option.bind
two_writes head suffix e =
    rw (write_at-append [] head 32)
      (write_at-fill head suffix 0 32 (omega (arith, e)) ∙ rw (append-nil suffix) refl)

-- The hashed bytes of a product context: its head with the network's suffix, then 32 bytes that hold
-- the family, the period and the counter.
pub product_preimage_lem :
    (network_suffix : Bytes) (family a b : ℕ)
    → product_preimage network_suffix family a b u8
      ≡ some (
          product_head network_suffix
          ++ (ascii "sys/" ++ (u32_le family ++ (u32_le a ++ (b % 256 ∷ zeroed 19)))))
unfolding product_preimage product_suffix write_at u32_le Option.bind
product_preimage_lem network_suffix family a b =
    two_writes (product_head network_suffix)
      (ascii "sys/" ++ (u32_le family ++ (u32_le a ++ (b % 256 ∷ zeroed 19)))) refl

-- The label is followed by zeros, up to 32 bytes; a longer one is refused.
pub custom_alias_context_lem :
    (label out : Bytes)
    → (custom_alias_context label ≡ some out)
      ↔ ((length label ≤ 32) × (out ≡ label ++ zeroed (32 - length label)))
unfolding custom_alias_context
custom_alias_context_lem label out = elim (Bool-cases (ltb 32 (length label))) [
  | inl over ↦ let too_long = ltb→lt _ _ over in rw over (λ e. cc, λ (h, e). absurd (omega arith))
  | inr fits ↦
      let h = ltb-false→le _ _ fits in
      let written : write_at (zeroed 32) 0 label ≡ some (label ++ zeroed (32 - length label)) =
        write_at-fill [] label (32 - length label) 32 (omega (arith, h)) in
      rw (fits, written) (λ e. (h, cc), λ (k, e). rw e refl)
]
