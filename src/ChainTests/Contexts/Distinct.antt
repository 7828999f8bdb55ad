-- ===== src/ChainTests/Contexts/Distinct.antt =====
-- allowances.ts, individuality-compat.ts and alias-claim.ts: when two contexts are the same.
use mathlib.Core.List.{append_cancel_left}
use polkadot_pop_e2e.Common.{
  ℕ, zero, suc, ◌-◌, ◌%◌, ◌<◌, ◌≡◌, ◌≢◌, refl, ◌∙◌, sym, arith, some, [], ◌∷◌, ◌++◌, length, All,
}
use polkadot_pop_e2e.ChainTests.Bytes.{Bytes, zeroed, u32_be, u32_le, ascii}
use polkadot_pop_e2e.ChainTests.Bytes.Writes.{u32_be_injective, u32_le_injective}
use polkadot_pop_e2e.ChainTests.Contexts.{
  long_term_storage_prefix, long_term_storage_context, product_head, product_preimage,
  custom_alias_context, u8,
}
use polkadot_pop_e2e.ChainTests.Contexts.Layout.{
  long_term_storage_context_lem, product_preimage_lem, custom_alias_context_lem,
}

some_injective : {A : Type 0} {a b : A} → some a ≡ some b → a ≡ b
some_injective e = cc

legacy_fields :
    {period period' counter counter' : ℕ}
    → u32_be period ++ (counter ∷ 0 ∷ 0 ∷ 0 ∷ []) ≡ u32_be period' ++ (counter' ∷ 0 ∷ 0 ∷ 0 ∷ [])
    → period < 4294967296
    → period' < 4294967296
    → (period ≡ period') × (counter ≡ counter')
unfolding u32_be
legacy_fields {period} {period'} r h h' = (u32_be_injective period period' h h' (cc), cc)

product_fields :
    {family family' a a' : ℕ} (b b' : ℕ)
    → u32_le family ++ (u32_le a ++ (b % 256 ∷ zeroed 19))
      ≡ u32_le family' ++ (u32_le a' ++ (b' % 256 ∷ zeroed 19))
    → family < 4294967296
    → family' < 4294967296
    → a < 4294967296
    → a' < 4294967296
    → (family ≡ family') × (a ≡ a') × (b % 256 ≡ b' % 256)
unfolding u32_le
product_fields {family} {family'} {a} {a'} b b' r h h' k k' =
    (u32_le_injective family family' h h' (cc), u32_le_injective a a' k k' (cc), cc)

-- Two claims of periods below 2^32 and counters below 256 have the same context only when both are
-- the same.
pub long_term_storage_context_injective :
    (period period' counter counter' : ℕ)
    → period < 4294967296
    → period' < 4294967296
    → counter < 256
    → counter' < 256
    → long_term_storage_context period counter ≡ long_term_storage_context period' counter'
    → (period ≡ period') × (counter ≡ counter')
long_term_storage_context_injective period period' counter counter' h h' k k' e =
    let rest = append_cancel_left long_term_storage_prefix _ _ (
      some_injective (
        sym (long_term_storage_context_lem period counter k)
        ∙ e
        ∙ long_term_storage_context_lem period' counter' k')) in
    legacy_fields rest h h'

-- Under one network's suffix, the bytes that are hashed for two claims differ when the family, the
-- period or the counter does, for families and periods below 2^32 and counters below 256.
pub product_preimage_injective :
    (network_suffix : Bytes) (family family' a a' b b' : ℕ)
    → family < 4294967296
    → family' < 4294967296
    → a < 4294967296
    → a' < 4294967296
    → b < 256
    → b' < 256
    → product_preimage network_suffix family a b u8
      ≡ product_preimage network_suffix family' a' b' u8
    → (family ≡ family') × (a ≡ a') × (b ≡ b')
product_preimage_injective network_suffix family family' a a' b b' h h' k k' l l' e =
    let rest = append_cancel_left (ascii "sys/") _ _ (
      append_cancel_left (product_head network_suffix) _ _ (
        some_injective (
          sym (product_preimage_lem network_suffix family a b)
          ∙ e
          ∙ product_preimage_lem network_suffix family' a' b'))) in
    let (families, periods, low) = product_fields b b' rest h h' k k' in
    (families, periods, omega (arith, low))

unpadded :
    (label label' : Bytes) (n n' : ℕ)
    → All (λ b. b ≢ 0) label
    → All (λ b. b ≢ 0) label'
    → label ++ zeroed n ≡ label' ++ zeroed n'
    → label ≡ label'
unpadded [] [] n n' h h' e = refl
unpadded [] (b ∷ label') zero n' h h' e = cc
unpadded [] (b ∷ label') (suc n) n' h (k, h') e = absurd (k (cc))
unpadded (b ∷ label) [] n zero h h' e = cc
unpadded (b ∷ label) [] n (suc n') (k, h) h' e = absurd (k (cc))
unpadded (b ∷ label) (c ∷ label') n n' (k, h) (k', h') e =
    let here : b ≡ c = cc in
    let rest : label ++ zeroed n ≡ label' ++ zeroed n' = cc in
    let labels = unpadded label label' n n' h h' rest in rw (here, labels) refl

-- Two labels without a zero byte that both give a context give different ones, unless they are the
-- same label.
pub custom_alias_context_injective :
    (label label' out : Bytes)
    → All (λ b. b ≢ 0) label
    → All (λ b. b ≢ 0) label'
    → custom_alias_context label ≡ some out
    → custom_alias_context label' ≡ some out
    → label ≡ label'
custom_alias_context_injective label label' out h h' e e' =
    unpadded label label' (32 - length label) (32 - length label') h h' (
      sym ((custom_alias_context_lem label out).0 e).1
      ∙ ((custom_alias_context_lem label' out).0 e').1)
