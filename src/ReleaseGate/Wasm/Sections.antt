-- ===== src/ReleaseGate/Wasm/Sections.antt =====
-- wasm-spec.mjs, `customSection`: the loop over the sections of a blob ends.
use Prim.Native.Nat.{bit_or}
use polkadot_pop_e2e.Common.{
  ◌*◌, ◌^◌, ◌%◌, Result-cases, ℕ, zero, suc, ◌+◌, ◌≤◌, ◌<◌, ◌≡◌, ◌≢◌, ap, ◌∙◌, inl, inr, arith, [],
  ◌∷◌, eqb, length, err, ltb, Bool-cases, Option-cases, ltb→lt,
}
use polkadot_pop_e2e.ChainTests.Bytes.{Bytes}
use polkadot_pop_e2e.ReleaseGate.Wasm.{
  drop, leb128_from, leb128, out_of_fuel, byte_at, section_at, find_section, custom_section,
  read_u32_le, word_of,
}

leb128_from-moves :
    (bytes : Bytes) (result shift pos : ℕ) → pos + 1 ≤ (leb128_from bytes result shift pos).1
leb128_from-moves [] result shift pos = omega arith
leb128_from-moves (byte ∷ rest) result shift pos =
    let next = bit_or result (byte % 128 * 2 ^ (shift % 32) % 2 ^ 32) in
    ground (arith, leb128_from-moves rest next (shift + 7) (pos + 1))

word_of_ends : (bytes : Bytes) → word_of bytes ≢ err out_of_fuel
word_of_ends [] q = cc
word_of_ends (a ∷ []) q = cc
word_of_ends (a ∷ b ∷ []) q = cc
word_of_ends (a ∷ b ∷ c ∷ []) q = cc
word_of_ends (a ∷ b ∷ c ∷ d ∷ rest) q = cc

find_section-Completes :
    (fuel : ℕ) (wasm name : Bytes) (pos : ℕ)
    → 0 < fuel
    → length wasm < fuel + pos
    → find_section fuel wasm name pos ≢ err out_of_fuel
find_section-Completes zero wasm name pos some_left h = absurd (omega arith)
find_section-Completes (suc fuel) wasm name pos some_left h =
    let head = leb128 wasm (pos + 1) in
    let end = head.1 + head.0 in
    let moves = leb128_from-moves (drop (pos + 1) wasm) 0 0 (pos + 1) in
    elim (Bool-cases (ltb pos (length wasm))) [
      | inr e ↦ rw e (λ q. cc)
      | inl e ↦ elim (Option-cases (section_at wasm name (byte_at wasm pos) head.1 end)) [
        | inr (payload, found) ↦ rw (e, found) (λ q. cc)
        | inl none_here ↦
            let before = ltb→lt pos (length wasm) e in
            rw (e, none_here)
              (find_section-Completes fuel wasm name end (omega arith) (omega (arith, moves)))
      ]
    ]

-- `customSection` ends for every blob and name: its loop needs no more rounds than the blob has
-- bytes, since each round moves on.
pub custom_section-Completes : (wasm name : Bytes) → custom_section wasm name ≢ err out_of_fuel
unfolding custom_section
custom_section-Completes wasm name = elim (Result-cases (read_u32_le wasm 0)) [
  | inr (why, e) ↦
      rw e (λ q. let same : why ≡ out_of_fuel = cc in word_of_ends (drop 0 wasm) (e ∙ ap err same))
  | inl (magic, e) ↦ elim (Bool-cases (eqb magic 0x6d736100)) [
    | inr bad ↦ rw (e, bad) (λ q. cc)
    | inl good ↦
        rw (e, good)
          (find_section-Completes (suc (length wasm)) wasm name 8 (omega arith) (omega arith))
  ]
]
