-- ===== src/ReleaseGate/Wasm/Versions.antt =====
-- wasm-spec.mjs, `runtimeSpecOf`: the payload of the section against the SCALE encoding of a version.
use polkadot_pop_e2e.Common.{
  ℕ, zero, suc, ◌+◌, ◌-◌, ◌*◌, ◌/◌, ◌%◌, ◌<◌, ◌≡◌, refl, sym, ap, ◌∙◌, inl, inr, arith, [], ◌∷◌,
  ◌++◌, eqb, ltb, if◌then◌else◌, length, take, Result, ok, err, ◌>>=◌, Bool-cases, ltb→lt,
}
use polkadot_pop_e2e.ChainTests.Bytes.{Bytes, u32_le}
use polkadot_pop_e2e.ReleaseGate.Wasm.{
  drop, subarray, byte_at, WasmError, word_of, read_u32_le, scale_compact_len, spec_of_payload,
  long_compact,
}

-- The SCALE compact encoding of a length below 2 ^ 30.
abbrev pub compact : ℕ → Bytes
compact n =
    if ltb n 64
    then 4 * n ∷ []
    else if ltb n 16384
    then (4 * n + 1) % 256 ∷ (4 * n + 1) / 256 ∷ []
    else u32_le (4 * n + 2)

-- A version, as far as it is read, and what follows it: two names, the authoring version and the
-- specification's.
abbrev pub encode_version : Bytes → Bytes → ℕ → ℕ → Bytes → Bytes
encode_version spec_name impl_name authoring version rest =
    compact (length spec_name)
    ++ (spec_name
        ++ (compact (length impl_name)
            ++ (impl_name ++ (u32_le authoring ++ (u32_le version ++ rest)))))

drop-append : (xs ys : Bytes) → drop (length xs) (xs ++ ys) ≡ ys
drop-append [] ys = refl
drop-append (x ∷ xs) ys = drop-append xs ys

take-append : (xs ys : Bytes) → take (length xs) (xs ++ ys) ≡ xs
take-append [] ys = refl
take-append (x ∷ xs) ys = ap (λ l. x ∷ l) (take-append xs ys)

word_of-u32_le : (rest : Bytes) (n : ℕ) → n < 4294967296 → word_of (u32_le n ++ rest) ≡ ok n
unfolding u32_le
word_of-u32_le rest n h = ap ok (omega arith)

byte_at-drop :
    (buf : Bytes) (at : ℕ)
    → (byte_at buf at ≡ byte_at (drop at buf) 0) × (byte_at buf (at + 1) ≡ byte_at (drop at buf) 1)
byte_at-drop buf zero = (refl, refl)
byte_at-drop [] (suc at) = (refl, refl)
byte_at-drop (x ∷ buf) (suc at) =
    let e : suc at + 1 ≡ suc (at + 1) = omega arith in rw e (byte_at-drop buf at)

-- A compact length that is read from the bytes that are left.
abbrev compact_of : Bytes → ℕ → Result WasmError (ℕ × ℕ)
compact_of left at =
    let b = byte_at left 0 in
    if eqb (b % 4) 0
    then ok (b / 4, at + 1)
    else if eqb (b % 4) 1
    then ok ((b + 256 * byte_at left 1) / 4, at + 2)
    else if eqb (b % 4) 2
    then (word_of left >>= λ word. ok (word / 4, at + 4))
    else err long_compact

scale_compact_len-drop :
    (buf : Bytes) (at : ℕ) → scale_compact_len buf at ≡ compact_of (drop at buf) at
unfolding scale_compact_len
scale_compact_len-drop buf at = let (first, second) = byte_at-drop buf at in rw (first, second) refl

compact_of-compact :
    (rest : Bytes) (n at : ℕ)
    → n < 1073741824
    → compact_of (compact n ++ rest) at ≡ ok (n, at + length (compact n))
unfolding u32_le
compact_of-compact rest n at h = elim (Bool-cases (ltb n 64)) [
  | inl one ↦ rw one (ground arith)
  | inr more ↦ elim (Bool-cases (ltb n 16384)) [
    | inl two ↦ rw (more, two) (ground (arith, ltb→lt n 16384 two))
    | inr four ↦ rw (more, four) (ground arith)
  ]
]

drop_nil : (n : ℕ) → drop {A = ℕ} n [] ≡ []
drop_nil zero = refl
drop_nil (suc n) = refl

drop-add : (m n : ℕ) (xs : Bytes) → drop (m + n) xs ≡ drop n (drop m xs)
drop-add zero n xs = let e : 0 + n ≡ n = omega arith in rw e refl
drop-add (suc m) n [] = let e : suc m + n ≡ suc (m + n) = omega arith in rw e (sym (drop_nil n))
drop-add (suc m) n (x ∷ xs) =
    let e : suc m + n ≡ suc (m + n) = omega arith in rw e (drop-add m n xs)

module _ (payload : Bytes) (at : ℕ) where
  drop_part :
      (part left : Bytes) → drop at payload ≡ part ++ left → drop (at + length part) payload ≡ left
  drop_part part left e = drop-add at (length part) payload ∙ rw e (drop-append part left)

  scale_compact_len-compact :
      (n : ℕ) (left : Bytes)
      → n < 1073741824
      → drop at payload ≡ compact n ++ left
      → scale_compact_len payload at ≡ ok (n, at + length (compact n))
  scale_compact_len-compact n left h e =
      scale_compact_len-drop payload at
      ∙ ap (λ bytes. compact_of bytes at) e
      ∙ compact_of-compact left n at h

  subarray_part :
      (part left : Bytes)
      → drop at payload ≡ part ++ left
      → subarray payload at (at + length part) ≡ part
  subarray_part part left e =
      let size : at + length part - at ≡ length part = omega arith in
      rw (size, e) (take-append part left)

  read_part :
      (n : ℕ) (left : Bytes)
      → n < 4294967296
      → drop at payload ≡ u32_le n ++ left
      → read_u32_le payload at ≡ ok n
  read_part n left h e = ap word_of e ∙ word_of-u32_le left n h

-- The payload that starts with the SCALE encoding of a version, whose two names are shorter than
-- 2 ^ 30 bytes and whose specification version is a word of 32 bits, is read back as the name and
-- the version of the specification, whatever follows.
pub spec_of_payload-encode_version :
    (spec_name impl_name rest : Bytes) (authoring version : ℕ)
    → length spec_name < 1073741824
    → length impl_name < 1073741824
    → version < 4294967296
    → spec_of_payload (encode_version spec_name impl_name authoring version rest)
      ≡ ok (record { spec_name = spec_name; spec_version = version })
unfolding spec_of_payload u32_le
spec_of_payload-encode_version spec_name impl_name rest authoring version hs hi hv =
    let last = u32_le version ++ rest in
    let third = impl_name ++ (u32_le authoring ++ last) in
    let second = spec_name ++ (compact (length impl_name) ++ third) in
    let payload = compact (length spec_name) ++ second in
    let a = 0 + length (compact (length spec_name)) in
    let b = a + length spec_name in
    let c = b + length (compact (length impl_name)) in
    let at_a : drop a payload ≡ second =
      drop_part payload 0 (compact (length spec_name)) second refl in
    let at_b : drop b payload ≡ compact (length impl_name) ++ third =
      drop_part payload a spec_name (compact (length impl_name) ++ third) at_a in
    let at_c : drop c payload ≡ third =
      drop_part payload b (compact (length impl_name)) third at_b in
    let at_d = drop_part payload c impl_name (u32_le authoring ++ last) at_c in
    let at_e : drop (c + length impl_name + 4) payload ≡ last =
      drop_part payload (c + length impl_name) (u32_le authoring) last at_d in
    rw
      (
        scale_compact_len-compact payload 0 (length spec_name) second hs refl,
        scale_compact_len-compact payload b (length impl_name) third hi at_b,
        read_part payload (c + length impl_name + 4) version rest hv at_e,
        subarray_part payload a spec_name (compact (length impl_name) ++ third) at_a,
      )
      refl
