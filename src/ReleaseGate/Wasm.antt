-- ===== src/ReleaseGate/Wasm.antt =====
-- environments/wasm-spec.mjs: the version that a runtime blob declares. A buffer is the list of its
-- bytes; a byte past its end counts as 0 in a bit operation.
pub mod Sections
pub mod Versions
use Prim.Native.Nat.{bit_or}
use polkadot_pop_e2e.Common.{
  ℕ, zero, suc, ◌+◌, ◌-◌, ◌*◌, ◌/◌, ◌%◌, ◌^◌, Bool, true, false, ◌&&◌, Option, none, some, List, [],
  ◌∷◌, if◌then◌else◌, eqb, ltb, length, take, get_elem?, Result, ok, err, ◌>>=◌, require, demand,
}
use polkadot_pop_e2e.ChainTests.Bytes.{Bytes, ascii}

abbrev pub drop {ℓ} : {A : Type ℓ} → ℕ → List A → List A
drop zero xs = xs
drop (suc n) [] = []
drop (suc n) (x ∷ xs) = drop n xs

-- `buf.subarray(from, to)`
abbrev pub subarray : Bytes → ℕ → ℕ → Bytes
subarray buf from to = take (to - from) (drop from buf)

abbrev pub same_bytes : Bytes → Bytes → Bool
same_bytes [] [] = true
same_bytes (x ∷ xs) (y ∷ ys) = eqb x y && same_bytes xs ys
same_bytes _ _ = false

abbrev pub byte_at : Bytes → ℕ → ℕ
byte_at buf at = elim (get_elem? buf at) [ none ↦ 0 | some byte ↦ byte ]

pub data WasmError : Type 0 where
  bad_stream : WasmError
  out_of_range : WasmError
  bad_magic : WasmError
  no_section : WasmError
  long_compact : WasmError
  out_of_fuel : WasmError

-- `buf.readUInt32LE(at)` on what is left at `at`.
abbrev pub word_of : Bytes → Result WasmError ℕ
word_of (a ∷ b ∷ c ∷ d ∷ rest) = ok (a + 256 * b + 65536 * c + 16777216 * d)
word_of _ = err out_of_range

abbrev pub read_u32_le : Bytes → ℕ → Result WasmError ℕ
read_u32_le buf at = word_of (drop at buf)

-- `ZSTD_MAGIC`
abbrev pub zstd_magic : Bytes
zstd_magic = 0x52 ∷ 0xbc ∷ 0x53 ∷ 0x76 ∷ 0x46 ∷ 0xdb ∷ 0x8e ∷ 0x05 ∷ []

-- `decompress` is the package's, `none` where it throws.
unfoldable pub decompress_runtime : (Bytes → Option Bytes) → Bytes → Result WasmError Bytes
decompress_runtime decompress buf =
    if ltb 8 (length buf) && same_bytes (subarray buf 0 8) zstd_magic
    then demand (decompress (subarray buf 8 (length buf))) bad_stream
    else ok buf

-- The loop of `leb128`, on the bytes from `pos` on: 32-bit words, whose shift counts modulo 32.
abbrev pub leb128_from : Bytes → ℕ → ℕ → ℕ → ℕ × ℕ
leb128_from [] result shift pos = (result, pos + 1)
leb128_from (byte ∷ rest) result shift pos =
    let next = bit_or result (byte % 128 * 2 ^ (shift % 32) % 2 ^ 32) in
    let later = leb128_from rest next (shift + 7) (pos + 1) in
    if eqb (byte / 128 % 2) 0 then (next, pos + 1) else later

abbrev pub leb128 : Bytes → ℕ → ℕ × ℕ
leb128 buf at = leb128_from (drop at buf) 0 0 at

-- The payload of a section of this name whose content is from `pos` to `end`.
abbrev pub payload_of : Bytes → Bytes → ℕ → ℕ → Option Bytes
payload_of wasm name pos end =
    let head = leb128 wasm pos in
    let behind = head.1 + head.0 in
    if same_bytes (subarray wasm head.1 behind) name then some (subarray wasm behind end) else none

abbrev pub section_at : Bytes → Bytes → ℕ → ℕ → ℕ → Option Bytes
section_at wasm name id pos end = if eqb id 0 then payload_of wasm name pos end else none

-- The loop over the sections; every round moves on by two bytes at least.
abbrev pub find_section : ℕ → Bytes → Bytes → ℕ → Result WasmError (Option Bytes)
find_section zero wasm name pos = err out_of_fuel
find_section (suc fuel) wasm name pos =
    let head = leb128 wasm (pos + 1) in
    let end = head.1 + head.0 in
    let later = find_section fuel wasm name end in
    if ltb pos (length wasm)
    then elim (section_at wasm name (byte_at wasm pos) head.1 end) [
      | some payload ↦ ok (some payload)
      | none ↦ later
    ]
    else ok none

-- A name is given by its bytes, which are ASCII.
unfoldable pub custom_section : Bytes → Bytes → Result WasmError (Option Bytes)
custom_section wasm name = do
  magic ← read_u32_le wasm 0
  _ ← require (eqb magic 0x6d736100) bad_magic
  find_section (suc (length wasm)) wasm name 8

unfoldable pub scale_compact_len : Bytes → ℕ → Result WasmError (ℕ × ℕ)
scale_compact_len buf at =
    let b = byte_at buf at in
    if eqb (b % 4) 0
    then ok (b / 4, at + 1)
    else if eqb (b % 4) 1
    then ok ((b + 256 * byte_at buf (at + 1)) / 4, at + 2)
    else if eqb (b % 4) 2
    then (read_u32_le buf at >>= λ word. ok (word / 4, at + 4))
    else err long_compact

-- `spec_name` holds the bytes of the text.
pub record RuntimeSpec : Type 0 where
  pub spec_name : Bytes
  pub spec_version : ℕ

unfoldable pub spec_of_payload : Bytes → Result WasmError RuntimeSpec
unfolding scale_compact_len
spec_of_payload payload = do
  name ← scale_compact_len payload 0
  impl ← scale_compact_len payload (name.1 + name.0)
  version ← read_u32_le payload (impl.1 + impl.0 + 4)
  ok (record { spec_name = subarray payload name.1 (name.1 + name.0); spec_version = version })

unfoldable pub runtime_spec_of : (Bytes → Option Bytes) → Bytes → Result WasmError RuntimeSpec
unfolding decompress_runtime custom_section spec_of_payload
runtime_spec_of decompress blob = do
  wasm ← decompress_runtime decompress blob
  found ← custom_section wasm (ascii "runtime_version")
  payload ← demand found no_section
  spec_of_payload payload
