-- ===== src/ChainTests/Bytes.antt =====
-- Byte arrays as the tests build them: a zeroed `Uint8Array`, `set` at an offset, and `DataView`
-- writes of fixed width. A byte array is a list of numbers below 256.
pub mod Writes
use polkadot_pop_e2e.Common.{
  ℕ, zero, suc, ◌+◌, ◌*◌, ◌/◌, ◌%◌, ◌<◌, Option, none, some, List, [], ◌∷◌, ◌++◌, replicate, All,
  String,
}
use Prim.Native.Char.{code}
use Prim.Native.String
use mathlib.Core.Option

abbrev pub Bytes : Type 0
Bytes = List ℕ

abbrev pub AreBytes : Bytes → Type 0
AreBytes = All (λ b. b < 256)

abbrev pub zeroed : ℕ → Bytes
zeroed n = replicate n 0

-- `array.set(source, offset)`; `none` is its RangeError.
unfoldable pub write_at : Bytes → ℕ → Bytes → Option Bytes
write_at xs zero [] = some xs
write_at [] zero (b ∷ bs) = none
write_at (x ∷ xs) zero (b ∷ bs) = Option.map (λ ys. b ∷ ys) (write_at xs zero bs)
write_at [] (suc offset) bs = none
write_at (x ∷ xs) (suc offset) bs = Option.map (λ ys. x ∷ ys) (write_at xs offset bs)

-- `setUint32(…, n, false)` and `setUint32(…, n, true)`: the low 32 bits, in big and little endian.
unfoldable pub u32_be : ℕ → Bytes
u32_be n = n / 16777216 % 256 ∷ n / 65536 % 256 ∷ n / 256 % 256 ∷ n % 256 ∷ []

unfoldable pub u32_le : ℕ → Bytes
u32_le n = n % 256 ∷ n / 256 % 256 ∷ n / 65536 % 256 ∷ n / 16777216 % 256 ∷ []

-- `setBigUint64(…, n, true)`: the low 64 bits.
unfoldable pub u64_le : ℕ → Bytes
unfolding u32_le
u64_le n = u32_le n ++ u32_le (n / 4294967296)

-- `new TextEncoder().encode(s)`, for ASCII text.
abbrev pub ascii : String → Bytes
ascii String.[] = []
ascii (String.◌∷◌ c s) = code c ∷ ascii s
