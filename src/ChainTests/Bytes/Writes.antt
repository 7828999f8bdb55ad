-- ===== src/ChainTests/Bytes/Writes.antt =====
-- Writes into a zeroed array, and the bytes of the fixed widths.
use polkadot_pop_e2e.Common.{ℕ, suc, ◌+◌, ◌<◌, ◌≡◌, refl, arith, some, [], ◌∷◌, ◌++◌, length}
use polkadot_pop_e2e.ChainTests.Bytes.{Bytes, zeroed, write_at, u32_be, u32_le}

write_at-zeroed :
    (bs : Bytes) (n : ℕ) → write_at (zeroed (length bs + n)) 0 bs ≡ some (bs ++ zeroed n)
unfolding write_at
write_at-zeroed [] n = let e : 0 + n ≡ n = omega arith in rw e refl
write_at-zeroed (b ∷ bs) n =
    let e : suc (length bs) + n ≡ suc (length bs + n) = omega arith in
    rw e (rw (write_at-zeroed bs n))

-- After `done`, the rest of the array is still zero: the next write goes behind it.
pub write_at-append :
    (done bs : Bytes) (n : ℕ)
    → write_at (done ++ zeroed (length bs + n)) (length done) bs ≡ some (done ++ (bs ++ zeroed n))
unfolding write_at
write_at-append [] bs n = write_at-zeroed bs n
write_at-append (x ∷ done) bs n = rw (write_at-append done bs n)

pub write_at-fill :
    (done bs : Bytes) (n m : ℕ)
    → length bs + n ≡ m
    → write_at (done ++ zeroed m) (length done) bs ≡ some (done ++ (bs ++ zeroed n))
write_at-fill done bs n m e = rw (← e) (write_at-append done bs n)

pub u32_be_injective : (a b : ℕ) → a < 4294967296 → b < 4294967296 → u32_be a ≡ u32_be b → a ≡ b
unfolding u32_be
u32_be_injective a b h k e = ground arith

pub u32_le_injective : (a b : ℕ) → a < 4294967296 → b < 4294967296 → u32_le a ≡ u32_le b → a ≡ b
unfolding u32_le
u32_le_injective a b h k e = ground arith
