-- ===== src/Vmm/Memory.antt =====
-- Reads and writes of eight bytes in the memory of ntoskrnl/mm/vmm.c, lowest byte first.
use open_lib.Common.{
  ℕ, zero, suc, ◌+◌, ◌-◌, ◌*◌, ◌/◌, ◌%◌, ◌^◌, ◌≤◌, ◌<◌, ◌≡◌, ◌⊎◌, ◌&&◌, arith, ltb, leb,
  if◌then◌else◌,
}

unfoldable pub read64 : (ℕ → ℕ) → ℕ → ℕ
read64 ram a =
    ram a
    + 2 ^ 8 * ram (a + 1)
    + 2 ^ 16 * ram (a + 2)
    + 2 ^ 24 * ram (a + 3)
    + 2 ^ 32 * ram (a + 4)
    + 2 ^ 40 * ram (a + 5)
    + 2 ^ 48 * ram (a + 6)
    + 2 ^ 56 * ram (a + 7)

unfoldable pub byte_of : ℕ → ℕ → ℕ
byte_of v zero = v % 256
byte_of v (suc k) = byte_of (v / 256) k

unfoldable pub write64 : (ℕ → ℕ) → ℕ → ℕ → ℕ → ℕ
write64 ram a v j = if leb a j && ltb j (a + 8) then byte_of v (j - a) else ram j

byte_at : (ram : ℕ → ℕ) (a v k : ℕ) → k < 8 → write64 ram a v (a + k) ≡ byte_of v k
unfolding write64
byte_at ram a v k h = let back : a + k - a ≡ k = omega arith in ground (arith, back)

byte_first : (ram : ℕ → ℕ) (a v : ℕ) → write64 ram a v a ≡ byte_of v 0
unfolding write64
byte_first ram a v = ground arith

byte_off : (ram : ℕ → ℕ) (a v j : ℕ) → (a + 8 ≤ j) ⊎ (j < a) → write64 ram a v j ≡ ram j
unfolding write64
byte_off ram a v j h = ground arith

-- A word is made of its eight bytes alone.
pub read64_local :
    (ram ram' : ℕ → ℕ) (b : ℕ)
    → ((j : ℕ) → b ≤ j → j < b + 8 → ram j ≡ ram' j)
    → read64 ram b ≡ read64 ram' b
unfolding read64
read64_local ram ram' b h =
    let at : (k : ℕ) → k < 8 → ram (b + k) ≡ ram' (b + k) =
      λ k lt. h (b + k) (omega arith) (omega arith) in
    omega (
      arith,
      h b (omega arith) (omega arith),
      at 1 (omega arith),
      at 2 (omega arith),
      at 3 (omega arith),
      at 4 (omega arith),
      at 5 (omega arith),
      at 6 (omega arith),
      at 7 (omega arith),
    )

bytes_of :
    (v : ℕ)
    → v < 2 ^ 64
    → byte_of v 0
        + 2 ^ 8 * byte_of v 1
        + 2 ^ 16 * byte_of v 2
        + 2 ^ 24 * byte_of v 3
        + 2 ^ 32 * byte_of v 4
        + 2 ^ 40 * byte_of v 5
        + 2 ^ 48 * byte_of v 6
        + 2 ^ 56 * byte_of v 7
      ≡ v
unfolding byte_of
bytes_of v h = omega arith

pub read64-write64 : (ram : ℕ → ℕ) (a v : ℕ) → v < 2 ^ 64 → read64 (write64 ram a v) a ≡ v
unfolding read64
read64-write64 ram a v h =
    let at = byte_at ram a v in
    omega (
      arith,
      byte_first ram a v,
      at 1 (omega arith),
      at 2 (omega arith),
      at 3 (omega arith),
      at 4 (omega arith),
      at 5 (omega arith),
      at 6 (omega arith),
      at 7 (omega arith),
      bytes_of v h,
    )

-- Words that do not overlap.
pub read64-write64_ne :
    (ram : ℕ → ℕ) (a b v : ℕ)
    → (a + 8 ≤ b) ⊎ (b + 8 ≤ a)
    → read64 (write64 ram a v) b ≡ read64 ram b
read64-write64_ne ram a b v h =
    read64_local (write64 ram a v) ram b λ j lo hi. byte_off ram a v j (ground arith)
