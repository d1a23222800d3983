-- ===== src/Fat/Sector/Laws.antt =====
-- Rows of sectors: `FatPutSector` of fat32.c and `KiATAReadDiskEx` of ata.c.
use native.Mathlib.Nat.{mod-eq_of_lt}
use open_lib.Common.{
  ℕ, ◌+◌, ◌-◌, ◌*◌, ◌/◌, ◌%◌, ◌^◌, ◌≤◌, ◌<◌, ◌≡◌, ◌⊎◌, arith, ◌&&◌, ltb, leb, if◌then◌else◌,
  for_range, for_range_inv,
}
use open_lib.Fat.Sector.{Bytes, Disk, blit, read_disk_ex, write_disk, put_sector}

-- `FatPutSector` writes each of its sectors with the 512 bytes of its own, and no other sector.
pub put_sector_lem :
    (disk : Disk) (buff : Bytes) (sector count k j : ℕ)
    → sector + count ≤ 2 ^ 32
    → put_sector disk buff sector count k j
      ≡ (if leb sector k && ltb k (sector + count) then buff ((k - sector) * 512 + j) else disk k j)
unfolding put_sector write_disk for_range
put_sector_lem disk buff sector count k j fits =
    for_range_inv
      (λ n (d : Disk).
        d k j
        ≡ (if leb sector k && ltb k (sector + n) then buff ((k - sector) * 512 + j) else disk k j))
      _ count 0 count disk (λ n d lo hi p. ground arith) (omega arith) (ground arith)

-- The byte at `j` after `n` rounds of a read.
abbrev pub overlapped : Disk → ℕ → Bytes → ℕ → ℕ → ℕ
overlapped disk lba target j n =
    if ltb j (256 * n)
    then disk (lba + j / 256) (j % 256)
    else if (ltb 0 n && ltb j (256 * (n + 1)))
    then disk (lba + (n - 1)) (j - 256 * (n - 1))
    else target j

read_round :
    (disk : Disk) (lba n j : ℕ) (target b : Bytes)
    → lba + n < 2 ^ 28
    → b j ≡ overlapped disk lba target j n
    → blit b (256 * n) (disk (lba % 2 ^ 28 + n)) 0 512 j ≡ overlapped disk lba target j (n + 1)
read_round disk lba n j target b fits e = ground (arith, same, quotient)
  where
    same : lba % 2 ^ 28 ≡ lba
    same = omega arith

    quotient : (j < 256 * n) ⊎ ((j / 256 ≡ n) × (j % 256 ≡ j - 256 * n)) ⊎ (256 * (n + 1) ≤ j)
    quotient = ground arith

-- A read of several sectors overlaps them: every sector but the last keeps its first 256 bytes
-- alone, and what lies past the last one is not touched.
pub read_disk_ex_lem :
    (disk : Disk) (lba count j : ℕ) (target : Bytes)
    → lba + count ≤ 2 ^ 28
    → count < 256
    → read_disk_ex disk lba count target j ≡ overlapped disk lba target j count
unfolding read_disk_ex
read_disk_ex_lem disk lba count j target fits small = rw (mod-eq_of_lt small) (
    for_range_inv (λ n (b : Bytes). b j ≡ overlapped disk lba target j n) _ count 0 count target
      (λ n b lo hi p. read_round disk lba n j target b (omega arith) p) (omega arith)
      (ground arith))
