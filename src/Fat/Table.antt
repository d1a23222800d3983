-- ===== src/Fat/Table.antt =====
-- The allocation table: `FatAllocCluster`, `FatZeroFatChain` and `FatGetFreeClusters` of fat32.c.
pub mod Alloc
pub mod Chain
use open_lib.Common.{
  u32, ℕ, zero, suc, ◌+◌, ◌-◌, ◌*◌, ◌/◌, ◌%◌, ◌^◌, Bool, ◌&&◌, not, Option, none, some, ◌==◌, ltb,
  if◌then◌else◌, update,
}
use open_lib.Fat.Volume.{Volume, flush_fat}
use open_lib.Fat.Cluster.{eoc, clear_cluster}

-- The number of entries that the table's sectors hold.
abbrev pub ints_per_fat : Volume → ℕ
ints_per_fat v = u32 (512 * v.bpb.sectors_per_fat32) / 4

-- Both loops of `FatAllocCluster`: the first free entry from `i` on, in `left` rounds.
unfoldable pub find_free : (ℕ → ℕ) → ℕ → ℕ → Option ℕ
find_free fat zero i = none
find_free fat (suc left) i =
    let rest = find_free fat left (i + 1) in if fat i == 0 then some i else rest

-- The body of their `if`.
unfoldable pub take_cluster : Volume → ℕ → Volume
unfolding clear_cluster
take_cluster v i =
    let marked = record v { fat = update v.fat i 0x0fffffff } in
    record (clear_cluster marked i) { hint = i + 1 }

unfoldable pub alloc_cluster : Volume → Volume × ℕ
alloc_cluster v = elim (find_free v.fat (ints_per_fat v - v.hint) v.hint) [
  | some i ↦ (take_cluster v i, i)
  | none ↦ elim (find_free v.fat v.hint 0) [ some i ↦ (take_cluster v i, i) | none ↦ (v, 0) ]
]

-- The loop of `FatZeroFatChain`; `none` is a loop that has not ended in `fuel` tests.
unfoldable pub zero_chain : ℕ → (ℕ → ℕ) → ℕ → Option (ℕ → ℕ)
zero_chain zero fat cluster = none
zero_chain (suc fuel) fat cluster =
    let rest = zero_chain fuel (update fat cluster 0) (fat cluster) in
    if ltb cluster eoc && not (cluster == 0) then rest else some fat

-- Each round zeroes an entry below `eoc`.
unfoldable pub zero_fat_chain : Volume → ℕ → Option Volume
zero_fat_chain v start = elim (zero_chain (eoc + 2) v.fat start) [
  | none ↦ none
  | some fat ↦ some (flush_fat (record v { fat = fat }))
]

-- The loop of `FatGetFreeClusters` after `n` rounds.
unfoldable pub count_free : (ℕ → ℕ) → ℕ → ℕ
count_free fat zero = 0
count_free fat (suc n) = if fat n == 0 then count_free fat n + 1 else count_free fat n

abbrev pub free_clusters : Volume → ℕ
free_clusters v = count_free v.fat (u32 (v.bpb.sectors_per_fat32 * 512) / 4)
