-- ===== src/Fat/Volume/Laws.antt =====
-- The table on the drive: `FatFlushFAT` and the loading loop of `FatInitialize` in fat32.c.
use open_lib.Common.{
  u32, ℕ, ◌+◌, ◌*◌, ◌/◌, ◌%◌, ◌^◌, ◌≤◌, ◌<◌, ◌≡◌, refl, ◌∙◌, arith, ◌&&◌, ltb, leb, if◌then◌else◌,
  for_range_inv,
}
use open_lib.Fat.Sector.{Bytes, Disk, read_integer32, get_sector}
use open_lib.Fat.Sector.Laws.{put_sector_lem, read_disk_ex_lem}
use open_lib.Fat.Volume.{Volume, fat_bytes, load_sector, load_fat, flush_fat}

-- One sector, read alone, comes back whole.
pub get_sector_one :
    (disk : Disk) (memory : Bytes) (sector j : ℕ)
    → sector < 2 ^ 28
    → j < 512
    → get_sector disk memory sector 1 j ≡ disk sector j
unfolding get_sector
get_sector_one disk memory sector j h hj =
    ground (arith, read_disk_ex_lem disk sector 1 j memory (omega arith) (omega arith))

-- Four bytes of a UINT make the UINT.
bytes_of_entry :
    (x : ℕ)
    → x < 2 ^ 32
    → x / 256 ^ 3 % 256 % 256 * 2 ^ 24
        + x / 256 ^ 2 % 256 % 256 * 2 ^ 16
        + x / 256 ^ 1 % 256 % 256 * 2 ^ 8
        + x / 256 ^ 0 % 256 % 256
      ≡ x
bytes_of_entry x h = omega arith

module _ (fat : ℕ → ℕ) (b : Bytes) (s : ℕ)
    (bytes : (k : ℕ) → k < 512 → b k ≡ fat_bytes fat (s * 512 + k)) where
  entry_byte :
      (j i k : ℕ) → j < 128 → i < 4 → k ≡ j * 4 + i → b k ≡ fat (s * 128 + j) / 256 ^ i % 256
  entry_byte j i k hj hi e =
      let entry : (s * 512 + k) / 4 ≡ s * 128 + j = omega arith in
      let digit : (s * 512 + k) % 4 ≡ i = omega arith in rw (bytes k (omega arith), entry, digit)

  read_entry :
      (j : ℕ) → j < 128 → fat (s * 128 + j) < 2 ^ 32 → read_integer32 b (j * 4) ≡ fat (s * 128 + j)
  read_entry j hj h =
      rw
        (
          entry_byte j 0 (j * 4) hj (omega arith) (omega arith),
          entry_byte j 1 (j * 4 + 1) hj (omega arith) (omega arith),
          entry_byte j 2 (j * 4 + 2) hj (omega arith) (omega arith),
          entry_byte j 3 (j * 4 + 3) hj (omega arith) (omega arith),
        )
        (bytes_of_entry (fat (s * 128 + j)) h)

-- What one sector of the table gives back.
load_sector_lem :
    (disk : Disk) (memory : Bytes) (fat_sector s k : ℕ) (fat table : ℕ → ℕ)
    → fat_sector + s < 2 ^ 28
    → ((j : ℕ) → j < 512 → disk (fat_sector + s) j ≡ fat_bytes fat (s * 512 + j))
    → ((j : ℕ) → fat j < 2 ^ 32)
    → load_sector disk memory fat_sector s table k
      ≡ (if leb (s * 128) k && ltb k (s * 128 + 128) then fat k else table k)
load_sector_lem disk memory fat_sector s k fat table fits stored words =
    for_range_inv
      (λ n (f : ℕ → ℕ). f k ≡ (if leb (s * 128) k && ltb k (s * 128 + n) then fat k else table k)) _
      128 0 128 table
      (λ n f lo hi p. ground (
        arith,
        exact,
        read_entry fat (get_sector disk memory (u32 (fat_sector + s)) 1) s whole n hi
            (words (s * 128 + n)),
      ))
      refl (ground arith)
  where
    exact : u32 (fat_sector + s) ≡ fat_sector + s
    exact = omega arith

    whole :
        (j : ℕ)
        → j < 512
        → get_sector disk memory (u32 (fat_sector + s)) 1 j ≡ fat_bytes fat (s * 512 + j)
    whole j h = rw exact (get_sector_one disk memory (fat_sector + s) j fits h ∙ stored j h)

-- The table survives: after `FatFlushFAT` wrote it, the loop of `FatInitialize` loads each of its
-- entries again, and leaves the memory behind the table as it was.
pub load_fat-flush_fat :
    (v : Volume) (memory : Bytes) (table : ℕ → ℕ) (k : ℕ)
    → v.fat_sector + v.bpb.sectors_per_fat32 ≤ 2 ^ 28
    → ((j : ℕ) → v.fat j < 2 ^ 32)
    → load_fat (flush_fat v).disk memory v.fat_sector v.bpb.sectors_per_fat32 table k
      ≡ (if ltb k (v.bpb.sectors_per_fat32 * 128) then v.fat k else table k)
unfolding load_fat flush_fat
load_fat-flush_fat v memory table k fits words =
    for_range_inv (λ n (f : ℕ → ℕ). f k ≡ (if ltb k (n * 128) then v.fat k else table k)) _
      v.bpb.sectors_per_fat32 0 v.bpb.sectors_per_fat32 table
      (λ n f lo hi p. ground (
        arith,
        load_sector_lem (flush_fat v).disk memory v.fat_sector n k v.fat f (omega arith)
            (λ j h. written n j hi) words,
      ))
      (omega arith) (ground arith)
  where
    written :
        (n j : ℕ)
        → n < v.bpb.sectors_per_fat32
        → (flush_fat v).disk (v.fat_sector + n) j ≡ fat_bytes v.fat (n * 512 + j)
    written n j h = ground (
      arith,
      put_sector_lem v.disk (fat_bytes v.fat) v.fat_sector v.bpb.sectors_per_fat32
          (v.fat_sector + n) j,
    )
