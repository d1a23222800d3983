-- ===== src/Fat/Sector.antt =====
-- Sector transfers: the loops of `KiATAReadDiskEx` and `KiATAWriteDisk` in ata.c, `FatGetSector`,
-- `FatPutSector` and the integer readers of fat32.c. The drive is a map from sectors to bytes, of
-- which the first 512 count; the port protocol selects it, and the polling is not modelled.
pub mod Laws
use open_lib.Common.{
  ℕ, ◌+◌, ◌-◌, ◌*◌, ◌/◌, ◌%◌, ◌^◌, Bool, ◌&&◌, ltb, leb, if◌then◌else◌, update, for_range, u32,
}

abbrev pub Bytes : Type 0
Bytes = ℕ → ℕ

abbrev pub Disk : Type 0
Disk = ℕ → Bytes

-- `n` bytes of `src` from `from` on, copied to `at`.
abbrev pub blit : Bytes → ℕ → Bytes → ℕ → ℕ → Bytes
blit dst at src from n j = if leb at j && ltb j (at + n) then src (from + (j - at)) else dst j

-- A 28 bit read. Each round transfers 256 words, that is 512 bytes, and then moves the target on
-- by 256 bytes. The sector count is a UCHAR.
unfoldable pub read_disk_ex : Disk → ℕ → ℕ → Bytes → Bytes
unfolding for_range
read_disk_ex disk lba count target =
    for_range (count % 256) 0 (λ i b. blit b (256 * i) (disk (lba % 2 ^ 28 + i)) 0 512) target

-- A 48 bit write, with the same step of the source.
unfoldable pub write_disk : Disk → ℕ → ℕ → Bytes → Disk
unfolding for_range
write_disk disk lba count source =
    for_range (count % 256) 0 (λ i d. update d (lba % 2 ^ 48 + i) (λ j. source (256 * i + j))) disk

unfoldable pub get_sector : Disk → Bytes → ℕ → ℕ → Bytes
unfolding read_disk_ex
get_sector disk buff sector count = read_disk_ex disk sector count buff

unfoldable pub put_sector : Disk → Bytes → ℕ → ℕ → Disk
unfolding write_disk for_range
put_sector disk buff sector count =
    for_range count 0 (λ i d. write_disk d (u32 (sector + i)) 1 (λ j. buff (i * 512 + j))) disk

-- Little-endian integers. The shifted and masked bytes have no bit in common, so `|` adds them.
abbrev pub read_integer16 : Bytes → ℕ → ℕ
read_integer16 b offset = b (offset + 1) % 256 * 2 ^ 8 + b offset % 256

abbrev pub read_integer32 : Bytes → ℕ → ℕ
read_integer32 b offset =
    b (offset + 3) % 256 * 2 ^ 24
    + b (offset + 2) % 256 * 2 ^ 16
    + b (offset + 1) % 256 * 2 ^ 8
    + b offset % 256
