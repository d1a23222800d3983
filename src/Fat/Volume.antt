-- ===== src/Fat/Volume.antt =====
-- A mounted volume: the partition table of partition.c, `struct BiosParameterBlockStruct`,
-- `struct FAT32`, `FatInitialize` and `FatResolveByPrefix` of fat32.c.
pub mod Laws
use open_lib.Common.{
  u32, ℕ, zero, suc, ◌+◌, ◌-◌, ◌*◌, ◌/◌, ◌%◌, ◌^◌, Bool, true, false, not, ◌&&◌, List, [], ◌∷◌,
  Option, none, some, ◌==◌, ltb, if◌then◌else◌, update, for_range, get_or,
}
use open_lib.Fat.Sector.{Bytes, Disk, read_integer16, read_integer32, get_sector, put_sector}

-- `struct BiosParameterBlockStruct`.
pub record BiosParameterBlock : Type 0 where
  pub bytes_per_sector : ℕ
  pub sectors_per_cluster : ℕ
  pub reserved_sectors : ℕ
  pub fat_count : ℕ
  pub directory_entries : ℕ
  pub total_sectors : ℕ
  pub media_descriptor_type : ℕ
  pub sectors_per_fat : ℕ
  pub sectors_per_track : ℕ
  pub heads_or_sizes : ℕ
  pub hidden_sectors : ℕ
  pub large_sectors : ℕ
  pub sectors_per_fat32 : ℕ
  pub flags : ℕ
  pub fat_version : ℕ
  pub cluster_root_directory : ℕ
  pub fs_info_sector : ℕ
  pub backup_boot_sector : ℕ
  pub drive_number : ℕ
  pub windows_flags : ℕ
  pub signature : ℕ
  pub volume_serial : ℕ
  pub volume_label : Bytes
  pub system_id : Bytes

-- `struct FAT32` beside the drive that it is on.
pub record Volume : Type 0 where
  pub letter : ℕ
  pub fat : ℕ → ℕ
  pub bpb : BiosParameterBlock
  pub partition_sector : ℕ
  pub fat_sector : ℕ
  pub cluster_sector : ℕ
  pub cluster_size : ℕ
  pub hint : ℕ
  pub disk : Disk

abbrev pub max_partition : ℕ
max_partition = 4

-- The -1 of `FatAcquirePartitionSector`, as a UINT.
abbrev pub not_a_partition : ℕ
not_a_partition = 2 ^ 32 - 1

-- `MBRTable.PartitionTable[ n ].StartingSector` and the two signature bytes.
abbrev pub starting_sector : Bytes → ℕ → ℕ
starting_sector mbr n = read_integer32 mbr (446 + 16 * n + 8)

unfoldable pub acquire_partition_sector : Disk → Bytes → ℕ → ℕ
unfolding get_sector
acquire_partition_sector disk table n =
    let mbr = get_sector disk table 0 1 in
    if ltb (max_partition - 1) n
    then not_a_partition
    else if (mbr 510 == 0x55 && mbr 511 == 0xaa)
    then (if starting_sector mbr n == 0 then not_a_partition else starting_sector mbr n)
    else not_a_partition

-- `FatReadSectorBiosParameterBlock`: the boot sector is that of partition 0, whichever partition
-- is mounted. `memory` is what the buffers hold before.
unfoldable pub read_bios_parameter_block : Disk → Bytes → BiosParameterBlock
unfolding get_sector acquire_partition_sector
read_bios_parameter_block disk memory =
    let boot = get_sector disk memory (acquire_partition_sector disk memory 0) 1 in
    record {
      bytes_per_sector = read_integer16 boot 11;
      sectors_per_cluster = boot 13;
      reserved_sectors = read_integer16 boot 14;
      fat_count = boot 16;
      directory_entries = read_integer16 boot 17;
      total_sectors = read_integer16 boot 19;
      media_descriptor_type = boot 21;
      sectors_per_fat = read_integer16 boot 22;
      sectors_per_track = read_integer16 boot 24;
      heads_or_sizes = read_integer16 boot 26;
      hidden_sectors = read_integer32 boot 28;
      large_sectors = read_integer32 boot 32;
      sectors_per_fat32 = read_integer32 boot 36;
      flags = read_integer16 boot 40;
      fat_version = read_integer16 boot 42;
      cluster_root_directory = read_integer32 boot 44;
      fs_info_sector = read_integer16 boot 48;
      backup_boot_sector = read_integer16 boot 50;
      drive_number = boot 64;
      windows_flags = boot 65;
      signature = boot 66;
      volume_serial = read_integer32 boot 67;
      volume_label = λ j. if j == 11 then 0 else boot (71 + j);
      system_id = λ j. if j == 8 then 0 else boot (82 + j);
    }

-- `UtilTrimSpaces`: the first space among the first `max + 1` characters ends the string.
unfoldable pub trim_from : ℕ → ℕ → Bytes → Bytes
trim_from zero i c = if c i == b' ' then update c i 0 else c
trim_from (suc left) i c =
    let rest = trim_from left (i + 1) c in if c i == b' ' then update c i 0 else rest

unfoldable pub trim_spaces : Bytes → ℕ → Bytes
unfolding trim_from
trim_spaces c max = trim_from max 0 c

-- `strcmp( c, text ) == 0` for a text in memory and one that is given.
unfoldable pub equals_text : Bytes → ℕ → List ℕ → Bool
equals_text c i [] = c i == 0
equals_text c i (x ∷ xs) = c i == x && equals_text c (i + 1) xs

abbrev pub letter_assignment : List ℕ
letter_assignment = b'C' ∷ b'D' ∷ b'E' ∷ b'F' ∷ []

-- One sector of the table: the inner loop over its 128 entries.
abbrev pub load_sector : Disk → Bytes → ℕ → ℕ → (ℕ → ℕ) → ℕ → ℕ
load_sector disk memory fat_sector sector_i fat =
    for_range 128 0
      (λ j f.
        update f (sector_i * 128 + j)
          (read_integer32 (get_sector disk memory (u32 (fat_sector + sector_i)) 1) (j * 4)))
      fat

-- The loop of `FatInitialize` that loads the table.
unfoldable pub load_fat : Disk → Bytes → ℕ → ℕ → (ℕ → ℕ) → ℕ → ℕ
unfolding get_sector for_range
load_fat disk memory fat_sector sectors fat =
    for_range sectors 0 (load_sector disk memory fat_sector) fat

-- The volume and the new `iLastDriveCount`; `none` is the NULL of `FatInitialize`. The record is
-- freed before it is returned; it is modelled as if its memory kept what was written.
unfoldable pub initialize : Disk → Bytes → (ℕ → ℕ) → ℕ → ℕ → Option (Volume × ℕ)
unfolding acquire_partition_sector read_bios_parameter_block trim_spaces equals_text load_fat
initialize disk memory table partition last_drive =
    let start = acquire_partition_sector disk memory partition in
    let bpb = read_bios_parameter_block disk memory in
    let fat_sector = u32 (start + bpb.reserved_sectors) in
    let v : Volume = record {
      letter = get_or letter_assignment last_drive 0;
      fat = load_fat disk memory fat_sector bpb.sectors_per_fat32 table;
      bpb = record bpb { system_id = trim_spaces bpb.system_id 8 };
      partition_sector = start;
      fat_sector = fat_sector;
      cluster_sector = u32 (fat_sector + bpb.fat_count * bpb.sectors_per_fat32);
      cluster_size = 512 * bpb.sectors_per_cluster;
      hint = 0;
      disk = disk;
    } in
    if start == not_a_partition
    then none
    else if not
        (equals_text (trim_spaces bpb.system_id 8) 0 (b'F' ∷ b'A' ∷ b'T' ∷ b'3' ∷ b'2' ∷ []))
    then none
    else if last_drive == 4
    then none
    else some (v, last_drive + 1)

-- The table as the bytes that `FatFlushFAT` writes: a little-endian machine's view of it.
abbrev pub fat_bytes : (ℕ → ℕ) → Bytes
fat_bytes fat j = fat (j / 4) / 256 ^ (j % 4) % 256

unfoldable pub flush_fat : Volume → Volume
unfolding put_sector
flush_fat v = record v {
  disk = put_sector v.disk (fat_bytes v.fat) v.fat_sector v.bpb.sectors_per_fat32;
}

-- `FatResolveByPrefix` over the array `Partition`: the first mounted volume with the letter.
unfoldable pub resolve_by_prefix : List (Option Volume) → ℕ → Option Volume
resolve_by_prefix [] first = none
resolve_by_prefix (none ∷ ps) first = resolve_by_prefix ps first
resolve_by_prefix (some v ∷ ps) first =
    let rest = resolve_by_prefix ps first in if first == v.letter then some v else rest
