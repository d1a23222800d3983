-- ===== src/Fat/Tests.antt =====
-- Runs of the FAT32 driver on a small volume, and its theorems at those inputs.
use open_lib.Common.{
  ℕ, ◌+◌, ◌-◌, ◌*◌, ◌/◌, ◌%◌, ◌^◌, ◌<◌, ◌≡◌, ◌≢◌, refl, ◌⊎◌, arith, some, List, [], ◌∷◌, ltb, ◌==◌,
  if◌then◌else◌, get_or,
}
use open_lib.Fat.Sector.{Bytes, read_disk_ex, put_sector}
use open_lib.Fat.Sector.Laws.{put_sector_lem}
use open_lib.Fat.Volume.{Volume, BiosParameterBlock, load_fat, flush_fat}
use open_lib.Fat.Volume.Laws.{load_fat-flush_fat}
use open_lib.Fat.Cluster.{get_cluster, put_cluster}
use open_lib.Fat.Cluster.Laws.{OnDrive, get_cluster-put_cluster, get_cluster-put_cluster_one}
use open_lib.Fat.Table.{find_free, take_cluster, alloc_cluster, zero_fat_chain}
use open_lib.Fat.Table.Alloc.{Takes, alloc_cluster_lem}
use open_lib.Fat.Table.Chain.{contains, zero_fat_chain_lem, zero_fat_chain_ends}
use open_lib.Fat.LongName.{write_long_name, parse_long_name}
use open_lib.Fat.LongName.Parse.{parse_long_name-write_long_name}

abbrev pub blank : Bytes
blank j = 0

abbrev block : ℕ → BiosParameterBlock
block spc = record {
  bytes_per_sector = 512;
  sectors_per_cluster = spc;
  reserved_sectors = 32;
  fat_count = 2;
  directory_entries = 0;
  total_sectors = 0;
  media_descriptor_type = 0xf8;
  sectors_per_fat = 0;
  sectors_per_track = 63;
  heads_or_sizes = 16;
  hidden_sectors = 2048;
  large_sectors = 70000;
  sectors_per_fat32 = 2;
  flags = 0;
  fat_version = 0;
  cluster_root_directory = 2;
  fs_info_sector = 1;
  backup_boot_sector = 6;
  drive_number = 0x80;
  windows_flags = 0;
  signature = 0x29;
  volume_serial = 1;
  volume_label = blank;
  system_id = blank;
}

-- Clusters 2, 5 and 3 make a chain; the two reserved entries and 4 are in use.
abbrev pub table : ℕ → ℕ
table j =
    if j == 2
    then 5
    else if j == 5
    then 3
    else if j == 3
    then 0x0fffffff
    else if ltb j 5
    then 0x0ffffff8
    else 0

abbrev pub volume : ℕ → Volume
volume spc = record {
  letter = b'C';
  fat = table;
  bpb = block spc;
  partition_sector = 2048;
  fat_sector = 2080;
  cluster_sector = 2084;
  cluster_size = 512 * spc;
  hint = 3;
  disk = λ s j. 0;
}

table_words : (j : ℕ) → table j < 2 ^ 32
table_words j = ground arith

on_drive : OnDrive (volume 1) 7
on_drive = omega arith

OnDrive-two : OnDrive (volume 2) 7
OnDrive-two = omega arith

-- A buffer in which every byte tells its place.
abbrev ramp : Bytes
ramp j = j / 256

put_sector_lem_example :
    put_sector (λ s j. 0) ramp 40 3 41 5 ≡ (if ltb 40 41 then ramp ((41 - 40) * 512 + 5) else 0)
put_sector_lem_example = put_sector_lem (λ s j. 0) ramp 40 3 41 5 (omega arith)

read_overlaps : read_disk_ex (λ s j. s) 40 3 blank 300 ≡ 41
unfolding read_disk_ex
read_overlaps = refl

load_fat-flush_fat_example :
    load_fat (flush_fat (volume 1)).disk blank 2080 2 blank 5 ≡ (if ltb 5 (2 * 128) then 3 else 0)
load_fat-flush_fat_example = load_fat-flush_fat (volume 1) blank blank 5 (omega arith) table_words

get_cluster-put_cluster_example :
    get_cluster (put_cluster (volume 2) ramp 7) blank 7 300
    ≡ (if ltb 300 (256 * 2) then ramp (300 / 256 * 512 + 300 % 256) else ramp 0)
get_cluster-put_cluster_example =
    get_cluster-put_cluster (volume 2) ramp blank 7 300 OnDrive-two (omega arith)

get_cluster-put_cluster_one_example :
    get_cluster (put_cluster (volume 1) ramp 7) blank 7 300 ≡ ramp 300
get_cluster-put_cluster_one_example =
    get_cluster-put_cluster_one (volume 1) ramp blank 7 300 on_drive refl (omega arith)

alloc_runs :
    ((alloc_cluster (volume 1)).1 ≡ 6)
    × ((alloc_cluster (volume 1)).0.fat 6 ≡ 0x0fffffff)
    × ((alloc_cluster (volume 1)).0.hint ≡ 7)
unfolding alloc_cluster find_free take_cluster
alloc_runs = (refl, refl, refl)

alloc_cluster_lem_example :
    (Takes (volume 1) (alloc_cluster (volume 1)).0 (alloc_cluster (volume 1)).1
      × ((alloc_cluster (volume 1)).1 < 256))
    ⊎ ((alloc_cluster (volume 1) ≡ (volume 1, 0)) × ((j : ℕ) → j < 256 → table j ≢ 0))
alloc_cluster_lem_example = alloc_cluster_lem (volume 1) (omega arith)

zero_fat_chain_lem_example :
    (fat' : ℕ → ℕ) × (zero_fat_chain (volume 1) 2
      ≡ some (flush_fat (record (volume 1) { fat = fat' })))
    × ((j : ℕ) → fat' j ≡ (if contains (2 ∷ 5 ∷ 3 ∷ []) j then 0 else table j))
zero_fat_chain_lem_example =
    zero_fat_chain_lem (volume 1) 2 (2 ∷ 5 ∷ 3 ∷ []) (omega arith) (refl, (refl, (refl, tt)))
      (omega arith)

zero_fat_chain_ends_example : (v' : Volume) × (zero_fat_chain (volume 1) 2 ≡ some v')
zero_fat_chain_ends_example = zero_fat_chain_ends (volume 1) 2

-- "LongFileName.txt", in two entries.
abbrev pub long_name : List ℕ
long_name =
    b'L' ∷ b'o' ∷ b'n' ∷ b'g' ∷ b'F' ∷ b'i' ∷ b'l' ∷ b'e' ∷ b'N' ∷ b'a' ∷ b'm' ∷ b'e' ∷ b'.' ∷ b't'
    ∷ b'x' ∷ b't' ∷ []

parse_long_name-write_long_name_example :
    (m' name' : Bytes) × (write_long_name long_name 0x5a 64 2 blank ≡ some m')
    × (parse_long_name (λ j. m' (64 + j)) 2 blank ≡ some name')
    × ((q : ℕ) → name' q ≡ (if ltb q (13 * 2) then get_or long_name q 0 else 0))
parse_long_name-write_long_name_example =
    parse_long_name-write_long_name long_name 0x5a 64 2 blank blank (omega arith) (omega arith)
      (omega arith)
