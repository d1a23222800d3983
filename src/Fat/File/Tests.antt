-- ===== src/Fat/File/Tests.antt =====
-- A file on a small volume of the FAT32 driver.
use open_lib.Common.{
  ◌%◌, ℕ, ◌+◌, ◌*◌, ◌≤◌, ◌<◌, ◌≡◌, refl, arith, ◌||◌, some, [], ◌∷◌, ltb, ◌==◌, if◌then◌else◌,
  get_or,
}
use open_lib.Fat.Sector.{Bytes}
use open_lib.Fat.Cluster.{get_cluster}
use open_lib.Fat.Entry.{
  DirectoryEntry, dot_index, store_chars, write_extension, write_first_part, write_83_file_name,
  write_entries, found, read_directory_entry,
}
use open_lib.Fat.Entry.Read.{read_directory_entry-write_entries}
use open_lib.Fat.Volume.{Volume}
use open_lib.Fat.Table.{count_free}
use open_lib.Fat.File.{read_file, write_clusters}
use open_lib.Fat.File.Ready.{Ready}
use open_lib.Fat.File.Write.{read_file-write_clusters}
use open_lib.Fat.File.Content.{read_file_lem}
use open_lib.Fat.Tests.{blank, long_name, volume}

-- The short name of "LongFileName.txt" is "LONGFI~1TXT".
short_runs :
    (write_83_file_name long_name 32 blank 37 ≡ b'I')
    × (write_83_file_name long_name 32 blank 38 ≡ b'~')
    × (write_83_file_name long_name 32 blank 40 ≡ b'T')
    × (write_83_file_name long_name 32 blank 43 ≡ 0)
unfolding write_83_file_name write_first_part write_extension store_chars dot_index
short_runs = (refl, refl, refl, refl)

read_directory_entry-write_entries_example :
    (m' name : Bytes) × (write_entries long_name 64 0x20 9 1000 blank blank ≡ some m')
    × (read_directory_entry m' 64 512 blank blank
        ≡ some (
            found 160
              (record { name = name; dir_attrs = 0x20; first_cluster = 9; file_size = 1000 })))
    × ((q : ℕ) → name q ≡ (if ltb q 26 then get_or long_name q 0 else 0))
read_directory_entry-write_entries_example =
    read_directory_entry-write_entries long_name 64 0x20 9 1000 512 blank blank blank blank
      (omega arith) (omega arith) (omega arith) (omega arith) (omega arith) (omega arith)
      (omega arith)

-- A cluster whose first two entries are in use.
abbrev used_two : Bytes
used_two j = if j == 0 || j == 32 then b'A' else 0

-- A file of 1200 bytes in the clusters 2, 5 and 3.
abbrev file_entry : DirectoryEntry
file_entry = record { name = blank; dir_attrs = 0x20; first_cluster = 2; file_size = 1200 }

read_file_lem_example :
    (file : Bytes) × (read_file (volume 1) file_entry blank blank ≡ some file)
    × ((k r : ℕ)
        → k ≤ 2
        → r < 512
        → k * 512 + r < 1200
        → file (k * 512 + r) ≡ get_cluster (volume 1) blank (get_or (2 ∷ 5 ∷ 3 ∷ []) k 0) r)
read_file_lem_example =
    read_file_lem (volume 1) file_entry blank blank (5 ∷ 3 ∷ [])
      (refl, omega arith, (refl, omega arith, λ h. absurd (omega arith))) (omega arith)

pub volume-Ready : Ready (volume 1) 3
unfolding count_free
volume-Ready = record {
  hint_inside = omega arith;
  enough = omega arith;
  reserved_0 = omega arith;
  reserved_1 = omega arith;
  on_drive = λ c p q. record {
    real = p;
    reach = omega arith;
    some_sectors = omega arith;
    byte_count = omega arith;
  };
  numbers = omega arith;
  one = refl;
}

-- 1200 bytes that count up.
abbrev pub counting : Bytes
counting j = j % 256

read_file-write_clusters_example :
    (w : Volume) × (first : ℕ) × (file' : Bytes) × (write_clusters 3 (volume 1) counting 1200 0 0 0
      ≡ (w, first))
    × (read_file w
          (record { name = blank; dir_attrs = 0; first_cluster = first; file_size = 1200 })
          blank
          blank
        ≡ some file')
    × ((j : ℕ) → j < 1200 → file' j ≡ counting j)
read_file-write_clusters_example =
    read_file-write_clusters (volume 1) counting blank blank blank 1200 0 volume-Ready refl
