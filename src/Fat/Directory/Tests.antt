-- ===== src/Fat/Directory/Tests.antt =====
-- A file in an empty directory of a small volume.
use open_lib.Common.{ℕ, ◌<◌, ◌≡◌, refl, arith, [], ◌∷◌, some, ltb, get_or, if◌then◌else◌, for_range}
use open_lib.Fat.Sector.{Bytes, get_sector, read_disk_ex}
use open_lib.Fat.Volume.{Volume}
use open_lib.Fat.Cluster.{get_cluster}
use open_lib.Fat.Entry.{DirectoryEntry}
use open_lib.Fat.File.{read_file, write_file}
use open_lib.Fat.Directory.{populate_dir}
use open_lib.Fat.Directory.Fresh.{EmptyDirectory}
use open_lib.Fat.Directory.Store.{populate_dir-write_file}
use open_lib.Fat.Tests.{blank, volume}
use open_lib.Fat.File.Tests.{volume-Ready, counting}

-- Cluster 3 is the last of a chain, and zero.
empty : EmptyDirectory (volume 1) 3 blank
unfolding get_cluster get_sector read_disk_ex for_range
empty = record {
  size = refl;
  one = refl;
  on_drive = record {
    real = omega arith;
    reach = omega arith;
    some_sectors = omega arith;
    byte_count = omega arith;
  };
  in_use = λ e. omega arith;
  last = omega arith;
  layout = omega arith;
  free = λ j h. ground arith;
}

populate_dir-write_file_example :
    (v' : Volume) × (d : DirectoryEntry) × (file' : Bytes) × (write_file 9
        (volume 1)
        3
        counting
        (b'A' ∷ b'.' ∷ b'T' ∷ [])
        1200
        blank
        blank
      ≡ some v')
    × (populate_dir 9 v' 3 (λ i. blank) blank ≡ some (record { cluster = 3; entries = d ∷ [] }))
    × ((q : ℕ) → d.name q ≡ (if ltb q 13 then get_or (b'A' ∷ b'.' ∷ b'T' ∷ []) q 0 else 0))
    × (d.file_size ≡ 1200)
    × (read_file v' d blank blank ≡ some file')
    × ((j : ℕ) → j < 1200 → file' j ≡ counting j)
populate_dir-write_file_example =
    populate_dir-write_file (volume 1) 3 blank counting blank blank (λ i. blank)
      (b'A' ∷ b'.' ∷ b'T' ∷ []) 1200 8 empty volume-Ready
      (omega arith, omega arith, (omega arith, omega arith, (omega arith, omega arith, record {})))
      (omega arith) (omega arith) (omega arith)
