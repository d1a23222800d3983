-- ===== src/Fat/Entry/Row.antt =====
-- What `FatWriteFileImplementation` of fat32.c writes into the cluster of a directory.
use open_lib.Common.{
  ℕ, ◌+◌, ◌*◌, ◌≤◌, ◌<◌, ◌≡◌, ◌^◌, refl, arith, false, List, length, some, ◌==◌, ◌⊎◌, update,
}
use open_lib.Fat.Sector.{Bytes}
use open_lib.Fat.LongName.{check_sum_fname, write_long_name}
use open_lib.Fat.Entry.{
  write_83_file_name, write_long_file_name_entries, required_entries, write_entries,
}
use open_lib.Fat.Entry.Read.{EntriesAre, written, written-EntriesAre, written-elsewhere}

pub required_entries-pos :
    (n : ℕ) → 0 < n → n ≤ 195 → (0 < required_entries n) × (required_entries n < 16)
required_entries-pos n pos few = ground arith

-- The entries of the file stand at `start`, and the other bytes are as they were.
pub write_entries-EntriesAre :
    (fname : List ℕ) (start attrs first_cluster flen : ℕ) (local m : Bytes)
    → 0 < length fname
    → length fname ≤ 195
    → first_cluster < 2 ^ 32
    → flen < 2 ^ 32
    → (m' : Bytes) × (write_entries fname start attrs first_cluster flen local m ≡ some m')
      × EntriesAre fname (required_entries (length fname)) attrs first_cluster flen m' start
      × ((p : ℕ)
          → (p < start) ⊎ (start + required_entries (length fname) * 32 + 32 ≤ p)
          → m' p ≡ m p)
unfolding write_entries write_long_file_name_entries write_long_name
write_entries-EntriesAre fname start attrs first_cluster flen local m pos few hc hf =
    let num = required_entries (length fname) in
    let checksum = check_sum_fname (write_83_file_name fname 0 (update local 11 0)) in
    let range = required_entries-pos (length fname) pos few in
    let nonzero : (num == 0) ≡ false = ground (arith, range.0) in
    (
      written fname checksum num start attrs first_cluster flen m,
      rw (nonzero, write_entries) refl,
      written-EntriesAre fname checksum num start attrs first_cluster flen m range.0 range.1 hc hf,
      λ p out. written-elsewhere fname checksum num start attrs first_cluster flen m p range.0 out,
    )
