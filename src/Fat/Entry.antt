-- ===== src/Fat/Entry.antt =====
-- Directory entries: `FatWrite83FileName`, `FatReadDirectoryEntry`, and how
-- `FatWriteFileImplementation` of fat32.c fills the entries of a file.

pub mod Short
pub mod Read
pub mod Row
use open_lib.Common.{
  ℕ, zero, suc, ◌+◌, ◌-◌, ◌*◌, ◌/◌, ◌%◌, ◌^◌, Bool, ◌&&◌, ◌||◌, not, List, length, get_or, Option,
  none, some, ◌==◌, ltb, leb, if◌then◌else◌, update, for_range, u32,
}
use open_lib.Utill.{fill, k_toupper, strlen}
use open_lib.Fat.Sector.{Bytes, blit, read_integer16, read_integer32}
use open_lib.Fat.Volume.{trim_spaces}
use open_lib.Fat.LongName.{lfn, check_sum_fname, write_long_name, parse_long_name}

-- `struct DirectoryEntry`; the name is memory seen from its pointer.
pub record DirectoryEntry : Type 0 where
  pub name : Bytes
  pub dir_attrs : ℕ
  pub first_cluster : ℕ
  pub file_size : ℕ

-- The loop that looks for the last dot, with `n` characters left to look at.
unfoldable pub dot_index : List ℕ → ℕ → Option ℕ
dot_index fname zero = none
dot_index fname (suc i) =
    let rest = dot_index fname i in if get_or fname i 0 == b'.' then some i else rest

-- The character of the extension at `c_index`.
abbrev pub extension_char : List ℕ → ℕ → ℕ
extension_char fname c_index =
    if leb (length fname) c_index then b' ' else k_toupper (get_or fname c_index 0)

-- A loop of it: `buffer[ at + i ] = f( i )` for `n` values of `i`.
unfoldable pub store_chars : (ℕ → ℕ) → ℕ → ℕ → Bytes → Bytes
unfolding for_range
store_chars f at n buffer = for_range n 0 (λ i m. update m (at + i) (f i)) buffer

-- The extension behind the dot, or three spaces.
unfoldable pub write_extension : List ℕ → Option ℕ → ℕ → Bytes → Bytes
write_extension fname (some d) at buffer =
    store_chars (λ i. extension_char fname (d + 1 + i)) (at + 8) 3 buffer
write_extension fname none at buffer = store_chars (λ i. b' ') (at + 8) 3 buffer

-- The first part, of a length above 8 or not.
unfoldable pub write_first_part : List ℕ → ℕ → ℕ → Bytes → Bytes
write_first_part fname firstpart_len at buffer =
    let upper = λ (i : ℕ). k_toupper (get_or fname i 0) in
    if ltb 8 firstpart_len
    then update (update (store_chars upper at 6 buffer) (at + 6) b'~') (at + 7) b'1'
    else store_chars upper at firstpart_len buffer

-- `FatWrite83FileName` into the buffer at `at`.
unfoldable pub write_83_file_name : List ℕ → ℕ → Bytes → Bytes
write_83_file_name fname at buffer =
    let dot = dot_index fname (length fname) in
    let firstpart_len : ℕ = elim dot [ some d ↦ d | none ↦ length fname ] in
    write_first_part fname firstpart_len at (write_extension fname dot at (fill buffer at b' ' 11))

-- `FatWriteLongFileNameEntries`, whose check sum is that of the short name. `stack` is what the
-- local array holds before.
unfoldable pub write_long_file_name_entries : List ℕ → ℕ → ℕ → Bytes → Bytes → Option Bytes
write_long_file_name_entries fname start num_entries stack m =
    write_long_name fname (check_sum_fname (write_83_file_name fname 0 (update stack 11 0))) start
      num_entries m

abbrev pub required_entries : ℕ → ℕ
required_entries namelen = if ltb 0 (namelen % 13) then namelen / 13 + 1 else namelen / 13

-- The fields of the entry of the file at `at`.
abbrev pub write_fields : ℕ → ℕ → ℕ → ℕ → Bytes → Bytes
write_fields at attrs first_cluster flen m =
    let m = update m (at + 11) attrs in
    let m = update m (at + 20) (first_cluster / 2 ^ 16 % 256) in
    let m = update m (at + 21) (first_cluster / 2 ^ 24 % 256) in
    let m = update m (at + 26) (first_cluster % 256) in
    let m = update m (at + 27) (first_cluster / 2 ^ 8 % 256) in
    let m = update m (at + 28) (flen % 256) in
    let m = update m (at + 29) (flen / 2 ^ 8 % 256) in
    let m = update m (at + 30) (flen / 2 ^ 16 % 256) in update m (at + 31) (flen / 2 ^ 24 % 256)

-- All that `FatWriteFileImplementation` writes into the cluster of the directory, from `start` on.
unfoldable pub write_entries : List ℕ → ℕ → ℕ → ℕ → ℕ → Bytes → Bytes → Option Bytes
write_entries fname start attrs first_cluster flen stack m =
    let long = required_entries (length fname) in
    let actual_entry = start + long * 32 in
    elim (write_long_file_name_entries fname start long stack m) [
      | none ↦ none
      | some m' ↦ some (
          write_fields actual_entry attrs first_cluster flen
            (write_83_file_name fname actual_entry m'))
    ]

-- The loop over the long entries: their number, and the entry behind them. `none` is the NULL at
-- the end of the cluster.
unfoldable pub count_long : ℕ → Bytes → ℕ → ℕ → ℕ → Option (ℕ × ℕ)
count_long zero m entry end count = none
count_long (suc fuel) m entry end count =
    let rest = count_long fuel m (entry + 32) end (count + 1) in
    if m (entry + 11) == lfn
    then (if entry + 32 == end then none else rest)
    else some (count, entry)

-- The name of an entry without a long one, in the 13 bytes from `malloc`, and with the local array
-- `extension`. Both lengths end at a zero that was just written.
unfoldable pub short_name : Bytes → ℕ → Bytes → Bytes → Option Bytes
unfolding trim_spaces strlen
short_name m entry memory stack =
    let copied = update (blit memory 0 m entry 11) 11 0 in
    let extension = trim_spaces (update (blit stack 0 copied 8 3) 3 0) 3 in
    let name = trim_spaces (update copied 8 0) 8 in
    elim (strlen 4 extension 0) [
      | none ↦ none
      | some zero ↦ some name
      | some (suc n) ↦ elim (strlen 9 name 0) [
        | none ↦ none
        | some len ↦ some (blit (update name len b'.') (len + 1) extension 0 4)
      ]
    ]

-- What `FatReadDirectoryEntry` returns, with the entry it fills.
pub data Reading : Type 0 where
  null : Reading
  found : ℕ → DirectoryEntry → Reading

abbrev pub is_free : ℕ → Bool
is_free first_byte = first_byte == 0x00 || first_byte == 0xe5

-- `none` is an access out of the name's memory. The loop ends at the end of the cluster or before,
-- so the bytes up to there are fuel enough.
unfoldable pub read_directory_entry : Bytes → ℕ → ℕ → Bytes → Bytes → Option Reading
read_directory_entry m start end memory stack =
    if is_free (m start) then some null else elim (count_long (end - start) m start end 0) [
      | none ↦ some null
      | some (count, entry) ↦
          elim (if ltb 0 count
            then parse_long_name (λ j. m (start + j)) (count % 256) memory
            else short_name m entry memory stack) [
              | none ↦ none
              | some name ↦ some (
                  found (entry + 32) (record {
                    name = name;
                    dir_attrs = m (entry + 11);
                    first_cluster =
                        read_integer16 m (entry + 20) * 2 ^ 16 + read_integer16 m (entry + 26);
                    file_size = read_integer32 m (entry + 28);
                  }))
            ]
    ]
