-- ===== src/Fat/LongName.antt =====
-- Long file names: `FatWriteLongFileNameEntries`, `FatParseLongName` and `FatCheckSumFNAME` of
-- fat32.c. A C string is the list of its characters; the terminator follows them.
pub mod Write
pub mod Parse
use open_lib.Common.{
  ℕ, zero, suc, ◌+◌, ◌-◌, ◌*◌, ◌/◌, ◌%◌, ◌^◌, bit_or, Bool, ◌&&◌, ◌||◌, List, Option, none, some,
  ◌==◌, ltb, leb, if◌then◌else◌, update, for_range, get_or, length,
}
use open_lib.Fat.Sector.{Bytes}

-- The attribute byte LFN.
abbrev pub lfn : ℕ
lfn = 0x0f

-- The rotation to the right and the addition of one round, on a byte.
unfoldable pub check_sum_fname : Bytes → ℕ
unfolding for_range
check_sum_fname fname =
    for_range 11 0 (λ i checksum. (bit_or (checksum / 2) (checksum % 2 * 2 ^ 7) + fname i) % 256) 0

-- The character `written`, or the zero behind the end of the name.
abbrev pub name_char : List ℕ → ℕ → ℕ
name_char fname written = if ltb written (length fname) then get_or fname written 0 else 0

-- One of the three loops over `j`: `rounds` characters into every second byte from `at` on.
unfoldable pub put_chars : List ℕ → ℕ → ℕ → ℕ → Bytes → Bytes
put_chars fname at zero written m = m
put_chars fname at (suc rounds) written m =
    put_chars fname (at + 2) rounds (written + 1) (update m at (name_char fname written))

-- The body of the loop over `i`: the entries stand in reverse order.
unfoldable pub write_entry : List ℕ → ℕ → ℕ → ℕ → ℕ → Bytes → Bytes
write_entry fname checksum start num_entries i m =
    let entry = start + (num_entries - 1 - i) * 32 in
    let m = update (update m entry ((i + 1) % 256)) (entry + 13) checksum in
    let m = put_chars fname (entry + 1) 5 (13 * i) m in
    let m = put_chars fname (entry + 14) 6 (13 * i + 5) m in
    let m = put_chars fname (entry + 28) 2 (13 * i + 11) m in update m (entry + 11) lfn

-- `none` is the write through the null pointer that the last line makes when there is no entry.
unfoldable pub write_long_name : List ℕ → ℕ → ℕ → ℕ → Bytes → Option Bytes
write_long_name fname checksum start num_entries m =
    let m' = for_range num_entries 0 (write_entry fname checksum start num_entries) m in
    if num_entries == 0 then none else some (update m' start (bit_or (m' start) 0x40))

-- A character that is not printable ASCII is read as 0.
abbrev pub clean : ℕ → ℕ
clean c = if leb 32 c && leb c 127 then c else 0

-- One of the three loops over `j` of the parser.
unfoldable pub take_chars : Bytes → ℕ → ℕ → ℕ → Bytes → Bytes
take_chars entries at zero to name = name
take_chars entries at (suc rounds) to name =
    take_chars entries (at + 2) rounds (to + 1) (update name to (clean (entries at)))

unfoldable pub parse_entry : Bytes → ℕ → ℕ → Bytes → Bytes
parse_entry entries entry to name =
    take_chars entries (entry + 28) 2 (to + 11)
      (take_chars entries (entry + 14) 6 (to + 5) (take_chars entries (entry + 1) 5 to name))

-- The loop over `i`. `name` is the memory of `entry_count * 13` bytes from `malloc`; `none` is an
-- entry number that leads out of it.
unfoldable pub parse_from : Bytes → ℕ → ℕ → ℕ → Bytes → Option Bytes
parse_from entries entry_count zero i name = some name
parse_from entries entry_count (suc left) i name =
    let entry_no = entries (i * 32) % 16 in
    let rest =
      parse_from entries entry_count left (i + 1)
        (parse_entry entries (i * 32) ((entry_no - 1) * 13) name) in
    if entry_no == 0 || ltb entry_count entry_no then none else rest

unfoldable pub parse_long_name : Bytes → ℕ → Bytes → Option Bytes
parse_long_name entries entry_count name = parse_from entries entry_count entry_count 0 name
