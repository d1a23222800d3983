-- ===== src/Elf.antt =====
-- `getelf` of ntoskrnl/ntuser/elf.c. `header` and `sections` are the blocks from `malloc`, and
-- `image` is the address of the array `lol`.
pub mod Laws
mod Tests
use open_lib.Common.{ℕ, ◌+◌, ◌*◌, ◌%◌, ◌^◌, Bool, not, ◌||◌, ◌==◌, if◌then◌else◌}
use open_lib.Utill.{fill}

-- `sizeof( struct elf64_header )` and `sizeof( struct elf64_section_header )`.
abbrev pub header_bytes : ℕ
header_bytes = 64

abbrev pub section_bytes : ℕ
section_bytes = 64

abbrev pub elf_class_64 : ℕ
elf_class_64 = 2

abbrev pub elf_data_little : ℕ
elf_data_little = 1

abbrev pub elf_file_rel : ℕ
elf_file_rel = 1

abbrev pub read_16 : (ℕ → ℕ) → ℕ → ℕ
read_16 m p = m p + m (p + 1) * 2 ^ 8

abbrev pub read_32 : (ℕ → ℕ) → ℕ → ℕ
read_32 m p = read_16 m p + read_16 m (p + 2) * 2 ^ 16

abbrev pub read_64 : (ℕ → ℕ) → ℕ → ℕ
read_64 m p = read_32 m p + read_32 m (p + 4) * 2 ^ 32

-- The message that `getelf` ends with, or that it went on to the sections.
pub data Outcome : Type 0 where
  invalid_header : Outcome
  not_64_bit_little_endian : Outcome
  not_relocatable : Outcome
  header_size_mismatch : Outcome
  loading : Outcome

pub record Loaded : Type 0 where
  pub outcome : Outcome
  pub memory : ℕ → ℕ

-- Both calls of `memset` take the address of the image for the byte to fill with.
unfoldable pub getelf : (ℕ → ℕ) → ℕ → ℕ → ℕ → Loaded
getelf m header sections image =
    let m1 = fill m header image header_bytes in
    let section_count = read_16 m1 (header + 60) in
    let section_offset = read_64 m1 (header + 40) in
    if not (read_32 m1 header == 0x464C457F)
    then record { outcome = invalid_header; memory = m1 }
    else if not (m1 (header + 4) == elf_class_64) || not (m1 (header + 5) == elf_data_little)
    then record { outcome = not_64_bit_little_endian; memory = m1 }
    else if not (read_16 m1 (header + 16) == elf_file_rel)
    then record { outcome = not_relocatable; memory = m1 }
    else if not (read_16 m1 (header + 58) == section_bytes)
    then record { outcome = header_size_mismatch; memory = m1 }
    else record {
      outcome = loading;
      memory =
          fill m1 ((sections + section_offset * section_bytes) % 2 ^ 64) image
            (section_bytes * section_count);
    }
