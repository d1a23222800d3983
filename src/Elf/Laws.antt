-- ===== src/Elf/Laws.antt =====
-- `getelf` (elf.c) on every image.
use open_lib.Common.{ℕ, ◌+◌, ◌*◌, ◌%◌, ◌^◌, ◌<◌, ◌≡◌, arith, ◌==◌, false}
use open_lib.Utill.{fill}
use open_lib.Elf.{header_bytes, read_32, invalid_header, getelf}

fill_inside : (m : ℕ → ℕ) (at c n k : ℕ) → k < n → n < 2 ^ 31 → fill m at c n (at + k) ≡ c % 256
fill_inside m at c n k h small = ground arith

-- Four equal bytes are not the magic number.
magic_apart : (b : ℕ) → b < 256 → (b + b * 2 ^ 8 + (b + b * 2 ^ 8) * 2 ^ 16 == 0x464C457F) ≡ false
magic_apart b h = ground arith

read_32-fill :
    (m : ℕ → ℕ) (at c : ℕ)
    → read_32 (fill m at c header_bytes) at
      ≡ c % 256 + c % 256 * 2 ^ 8 + (c % 256 + c % 256 * 2 ^ 8) * 2 ^ 16
read_32-fill m at c = ground arith

-- No image is accepted. Whatever the memory and wherever the image lies, `getelf` fills the header
-- with one byte, and so ends with the message of an invalid header.
pub getelf_lem :
    (m : ℕ → ℕ) (header sections image : ℕ)
    → getelf m header sections image
      ≡ record { outcome = invalid_header; memory = fill m header image header_bytes }
unfolding getelf
getelf_lem m header sections image =
    let apart = magic_apart (image % 256) (omega arith) in
    ground (arith, read_32-fill m header image, apart)
