-- ===== src/Pmm.antt =====
-- The physical page allocator, ntoskrnl/mm/pmm.c. `pmm_bitmap` is the memory that the pointer
-- reaches, a byte at each offset; addresses are numbers below 2 ^ 64. The lock calls of the source
-- work on a copy of the lock (module Mutex) and leave no trace in the state.
pub mod Bits
pub mod Range
pub mod Search
pub mod Alloc
pub mod Boot
mod Tests
use open_lib.Common.{
  ℕ, zero, suc, ◌+◌, ◌-◌, ◌*◌, ◌/◌, ◌%◌, ◌^◌, Bool, true, false, ◌&&◌, ◌||◌, Option, none, some,
  List, [], ◌∷◌, ◌==◌, ltb, leb, if◌then◌else◌, update, for_range,
}
use open_lib.Utill.{fill}
use Bits.{Bitmap, bit_set, bit_clear, bit_test}

abbrev pub page_size : ℕ
page_size = 0x1000

abbrev pub u64 : ℕ → ℕ
u64 n = n % 2 ^ 64

-- ALIGN_DOWN and ALIGN_UP: the mask clears the twelve low bits.
abbrev pub align_down : ℕ → ℕ
align_down n = n / page_size * page_size

abbrev pub align_up : ℕ → ℕ
align_up n = align_down (u64 (n + page_size - 1))

pub record Pmm : Type 0 where
  pub bitmap : Bitmap
  pub highest_page : ℕ

unfoldable pub free_page : Pmm → ℕ → Pmm
free_page p adr = record p { bitmap = bit_clear p.bitmap (adr / page_size) }

unfoldable pub alloc_page : Pmm → ℕ → Pmm
alloc_page p adr = record p { bitmap = bit_set p.bitmap (adr / page_size) }

unfoldable pub free_pages : Pmm → ℕ → ℕ → Pmm
unfolding for_range
free_pages p adr page_count =
    for_range page_count 0 (λ i q. free_page q (u64 (adr + i * page_size))) p

unfoldable pub alloc_pages : Pmm → ℕ → ℕ → Pmm
unfolding for_range
alloc_pages p adr page_count =
    for_range page_count 0 (λ i q. alloc_page q (u64 (adr + i * page_size))) p

-- The inner loop of `pmalloc` at `j`, with `left` rounds to go: whether it reaches its `return`.
unfoldable pub fits : Bitmap → ℕ → ℕ → ℕ → ℕ → Bool
fits b pages i zero j = false
fits b pages i (suc left) j =
    let rest = fits b pages i left (j + 1) in
    if bit_test b i == 0 then (if j == pages - 1 then true else rest) else false

-- The outer loop: the first index `i` at which the inner loop returns.
unfoldable pub scan : Bitmap → ℕ → ℕ → ℕ → Option ℕ
scan b pages zero i = none
scan b pages (suc left) i =
    let rest = scan b pages left (i + 1) in if fits b pages i pages 0 then some i else rest

-- The address that is returned, with the new state; `none` is the halt in the endless loop.
unfoldable pub pmalloc : Pmm → ℕ → Option (ℕ × Pmm)
pmalloc p pages = elim (scan p.bitmap pages (p.highest_page / page_size) 0) [
  | none ↦ none
  | some i ↦ some (u64 (i * page_size), alloc_pages p (u64 (i * page_size)) pages)
]

-- `pcalloc` clears the pages through the direct map, so `ram` is indexed by physical addresses.
-- A page at address 0 is taken for NULL: it stays allocated and is not cleared.
unfoldable pub pcalloc : Pmm → (ℕ → ℕ) → ℕ → Option (ℕ × Pmm × (ℕ → ℕ))
pcalloc p ram pages = elim (pmalloc p pages) [
  | none ↦ none
  | some (ret, q) ↦ some (ret, q, if ret == 0 then ram else fill ram ret 0 (pages * page_size))
]

-- An entry of the boot loader's memory map.
pub record MmapEntry : Type 0 where
  pub base : ℕ
  pub length : ℕ
  pub kind : ℕ

abbrev pub usable : ℕ
usable = 1

abbrev pub bootloader_reclaimable : ℕ
bootloader_reclaimable = 0x1000

abbrev pub kernel_and_modules : ℕ
kernel_and_modules = 0x1001

-- The first loop of `MmInitializePmm`: the end of the highest region that counts.
unfoldable pub find_highest : List MmapEntry → ℕ → ℕ
find_highest [] top = top
find_highest (e ∷ es) top = find_highest es (
    if (e.kind == usable || e.kind == bootloader_reclaimable || e.kind == kernel_and_modules)
      && ltb top (u64 (e.base + e.length))
    then u64 (e.base + e.length)
    else top)

abbrev pub bitmap_size : ℕ → ℕ
bitmap_size top = align_up (align_down top / page_size / 8)

-- The second loop: the first usable region that can hold the bitmap gives its start away.
unfoldable pub place_bitmap : List MmapEntry → ℕ → List MmapEntry
place_bitmap [] size = []
place_bitmap (e ∷ es) size =
    if e.kind == usable && leb size e.length
    then record e { base = u64 (e.base + size); length = e.length - size } ∷ es
    else e ∷ place_bitmap es size

-- The last loop.
unfoldable pub free_usable : List MmapEntry → Pmm → Pmm
free_usable [] p = p
free_usable (e ∷ es) p =
    free_usable es (if e.kind == usable then free_pages p e.base (e.length / page_size) else p)

-- `memory` is what stands where the bitmap is placed. `highest_page` starts at 0.
unfoldable pub init : List MmapEntry → Bitmap → List MmapEntry × Pmm
init entries memory =
    let top = find_highest entries 0 in
    let size = bitmap_size top in
    let placed = place_bitmap entries size in
    let full : Pmm = record { bitmap = fill memory 0 0xff size; highest_page = top } in
    (placed, free_usable placed full)
