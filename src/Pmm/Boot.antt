-- ===== src/Pmm/Boot.antt =====
-- `MmInitializePmm` of ntoskrnl/mm/pmm.c and the memory map.
use open_lib.Common.{
  ℕ, ◌+◌, ◌*◌, ◌/◌, ◌%◌, ◌^◌, ◌≤◌, ◌<◌, ◌≡◌, refl, ◌↔◌, Bool, true, false, ◌&&◌, ◌||◌, List, [],
  ◌∷◌, arith, ◌==◌, ltb, leb, if◌then◌else◌, Bool-cases, inl, inr,
}
use open_lib.Utill.{fill}
use open_lib.Pmm.{
  Pmm, MmapEntry, page_size, u64, usable, bootloader_reclaimable, kernel_and_modules, bitmap_size,
  find_highest, place_bitmap, free_pages, free_usable, init,
}
use open_lib.Pmm.Bits.{Bitmap, IsBytes, bit_test, bit_test_full}
use open_lib.Pmm.Range.{free_pages-Marked}

-- Whether page `j` lies in a usable region. A region has as many pages as its length has whole ones,
-- from the page of its base on.
abbrev pub usable_page : List MmapEntry → ℕ → Bool
usable_page [] j = false
usable_page (e ∷ es) j =
    (e.kind == usable
      && leb (e.base / page_size) j
      && ltb j (e.base / page_size + e.length / page_size))
    || usable_page es j

-- Whether page `j` is left to hand out when the first usable region with room for `size` bytes gives
-- the pages at its start to the bitmap.
abbrev pub left_page : ℕ → List MmapEntry → ℕ → Bool
left_page size [] j = false
left_page size (e ∷ es) j =
    if e.kind == usable && leb size e.length
    then (leb (e.base / page_size + size / page_size) j
        && ltb j (e.base / page_size + e.length / page_size))
      || usable_page es j
    else usable_page (e ∷ []) j || left_page size es j

-- No region ends above 2 ^ 64.
abbrev pub FitsAll : List MmapEntry → Type 0
FitsAll [] = Unit {0}
FitsAll (e ∷ es) = (e.base + e.length ≤ 2 ^ 64) × FitsAll es

free_region :
    (e : MmapEntry) (p : Pmm)
    → IsBytes p.bitmap
    → e.base + e.length ≤ 2 ^ 64
    → let q = if e.kind == usable then free_pages p e.base (e.length / page_size) else p in
      IsBytes q.bitmap
      × ((j : ℕ)
          → bit_test q.bitmap j ≡ (if usable_page (e ∷ []) j then 0 else bit_test p.bitmap j))
free_region e p h fits =
    let m = free_pages-Marked p e.base (e.length / page_size) h (omega arith) in
    (λ j. ground (arith, h j, m.bytes j), λ j. ground (arith, m.bits j))

free_usable_lem :
    (es : List MmapEntry) (p : Pmm)
    → IsBytes p.bitmap
    → FitsAll es
    → IsBytes (free_usable es p).bitmap
      × ((j : ℕ)
          → bit_test (free_usable es p).bitmap j
            ≡ (if usable_page es j then 0 else bit_test p.bitmap j))
unfolding free_usable
free_usable_lem [] p h f = (h, λ j. refl)
free_usable_lem (e ∷ es) p h f =
    let q : Pmm = if e.kind == usable then free_pages p e.base (e.length / page_size) else p in
    let first = free_region e p h f.0 in
    let rest = free_usable_lem es q first.0 f.1 in
    (rest.0, λ j. ground (arith, rest.1 j, first.1 j))

place_bitmap-FitsAll :
    (es : List MmapEntry) (size : ℕ) → FitsAll es → FitsAll (place_bitmap es size)
unfolding place_bitmap
place_bitmap-FitsAll [] size f = tt
place_bitmap-FitsAll (e ∷ es) size f = ground (arith, place_bitmap-FitsAll es size)

place_bitmap-left_page :
    (es : List MmapEntry) (size j : ℕ)
    → FitsAll es
    → size % page_size ≡ 0
    → usable_page (place_bitmap es size) j ≡ left_page size es j
unfolding place_bitmap
place_bitmap-left_page [] size j f whole = refl
place_bitmap-left_page (e ∷ es) size j f whole =
    elim (Bool-cases (e.kind == usable && leb size e.length)) [
      | inl room ↦ ground (arith, room, f.0)
      | inr full ↦ ground (arith, full, place_bitmap-left_page es size j f.1 whole)
    ]

-- After `MmInitializePmm` a page that the bitmap covers is free exactly when it lies in a usable
-- region of the boot loader's map and is not one of the pages of the bitmap, which are the first
-- ones of the first usable region that has room for it. The regions end at 2 ^ 64 at most, and the bitmap
-- is below 2 ^ 31 bytes, since `memset` counts with an INT.
pub init_pages :
    (es : List MmapEntry) (memory : Bitmap) (j : ℕ)
    → IsBytes memory
    → FitsAll es
    → bitmap_size (find_highest es 0) < 2 ^ 31
    → j < 8 * bitmap_size (find_highest es 0)
    → bit_test (init es memory).1.bitmap j
      ≡ (if left_page (bitmap_size (find_highest es 0)) es j then 0 else 1)
unfolding init
init_pages es memory j h f small covered =
    let size = bitmap_size (find_highest es 0) in
    let full : Pmm = record {
      bitmap = fill memory 0 0xff size;
      highest_page = find_highest es 0;
    } in
    let bytes : IsBytes full.bitmap = λ k. ground (arith, h k) in
    let placed = place_bitmap es size in
    let used : bit_test full.bitmap j ≡ 1 = bit_test_full full.bitmap j (ground arith) in
    ground (
      arith,
      (free_usable_lem placed full bytes (place_bitmap-FitsAll es size f)).1 j,
      place_bitmap-left_page es size j f (omega arith),
      used,
    )

abbrev counts : MmapEntry → Bool
counts e = e.kind == usable || e.kind == bootloader_reclaimable || e.kind == kernel_and_modules

-- The pages below the highest address are all in the bitmap, but for one case: the page count
-- exceeds a multiple of 32768 by one to seven. Then the division by eight loses them, and their
-- bits lie past the end.
pub bitmap_size_short :
    (top : ℕ)
    → top < 2 ^ 63
    → (8 * bitmap_size top < top / page_size)
      ↔ ((0 < top / page_size % 32768) × (top / page_size % 32768 < 8))
bitmap_size_short top h = (λ s. (omega arith, omega arith), λ r. omega arith)

-- `highest_page` is at least the end of each region that counts.
abbrev BoundedBy : ℕ → List MmapEntry → Type 0
BoundedBy top [] = Unit {0}
BoundedBy top (e ∷ es) = (counts e ≡ true → u64 (e.base + e.length) ≤ top) × BoundedBy top es

find_highest-ge : (es : List MmapEntry) (top : ℕ) → top ≤ find_highest es top
unfolding find_highest
find_highest-ge [] top = omega arith
find_highest-ge (e ∷ es) top =
    let t =
      if counts e && ltb top (u64 (e.base + e.length)) then u64 (e.base + e.length) else top in
    ground (arith, find_highest-ge es t)

find_highest-BoundedBy : (es : List MmapEntry) (top : ℕ) → BoundedBy (find_highest es top) es
unfolding find_highest
find_highest-BoundedBy [] top = tt
find_highest-BoundedBy (e ∷ es) top =
    let t =
      if counts e && ltb top (u64 (e.base + e.length)) then u64 (e.base + e.length) else top in
    (λ c. ground (arith, find_highest-ge es t), find_highest-BoundedBy es t)
