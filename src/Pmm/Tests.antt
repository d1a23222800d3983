-- ===== src/Pmm/Tests.antt =====
-- Runs of the page allocator on small bitmaps, and its theorems at those inputs.
use open_lib.Common.{
  ℕ, zero, suc, ◌+◌, ◌*◌, ◌/◌, ◌%◌, ◌≤◌, ◌<◌, ◌≡◌, ◌≢◌, ◌↔◌, ◌⊎◌, refl, none, some, List, [], ◌∷◌,
  arith, ◌==◌, if◌then◌else◌,
}
use open_lib.Utill.{fill}
use open_lib.Pmm.{
  Pmm, MmapEntry, page_size, usable, bitmap_size, free_page, alloc_page, free_pages, alloc_pages,
  fits, scan, pmalloc, pcalloc, find_highest, place_bitmap, free_usable, init,
}
use open_lib.Pmm.Bits.{IsBytes, bit_set, bit_clear, bit_test}
use open_lib.Pmm.Range.{Marked, free_pages-Marked, alloc_pages-Marked}
use open_lib.Pmm.Search.{FirstFree}
use open_lib.Pmm.Alloc.{Allocated, pmalloc_run_overlaps, pmalloc_lem}
use open_lib.Pmm.Boot.{left_page, init_pages, bitmap_size_short}

-- Of eight pages, 1 and 3 are free.
abbrev small : Pmm
small = record { bitmap = λ j. if j == 0 then 0xf5 else 0xff; highest_page = 8 * page_size }

small-IsBytes : IsBytes small.bitmap
small-IsBytes j = ground arith

abbrev one_more : Pmm
one_more = alloc_pages small 0x1000 1

pmalloc-small : pmalloc small 1 ≡ some (0x1000, one_more)
unfolding pmalloc scan fits bit_test
pmalloc-small = refl

pmalloc_twice : pmalloc one_more 1 ≡ some (0x3000, alloc_pages one_more 0x3000 1)
unfolding pmalloc scan fits bit_test alloc_pages alloc_page bit_set
pmalloc_twice = refl

abbrev sevens : ℕ → ℕ
sevens j = 7

pcalloc-small : pcalloc small sevens 1 ≡ some (0x1000, one_more, fill sevens 0x1000 0 page_size)
unfolding pcalloc pmalloc scan fits bit_test
pcalloc-small = refl

small-lowest : (j : ℕ) → 0 ≤ j → j < 1 → bit_test small.bitmap j ≢ 0
unfolding bit_test
small-lowest zero p q = λ e. cc
small-lowest (suc j) p q = absurd (omega arith)

small-FirstFree : FirstFree small.bitmap 0 1
unfolding bit_test
small-FirstFree = record { above = omega arith; free = refl; used_below = small-lowest }

pmalloc_run_overlaps_example :
    (adr : ℕ) × (q : Pmm) × (pmalloc small 2 ≡ some (adr, q))
    × ((adr + page_size) / page_size ≡ 2)
    × (bit_test small.bitmap ((adr + page_size) / page_size) ≡ 1)
unfolding bit_test
pmalloc_run_overlaps_example =
    pmalloc_run_overlaps small 2 1 (omega arith) small-FirstFree (omega arith) (omega arith) refl

pmalloc_lem_example :
    ((adr : ℕ) × (q : Pmm) × (pmalloc small 1 ≡ some (adr, q)) × Allocated small 1 adr q)
    ⊎ ((pmalloc small 1 ≡ none)
        × ((j : ℕ) → j < small.highest_page / page_size → bit_test small.bitmap j ≢ 0))
pmalloc_lem_example = pmalloc_lem small 1 (omega arith) small-IsBytes (omega arith)

free_pages-Marked_example : Marked 0 0x2000 3 small (free_pages small 0x2000 3)
free_pages-Marked_example = free_pages-Marked small 0x2000 3 small-IsBytes (omega arith)

alloc_pages-Marked_example : Marked 1 0x1000 2 small (alloc_pages small 0x1000 2)
alloc_pages-Marked_example = alloc_pages-Marked small 0x1000 2 small-IsBytes (omega arith)

-- Fifteen usable pages below 0x10000 and a reserved region above.
abbrev boot_map : List MmapEntry
boot_map =
    record { base = 0x1000; length = 0xf000; kind = usable }
    ∷ record { base = 0xfffc0000; length = 0x40000; kind = 2 }
    ∷ []

boot_map_runs :
    ((init boot_map sevens).0
      ≡ record { base = 0x2000; length = 0xe000; kind = usable }
        ∷ record { base = 0xfffc0000; length = 0x40000; kind = 2 }
        ∷ [])
    × ((init boot_map sevens).1.highest_page ≡ 0x10000)
    × (bit_test (init boot_map sevens).1.bitmap 1 ≡ 1)
    × (bit_test (init boot_map sevens).1.bitmap 2 ≡ 0)
unfolding init find_highest place_bitmap free_usable free_pages free_page bit_test bit_clear
boot_map_runs = (refl, refl, refl, refl)

init_pages_example :
    bit_test (init boot_map sevens).1.bitmap 3
    ≡ (if left_page (bitmap_size (find_highest boot_map 0)) boot_map 3 then 0 else 1)
unfolding find_highest
init_pages_example =
    init_pages boot_map sevens 3 (λ j. omega arith) (omega arith) (omega arith) (omega arith)

bitmap_size_short_example :
    (8 * bitmap_size 0x8003000 < 0x8003000 / page_size)
    ↔ ((0 < 0x8003000 / page_size % 32768) × (0x8003000 / page_size % 32768 < 8))
bitmap_size_short_example = bitmap_size_short 0x8003000 (omega arith)
