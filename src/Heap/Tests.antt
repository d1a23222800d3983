-- ===== src/Heap/Tests.antt =====
-- A run of the hooks of the heap (heap.c) on eight pages.
use open_lib.Common.{ℕ, ◌*◌, ◌≡◌, refl, some, arith, ◌==◌, if◌then◌else◌}
use open_lib.Pmm.{Pmm, page_size, alloc_pages, fits, scan, pmalloc}
use open_lib.Pmm.Bits.{IsBytes, bit_test}
use open_lib.Pmm.Range.{Marked}
use open_lib.Pmm.Alloc.{Allocated}
use open_lib.Heap.{liballoc_alloc, liballoc_free}
use open_lib.Heap.Laws.{liballoc_free-liballoc_alloc}

-- The page 1 is free, and all others are in use.
abbrev page_one_free : Pmm
page_one_free = record { bitmap = λ j. if j == 0 then 0xfd else 0xff; highest_page = 8 * page_size }

page_one_free-IsBytes : IsBytes page_one_free.bitmap
page_one_free-IsBytes j = ground arith

pmalloc-page_one_free : pmalloc page_one_free 1 ≡ some (0x1000, alloc_pages page_one_free 0x1000 1)
unfolding pmalloc scan fits bit_test
pmalloc-page_one_free = refl

liballoc_free-liballoc_alloc_example :
    (ptr : ℕ) × (ram' : ℕ → ℕ) × (liballoc_alloc page_one_free (λ j. 7) 16
      ≡ some (ptr, alloc_pages page_one_free 0x1000 1, ram'))
    × Allocated page_one_free 1 0x1000 (alloc_pages page_one_free 0x1000 1)
    × Marked 0 0x1000 17
        (alloc_pages page_one_free 0x1000 1)
        (liballoc_free (alloc_pages page_one_free 0x1000 1) ptr 16)
liballoc_free-liballoc_alloc_example =
    liballoc_free-liballoc_alloc page_one_free (λ j. 7) 16 0x1000
      (alloc_pages page_one_free 0x1000 1) (omega arith) (omega arith) page_one_free-IsBytes
      (omega arith) pmalloc-page_one_free
