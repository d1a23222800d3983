-- ===== src/Heap/Laws.antt =====
-- The pages of a block of the heap (heap.c).
use open_lib.Common.{ℕ, ◌+◌, ◌-◌, ◌*◌, ◌^◌, ◌≤◌, ◌<◌, ◌≡◌, arith, some, if◌then◌else◌, ◌==◌}
use open_lib.Utill.{fill}
use open_lib.Pmm.{Pmm, page_size, u64, pmalloc, pcalloc}
use open_lib.Pmm.Bits.{IsBytes}
use open_lib.Pmm.Range.{Marked, free_pages-Marked}
use open_lib.Pmm.Alloc.{Allocated, NoWrap, pmalloc-Allocated}
use open_lib.Vmm.{phys_mem_offset}
use open_lib.Heap.{round_up, liballoc_alloc, liballoc_free}

alloc_of :
    (p q : Pmm) (ram : ℕ → ℕ) (size adr : ℕ)
    → round_up size page_size ≡ 1
    → pmalloc p 1 ≡ some (adr, q)
    → liballoc_alloc p ram size
      ≡ some
          (u64 (adr + phys_mem_offset), q, if adr == 0 then ram else fill ram adr 0 (1 * page_size))
unfolding liballoc_alloc pcalloc
alloc_of p q ram size adr one e = ground (arith, one, e)

-- The hooks of the heap do not agree. Asked for a number of pages from 1 to 4096, `liballoc_alloc`
-- marks a single page as used, the lowest that is free; when the block is given back,
-- `liballoc_free_` frees that page and as many more behind it as the block has pages, whoever
-- holds them.
pub liballoc_free-liballoc_alloc :
    (p : Pmm) (ram : ℕ → ℕ) (pages adr : ℕ) (q : Pmm)
    → 0 < pages
    → pages ≤ 4096
    → IsBytes p.bitmap
    → NoWrap p (pages + 1)
    → pmalloc p 1 ≡ some (adr, q)
    → (ptr : ℕ) × (ram' : ℕ → ℕ) × (liballoc_alloc p ram pages ≡ some (ptr, q, ram'))
      × Allocated p 1 adr q
      × Marked 0 adr (pages + 1) q (liballoc_free q ptr pages)
unfolding liballoc_free
liballoc_free-liballoc_alloc p ram pages adr q pos few bytes fits e =
    let one : round_up pages page_size ≡ 1 = omega arith in
    let a = pmalloc-Allocated p 1 adr q (omega arith) bytes (omega arith) e in
    let back : u64 (u64 (adr + phys_mem_offset) + (2 ^ 64 - phys_mem_offset)) ≡ adr =
      omega (arith, a.at, a.inside) in
    (
      u64 (adr + phys_mem_offset),
      _,
      alloc_of p q ram pages adr one e,
      a,
      rw back (free_pages-Marked q adr (pages + 1) a.marked.bytes (omega (arith, a.at, a.inside))),
    )
