-- ===== src/Heap.antt =====
-- The hooks of the heap, ntoskrnl/mm/heap.c: how the vendored allocator of mm/liballoc.c gets its
-- pages from the page allocator and gives them back. The lock calls leave no trace.
pub mod Laws
mod Tests
use open_lib.Common.{ℕ, ◌+◌, ◌-◌, ◌*◌, ◌/◌, ◌%◌, ◌^◌, Option, none, some}
use open_lib.Pmm.{Pmm, page_size, u64, pcalloc, free_pages}
use open_lib.Utill.{fill}
use open_lib.Vmm.{phys_mem_offset}

-- `ROUND_UP`.
abbrev pub round_up : ℕ → ℕ → ℕ
round_up a b = (a + (b - 1)) / b

-- The allocator calls `liballoc_alloc` with a number of pages, and the hook takes it for bytes. The
-- result is the address, the page allocator and the memory.
unfoldable pub liballoc_alloc : Pmm → (ℕ → ℕ) → ℕ → Option (ℕ × Pmm × (ℕ → ℕ))
liballoc_alloc p ram size = elim (pcalloc p ram (round_up size page_size)) [
  | none ↦ none
  | some (adr, q, ram') ↦ some (u64 (adr + phys_mem_offset), q, ram')
]

unfoldable pub liballoc_free : Pmm → ℕ → ℕ → Pmm
liballoc_free p ptr pages = free_pages p (u64 (ptr + (2 ^ 64 - phys_mem_offset))) (pages + 1)

-- `kcalloc` of the block that `liballoc_malloc` gives.
abbrev pub kcalloc : (ℕ → ℕ) → ℕ → ℕ → ℕ → ℕ
kcalloc m ptr size = fill m ptr 0 size
