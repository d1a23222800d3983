-- ===== src/Vmm/Kernel.antt =====
-- The page maps that ntoskrnl/mm/vmm.c builds: `MmInitializeVmm` and `vmm_create_new_pagemap`.
-- `kcalloc` gives the structure around a top level; what is returned here is the top level.
use open_lib.Common.{
  ℕ, zero, suc, ◌+◌, ◌-◌, ◌*◌, ◌/◌, ◌^◌, ◌≤◌, ◌≡◌, refl, ◌∙◌, Option, some, arith, leb, ltb, ◌&&◌,
  if◌then◌else◌, update, for_range,
}
use open_lib.Pmm.{page_size, u64, pcalloc}
use open_lib.Vmm.{
  Machine, entry_of, get_next_level, map_page, virt_to_phys, load_virtual_page, phys_mem_offset,
  kernel_mem_offset, ◌>>=◌,
}
use open_lib.Vmm.Memory.{read64, write64}
use open_lib.Vmm.Tables.{page}
use open_lib.Vmm.Level.{Room}
use open_lib.Vmm.Space.{Space, Represents}
use open_lib.Vmm.Refine.{Ends, map_page_lem}

-- `pcalloc( 1 )`, on the machine.
unfoldable pub new_top_level : Machine → Option (ℕ × Machine)
new_top_level m = do
  (top, q, ram) ← pcalloc m.pmm m.ram 1
  some (top, record m { pmm = q; ram = ram })

-- The upper half of the kernel's top level, copied.
unfoldable pub copy_upper_half : Machine → ℕ → ℕ → Machine
unfolding for_range
copy_upper_half m kernel user =
    for_range 256 256
      (λ i n. record n { ram = write64 n.ram (entry_of user i) (read64 n.ram (entry_of kernel i)) })
      m

-- The frame buffer, mapped page by page at its own physical address; `left` rounds from offset `i`.
unfoldable pub map_frame_buffer : ℕ → Machine → ℕ → ℕ → ℕ → ℕ → Option Machine
map_frame_buffer zero m kernel top address i = some m
map_frame_buffer (suc left) m kernel top address i = do
  (physical, m1) ← virt_to_phys m kernel address
  (virtual, m2) ← virt_to_phys m1 kernel address
  m3 ← map_page m2 top (u64 (physical + i)) (u64 (virtual + i)) 7
  map_frame_buffer left m3 kernel top address (i + page_size)

-- `width` and `height` are INT with a product in range.
unfoldable pub create_new_pagemap : Machine → ℕ → ℕ → ℕ → ℕ → Option (ℕ × Machine)
create_new_pagemap m kernel address width height = do
  (top, m1) ← new_top_level m
  m2 ←
      map_frame_buffer ((width * height * 4 + page_size - 1) / page_size)
        (copy_upper_half m1 kernel top) kernel top address 0
  some (top, m2)

-- The tables below the upper half of the kernel's top level; `left` rounds from entry `i`.
unfoldable pub fill_upper_half : ℕ → Machine → ℕ → ℕ → Option Machine
fill_upper_half zero m top i = some m
fill_upper_half (suc left) m top i = do
  (table, n) ← get_next_level m top i 7
  fill_upper_half left n top (i + 1)

-- The identity map and the direct map; `left` rounds from address `i`.
unfoldable pub map_memory : ℕ → Machine → ℕ → ℕ → Option Machine
map_memory zero m top i = some m
map_memory (suc left) m top i = do
  m1 ← map_page m top i i 3
  m2 ← map_page m1 top i (i + phys_mem_offset) 3
  map_memory left m2 top (i + page_size)

unfoldable pub map_image : ℕ → Machine → ℕ → ℕ → Option Machine
map_image zero m top i = some m
map_image (suc left) m top i = do
  n ← map_page m top i (i + kernel_mem_offset) 7
  map_image left n top (i + page_size)

-- The rounds of `i = PAGE_SIZE; i < 0x100000000` and of `i = 0; i < 0x80000000`.
unfoldable pub initialize : Machine → Option (ℕ × Machine)
initialize m = do
  (top, m1) ← new_top_level m
  m2 ← fill_upper_half 256 m1 top 256
  m3 ← map_memory (2 ^ 20 - 1) m2 top page_size
  m4 ← map_image (2 ^ 19) m3 top 0
  some (top, load_virtual_page m4 top)

-- What the loops leave: `count` pages from page `f` on, mapped to themselves from `base` on.
abbrev pub with_run : Space → (base f count flags : ℕ) → Space
with_run s base f count flags p =
    if leb (base + f) p && ltb p (base + f + count)
    then some ((p - base) * page_size + flags)
    else s p

Ends-same :
    (top n : ℕ) (s s' : Space) (m : Machine)
    → ((p : ℕ) → s p ≡ s' p)
    → Ends top n s m
    → Ends top n s' m
Ends-same top n s s' m e h = record {
  represents = record {
    level = h.represents.level;
    prefix = h.represents.prefix;
    tables = h.represents.tables;
    top_level = h.represents.top_level;
    views = λ v. h.represents.views v ∙ e (page v);
  };
  room = h.room;
}

with_run-round :
    (s : Space) (f left : ℕ)
    → f + suc left ≤ 2 ^ 20
    → (p : ℕ)
    → with_run
        (with_run
          (update
            (update s (page (f * page_size)) (some (f * page_size + 3)))
            (page (f * page_size + phys_mem_offset))
            (some (f * page_size + 3)))
          0
          (f + 1)
          left
          3)
        (2 ^ 35)
        (f + 1)
        left
        3
        p
      ≡ with_run (with_run s 0 f (suc left) 3) (2 ^ 35) f (suc left) 3 p
with_run-round s f left fits p =
    let low : page (f * page_size) ≡ f = omega arith in
    let high : page (f * page_size + phys_mem_offset) ≡ f + 2 ^ 35 = omega arith in
    rw (low, high) (ground arith)

-- Six tables for each round are enough.
abbrev pub rooms : ℕ → ℕ → ℕ
rooms zero n = n
rooms (suc left) n = suc (suc (suc (suc (suc (suc (rooms left n))))))

-- The loop that `MmInitializeVmm` runs over the memory below 4 GiB maps every page of its run
-- twice, to itself and at the direct map (bit 35 of the page number set), and leaves every other
-- page as it was, if memory for six tables to a round is free and no free page holds an entry that
-- is present (a part of `Represents`, since a new table is not cleared).
pub map_memory_lem :
    (left : ℕ) (m : Machine) (top f n : ℕ) (s : Space)
    → Represents m top s
    → Room m.pmm 0 (rooms left n)
    → f + left ≤ 2 ^ 20
    → (m' : Machine) × (map_memory left m (top * page_size) (f * page_size) ≡ some m')
      × Ends top n (with_run (with_run s 0 f left 3) (2 ^ 35) f left 3) m'
unfolding map_memory
map_memory_lem zero m top f n s r room fits =
    (m, refl, Ends-same top n s _ m (λ p. ground arith) (record { represents = r; room = room }))
map_memory_lem (suc left) m top f n s r room fits =
    let (m1, e1, h1) =
      map_page_lem m top (f * page_size) (suc (suc (suc (rooms left n)))) s r room f 3 (omega arith)
        (omega arith) refl in
    let s1 = update s (page (f * page_size)) (some (f * page_size + 3)) in
    let high = f * page_size + phys_mem_offset in
    let (m2, e2, h2) =
      map_page_lem m1 top high (rooms left n) s1 h1.represents h1.room f 3 (omega arith)
        (omega arith) refl in
    let s2 = update s1 (page high) (some (f * page_size + 3)) in
    let (m', e, h) = map_memory_lem left m2 top (f + 1) n s2 h2.represents h2.room (omega arith) in
    let next : f * page_size + page_size ≡ (f + 1) * page_size = omega arith in
    (
      m',
      rw (e1, e2, next) e,
      Ends-same top n (with_run (with_run s2 0 (f + 1) left 3) (2 ^ 35) (f + 1) left 3)
          (with_run (with_run s 0 f (suc left) 3) (2 ^ 35) f (suc left) 3) m'
          (with_run-round s f left fits) h,
    )
