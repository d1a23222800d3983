-- ===== src/Vmm.antt =====
-- Virtual memory, ntoskrnl/mm/vmm.c. Memory is a byte at each physical address. The kernel reaches
-- it through the direct map at PHYS_MEM_OFFSET and through the identity map below it, which
-- `MmInitializeVmm` sets up and the boot loader provides before that: `linear` is where an access
-- of the kernel ends. The lock calls of the source leave no trace in the state.
pub mod Memory
pub mod Tables
pub mod Level
pub mod Fresh
pub mod Walk
pub mod Space
pub mod Refine
pub mod Run
pub mod Kernel
mod Tests
use open_lib.Common.{
  ℕ, zero, suc, ◌+◌, ◌-◌, ◌*◌, ◌/◌, ◌%◌, ◌^◌, Bool, true, false, Option, none, some, List, [], ◌∷◌,
  ◌==◌, ltb, leb, if◌then◌else◌, update, for_range, bit_or,
}
use open_lib.Pmm.{Pmm, page_size, u64, align_down, pmalloc, pcalloc}
use Memory.{read64, write64}

abbrev pub phys_mem_offset : ℕ
phys_mem_offset = 0xffff800000000000

abbrev pub kernel_mem_offset : ℕ
kernel_mem_offset = 0xffffffff80000000

-- `cr3` is the table that the processor walks, and `flushed` the arguments of `invlpg`, last first.
pub record Machine : Type 0 where
  pub pmm : Pmm
  pub ram : ℕ → ℕ
  pub cr3 : ℕ
  pub flushed : List ℕ

unfoldable pub linear : ℕ → ℕ
linear adr = if ltb adr phys_mem_offset then adr else adr - phys_mem_offset

-- The entry `index` of a table, as `vmm_get_next_level` and `vmm_map_page` address it.
unfoldable pub entry_of : ℕ → ℕ → ℕ
unfolding linear
entry_of table index = linear (u64 (table + phys_mem_offset + index * 8))

unfoldable pub is_present : ℕ → Bool
is_present entry = entry % 2 == 1

-- The masks and shifts that every operation opens with: the index into the table of each level.
unfoldable pub pml_entry : ℕ → ℕ → ℕ
pml_entry zero virtual = 0
pml_entry (suc level) virtual = virtual / 2 ^ (12 + 9 * level) % 512

unfoldable pub get_next_level : Machine → ℕ → ℕ → ℕ → Option (ℕ × Machine)
get_next_level m table index flags =
    let entry = read64 m.ram (entry_of table index) in
    if is_present entry then some (align_down entry, m) else elim (pmalloc m.pmm 1) [
      | none ↦ none
      | some (ret, q) ↦
          some (
            ret,
            record m { pmm = q; ram = write64 m.ram (entry_of table index) (bit_or ret flags) },
          )
    ]

unfoldable pub invalidate_tlb : Machine → ℕ → ℕ → Machine
invalidate_tlb m top virtual =
    if m.cr3 == top then record m { flushed = virtual ∷ m.flushed } else m

infixl 5 ◌>>=◌
abbrev pub ◌>>=◌ : {A B : Type 0} → Option A → (A → Option B) → Option B
none >>= f = none
some a >>= f = f a

-- The three calls that walk from the top level to the table of the last level.
unfoldable pub last_level : Machine → ℕ → ℕ → ℕ → Option (ℕ × Machine)
last_level m top virtual flags = do
  (pml3, m3) ← get_next_level m top (pml_entry 4 virtual) flags
  (pml2, m2) ← get_next_level m3 pml3 (pml_entry 3 virtual) flags
  get_next_level m2 pml2 (pml_entry 2 virtual) flags

unfoldable pub map_page : Machine → ℕ → ℕ → ℕ → ℕ → Option Machine
map_page m top physical virtual flags = do
  (pml1, n) ← last_level m top virtual flags
  some (
      invalidate_tlb
        (record n {
          ram = write64 n.ram (entry_of pml1 (pml_entry 1 virtual)) (bit_or physical flags);
        })
        top virtual)

unfoldable pub unmap_page : Machine → ℕ → ℕ → Option Machine
unmap_page m top virtual = do
  (pml1, n) ← last_level m top virtual 7
  some (
      invalidate_tlb (record n { ram = write64 n.ram (entry_of pml1 (pml_entry 1 virtual)) 0 }) top
        virtual)

-- The last table is read without PHYS_MEM_OFFSET.
unfoldable pub virt_to_phys : Machine → ℕ → ℕ → Option (ℕ × Machine)
virt_to_phys m top virtual = do
  (pml1, n) ← last_level m top virtual 7
  let entry = read64 n.ram (linear (u64 (pml1 + pml_entry 1 virtual * 8)))
  some (if is_present entry then align_down entry else 0, n)

unfoldable pub get_kernel_address : Machine → ℕ → ℕ → Option (ℕ × Machine)
get_kernel_address m top virtual = do
  (phys_addr, n) ← virt_to_phys m top virtual
  some (u64 (phys_addr + phys_mem_offset + virtual - align_down virtual), n)

-- Where `vmm_memcpy` stands in one of its two address spaces: the offset in the page, the virtual
-- address that it advances by whole pages, and the physical page.
pub record Cursor : Type 0 where
  pub top : ℕ
  pub offset : ℕ
  pub virtual : ℕ
  pub physical : ℕ

unfoldable pub cursor_at : Cursor → ℕ
unfolding linear
cursor_at c = linear (u64 (c.physical + phys_mem_offset + c.offset))

-- `++align_difference`, and the step to the next page; the test adds another 1.
unfoldable pub advance : Machine → Cursor → Option (Cursor × Machine)
advance m c =
    let next = c.offset + 1 in
    if (next + 1) % page_size == 0
    then (do
      (physical, n) ← virt_to_phys m c.top (align_down (u64 (c.virtual + page_size)))
      some (record c { offset = 0; virtual = u64 (c.virtual + page_size); physical = physical }, n))
    else some (record c { offset = next }, m)

unfoldable pub copy_loop : ℕ → Machine → Cursor → Cursor → Option Machine
copy_loop zero m c1 c2 = some m
copy_loop (suc left) m c1 c2 = do
  (d1, m1) ← advance (record m { ram = update m.ram (cursor_at c1) (m.ram (cursor_at c2)) }) c1
  (d2, m2) ← advance m1 c2
  copy_loop left m2 d1 d2

unfoldable pub cursor : Machine → ℕ → ℕ → Option (Cursor × Machine)
cursor m top virtual = do
  (physical, n) ← virt_to_phys m top (align_down virtual)
  some (
    record {
      top = top;
      offset = virtual - align_down virtual;
      virtual = virtual;
      physical = physical;
    },
    n,
  )

unfoldable pub memcpy_between : Machine → ℕ → ℕ → ℕ → ℕ → ℕ → Option Machine
memcpy_between m top_1 virtual_1 top_2 virtual_2 count = do
  (c1, m1) ← cursor m top_1 virtual_1
  (c2, m2) ← cursor m1 top_2 virtual_2
  copy_loop count m2 c1 c2

unfoldable pub load_virtual_page : Machine → ℕ → Machine
load_virtual_page m top = record m { cr3 = top }
