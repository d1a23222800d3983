-- ===== src/Vmm/Tests.antt =====
-- Runs of the page tables in a small memory.
use open_lib.Common.{
  ℕ, ◌*◌, ◌^◌, ◌≡◌, refl, Option, none, some, List, [], ◌∷◌, arith, ◌==◌, if◌then◌else◌, for_range,
}
use open_lib.Pmm.{page_size, pmalloc, scan, fits, alloc_pages, alloc_page}
use open_lib.Pmm.Bits.{bit_test, bit_set}
use open_lib.Vmm.{
  Machine, linear, entry_of, is_present, pml_entry, get_next_level, invalidate_tlb, last_level,
  map_page, unmap_page, virt_to_phys,
}
use open_lib.Vmm.Memory.{read64, write64, byte_of}
use open_lib.Vmm.Tables.{Tables, descend, reach, lookup}
use open_lib.Vmm.Level.{Room}
use open_lib.Vmm.Space.{Space, Represents}
use open_lib.Vmm.Refine.{Ends}
use open_lib.Vmm.Kernel.{map_memory, map_memory_lem, with_run}
use open_lib.Vmm.Run.{Call, run, answers_of, space_after, run_lem}

-- Sixteen pages of zeros; the pages 0 and 1 are in use, and page 1 is an empty top level.
abbrev start : Machine
start = record {
  pmm = record { bitmap = λ j. if j == 0 then 3 else 0; highest_page = 16 * page_size };
  ram = λ a. 0;
  cr3 = 0x1000;
  flushed = [];
}

abbrev start_level : ℕ → ℕ
start_level t = if t == 1 then 4 else 0

abbrev nothing : Space
nothing p = none

start-empty : (t i : ℕ) → descend start.ram t i ≡ none
unfolding descend is_present read64
start-empty t i = refl

start-Tables : Tables start start_level (λ t. 0)
start-Tables = record {
  bytes = λ j. ground arith;
  memory = omega arith;
  root = λ t e. refl;
  child = λ t i c two hi e. absurd (ground (arith, start-empty t i));
  used = λ t e. unfold bit_test in ground arith;
  inside = λ t e. ground arith;
  clean = λ t i free ins hi. start-empty t i;
}

start-Represents : Represents start 1 nothing
unfolding lookup reach descend is_present read64
start-Represents = record {
  level = start_level;
  prefix = λ t. 0;
  tables = start-Tables;
  top_level = refl;
  views = λ v. refl;
}

abbrev calls : List Call
calls =
    Call.map 9 0x400000 3
    ∷ Call.translate 0x400123
    ∷ Call.unmap 0x400000
    ∷ Call.translate 0x400000
    ∷ []

start-Room : Room start.pmm 0 12
unfolding bit_test
start-Room = (
  2,
  omega arith,
  omega arith,
  refl,
  (
    3,
    omega arith,
    omega arith,
    refl,
    (
      4,
      omega arith,
      omega arith,
      refl,
      (
        5,
        omega arith,
        omega arith,
        refl,
        (
          6,
          omega arith,
          omega arith,
          refl,
          (
            7,
            omega arith,
            omega arith,
            refl,
            (
              8,
              omega arith,
              omega arith,
              refl,
              (
                9,
                omega arith,
                omega arith,
                refl,
                (
                  10,
                  omega arith,
                  omega arith,
                  refl,
                  (
                    11,
                    omega arith,
                    omega arith,
                    refl,
                    (12, omega arith, omega arith, refl, (13, omega arith, omega arith, refl, tt)),
                  ),
                ),
              ),
            ),
          ),
        ),
      ),
    ),
  ),
)

run_lem_example :
    (m' : Machine) × (run start 1 calls ≡ some (0x9000 ∷ 0 ∷ [], m'))
    × Represents m' 1 (space_after nothing calls)
run_lem_example =
    unfold answers_of in run_lem calls start 1 nothing start-Represents start-Room (omega arith)

-- The same calls, run.
abbrev answers : Option (List ℕ × Machine) → List ℕ
answers none = []
answers (some r) = r.0

run-calls : answers (run start 1 calls) ≡ 0x9000 ∷ 0 ∷ []
unfolding run map_page unmap_page virt_to_phys last_level get_next_level pml_entry entry_of linear
    is_present invalidate_tlb read64 write64 byte_of pmalloc scan fits alloc_pages alloc_page
    bit_test bit_set for_range
run-calls = refl

map_memory_lem_example :
    (m' : Machine) × (map_memory 1 start (1 * page_size) (3 * page_size) ≡ some m')
    × Ends 1 6 (with_run (with_run nothing 0 3 1 3) (2 ^ 35) 3 1 3) m'
map_memory_lem_example =
    map_memory_lem 1 start 1 3 6 nothing start-Represents start-Room (omega arith)
