-- ===== src/Vmm/Run.antt =====
-- Sequences of calls of `vmm_map_page`, `vmm_unmap_page` and `vmm_virt_to_phys` (ntoskrnl/mm/vmm.c).
use open_lib.Common.{
  ℕ, suc, ◌+◌, ◌*◌, ◌%◌, ◌^◌, ◌<◌, ◌≡◌, refl, Option, none, some, update, List, [], ◌∷◌,
}
use open_lib.Pmm.{page_size}
use open_lib.Vmm.{Machine, map_page, unmap_page, virt_to_phys, ◌>>=◌}
use open_lib.Vmm.Tables.{page}
use open_lib.Vmm.Level.{Room}
use open_lib.Vmm.Space.{Space, Represents}
use open_lib.Vmm.Refine.{frame_of, map_page_lem, unmap_page_lem, virt_to_phys_lem}

pub data Call : Type 0 where
  map : (frame virtual flags : ℕ) → Call
  unmap : (virtual : ℕ) → Call
  translate : (virtual : ℕ) → Call

-- The code: the answers of the translations, and the machine.
unfoldable pub run : Machine → ℕ → List Call → Option (List ℕ × Machine)
run m top [] = some ([], m)
run m top (map f v flags ∷ cs) = do
  n ← map_page m (top * page_size) (f * page_size) v flags
  run n top cs
run m top (unmap v ∷ cs) = do n ← unmap_page m (top * page_size) v; run n top cs
run m top (translate v ∷ cs) = do
  (physical, n) ← virt_to_phys m (top * page_size) v
  (answers, n') ← run n top cs
  some (physical ∷ answers, n')

-- The specification: a map from pages to entries.
unfoldable pub answers_of : Space → List Call → List ℕ
answers_of s [] = []
answers_of s (map f v flags ∷ cs) = answers_of (update s (page v) (some (f * page_size + flags))) cs
answers_of s (unmap v ∷ cs) = answers_of (update s (page v) none) cs
answers_of s (translate v ∷ cs) = frame_of (s (page v)) ∷ answers_of s cs

unfoldable pub space_after : Space → List Call → Space
space_after s [] = s
space_after s (map f v flags ∷ cs) =
    space_after (update s (page v) (some (f * page_size + flags))) cs
space_after s (unmap v ∷ cs) = space_after (update s (page v) none) cs
space_after s (translate v ∷ cs) = space_after s cs

-- The frames and flags of the calls that map a page fit in an entry, and mark it present.
abbrev pub AreEntries : List Call → Type 0
AreEntries [] = Unit {0}
AreEntries (map f v flags ∷ cs) = (f < 2 ^ 52) × (flags < 4096) × (flags % 2 ≡ 1) × AreEntries cs
AreEntries (unmap v ∷ cs) = AreEntries cs
AreEntries (translate v ∷ cs) = AreEntries cs

-- Three tables for each call are enough.
abbrev pub tables_for : List Call → ℕ
tables_for [] = 0
tables_for (c ∷ cs) = suc (suc (suc (tables_for cs)))

-- The page tables implement a map from pages to entries. Let the tables in memory represent a map,
-- and let no free page hold an entry that is present, since a new table is not cleared; both are part
-- of `Represents`, which also holds of the tables that are left. With free memory for three tables to
-- a call, and frames below 2 ^ 52 with flags of 12 bits that have the present bit, any sequence of
-- calls of `vmm_map_page`, `vmm_unmap_page` and `vmm_virt_to_phys` runs to
-- its end, every translation answers what the map holds at that point (the frame, or 0 where
-- nothing is mapped), and the tables that are left represent the map that is left.
pub run_lem :
    (cs : List Call) (m : Machine) (top : ℕ) (s : Space)
    → Represents m top s
    → Room m.pmm 0 (tables_for cs)
    → AreEntries cs
    → (m' : Machine) × (run m top cs ≡ some (answers_of s cs, m'))
      × Represents m' top (space_after s cs)
unfolding run answers_of space_after
run_lem [] m top s r room ok = (m, refl, r)
run_lem (map f v flags ∷ cs) m top s r room (hf, hg, odd, ok) =
    let (n, e, ends) = map_page_lem m top v (tables_for cs) s r room f flags hf hg odd in
    let (m', e', r') =
      run_lem cs n top (update s (page v) (some (f * page_size + flags))) ends.represents ends.room
        ok in
    (m', rw e e', r')
run_lem (unmap v ∷ cs) m top s r room ok =
    let (n, e, ends) = unmap_page_lem m top v (tables_for cs) s r room in
    let (m', e', r') = run_lem cs n top (update s (page v) none) ends.represents ends.room ok in
    (m', rw e e', r')
run_lem (translate v ∷ cs) m top s r room ok =
    let (n, e, ends) = virt_to_phys_lem m top v (tables_for cs) s r room in
    let (m', e', r') = run_lem cs n top s ends.represents ends.room ok in (m', rw (e, e') refl, r')
