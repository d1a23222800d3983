-- ===== src/Vmm/Refine.antt =====
-- The operations of ntoskrnl/mm/vmm.c as steps of a plain map from pages to entries.
use open_lib.Common.{
  ℕ, suc, ◌+◌, ◌*◌, ◌%◌, ◌^◌, ◌<◌, ◌≡◌, refl, ap, sym, ◌∙◌, Option, none, some, arith,
  if◌then◌else◌, ◌==◌, inl, inr, Bool-cases, update, bit_or-flags,
}
use mathlib.Core.Path.{subst}
use open_lib.Pmm.{page_size, align_down}
use open_lib.Vmm.{
  Machine, pml_entry, is_present, entry_of, linear, map_page, unmap_page, virt_to_phys,
  invalidate_tlb,
}
use open_lib.Vmm.Memory.{write64}
use open_lib.Vmm.Tables.{slot, page, pml_entry-lt, lookup-some, entry_of_lem, low_entry_lem}
use open_lib.Vmm.Level.{Room}
use open_lib.Vmm.Walk.{Walked, last_level_lem}
use open_lib.Vmm.Space.{Space, Represents, present_only, Tables-written, lookup-written}

-- What `vmm_virt_to_phys` says of an entry: the address of its frame, or 0 if there is none.
abbrev pub frame_of : Option ℕ → ℕ
frame_of none = 0
frame_of (some e) = align_down e

frame_of_lem : (e : ℕ) → (if is_present e then align_down e else 0) ≡ frame_of (present_only e)
frame_of_lem e = elim (Bool-cases (is_present e)) [ inl p ↦ rw p refl | inr p ↦ rw p refl ]

-- The state in which an operation ends, for a map `s`, with room for `n` more tables.
pub record Ends (top n : ℕ) (s : Space) (m : Machine) : Type 0 where
  pub represents : Represents m top s
  pub room : Room m.pmm 0 n

-- The flush of the address changes no memory.
Ends-invalidate_tlb :
    (m : Machine) (top n v w : ℕ) (s : Space) → Ends top n s m → Ends top n s (invalidate_tlb m w v)
unfolding invalidate_tlb
Ends-invalidate_tlb m top n v w s r = elim (Bool-cases (m.cr3 == w)) [
  | inl e ↦ rw e (record {
    represents = record {
      level = r.represents.level;
      prefix = r.represents.prefix;
      tables = record {
        bytes = r.represents.tables.bytes;
        memory = r.represents.tables.memory;
        root = r.represents.tables.root;
        child = r.represents.tables.child;
        used = r.represents.tables.used;
        inside = r.represents.tables.inside;
        clean = r.represents.tables.clean;
      };
      top_level = r.represents.top_level;
      views = r.represents.views;
    };
    room = r.room;
  })
  | inr e ↦ rw e r
]

module _ (m : Machine) (top v n : ℕ) (s : Space) (r : Represents m top s)
    (room : Room m.pmm 0 (suc (suc (suc n)))) where
  -- The entry `e` of the page of `v`, written in the table that the walk ends in.
  Ends-written :
      (l : ℕ) (m' : Machine) (level' prefix' : ℕ → ℕ) (e : ℕ)
      → (w : Walked m r.level r.prefix top v n l m' level' prefix') → (small : e < 2 ^ 64)
      → Ends top n
          (update s (page v) (present_only e))
          (record m' { ram = write64 m'.ram (l * page_size + pml_entry 1 v * 8) e })
  Ends-written l m' level' prefix' e w small = record {
    represents = record {
      level = level';
      prefix = prefix';
      tables = Tables-written m' level' prefix' w.tables top v l e w.leaf w.path w.top_level small;
      top_level = w.top_level;
      views = λ x. ground (
        arith,
        lookup-written m' level' prefix' w.tables top v l e w.leaf w.path w.top_level small x,
        w.same_views top x r.top_level,
        r.views x,
      );
    };
    room = w.room;
  }

  Ends-stored :
      (l : ℕ) (m' : Machine) (level' prefix' : ℕ → ℕ) (e : ℕ) (o : Option ℕ)
      → Walked m r.level r.prefix top v n l m' level' prefix'
      → e < 2 ^ 64
      → present_only e ≡ o
      → Ends top n (update s (page v) o) (
          invalidate_tlb
            (record m' { ram = write64 m'.ram (l * page_size + pml_entry 1 v * 8) e })
            (top * page_size)
            v)
  Ends-stored l m' level' prefix' e o w small seen =
      let stored : Machine = record m' {
        ram = write64 m'.ram (l * page_size + pml_entry 1 v * 8) e;
      } in
      Ends-invalidate_tlb stored top n v (top * page_size) (update s (page v) o) (
        subst (λ (x : Option ℕ). Ends top n (update s (page v) x) stored) seen
          (Ends-written l m' level' prefix' e w small))

  entry_here :
      (l : ℕ) (m' : Machine) (level' prefix' : ℕ → ℕ)
      → Walked m r.level r.prefix top v n l m' level' prefix'
      → (entry_of (l * page_size) (pml_entry 1 v) ≡ l * page_size + pml_entry 1 v * 8)
        × (linear ((l * page_size + pml_entry 1 v * 8) % 2 ^ 64)
            ≡ l * page_size + pml_entry 1 v * 8)
  entry_here l m' level' prefix' w =
      let inside = w.tables.inside l (ground (arith, w.leaf)) in
      (
        entry_of_lem l (pml_entry 1 v) inside (pml_entry-lt 1 v),
        low_entry_lem l (pml_entry 1 v) inside (pml_entry-lt 1 v),
      )

  pub map_page_lem :
      (f flags : ℕ)
      → f < 2 ^ 52
      → flags < 4096
      → flags % 2 ≡ 1
      → (m' : Machine) × (map_page m (top * page_size) (f * page_size) v flags ≡ some m')
        × Ends top n (update s (page v) (some (f * page_size + flags))) m'
  unfolding map_page
  map_page_lem f flags hf hg odd =
      let (l, m', level', prefix', e, w) =
        last_level_lem m r.level r.prefix top v flags n r.tables r.top_level hg odd room in
      let entry = entry_here l m' level' prefix' w in
      let stored : Machine = record m' {
        ram = write64 m'.ram (l * page_size + pml_entry 1 v * 8) (f * page_size + flags);
      } in
      let seen : present_only (f * page_size + flags) ≡ some (f * page_size + flags) =
        unfold is_present in ground arith in
      (
        invalidate_tlb stored (top * page_size) v,
        rw (e, entry.0, bit_or-flags f flags hg) refl,
        Ends-stored l m' level' prefix' (f * page_size + flags) (some (f * page_size + flags)) w
            (omega arith) seen,
      )

  pub unmap_page_lem :
      (m' : Machine) × (unmap_page m (top * page_size) v ≡ some m')
      × Ends top n (update s (page v) none) m'
  unfolding unmap_page
  unmap_page_lem =
      let (l, m', level', prefix', e, w) =
        last_level_lem m r.level r.prefix top v 7 n r.tables r.top_level (omega arith) refl room in
      let entry = entry_here l m' level' prefix' w in
      let stored : Machine = record m' {
        ram = write64 m'.ram (l * page_size + pml_entry 1 v * 8) 0;
      } in
      (
        invalidate_tlb stored (top * page_size) v,
        rw (e, entry.0) refl,
        Ends-stored l m' level' prefix' 0 none w (omega arith) (unfold is_present in refl),
      )

  pub virt_to_phys_lem :
      (m' : Machine) × (virt_to_phys m (top * page_size) v ≡ some (frame_of (s (page v)), m'))
      × Ends top n s m'
  unfolding virt_to_phys
  virt_to_phys_lem =
      let (l, m', level', prefix', e, w) =
        last_level_lem m r.level r.prefix top v 7 n r.tables r.top_level (omega arith) refl room in
      let entry = entry_here l m' level' prefix' w in
      let view : present_only (slot m'.ram l (pml_entry 1 v)) ≡ s (page v) =
        sym (lookup-some m'.ram top v l w.path) ∙ w.same_views top v r.top_level ∙ r.views v in
      (
        m',
        rw (e, entry.1)
            (ap (λ (x : ℕ). some (x, m'))
              (frame_of_lem (slot m'.ram l (pml_entry 1 v)) ∙ ap frame_of view)),
        record {
          represents = record {
            level = level';
            prefix = prefix';
            tables = w.tables;
            top_level = w.top_level;
            views = λ x. w.same_views top x r.top_level ∙ r.views x;
          };
          room = w.room;
        },
      )
