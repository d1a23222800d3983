-- ===== src/Vmm/Level.antt =====
-- `vmm_get_next_level` of ntoskrnl/mm/vmm.c on a tree of tables.
use open_lib.Common.{
  ℕ, zero, suc, ◌+◌, ◌*◌, ◌/◌, ◌%◌, ◌^◌, ◌≤◌, ◌<◌, ◌≡◌, none, some, arith, if◌then◌else◌, ◌==◌, inl,
  inr, false, bit_or-flags,
}
use open_lib.Pmm.{Pmm, page_size, pmalloc}
use open_lib.Pmm.Bits.{IsBytes, bit_test}
use open_lib.Pmm.Alloc.{pmalloc_lem}
use open_lib.Vmm.{Machine, is_present, entry_of, get_next_level}
use open_lib.Vmm.Memory.{read64, write64}
use open_lib.Vmm.Tables.{Tables, descend, lookup, entry_of_lem}

-- `n` free pages, from page `lo` on.
abbrev pub Room : Pmm → ℕ → ℕ → Type 0
Room p lo zero = Unit {0}
Room p lo (suc n) =
    (a : ℕ) × (lo ≤ a)
    × (a < p.highest_page / page_size)
    × (bit_test p.bitmap a ≡ 0)
    × Room p (a + 1) n

-- One page has been taken from the allocator.
pub record Taken (p : Pmm) (c : ℕ) (q : Pmm) : Type 0 where
  pub free : bit_test p.bitmap c ≡ 0
  pub inside : c < p.highest_page / page_size
  pub bytes : IsBytes q.bitmap
  pub same_highest : q.highest_page ≡ p.highest_page
  pub bits : (j : ℕ) → bit_test q.bitmap j ≡ (if c == j then 1 else bit_test p.bitmap j)

pub Room-Taken : (p : Pmm) (c lo n : ℕ) (q : Pmm) → Taken p c q → c < lo → Room p lo n → Room q lo n
Room-Taken p c lo zero q t h r = tt
Room-Taken p c lo (suc n) q t h (a, ge, inside, free, more) = (
  a,
  ge,
  ground (arith, t.same_highest),
  ground (arith, t.bits a),
  Room-Taken p c (a + 1) n q t (omega arith) more,
)

pub Room-lower : (p : Pmm) (lo lo' n : ℕ) → lo' ≤ lo → Room p lo n → Room p lo' n
Room-lower p lo lo' zero h r = tt
Room-lower p lo lo' (suc n) h (a, ge, inside, free, more) = (a, omega arith, inside, free, more)

-- With a free page the allocator returns one, and leaves the room for the pages after it.
pub take_page :
    (p : Pmm) (n : ℕ)
    → IsBytes p.bitmap
    → p.highest_page ≤ 2 ^ 46
    → Room p 0 (suc n)
    → (c : ℕ) × (q : Pmm) × (pmalloc p 1 ≡ some (c * page_size, q)) × Taken p c q × Room q 0 n
take_page p n bytes bound (a, ge, inside, free, more) =
    elim (pmalloc_lem p 1 (omega arith) bytes (omega arith)) [
      | inr (e, full) ↦ absurd (full a inside free)
      | inl (adr, q, e, al) ↦
          let taken : Taken p al.first q = record {
            free = al.lowest.free;
            inside = al.inside;
            bytes = al.marked.bytes;
            same_highest = al.marked.same_highest;
            bits = λ j. ground (arith, al.at, al.marked.bits j);
          } in
          (
            al.first,
            q,
            rw (← al.at) e,
            taken,
            Room-lower q (a + 1) 0 n (omega arith) (
                Room-Taken p al.first (a + 1) n q taken (ground (arith, al.lowest.used_below a))
                  more),
          )
    ]

-- What a call for the table below entry `i` of the table `t`, of level `k + 1`, does to the tree.
pub record Down (m : Machine) (level prefix : ℕ → ℕ) (k t i n : ℕ) (c : ℕ) (m' : Machine)
    (level' prefix' : ℕ → ℕ) : Type 0 where
  pub tables : Tables m' level' prefix'
  pub linked : descend m'.ram t i ≡ some c
  pub below : level' c ≡ k
  pub covers : prefix' c ≡ prefix t * 512 + i
  pub kept : (u : ℕ) → 1 ≤ level u → (level' u ≡ level u) × (prefix' u ≡ prefix u)
  pub links :
      (u j x : ℕ) → 1 ≤ level u → j < 512 → descend m.ram u j ≡ some x → descend m'.ram u j ≡ some x
  pub same_views : (u v : ℕ) → level u ≡ 4 → lookup m'.ram u v ≡ lookup m.ram u v
  pub room : Room m'.pmm 0 n

module _ (m : Machine) (level prefix : ℕ → ℕ) (k t i flags n : ℕ) (h : Tables m level prefix)
    (at : level t ≡ suc k) (low : 1 ≤ k) (high : k ≤ 3) (hi : i < 512) (hf : flags < 4096)
    (odd : flags % 2 ≡ 1) where
  here : entry_of (t * page_size) i ≡ t * page_size + i * 8
  here = entry_of_lem t i (h.inside t (omega arith)) hi

  -- The entry is present: nothing changes.
  pub present_entry :
      (c : ℕ)
      → descend m.ram t i ≡ some c
      → get_next_level m (t * page_size) i flags ≡ some (c * page_size, m)
  unfolding get_next_level descend
  present_entry c d = rw here (ground arith)

  pub absent_entry :
      (c : ℕ) (q : Pmm)
      → descend m.ram t i ≡ none
      → pmalloc m.pmm 1 ≡ some (c * page_size, q)
      → get_next_level m (t * page_size) i flags
        ≡ some (
          c * page_size,
          record m { pmm = q; ram = write64 m.ram (t * page_size + i * 8) (c * page_size + flags) },
        )
  unfolding get_next_level descend
  absent_entry c q d e =
      let absent : is_present (read64 m.ram (t * page_size + i * 8)) ≡ false = ground arith in
      rw (here, absent, e, get_next_level, here, bit_or-flags c flags hf)
