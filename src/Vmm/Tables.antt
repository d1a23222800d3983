-- ===== src/Vmm/Tables.antt =====
-- The page tables of ntoskrnl/mm/vmm.c as a tree: each table has a level, 4 for the top, and
-- covers the pages whose number starts with the indices that lead to it.
use open_lib.Common.{
  ℕ, zero, suc, ◌+◌, ◌*◌, ◌/◌, ◌%◌, ◌^◌, ◌≤◌, ◌<◌, ◌≡◌, Option, none, some, arith, if◌then◌else◌,
  ◌==◌, inl, inr, ◌&&◌, Option-cases, true,
}
use open_lib.Pmm.{page_size}
use open_lib.Pmm.Bits.{IsBytes, bit_test}
use open_lib.Vmm.{Machine, pml_entry, is_present, linear, entry_of}
use open_lib.Vmm.Memory.{read64, write64, read64-write64, read64-write64_ne}

-- Entry `i` of the table in page `t`.
abbrev pub slot : (ℕ → ℕ) → ℕ → ℕ → ℕ
slot ram t i = read64 ram (t * page_size + i * 8)

-- The page that entry `i` of page `t` points to.
unfoldable pub descend : (ℕ → ℕ) → ℕ → ℕ → Option ℕ
descend ram t i = if is_present (slot ram t i) then some (slot ram t i / page_size) else none

-- The table of level 1 that a walk from a table of level `k` ends in.
unfoldable pub reach : (ℕ → ℕ) → ℕ → ℕ → ℕ → Option ℕ
reach ram zero t v = none
reach ram (suc zero) t v = some t
reach ram (suc (suc k)) t v = elim (descend ram t (pml_entry (suc (suc k)) v)) [
  | none ↦ none
  | some c ↦ reach ram (suc k) c v
]

-- The number that the indices from level `k` down to level 2 add to the prefix `a`.
unfoldable pub spine : ℕ → ℕ → ℕ → ℕ
spine zero a v = a
spine (suc zero) a v = a
spine (suc (suc k)) a v = spine (suc k) (a * 512 + pml_entry (suc (suc k)) v) v

-- What the processor finds for an address: the entry of the page, if it is present.
unfoldable pub lookup : (ℕ → ℕ) → ℕ → ℕ → Option ℕ
lookup ram top v = elim (reach ram 4 top v) [
  | none ↦ none
  | some l ↦
      if is_present (slot ram l (pml_entry 1 v)) then some (slot ram l (pml_entry 1 v)) else none
]

-- The page of an address: its bits 12 to 47.
abbrev pub page : ℕ → ℕ
page v = v / page_size % 2 ^ 36

module _ (ram : ℕ → ℕ) (k t v : ℕ) where
  pub reach-none :
      descend ram t (pml_entry (suc (suc k)) v) ≡ none → reach ram (suc (suc k)) t v ≡ none
  unfolding reach
  reach-none e = rw (e, reach)

  pub reach-some :
      (c : ℕ)
      → descend ram t (pml_entry (suc (suc k)) v) ≡ some c
      → reach ram (suc (suc k)) t v ≡ reach ram (suc k) c v
  unfolding reach
  reach-some c e = rw (e, reach)

module _ (ram : ℕ → ℕ) (t v : ℕ) where
  pub lookup-none : reach ram 4 t v ≡ none → lookup ram t v ≡ none
  unfolding lookup
  lookup-none e = rw (e, lookup)

  pub lookup-some :
      (l : ℕ)
      → reach ram 4 t v ≡ some l
      → lookup ram t v ≡ (
          if is_present (slot ram l (pml_entry 1 v))
          then some (slot ram l (pml_entry 1 v))
          else none)
  unfolding lookup
  lookup-some l e = rw (e, lookup)

pub record Tables (m : Machine) (level prefix : ℕ → ℕ) : Type 0 where
  pub bytes : IsBytes m.pmm.bitmap
  pub memory : m.pmm.highest_page ≤ 2 ^ 46
  pub root : (t : ℕ) → level t ≡ 4 → prefix t ≡ 0
  pub child :
      (t i c : ℕ)
      → 2 ≤ level t
      → i < 512
      → descend m.ram t i ≡ some c
      → (suc (level c) ≡ level t) × (prefix c ≡ prefix t * 512 + i)
  pub used : (t : ℕ) → 1 ≤ level t → bit_test m.pmm.bitmap t ≡ 1
  pub inside : (t : ℕ) → 1 ≤ level t → t < 2 ^ 34
  -- The allocator does not clear the pages that become tables.
  pub clean :
      (t i : ℕ)
      → bit_test m.pmm.bitmap t ≡ 0
      → t < m.pmm.highest_page / page_size
      → i < 512
      → descend m.ram t i ≡ none

pub pml_entry-lt : (k v : ℕ) → pml_entry k v < 512
unfolding pml_entry
pml_entry-lt zero v = omega arith
pml_entry-lt (suc k) v = grind arith

-- Both ways in which the source addresses an entry reach it.
pub entry_of_lem :
    (t i : ℕ) → t < 2 ^ 34 → i < 512 → entry_of (t * page_size) i ≡ t * page_size + i * 8
unfolding entry_of linear
entry_of_lem t i ht hi = ground arith

pub low_entry_lem :
    (t i : ℕ)
    → t < 2 ^ 34
    → i < 512
    → linear ((t * page_size + i * 8) % 2 ^ 64) ≡ t * page_size + i * 8
unfolding linear
low_entry_lem t i ht hi = ground arith

-- The indices of an address are the digits of its page.
pub spine-page : (v : ℕ) → spine 4 0 v * 512 + pml_entry 1 v ≡ page v
unfolding spine pml_entry
spine-page v = omega arith

pub pml_entry-page : (v w : ℕ) → page v ≡ page w → pml_entry 1 v ≡ pml_entry 1 w
unfolding pml_entry
pml_entry-page v w h = omega arith

-- A walk ends in the table that covers the indices walked.
pub reach-prefix :
    (m : Machine) (level prefix : ℕ → ℕ) (k t v l : ℕ)
    → Tables m level prefix
    → level t ≡ k
    → reach m.ram k t v ≡ some l
    → (level l ≡ 1) × (prefix l ≡ spine k (prefix t) v)
unfolding reach spine
reach-prefix m level prefix zero t v l h e r = absurd (cc)
reach-prefix m level prefix (suc zero) t v l h e r = ground arith
reach-prefix m level prefix (suc (suc k)) t v l h e r =
    elim (Option-cases (descend m.ram t (pml_entry (suc (suc k)) v))) [
      | inl d ↦ absurd (ground arith)
      | inr (c, d) ↦
          let down =
            h.child t (pml_entry (suc (suc k)) v) c (omega arith) (pml_entry-lt (suc (suc k)) v)
              d in
          ground (arith, reach-prefix m level prefix (suc k) c v l h (omega (arith, down.0)))
    ]

-- A write to one entry is seen at that entry and at no other.
pub slot-write64 :
    (ram : ℕ → ℕ) (t i e u j : ℕ)
    → i < 512
    → j < 512
    → e < 2 ^ 64
    → slot (write64 ram (t * page_size + i * 8) e) u j
      ≡ (if t == u && i == j then e else slot ram u j)
slot-write64 ram t i e u j hi hj he = ground (
  arith,
  read64-write64 ram (t * page_size + i * 8) e he,
  read64-write64_ne ram (t * page_size + i * 8) (u * page_size + j * 8) e,
)

pub descend-write64 :
    (ram : ℕ → ℕ) (t i e u j : ℕ)
    → i < 512
    → j < 512
    → e < 2 ^ 64
    → is_present e ≡ true
    → descend (write64 ram (t * page_size + i * 8) e) u j
      ≡ (if t == u && i == j then some (e / page_size) else descend ram u j)
unfolding descend
descend-write64 ram t i e u j hi hj he p = ground (arith, slot-write64 ram t i e u j hi hj he)
