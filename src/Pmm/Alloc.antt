-- ===== src/Pmm/Alloc.antt =====
-- `pmalloc` and `pcalloc` of ntoskrnl/mm/pmm.c.
use mathlib.Core.Path.{subst}
use mathlib.Core.Option.{some-injective}
use open_lib.Common.{
  sym, ◌∙◌, ℕ, ◌+◌, ◌*◌, ◌/◌, ◌^◌, ◌≤◌, ◌<◌, ◌≡◌, ◌≢◌, ◌⊎◌, inl, inr, arith, none, some, ◌==◌,
  if◌then◌else◌, Option-cases,
}
use open_lib.Utill.{fill}
use open_lib.Pmm.{Pmm, page_size, u64, free_page, alloc_pages, scan, pmalloc, pcalloc}
use open_lib.Pmm.Bits.{IsBytes, bit_test, bit_test-bit_clear}
use open_lib.Pmm.Range.{Marked, alloc_pages-Marked}
use open_lib.Pmm.Search.{FirstFree, scan-some, scan-none, scan-FirstFree, scan_no_pages}

abbrev pages_in : Pmm → ℕ
pages_in p = p.highest_page / page_size

-- The call `pmalloc p pages` that returns `adr` and the state `q`.
pub record Allocated (p : Pmm) (pages adr : ℕ) (q : Pmm) : Type 0 where
  pub first : ℕ
  pub at : adr ≡ first * page_size
  pub inside : first < pages_in p
  pub lowest : FirstFree p.bitmap 0 first
  pub marked : Marked 1 adr pages p q

-- The addresses that `pmalloc` computes stay below 2 ^ 64.
abbrev pub NoWrap : Pmm → ℕ → Type 0
NoWrap p pages = p.highest_page + pages * page_size ≤ 2 ^ 64

-- `pmalloc` of at least one page: it returns the lowest page whose bit is clear, with the bits of
-- the whole run set and every other bit as it was, or it halts because no bit is clear.
pub pmalloc_lem :
    (p : Pmm) (pages : ℕ)
    → 0 < pages
    → IsBytes p.bitmap
    → NoWrap p pages
    → ((adr : ℕ) × (q : Pmm) × (pmalloc p pages ≡ some (adr, q)) × Allocated p pages adr q)
      ⊎ ((pmalloc p pages ≡ none) × ((j : ℕ) → j < pages_in p → bit_test p.bitmap j ≢ 0))
unfolding pmalloc
pmalloc_lem p pages pos bytes fits_in = elim (Option-cases (scan p.bitmap pages (pages_in p) 0)) [
  | inl e ↦ inr (
    rw (e, pmalloc),
    λ j h. scan-none p.bitmap pages (pages_in p) 0 j pos e (omega arith) (omega arith),
  )
  | inr (i, e) ↦
      let found = scan-some p.bitmap pages (pages_in p) 0 i pos e in
      let exact : u64 (i * page_size) ≡ i * page_size = omega (arith, found.1) in
      inl (
        u64 (i * page_size),
        alloc_pages p (u64 (i * page_size)) pages,
        rw (e, pmalloc),
        record {
          first = i;
          at = exact;
          inside = omega (arith, found.1);
          lowest = found.0;
          marked =
              alloc_pages-Marked p (u64 (i * page_size)) pages bytes
                (omega (arith, exact, found.1));
        },
      )
]

-- The inverse: `pmalloc` succeeds at the first free page.
pmalloc-FirstFree :
    (p : Pmm) (pages i : ℕ)
    → 0 < pages
    → FirstFree p.bitmap 0 i
    → i < pages_in p
    → NoWrap p pages
    → pmalloc p pages ≡ some (i * page_size, alloc_pages p (i * page_size) pages)
unfolding pmalloc
pmalloc-FirstFree p pages i pos f inside fits_in =
    let exact : u64 (i * page_size) ≡ i * page_size = omega arith in
    rw (scan-FirstFree p.bitmap pages (pages_in p) 0 i pos f (omega arith), pmalloc, exact)

pub pmalloc-Allocated :
    (p : Pmm) (pages adr : ℕ) (q : Pmm)
    → 0 < pages
    → IsBytes p.bitmap
    → NoWrap p pages
    → pmalloc p pages ≡ some (adr, q)
    → Allocated p pages adr q
pmalloc-Allocated p pages adr q pos bytes fits_in h = elim (pmalloc_lem p pages pos bytes fits_in) [
  | inl (adr', q', e, a) ↦
      subst (λ (r : ℕ × Pmm). Allocated p pages r.0 r.1) (some-injective _ _ (sym e ∙ h)) a
  | inr full ↦ absurd (let e = full.0 in cc)
]

-- One page is allocated soundly: it was free, its bit and no other is set, and freeing the
-- address gives back every bit as it was.
pub pmalloc_one_page :
    (p : Pmm) (adr : ℕ) (q : Pmm)
    → IsBytes p.bitmap
    → NoWrap p 1
    → pmalloc p 1 ≡ some (adr, q)
    → (bit_test p.bitmap (adr / page_size) ≡ 0)
      × ((j : ℕ) → bit_test q.bitmap j ≡ (if adr / page_size == j then 1 else bit_test p.bitmap j))
      × ((j : ℕ) → bit_test (free_page q adr).bitmap j ≡ bit_test p.bitmap j)
unfolding free_page
pmalloc_one_page p adr q bytes fits_in h =
    let a = pmalloc-Allocated p 1 adr q (omega arith) bytes fits_in h in
    let page : adr / page_size ≡ a.first = omega (arith, a.at) in
    let one : (j : ℕ)
        → bit_test q.bitmap j ≡ (if adr / page_size == j then 1 else bit_test p.bitmap j) =
      λ j. ground (arith, a.marked.bits j) in
    (
      rw page a.lowest.free,
      one,
      λ j. ground (
        arith,
        one j,
        page,
        a.lowest.free,
        bit_test-bit_clear q.bitmap (adr / page_size) j a.marked.bytes,
      ),
    )

-- A longer run is not looked at beyond its first page: `pmalloc` of two or more pages hands out
-- a page that is in use whenever the page after the first free one is.
pub pmalloc_run_overlaps :
    (p : Pmm) (pages i : ℕ)
    → 2 ≤ pages
    → FirstFree p.bitmap 0 i
    → i < pages_in p
    → NoWrap p pages
    → bit_test p.bitmap (i + 1) ≡ 1
    → (adr : ℕ) × (q : Pmm) × (pmalloc p pages ≡ some (adr, q))
      × ((adr + page_size) / page_size ≡ i + 1)
      × (bit_test p.bitmap ((adr + page_size) / page_size) ≡ 1)
pmalloc_run_overlaps p pages i two f inside fits_in used =
    let here : (i * page_size + page_size) / page_size ≡ i + 1 = omega arith in
    (
      i * page_size,
      alloc_pages p (i * page_size) pages,
      pmalloc-FirstFree p pages i (omega arith) f inside fits_in,
      here,
      rw here used,
    )

-- A request for no page never returns, however much memory is free.
pub pmalloc_no_pages : (p : Pmm) → pmalloc p 0 ≡ none
unfolding pmalloc
pmalloc_no_pages p = rw (scan_no_pages p.bitmap (pages_in p) 0, pmalloc)

-- The memory `ram'` is `ram` with a run of pages cleared, unless the run starts at address 0.
pub record Cleared (ram : ℕ → ℕ) (adr pages : ℕ) (ram' : ℕ → ℕ) : Type 0 where
  pub inside : (j : ℕ) → adr ≢ 0 → adr ≤ j → j < adr + pages * page_size → ram' j ≡ 0
  pub outside : (j : ℕ) → (j < adr) ⊎ (adr + pages * page_size ≤ j) → ram' j ≡ ram j
  pub at_zero : (j : ℕ) → adr ≡ 0 → ram' j ≡ ram j

fill-Cleared :
    (ram : ℕ → ℕ) (adr pages : ℕ)
    → pages * page_size < 2 ^ 31
    → Cleared ram adr pages (if adr == 0 then ram else fill ram adr 0 (pages * page_size))
fill-Cleared ram adr pages small = record {
  inside = λ j ne lo hi. ground arith;
  outside = λ j out. ground arith;
  at_zero = λ j z. ground arith;
}

-- `pcalloc` allocates as `pmalloc` does, and clears exactly the run that it returns; a run at
-- address 0 is taken for a failure and left as it was. `memset` counts with an INT, so the run is
-- below 2 ^ 31 bytes.
pub pcalloc_lem :
    (p : Pmm) (ram : ℕ → ℕ) (pages adr : ℕ) (q : Pmm) (ram' : ℕ → ℕ)
    → 0 < pages
    → IsBytes p.bitmap
    → NoWrap p pages
    → pages * page_size < 2 ^ 31
    → pcalloc p ram pages ≡ some (adr, q, ram')
    → Allocated p pages adr q × Cleared ram adr pages ram'
pcalloc_lem p ram pages adr q ram' pos bytes fits_in small h =
    elim (Option-cases (pmalloc p pages)) [
      | inl e ↦ absurd (unfold pcalloc in ground arith)
      | inr ((ret, q'), e) ↦
          let computed : pcalloc p ram pages
              ≡ some (ret, q', if ret == 0 then ram else fill ram ret 0 (pages * page_size)) =
            unfold pcalloc in rw (e, pcalloc) in
          subst (λ (r : ℕ × Pmm × (ℕ → ℕ)). Allocated p pages r.0 r.1 × Cleared ram r.0 pages r.2)
            (some-injective _ _ (sym computed ∙ h))
            (pmalloc-Allocated p pages ret q' pos bytes fits_in e, fill-Cleared ram ret pages small)
    ]
