-- ===== src/Pmm/Search.antt =====
-- The search loops of `pmalloc` in ntoskrnl/mm/pmm.c.
use open_lib.Common.{
  ℕ, zero, suc, ◌+◌, ◌≤◌, ◌<◌, ◌≡◌, ◌≢◌, refl, inl, inr, arith, none, some, ◌==◌, if◌then◌else◌,
  Bool-cases, ==_iff,
}
use open_lib.Pmm.{fits, scan}
use open_lib.Pmm.Bits.{Bitmap, bit_test}

-- The inner loop looks at the bit of page `i` alone, whatever `j` is.
fits_lem :
    (b : Bitmap) (pages i left j : ℕ)
    → j + suc left ≡ pages
    → fits b pages i (suc left) j ≡ (bit_test b i == 0)
unfolding fits
fits_lem b pages i zero j e = ground arith
fits_lem b pages i (suc left) j e = ground (arith, fits_lem b pages i left (j + 1))

pub fits-first :
    (b : Bitmap) (pages i : ℕ) → 0 < pages → fits b pages i pages 0 ≡ (bit_test b i == 0)
fits-first b zero i h = absurd (omega arith)
fits-first b (suc left) i h = fits_lem b (suc left) i left 0 (omega arith)

-- `i` is the lowest page from `lo` on whose bit is clear.
pub record FirstFree (b : Bitmap) (lo i : ℕ) : Type 0 where
  pub above : lo ≤ i
  pub free : bit_test b i ≡ 0
  pub used_below : (j : ℕ) → lo ≤ j → j < i → bit_test b j ≢ 0

pub scan-suc :
    (b : Bitmap) (pages left lo : ℕ)
    → 0 < pages
    → scan b pages (suc left) lo
      ≡ (if bit_test b lo == 0 then some lo else scan b pages left (lo + 1))
unfolding scan
scan-suc b pages left lo h = rw (fits-first b pages lo h)

FirstFree-next :
    (b : Bitmap) (lo i : ℕ) → bit_test b lo ≢ 0 → FirstFree b (lo + 1) i → FirstFree b lo i
FirstFree-next b lo i used f = record {
  above = omega (arith, f.above);
  free = f.free;
  used_below = λ j p q. elim (Bool-cases (lo == j)) [
    | inl e ↦ rw (← ((==_iff lo j).0 e)) used
    | inr e ↦ f.used_below j (ground arith) q
  ];
}

FirstFree-later : (b : Bitmap) (lo i : ℕ) → FirstFree b lo i → lo < i → FirstFree b (lo + 1) i
FirstFree-later b lo i f h = record {
  above = omega arith;
  free = f.free;
  used_below = λ j p q. f.used_below j (omega arith) q;
}

-- The search is exact: it finds the first free page and nothing else.
pub scan-some :
    (b : Bitmap) (pages left lo i : ℕ)
    → 0 < pages
    → scan b pages left lo ≡ some i
    → FirstFree b lo i × (i < lo + left)
scan-some b pages zero lo i h e = absurd (unfold scan in cc)
scan-some b pages (suc left) lo i h e = elim (Bool-cases (bit_test b lo == 0)) [
  | inl here ↦
      let same : lo ≡ i = ground (arith, scan-suc b pages left lo h) in
      (
        record {
          above = omega arith;
          free = rw (← same) ((==_iff _ 0).0 here);
          used_below = λ j p q. absurd (omega arith);
        },
        omega arith,
      )
  | inr not_here ↦
      let next = scan-some b pages left (lo + 1) i h (ground (arith, scan-suc b pages left lo h)) in
      (FirstFree-next b lo i (ground arith) next.0, omega (arith, next.1))
]

pub scan-none :
    (b : Bitmap) (pages left lo j : ℕ)
    → 0 < pages
    → scan b pages left lo ≡ none
    → lo ≤ j
    → j < lo + left
    → bit_test b j ≢ 0
scan-none b pages zero lo j h e p q = absurd (omega arith)
scan-none b pages (suc left) lo j h e p q =
    ground (arith, scan-suc b pages left lo h, scan-none b pages left (lo + 1) j h)

pub scan-FirstFree :
    (b : Bitmap) (pages left lo i : ℕ)
    → 0 < pages
    → FirstFree b lo i
    → i < lo + left
    → scan b pages left lo ≡ some i
scan-FirstFree b pages zero lo i h f q = absurd (omega (arith, f.above))
scan-FirstFree b pages (suc left) lo i h f q = elim (Bool-cases (lo == i)) [
  | inl e ↦ rw (scan-suc b pages left lo h) (ground (arith, f.free))
  | inr e ↦ rw (scan-suc b pages left lo h) (
      ground (
        arith,
        f.used_below lo,
        f.above,
        scan-FirstFree b pages left (lo + 1) i h
            (FirstFree-later b lo i f (ground (arith, f.above))),
      ))
]

pub scan_no_pages : (b : Bitmap) (left lo : ℕ) → scan b 0 left lo ≡ none
unfolding scan fits
scan_no_pages b zero lo = refl
scan_no_pages b (suc left) lo = scan_no_pages b left (lo + 1)
