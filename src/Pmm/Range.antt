-- ===== src/Pmm/Range.antt =====
-- A run of pages: what `pmm_free_pages` and `pmm_alloc_pages` do to each bit.
use open_lib.Common.{
  ℕ, ◌+◌, ◌*◌, ◌/◌, ◌%◌, ◌^◌, ◌≤◌, ◌<◌, ◌≡◌, refl, ◌&&◌, arith, ltb, leb, if◌then◌else◌,
  for_range_inv,
}
use open_lib.Pmm.{Pmm, page_size, free_page, alloc_page, free_pages, alloc_pages}
use open_lib.Pmm.Bits.{
  IsBytes, bit_test, bit_test-bit_set, bit_test-bit_clear, bit_set-IsBytes, bit_clear-IsBytes,
}

-- The state after a run of pages from `adr` has got the bit `v`.
pub record Marked (v adr count : ℕ) (p q : Pmm) : Type 0 where
  pub bytes : IsBytes q.bitmap
  pub same_highest : q.highest_page ≡ p.highest_page
  pub bits :
      (j : ℕ)
      → bit_test q.bitmap j ≡ (
          if leb (adr / page_size) j && ltb j (adr / page_size + count)
          then v
          else bit_test p.bitmap j)

page_of :
    (adr i : ℕ)
    → adr + i * page_size < 2 ^ 64
    → (adr + i * page_size) % 2 ^ 64 / page_size ≡ adr / page_size + i
page_of adr i h = omega arith

-- Freeing a run clears the bits of its pages and of no other, if the run does not wrap.
pub free_pages-Marked :
    (p : Pmm) (adr count : ℕ)
    → IsBytes p.bitmap
    → adr + count * page_size ≤ 2 ^ 64
    → Marked 0 adr count p (free_pages p adr count)
unfolding free_pages free_page
free_pages-Marked p adr count h fits =
    for_range_inv (λ k q. Marked 0 adr k p q) _ count 0 count p
      (λ k q lo hi m. record {
        bytes = bit_clear-IsBytes q.bitmap _ m.bytes;
        same_highest = m.same_highest;
        bits = λ j. ground (
          arith,
          page_of adr k (omega arith),
          bit_test-bit_clear q.bitmap ((adr + k * page_size) % 2 ^ 64 / page_size) j m.bytes,
          m.bits j,
        );
      })
      (omega arith) (record { bytes = h; same_highest = refl; bits = λ j. ground arith })

-- Allocating a run sets the bits of its pages and of no other, if the run does not wrap.
pub alloc_pages-Marked :
    (p : Pmm) (adr count : ℕ)
    → IsBytes p.bitmap
    → adr + count * page_size ≤ 2 ^ 64
    → Marked 1 adr count p (alloc_pages p adr count)
unfolding alloc_pages alloc_page
alloc_pages-Marked p adr count h fits =
    for_range_inv (λ k q. Marked 1 adr k p q) _ count 0 count p
      (λ k q lo hi m. record {
        bytes = bit_set-IsBytes q.bitmap _ m.bytes;
        same_highest = m.same_highest;
        bits = λ j. ground (
          arith,
          page_of adr k (omega arith),
          bit_test-bit_set q.bitmap ((adr + k * page_size) % 2 ^ 64 / page_size) j m.bytes,
          m.bits j,
        );
      })
      (omega arith) (record { bytes = h; same_highest = refl; bits = λ j. ground arith })
