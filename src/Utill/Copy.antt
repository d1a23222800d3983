-- ===== src/Utill/Copy.antt =====
-- `memcpy` and `memmove` of ntoskrnl/lib/utill.c.
use open_lib.Common.{
  ℕ, ◌+◌, ◌-◌, ◌≤◌, ◌<◌, ◌≡◌, ap, ◌∙◌, arith, ◌&&◌, ◌==◌, ltb, leb, if◌then◌else◌, update,
  for_range, for_range_inv, ◌⊎◌, inl, inr, Bool-cases,
}
use open_lib.Utill.{memcpy, memmove}

-- The memory with `n` bytes of the old memory from `src` on at `dest`.
abbrev pub moved : (ℕ → ℕ) → ℕ → ℕ → ℕ → ℕ → ℕ
moved m dest src n j = if leb dest j && ltb j (dest + n) then m (src + (j - dest)) else m j

copy_round :
    (m m' : ℕ → ℕ) (dest src k j : ℕ)
    → (dest ≤ src) ⊎ (src + k < dest)
    → ((q : ℕ) → m' q ≡ moved m dest src k q)
    → update m' (dest + k) (m' (src + k)) j ≡ moved m dest src (k + 1) j
copy_round m m' dest src k j apart before = elim (Bool-cases (dest + k == j)) [
  | inl here ↦
      let place : k ≡ j - dest = ground arith in
      let source : m' (src + k) ≡ m (src + k) = before (src + k) ∙ ground arith in
      ground (arith, source, ap (λ i. m (src + i)) place)
  | inr there ↦ ground (arith, before j)
]

-- `memcpy` copies forwards: it moves the bytes as they were if the destination does not lie inside
-- the source, or lies in front of it.
pub memcpy_lem :
    (m : ℕ → ℕ) (dest src n j : ℕ)
    → (dest ≤ src) ⊎ (src + n ≤ dest)
    → memcpy m dest src n j ≡ moved m dest src n j
unfolding memcpy
memcpy_lem m dest src n j apart =
    for_range_inv (λ k (m' : ℕ → ℕ). (q : ℕ) → m' q ≡ moved m dest src k q) _ n 0 n m
      (λ k m' lo hi p q. copy_round m m' dest src k q (omega arith) p) (omega arith)
      (λ q. ground arith) j

temp_lem :
    (m temp : ℕ → ℕ) (src n j : ℕ)
    → j < n
    → for_range n 0 (λ i t. update t i (m (src + i))) temp j ≡ m (src + j)
temp_lem m temp src n j h =
    for_range_inv (λ k (t : ℕ → ℕ). j < k → t j ≡ m (src + j)) (λ i t. update t i (m (src + i))) n 0
      n temp
      (λ k t lo hi p below. elim (Bool-cases (k == j)) [
        | inl e ↦ let same : k ≡ j = ground arith in ground (arith, ap (λ i. m (src + i)) same)
        | inr ne ↦ ground arith
      ])
      (omega arith) (λ below. absurd (omega arith)) h

-- `memmove` moves the bytes as they were, however the two ranges lie.
pub memmove_lem :
    (m temp : ℕ → ℕ) (dest src n j : ℕ) → memmove m temp dest src n j ≡ moved m dest src n j
unfolding memmove
memmove_lem m temp dest src n j =
    let temp' = for_range n 0 (λ i t. update t i (m (src + i))) temp in
    for_range_inv
      (λ k (m' : ℕ → ℕ).
        m' j ≡ (if leb dest j && ltb j (dest + k) then m (src + (j - dest)) else m j))
      (λ i m'. update m' (dest + i) (temp' i)) n 0 n m
      (λ k m' lo hi p. elim (Bool-cases (dest + k == j)) [
        | inl here ↦
            let place : k ≡ j - dest = ground arith in
            ground (arith, temp_lem m temp src n k hi, ap (λ i. m (src + i)) place)
        | inr there ↦ ground arith
      ])
      (omega arith) (ground arith)
