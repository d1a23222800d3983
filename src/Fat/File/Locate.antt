-- ===== src/Fat/File/Locate.antt =====
-- The loop of `FatLocateEntries` in fat32.c over the entries of one cluster.
use open_lib.Common.{
  ℕ, zero, suc, ◌+◌, ◌-◌, ◌*◌, ◌≤◌, ◌<◌, ◌≡◌, arith, true, none, some, ◌==◌, leb, ◌⊎◌, inl, inr,
  Bool-cases, Option-cases, ==_iff,
}
use open_lib.Fat.Sector.{Bytes}
use open_lib.Fat.Entry.{is_free}
use open_lib.Fat.File.{find_row}

-- The entries from `lo` to `hi`, without `hi`, are free.
abbrev pub AreFree : Bytes → ℕ → ℕ → Type 0
AreFree buffer lo hi = (j : ℕ) → lo ≤ j → j < hi → is_free (buffer (j * 32)) ≡ true

find_row-some :
    (buffer : Bytes) (count left i row index : ℕ)
    → row < count
    → row ≤ i
    → AreFree buffer (i - row) i
    → find_row buffer count left i row ≡ some index
    → AreFree buffer index (index + count) × (index + count ≤ i + left)
unfolding find_row
find_row-some buffer count zero i row index short fits are e = absurd (ground arith)
find_row-some buffer count (suc left) i row index short fits are e =
    elim (Bool-cases (is_free (buffer (i * 32)))) [
      | inl here ↦
          let more : AreFree buffer (i + 1 - (row + 1)) (i + 1) = λ j p q.
            elim (Bool-cases (j == i)) [
              | inl s ↦ rw ((==_iff j i).0 s) here
              | inr ne ↦ are j (omega arith) (ground arith)
            ] in
          elim (Bool-cases (row + 1 == count)) [
            | inl done ↦
                let at : index ≡ i - row = ground arith in
                (λ j p q. more j (omega arith) (ground arith), ground arith)
            | inr not_yet ↦
                let rest =
                  find_row-some buffer count left (i + 1) (row + 1) index (ground arith)
                    (omega arith) more (ground arith) in
                (rest.0, omega (arith, rest.1))
          ]
      | inr used ↦
          let rest =
            find_row-some buffer count left (i + 1) 0 index (omega arith) (omega arith)
              (λ j p q. absurd (omega arith)) (ground arith) in
          (rest.0, omega (arith, rest.1))
    ]

-- No row of `count` free entries lies in `lo` to `hi`.
find_row-none :
    (buffer : Bytes) (count left i row index : ℕ)
    → row < count
    → row ≤ i
    → i - row ≤ index
    → index + count ≤ i + left
    → find_row buffer count left i row ≡ none
    → ¬ (AreFree buffer index (index + count))
unfolding find_row
find_row-none buffer count zero i row index short fits lo hi e = absurd (omega arith)
find_row-none buffer count (suc left) i row index short fits lo hi e =
    elim (Bool-cases (is_free (buffer (i * 32)))) [
      | inl here ↦
          find_row-none buffer count left (i + 1) (row + 1) index (ground arith) (omega arith)
            (omega arith) (omega arith) (ground arith)
      | inr used ↦ λ are. elim (Bool-cases (leb index i)) [
        | inl over ↦
            let free : is_free (buffer (i * 32)) ≡ true = are i (ground arith) (omega arith) in cc
        | inr past ↦
            find_row-none buffer count left (i + 1) 0 index (omega arith) (omega arith)
              (ground arith) (omega arith) (ground arith) are
      ]
    ]

-- The loop of `FatLocateEntries` over a cluster of `entries` entries finds a row of `count` free
-- ones inside it, or there is no such row in the cluster.
pub find_row_lem :
    (buffer : Bytes) (count entries : ℕ)
    → 0 < count
    → ((index : ℕ) × (find_row buffer count entries 0 0 ≡ some index)
        × AreFree buffer index (index + count)
        × (index + count ≤ entries))
      ⊎ ((find_row buffer count entries 0 0 ≡ none)
          × ((index : ℕ) → index + count ≤ entries → ¬ (AreFree buffer index (index + count))))
find_row_lem buffer count entries pos = elim (Option-cases (find_row buffer count entries 0 0)) [
  | inl e ↦ inr (
    e,
    λ index h.
        find_row-none buffer count entries 0 0 index pos (omega arith) (omega arith) (omega arith)
          e,
  )
  | inr (index, e) ↦
      let found =
        find_row-some buffer count entries 0 0 index pos (omega arith)
          (λ j p q. absurd (omega arith)) e in
      inl (index, e, found.0, omega (arith, found.1))
]
