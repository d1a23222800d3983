-- ===== src/Fat/Table/Chain.antt =====
-- Freeing a chain with `FatZeroFatChain` of fat32.c.
use open_lib.Common.{
  ℕ, zero, suc, ◌+◌, ◌≤◌, ◌<◌, ◌≡◌, refl, ◌⊎◌, inl, inr, arith, Bool, false, some, List, [], ◌∷◌,
  length, ◌&&◌, ◌||◌, not, ◌==◌, ltb, if◌then◌else◌, update, Bool-cases, ==_iff,
}
use open_lib.Fat.Volume.{Volume, flush_fat}
use open_lib.Fat.Cluster.{eoc}
use open_lib.Fat.Table.{zero_chain, zero_fat_chain}

abbrev pub contains : List ℕ → ℕ → Bool
contains [] j = false
contains (x ∷ xs) j = x == j || contains xs j

-- The clusters `l` are linked from `c` on, up to an end mark or a free entry.
abbrev pub IsChain : (ℕ → ℕ) → ℕ → List ℕ → Type 0
IsChain fat c [] = (eoc ≤ c) ⊎ (c ≡ 0)
IsChain fat c (x ∷ xs) = (c ≡ x) × (0 < x) × (x < eoc) × IsChain fat (fat x) xs

abbrev pub IsDistinct : List ℕ → Type 0
IsDistinct [] = Unit {0}
IsDistinct (x ∷ xs) = (contains xs x ≡ false) × IsDistinct xs

IsChain-update :
    (fat : ℕ → ℕ) (c x y : ℕ) (l : List ℕ)
    → contains l x ≡ false
    → IsChain fat c l
    → IsChain (update fat x y) c l
IsChain-update fat c x y [] h chain = chain
IsChain-update fat c x y (z ∷ l) h chain = ground (arith, IsChain-update fat (fat z) x y l)

zero_chain_lem :
    (l : List ℕ) (fuel : ℕ) (fat : ℕ → ℕ) (c : ℕ)
    → IsChain fat c l
    → IsDistinct l
    → length l < fuel
    → (fat' : ℕ → ℕ) × (zero_chain fuel fat c ≡ some fat')
      × ((j : ℕ) → fat' j ≡ (if contains l j then 0 else fat j))
unfolding zero_chain
zero_chain_lem l zero fat c chain d h = absurd (omega arith)
zero_chain_lem [] (suc fuel) fat c chain d h = (fat, ground arith, λ j. refl)
zero_chain_lem (x ∷ l) (suc fuel) fat c chain d h =
    let (fat', e, bits) =
      zero_chain_lem l fuel (update fat x 0) (fat x) (IsChain-update fat (fat x) x 0 l d.0 chain.3)
        d.1 (omega arith) in
    (fat', ground arith, λ j. ground (arith, bits j))

-- The entries below `n` that are not free.
count_used : (ℕ → ℕ) → ℕ → ℕ
count_used fat zero = 0
count_used fat (suc n) = if fat n == 0 then count_used fat n else count_used fat n + 1

count_used-le : (fat : ℕ → ℕ) (n : ℕ) → count_used fat n ≤ n
unfolding count_used
count_used-le fat zero = omega arith
count_used-le fat (suc n) = ground (arith, count_used-le fat n)

count_used_out : (fat : ℕ → ℕ) (n c : ℕ) → n ≤ c → count_used (update fat c 0) n ≡ count_used fat n
unfolding count_used
count_used_out fat zero c h = refl
count_used_out fat (suc n) c h = ground (arith, count_used_out fat n c)

-- Zeroing an entry takes it off the count, if it was on it.
count_used-update :
    (fat : ℕ → ℕ) (n c : ℕ)
    → c < n
    → count_used (update fat c 0) n + (if fat c == 0 then 0 else 1) ≡ count_used fat n
unfolding count_used
count_used-update fat zero c h = absurd (omega arith)
count_used-update fat (suc n) c h = elim (Bool-cases (c == n)) [
  | inl last ↦ let same : c ≡ n = (==_iff c n).0 last in ground (arith, count_used_out fat n c)
  | inr inner ↦ ground (arith, count_used-update fat n c)
]

abbrev live : ℕ → ℕ
live c = if ltb c eoc && not (c == 0) then 1 else 0

zero_chain_ends :
    (fuel : ℕ) (fat : ℕ → ℕ) (c : ℕ)
    → count_used fat eoc + live c < fuel
    → (fat' : ℕ → ℕ) × (zero_chain fuel fat c ≡ some fat')
unfolding zero_chain
zero_chain_ends zero fat c h = absurd (omega arith)
zero_chain_ends (suc fuel) fat c h = elim (Bool-cases (ltb c eoc && not (c == 0))) [
  | inl on ↦
      let fewer = count_used-update fat eoc c (ground arith) in
      let (fat', e) = zero_chain_ends fuel (update fat c 0) (fat c) (ground arith) in
      (fat', rw on e)
  | inr off ↦ (fat, rw off)
]

-- Freeing ends on every table, cyclic ones included, and writes a table to the drive.
pub zero_fat_chain_ends :
    (v : Volume) (start : ℕ) → (v' : Volume) × (zero_fat_chain v start ≡ some v')
unfolding zero_fat_chain
zero_fat_chain_ends v start =
    let (fat', e) =
      zero_chain_ends (eoc + 2) v.fat start (ground (arith, count_used-le v.fat eoc)) in
    (flush_fat (record v { fat = fat' }), rw (e, zero_fat_chain))

-- A chain of distinct clusters is freed whole, every other entry of the table stays as it was, and
-- the new table is written to the drive.
pub zero_fat_chain_lem :
    (v : Volume) (start : ℕ) (l : List ℕ)
    → IsChain v.fat start l
    → IsDistinct l
    → length l ≤ eoc
    → (fat' : ℕ → ℕ) × (zero_fat_chain v start ≡ some (flush_fat (record v { fat = fat' })))
      × ((j : ℕ) → fat' j ≡ (if contains l j then 0 else v.fat j))
unfolding zero_fat_chain
zero_fat_chain_lem v start l chain d h =
    let (fat', e, bits) = zero_chain_lem l (eoc + 2) v.fat start chain d (omega arith) in
    (fat', rw (e, zero_fat_chain), bits)
