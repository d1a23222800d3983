-- ===== src/Fat/Table/Alloc.antt =====
-- Allocation and the count of free clusters: `FatAllocCluster` and `FatGetFreeClusters` of fat32.c.
use native.Mathlib.Nat.{mul_comm}
use open_lib.Common.{
  ap, ℕ, zero, suc, ◌+◌, ◌-◌, ◌≤◌, ◌<◌, ◌≡◌, ◌≢◌, refl, ◌⊎◌, inl, inr, arith, none, some, ◌==◌, ltb,
  if◌then◌else◌, ==_iff, Bool-cases,
}
use open_lib.Fat.Volume.{Volume}
use open_lib.Fat.Cluster.{clear_cluster, put_cluster}
use open_lib.Fat.Table.{
  ints_per_fat, find_free, take_cluster, alloc_cluster, count_free, free_clusters,
}

-- A search finds a free entry in its range, or there is none.
find_free_lem :
    (fat : ℕ → ℕ) (left lo : ℕ)
    → ((i : ℕ) × (find_free fat left lo ≡ some i) × (lo ≤ i) × (i < lo + left) × (fat i ≡ 0))
      ⊎ ((find_free fat left lo ≡ none) × ((j : ℕ) → lo ≤ j → j < lo + left → fat j ≢ 0))
unfolding find_free
find_free_lem fat zero lo = inr (refl, λ j p q. absurd (omega arith))
find_free_lem fat (suc left) lo = elim (Bool-cases (fat lo == 0)) [
  | inl here ↦ inl (lo, rw here, omega arith, omega arith, ground arith)
  | inr used ↦ elim (find_free_lem fat left (lo + 1)) [
    | inl (i, e, p, q, z) ↦ inl (i, rw used e, omega arith, omega arith, z)
    | inr (e, all) ↦ inr (
      rw used e,
      λ j p q. elim (Bool-cases (lo == j)) [
        | inl same ↦ ground arith
        | inr other ↦ all j (ground arith) (omega arith)
      ],
    )
  ]
]

-- The call gives the free entry `i` away.
pub record Takes (v v' : Volume) (i : ℕ) : Type 0 where
  pub was_free : v.fat i ≡ 0
  pub marked : (j : ℕ) → v'.fat j ≡ (if i == j then 0x0fffffff else v.fat j)
  pub next_hint : v'.hint ≡ i + 1
  pub same_bpb : v'.bpb ≡ v.bpb

pub take_cluster-Takes : (v : Volume) (i : ℕ) → v.fat i ≡ 0 → Takes v (take_cluster v i) i
unfolding take_cluster clear_cluster put_cluster
take_cluster-Takes v i z = record {
  was_free = z;
  marked = λ j. refl;
  next_hint = refl;
  same_bpb = refl;
}

-- Both searches together: the call takes the entry that it returns, or no entry is free.
pub alloc_cluster-take :
    (v : Volume)
    → v.hint ≤ ints_per_fat v
    → ((i : ℕ) × (alloc_cluster v ≡ (take_cluster v i, i)) × (i < ints_per_fat v) × (v.fat i ≡ 0))
      ⊎ ((alloc_cluster v ≡ (v, 0)) × ((j : ℕ) → j < ints_per_fat v → v.fat j ≢ 0))
unfolding alloc_cluster
alloc_cluster-take v h = elim (find_free_lem v.fat (ints_per_fat v - v.hint) v.hint) [
  | inl (i, e, p, q, z) ↦ inl (i, rw (e, alloc_cluster) refl, omega arith, z)
  | inr (e, above) ↦ elim (find_free_lem v.fat v.hint 0) [
    | inl (i, e', p, q, z) ↦ inl (i, rw (e, e', alloc_cluster) refl, omega arith, z)
    | inr (e', below) ↦ inr (
      rw (e, e', alloc_cluster) refl,
      λ j hj. elim (Bool-cases (ltb j v.hint)) [
        | inl low ↦ below j (omega arith) (ground arith)
        | inr high ↦ above j (ground arith) (omega arith)
      ],
    )
  ]
]

-- `FatAllocCluster` gives away a free entry of the table, marks it as the end of a chain and
-- changes no other, or returns 0 with nothing changed because no entry is free.
pub alloc_cluster_lem :
    (v : Volume)
    → v.hint ≤ ints_per_fat v
    → (Takes v (alloc_cluster v).0 (alloc_cluster v).1 × ((alloc_cluster v).1 < ints_per_fat v))
      ⊎ ((alloc_cluster v ≡ (v, 0)) × ((j : ℕ) → j < ints_per_fat v → v.fat j ≢ 0))
alloc_cluster_lem v h = elim (alloc_cluster-take v h) [
  | inl (i, e, below, z) ↦ inl (rw e (take_cluster-Takes v i z), rw e below)
  | inr none_free ↦ inr none_free
]

-- The count sees only which entries are zero.
pub count_free_zero :
    (f g : ℕ → ℕ) (n : ℕ)
    → ((j : ℕ) → j < n → (f j == 0) ≡ (g j == 0))
    → count_free f n ≡ count_free g n
unfolding count_free
count_free_zero f g zero h = refl
count_free_zero f g (suc n) h =
    ground (arith, h n (omega arith), count_free_zero f g n (λ j p. h j (omega arith)))

-- The count sees a table through its entries alone.
count_free_ext :
    (f g : ℕ → ℕ) (n : ℕ) → ((j : ℕ) → j < n → f j ≡ g j) → count_free f n ≡ count_free g n
unfolding count_free
count_free_ext f g zero h = refl
count_free_ext f g (suc n) h =
    ground (arith, h n (omega arith), count_free_ext f g n (λ j p. h j (omega arith)))

pub count_free_change :
    (f g : ℕ → ℕ) (n i : ℕ)
    → i < n
    → f i ≡ 0
    → g i ≢ 0
    → ((j : ℕ) → j ≢ i → g j ≡ f j)
    → count_free g n + 1 ≡ count_free f n
unfolding count_free
count_free_change f g zero i h z nz same = absurd (omega arith)
count_free_change f g (suc n) i h z nz same = elim (Bool-cases (i == n)) [
  | inl last ↦
      let here : i ≡ n = (==_iff i n).0 last in
      let rest : count_free g n ≡ count_free f n =
        count_free_ext g f n (λ j p. same j (omega arith)) in
      ground arith
  | inr inner ↦
      let rest : count_free g n + 1 ≡ count_free f n =
        count_free_change f g n i (ground arith) z nz same in
      ground (arith, same n)
]

-- An allocation that succeeds costs exactly one of the free clusters that `FatGetFreeClusters`
-- counts.
pub free_clusters-alloc_cluster :
    (v : Volume)
    → v.hint ≤ ints_per_fat v
    → (alloc_cluster v).1 ≢ 0
    → free_clusters (alloc_cluster v).0 + 1 ≡ free_clusters v
free_clusters-alloc_cluster v h ok = elim (alloc_cluster_lem v h) [
  | inl (t, below) ↦
      rw (t.same_bpb, mul_comm v.bpb.sectors_per_fat32 512)
        (count_free_change v.fat (alloc_cluster v).0.fat (ints_per_fat v) (alloc_cluster v).1 below
          t.was_free (ground (arith, t.marked (alloc_cluster v).1))
          (λ j ne. ground (arith, t.marked j)))
  | inr none_free ↦ absurd (ok (ap (λ (r : Volume × ℕ). r.1) none_free.0))
]
