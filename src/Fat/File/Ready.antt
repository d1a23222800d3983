-- ===== src/Fat/File/Ready.antt =====
-- Volumes that a file can be written to by `FatWriteFileImplementation` of fat32.c.
use open_lib.Common.{
  ℕ, zero, suc, ◌+◌, ◌≤◌, ◌<◌, ◌≡◌, ◌≢◌, refl, sym, ap, ◌∙◌, arith, ◌&&◌, not, ◌==◌, if◌then◌else◌,
  ◌⊎◌, inl, inr, Bool-cases,
}
use open_lib.Fat.Sector.{Bytes}
use open_lib.Fat.Volume.{Volume}
use open_lib.Fat.Cluster.{eoc}
use open_lib.Fat.Cluster.Laws.{OnDrive}
use open_lib.Fat.Table.{ints_per_fat, take_cluster, alloc_cluster, count_free}
use open_lib.Fat.Table.Alloc.{alloc_cluster-take, count_free_zero, count_free_change}
use open_lib.Fat.File.Step.{Step}

-- A volume with room for `n` more clusters, all of them on the drive.
pub record Ready (v : Volume) (n : ℕ) : Type 0 where
  pub hint_inside : v.hint ≤ ints_per_fat v
  pub enough : n ≤ count_free v.fat (ints_per_fat v)
  pub reserved_0 : v.fat 0 ≢ 0
  pub reserved_1 : v.fat 1 ≢ 0
  pub on_drive : (c : ℕ) → 2 ≤ c → c < ints_per_fat v → OnDrive v c
  pub numbers : ints_per_fat v ≤ eoc
  pub one : v.bpb.sectors_per_cluster ≡ 1

count_free-none : (fat : ℕ → ℕ) (n : ℕ) → ((j : ℕ) → j < n → fat j ≢ 0) → count_free fat n ≡ 0
unfolding count_free
count_free-none fat zero used = refl
count_free-none fat (suc n) used =
    ground (arith, used n (omega arith), count_free-none fat n (λ j p. used j (omega arith)))

-- With room for one more cluster, the allocation succeeds.
pub Ready-take :
    (v : Volume) (n : ℕ)
    → Ready v (suc n)
    → (i : ℕ) × (alloc_cluster v ≡ (take_cluster v i, i))
      × (2 ≤ i)
      × (i < ints_per_fat v)
      × (v.fat i ≡ 0)
Ready-take v n ready = elim (alloc_cluster-take v ready.hint_inside) [
  | inl (i, e, below, z) ↦
      let not_0 : i ≢ 0 = λ s. ready.reserved_0 (ap v.fat (sym s) ∙ z) in
      let not_1 : i ≢ 1 = λ s. ready.reserved_1 (ap v.fat (sym s) ∙ z) in
      (i, e, omega arith, below, z)
  | inr (e, used) ↦
      absurd (omega (arith, ready.enough, count_free-none v.fat (ints_per_fat v) used))
]

pub same_ints : (v w : Volume) → w.bpb ≡ v.bpb → ints_per_fat w ≡ ints_per_fat v
same_ints v w e = rw e refl

-- The table after the round has a zero less than the one before.
Step-count :
    (v w : Volume) (prev i : ℕ) (b : Bytes)
    → Step v w prev i b
    → 2 ≤ i
    → i < ints_per_fat v
    → v.fat i ≡ 0
    → (prev ≡ 0) ⊎ (v.fat prev ≢ 0)
    → count_free w.fat (ints_per_fat v) + 1 ≡ count_free v.fat (ints_per_fat v)
Step-count v w prev i b step two below z link =
    let taken = λ (j : ℕ). if i == j then 0x0fffffff else v.fat j in
    let zeros : (j : ℕ) → j < ints_per_fat v → (w.fat j == 0) ≡ (taken j == 0) = λ j h.
      elim (Bool-cases (not (prev == 0) && prev == j)) [
        | inl hit ↦
            let at : w.fat j ≡ i = step.table j ∙ rw hit refl in
            let e : prev ≡ j = ground arith in
            let used : v.fat j ≢ 0 = λ q. ground (arith, ap v.fat e) in rw at (ground arith)
        | inr miss ↦ rw (step.table j, miss) refl
      ] in
    let one =
      count_free_change v.fat taken (ints_per_fat v) i below z (ground arith)
        (λ j ne. ground arith) in
    omega (arith, one, count_free_zero w.fat taken (ints_per_fat v) zeros)

pub Step-OnDrive :
    (v w : Volume) (prev i d : ℕ) (b : Bytes) → Step v w prev i b → OnDrive v d → OnDrive w d
Step-OnDrive v w prev i d b step o = record {
  real = o.real;
  reach = rw (step.same_bpb, step.same_sector) o.reach;
  some_sectors = rw step.same_bpb o.some_sectors;
  byte_count = rw step.same_bpb o.byte_count;
}

-- An entry that is in use stays in use.
pub Step-used :
    (v w : Volume) (prev i j : ℕ) (b : Bytes)
    → Step v w prev i b
    → 2 ≤ i
    → v.fat j ≢ 0
    → w.fat j ≢ 0
Step-used v w prev i j b step two used = λ e. ground (arith, step.table j)

pub Step-Ready :
    (v w : Volume) (prev i n : ℕ) (b : Bytes)
    → Ready v (suc n)
    → Step v w prev i b
    → 2 ≤ i
    → i < ints_per_fat v
    → v.fat i ≡ 0
    → (prev ≡ 0) ⊎ (v.fat prev ≢ 0)
    → Ready w n
Step-Ready v w prev i n b ready step two below z link =
    let ints : ints_per_fat w ≡ ints_per_fat v = same_ints v w step.same_bpb in
    record {
      hint_inside = rw (ints, step.next_hint) (omega arith);
      enough = rw ints (omega (arith, ready.enough, Step-count v w prev i b step two below z link));
      reserved_0 = Step-used v w prev i 0 b step two ready.reserved_0;
      reserved_1 = Step-used v w prev i 1 b step two ready.reserved_1;
      on_drive = λ c p q. Step-OnDrive v w prev i c b step (ready.on_drive c p (rw (← ints) q));
      numbers = rw ints ready.numbers;
      one = rw step.same_bpb ready.one;
    }
