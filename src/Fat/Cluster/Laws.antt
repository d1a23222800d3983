-- ===== src/Fat/Cluster/Laws.antt =====
-- `FatGetCluster` and `FatPutCluster` of fat32.c together.
use native.Mathlib.Decide.{dec_lt}
use open_lib.Common.{
  ℕ, ◌+◌, ◌-◌, ◌*◌, ◌/◌, ◌%◌, ◌^◌, ◌≤◌, ◌<◌, ◌≡◌, ◌≢◌, refl, sym, ◌⊎◌, inl, inr, ◌∙◌, arith, ◌&&◌,
  ltb, leb, if◌then◌else◌, Bool-cases,
}
use open_lib.Fat.Sector.{Bytes, get_sector}
use open_lib.Fat.Sector.Laws.{put_sector_lem, read_disk_ex_lem}
use open_lib.Fat.Volume.{Volume, fat_bytes, flush_fat}
use open_lib.Fat.Cluster.{sector_for_cluster, get_cluster, put_cluster}

-- The cluster lies on the drive, within the 28 bits that a read can address.
pub record OnDrive (v : Volume) (c : ℕ) : Type 0 where
  pub real : 2 ≤ c
  pub reach :
      v.cluster_sector + (c - 2) * v.bpb.sectors_per_cluster + v.bpb.sectors_per_cluster ≤ 2 ^ 28
  pub some_sectors : 0 < v.bpb.sectors_per_cluster
  pub byte_count : v.bpb.sectors_per_cluster < 256

le-mul_pos : (a b : ℕ) → 0 < b → a ≤ a * b
le-mul_pos a b h = grind arith

first_sector :
    (v : Volume) (c : ℕ)
    → OnDrive v c
    → sector_for_cluster v c ≡ v.cluster_sector + (c - 2) * v.bpb.sectors_per_cluster
unfolding sector_for_cluster
first_sector v c o =
    let index : (c + 2 ^ 32 - 2) % 2 ^ 32 ≡ c - 2 =
      omega (arith, o.real, o.reach, le-mul_pos (c - 2) v.bpb.sectors_per_cluster o.some_sectors) in
    rw index (omega (arith, o.reach))

-- Two clusters have no sector in common.
apart :
    (v : Volume) (c d : ℕ)
    → OnDrive v c
    → OnDrive v d
    → c ≢ d
    → (sector_for_cluster v c + v.bpb.sectors_per_cluster ≤ sector_for_cluster v d)
      ⊎ (sector_for_cluster v d + v.bpb.sectors_per_cluster ≤ sector_for_cluster v c)
apart v c d oc od ne =
    rw (first_sector v c oc, first_sector v d od)
      (gap (c - 2) (d - 2) (omega (arith, oc.real, od.real)))
  where
    below : (x y s : ℕ) → x < y → x * s + s ≤ y * s
    below x y s h = grind arith

    gap :
        (x y : ℕ)
        → x ≢ y
        → (v.cluster_sector + x * v.bpb.sectors_per_cluster + v.bpb.sectors_per_cluster
            ≤ v.cluster_sector + y * v.bpb.sectors_per_cluster)
          ⊎ (v.cluster_sector + y * v.bpb.sectors_per_cluster + v.bpb.sectors_per_cluster
              ≤ v.cluster_sector + x * v.bpb.sectors_per_cluster)
    gap x y h = elim (dec_lt x y) [
      | yes lt ↦ inl (omega (arith, below x y v.bpb.sectors_per_cluster lt))
      | no ge ↦ inr (omega (arith, below y x v.bpb.sectors_per_cluster (omega arith)))
    ]

-- Which sectors a written cluster changes.
put_cluster_lem :
    (v : Volume) (b : Bytes) (c k j : ℕ)
    → OnDrive v c
    → (put_cluster v b c).disk k j ≡ (
        if leb (sector_for_cluster v c) k
          && ltb k (sector_for_cluster v c + v.bpb.sectors_per_cluster)
        then b ((k - sector_for_cluster v c) * 512 + j)
        else v.disk k j)
unfolding put_cluster
put_cluster_lem v b c k j o =
    put_sector_lem v.disk b (sector_for_cluster v c) v.bpb.sectors_per_cluster k j
      (rw (first_sector v c o) (omega (arith, o.reach)))

-- What a read of a cluster brings, byte by byte: the first halves of its sectors, and the second
-- half of the last.
abbrev pub seen : Volume → ℕ → ℕ → ℕ
seen v c j =
    let n = v.bpb.sectors_per_cluster in
    if ltb j (256 * n)
    then v.disk (sector_for_cluster v c + j / 256) (j % 256)
    else v.disk (sector_for_cluster v c + (n - 1)) (j - 256 * (n - 1))

get_cluster_lem :
    (v : Volume) (m : Bytes) (c j : ℕ)
    → OnDrive v c
    → j < 256 * (v.bpb.sectors_per_cluster + 1)
    → get_cluster v m c j ≡ seen v c j
unfolding get_cluster get_sector
get_cluster_lem v m c j o h = ground (
  arith,
  read_disk_ex_lem v.disk (sector_for_cluster v c) v.bpb.sectors_per_cluster j m reach o.byte_count,
)
  where
    reach : sector_for_cluster v c + v.bpb.sectors_per_cluster ≤ 2 ^ 28
    reach = rw (first_sector v c o) (omega (arith, o.reach))

same_place :
    (v : Volume) (b : Bytes) (c d : ℕ)
    → sector_for_cluster (put_cluster v b c) d ≡ sector_for_cluster v d
unfolding put_cluster sector_for_cluster
same_place v b c d = refl

same_size :
    (v : Volume) (b : Bytes) (c : ℕ)
    → (put_cluster v b c).bpb.sectors_per_cluster ≡ v.bpb.sectors_per_cluster
unfolding put_cluster
same_size v b c = refl

put_cluster-OnDrive :
    (v : Volume) (b : Bytes) (c d : ℕ) → OnDrive v d → OnDrive (put_cluster v b c) d
unfolding put_cluster
put_cluster-OnDrive v b c d o = record {
  real = o.real;
  reach = o.reach;
  some_sectors = o.some_sectors;
  byte_count = o.byte_count;
}

-- A written cluster, read again: the bytes of its buffer that a read of `n` sectors brings.
pub get_cluster-put_cluster :
    (v : Volume) (b m : Bytes) (c j : ℕ)
    → OnDrive v c
    → j < 256 * (v.bpb.sectors_per_cluster + 1)
    → get_cluster (put_cluster v b c) m c j ≡ (
        if ltb j (256 * v.bpb.sectors_per_cluster)
        then b (j / 256 * 512 + j % 256)
        else b
            ((v.bpb.sectors_per_cluster - 1) * 512 + (j - 256 * (v.bpb.sectors_per_cluster - 1))))
get_cluster-put_cluster v b m c j o h =
    let n = v.bpb.sectors_per_cluster in
    let s = sector_for_cluster v c in
    let v' = put_cluster v b c in
    let read = get_cluster_lem v' m c j (put_cluster-OnDrive v b c c o) (rw (same_size v b c) h) in
    let front : j < 256 * n → v'.disk (s + j / 256) (j % 256) ≡ b (j / 256 * 512 + j % 256) =
      λ p. ground (arith, put_cluster_lem v b c (s + j / 256) (j % 256) o) in
    let back : v'.disk (s + (n - 1)) (j - 256 * (n - 1)) ≡ b ((n - 1) * 512 + (j - 256 * (n - 1))) =
      ground (arith, o.some_sectors, put_cluster_lem v b c (s + (n - 1)) (j - 256 * (n - 1)) o) in
    ground (arith, read, same_place v b c c, same_size v b c, front, back)

-- With one sector to a cluster, what is written is what is read.
pub get_cluster-put_cluster_one :
    (v : Volume) (b m : Bytes) (c j : ℕ)
    → OnDrive v c
    → v.bpb.sectors_per_cluster ≡ 1
    → j < 512
    → get_cluster (put_cluster v b c) m c j ≡ b j
get_cluster-put_cluster_one v b m c j o one h = ground (arith, get_cluster-put_cluster v b m c j o)

-- With more sectors to a cluster, the byte at 256 comes back as the byte at 512.
pub get_cluster-put_cluster_shifted :
    (v : Volume) (b m : Bytes) (c : ℕ)
    → OnDrive v c
    → 2 ≤ v.bpb.sectors_per_cluster
    → b 256 ≢ b 512
    → get_cluster (put_cluster v b c) m c 256 ≢ b 256
get_cluster-put_cluster_shifted v b m c o two ne =
    λ e. ne (sym e ∙ ground (arith, get_cluster-put_cluster v b m c 256 o))

-- A write to one cluster is not seen in another.
pub get_cluster-put_cluster_ne :
    (v : Volume) (b m : Bytes) (c d j : ℕ)
    → OnDrive v c
    → OnDrive v d
    → c ≢ d
    → j < 256 * (v.bpb.sectors_per_cluster + 1)
    → get_cluster (put_cluster v b c) m d j ≡ get_cluster v m d j
get_cluster-put_cluster_ne v b m c d j oc od ne h =
    let n = v.bpb.sectors_per_cluster in
    let s = sector_for_cluster v d in
    let v' = put_cluster v b c in
    let read = get_cluster_lem v' m d j (put_cluster-OnDrive v b c d od) (rw (same_size v b c) h) in
    let before = get_cluster_lem v m d j od h in
    let front : j < 256 * n → v'.disk (s + j / 256) (j % 256) ≡ v.disk (s + j / 256) (j % 256) =
      λ p. ground (arith, apart v c d oc od ne, put_cluster_lem v b c (s + j / 256) (j % 256) oc) in
    let back : v'.disk (s + (n - 1)) (j - 256 * (n - 1))
        ≡ v.disk (s + (n - 1)) (j - 256 * (n - 1)) =
      ground (
        arith,
        od.some_sectors,
        apart v c d oc od ne,
        put_cluster_lem v b c (s + (n - 1)) (j - 256 * (n - 1)) oc,
      ) in
    ground (arith, read, before, same_place v b c d, same_size v b c, front, back)

flush_fat-OnDrive : (v : Volume) (c : ℕ) → OnDrive v c → OnDrive (flush_fat v) c
unfolding flush_fat
flush_fat-OnDrive v c o = record {
  real = o.real;
  reach = o.reach;
  some_sectors = o.some_sectors;
  byte_count = o.byte_count;
}

flush_fat-same_place :
    (v : Volume) (c : ℕ)
    → ((flush_fat v).bpb.sectors_per_cluster ≡ v.bpb.sectors_per_cluster)
      × (sector_for_cluster (flush_fat v) c ≡ sector_for_cluster v c)
unfolding flush_fat sector_for_cluster
flush_fat-same_place v c = (refl, refl)

flush_fat_lem :
    (v : Volume) (c k j : ℕ)
    → OnDrive v c
    → v.fat_sector + v.bpb.sectors_per_fat32 ≤ v.cluster_sector
    → sector_for_cluster v c ≤ k
    → (flush_fat v).disk k j ≡ v.disk k j
unfolding flush_fat
flush_fat_lem v c k j o layout h = ground (
  arith,
  first_sector v c o,
  o.reach,
  put_sector_lem v.disk (fat_bytes v.fat) v.fat_sector v.bpb.sectors_per_fat32 k j,
)

-- The table that is written in front of the clusters changes none of them.
pub get_cluster-flush_fat :
    (v : Volume) (m : Bytes) (c j : ℕ)
    → OnDrive v c
    → v.fat_sector + v.bpb.sectors_per_fat32 ≤ v.cluster_sector
    → j < 256 * (v.bpb.sectors_per_cluster + 1)
    → get_cluster (flush_fat v) m c j ≡ get_cluster v m c j
get_cluster-flush_fat v m c j o layout h =
    let n = v.bpb.sectors_per_cluster in
    let s = sector_for_cluster v c in
    let size = flush_fat-same_place v c in
    let after = get_cluster_lem (flush_fat v) m c j (flush_fat-OnDrive v c o) (rw size.0 h) in
    let before = get_cluster_lem v m c j o h in
    after
    ∙ rw (size.1, size.0)
        (elim (Bool-cases (ltb j (256 * n))) [
          | inl front ↦
              rw (front, flush_fat_lem v c (s + j / 256) (j % 256) o layout (omega arith))
                (sym (before ∙ rw front refl))
          | inr back ↦
              rw (back, flush_fat_lem v c (s + (n - 1)) (j - 256 * (n - 1)) o layout (omega arith))
                (sym (before ∙ rw back refl))
        ])
