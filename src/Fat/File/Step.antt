-- ===== src/Fat/File/Step.antt =====
-- One round of the loop that writes the clusters of a file, with one sector to a cluster.
use open_lib.Common.{
  ℕ, ◌+◌, ◌<◌, ◌≡◌, ◌≢◌, refl, sym, ◌∙◌, arith, ◌&&◌, not, ◌==◌, if◌then◌else◌, update,
}
use open_lib.Fat.Sector.{Bytes, get_sector}
use open_lib.Fat.Volume.{Volume}
use open_lib.Fat.Cluster.{sector_for_cluster, get_cluster, put_cluster, clear_cluster}
use open_lib.Fat.Cluster.Laws.{OnDrive, get_cluster-put_cluster_one, get_cluster-put_cluster_ne}
use open_lib.Fat.Table.{take_cluster}

abbrev pub linked : Volume → ℕ → ℕ → Volume
linked v prev i = record v { fat = if prev == 0 then v.fat else update v.fat prev i }

abbrev pub stepped : Volume → ℕ → ℕ → Bytes → Volume
stepped v prev i b = linked (put_cluster (take_cluster v i) b i) prev i

-- What the round does to the volume.
pub record Step (v w : Volume) (prev i : ℕ) (b : Bytes) : Type 0 where
  pub table :
      (j : ℕ)
      → w.fat j
        ≡ (if not (prev == 0) && prev == j then i else if i == j then 0x0fffffff else v.fat j)
  pub content : (m : Bytes) (r : ℕ) → r < 512 → get_cluster w m i r ≡ b r
  pub others :
      (m : Bytes) (d r : ℕ)
      → OnDrive v d
      → d ≢ i
      → r < 512
      → get_cluster w m d r ≡ get_cluster v m d r
  pub same_bpb : w.bpb ≡ v.bpb
  pub same_sector : w.cluster_sector ≡ v.cluster_sector
  pub same_size : w.cluster_size ≡ v.cluster_size
  pub next_hint : w.hint ≡ i + 1

-- A cluster is read through the drive and the place of the clusters alone.
get_cluster-fat :
    (v : Volume) (fat : ℕ → ℕ) (hint : ℕ) (m : Bytes) (d r : ℕ)
    → get_cluster (record v { fat = fat; hint = hint }) m d r ≡ get_cluster v m d r
unfolding get_cluster sector_for_cluster get_sector
get_cluster-fat v fat hint m d r = refl

OnDrive-fat :
    (v : Volume) (fat : ℕ → ℕ) (hint d : ℕ)
    → OnDrive v d
    → OnDrive (record v { fat = fat; hint = hint }) d
OnDrive-fat v fat hint d o = record {
  real = o.real;
  reach = o.reach;
  some_sectors = o.some_sectors;
  byte_count = o.byte_count;
}

module _ (v : Volume) (prev i : ℕ) (b : Bytes) where
  abbrev marked : Volume
  marked = record v { fat = update v.fat i 0x0fffffff }

  take-others :
      (m : Bytes) (d r : ℕ)
      → OnDrive v i
      → OnDrive v d
      → v.bpb.sectors_per_cluster ≡ 1
      → d ≢ i
      → r < 512
      → get_cluster (take_cluster v i) m d r ≡ get_cluster v m d r
  unfolding take_cluster clear_cluster
  take-others m d r oi od one ne h =
      let cleared = put_cluster marked (λ j. 0) i in
      get_cluster-fat cleared cleared.fat (i + 1) m d r
      ∙ get_cluster-put_cluster_ne marked (λ j. 0) m i d r (OnDrive-fat v marked.fat v.hint i oi)
          (OnDrive-fat v marked.fat v.hint d od) (λ e. ne (sym e)) (omega arith)
      ∙ get_cluster-fat v marked.fat v.hint m d r

  take-OnDrive : (d : ℕ) → OnDrive v d → OnDrive (take_cluster v i) d
  unfolding take_cluster clear_cluster put_cluster
  take-OnDrive d o = record {
    real = o.real;
    reach = o.reach;
    some_sectors = o.some_sectors;
    byte_count = o.byte_count;
  }

  take-bpb : (take_cluster v i).bpb ≡ v.bpb
  unfolding take_cluster clear_cluster put_cluster
  take-bpb = refl

  stepped-others :
      (m : Bytes) (d r : ℕ)
      → OnDrive v i
      → OnDrive v d
      → v.bpb.sectors_per_cluster ≡ 1
      → d ≢ i
      → r < 512
      → get_cluster (stepped v prev i b) m d r ≡ get_cluster v m d r
  stepped-others m d r oi od one ne h =
      let t = take_cluster v i in
      let w = put_cluster t b i in
      let single : t.bpb.sectors_per_cluster ≡ 1 = rw take-bpb one in
      get_cluster-fat w (linked w prev i).fat w.hint m d r
      ∙ get_cluster-put_cluster_ne t b m i d r (take-OnDrive i oi) (take-OnDrive d od)
          (λ e. ne (sym e)) (omega arith)
      ∙ take-others m d r oi od one ne h

  stepped-content :
      (m : Bytes) (r : ℕ)
      → OnDrive v i
      → v.bpb.sectors_per_cluster ≡ 1
      → r < 512
      → get_cluster (stepped v prev i b) m i r ≡ b r
  stepped-content m r oi one h =
      let t = take_cluster v i in
      let w = put_cluster t b i in
      get_cluster-fat w (linked w prev i).fat w.hint m i r
      ∙ get_cluster-put_cluster_one t b m i r (take-OnDrive i oi) (rw take-bpb one) h

  stepped-table :
      (j : ℕ)
      → (stepped v prev i b).fat j
        ≡ (if not (prev == 0) && prev == j then i else if i == j then 0x0fffffff else v.fat j)
  unfolding take_cluster clear_cluster put_cluster
  stepped-table j = ground arith

  stepped-same :
      ((stepped v prev i b).bpb ≡ v.bpb)
      × ((stepped v prev i b).cluster_sector ≡ v.cluster_sector)
      × ((stepped v prev i b).cluster_size ≡ v.cluster_size)
      × ((stepped v prev i b).hint ≡ i + 1)
  unfolding take_cluster clear_cluster put_cluster
  stepped-same = (refl, refl, refl, refl)

  pub stepped-Step :
      OnDrive v i → v.bpb.sectors_per_cluster ≡ 1 → Step v (stepped v prev i b) prev i b
  stepped-Step oi one = record {
    table = stepped-table;
    content = λ m r h. stepped-content m r oi one h;
    others = λ m d r od ne h. stepped-others m d r oi od one ne h;
    same_bpb = stepped-same.0;
    same_sector = stepped-same.1;
    same_size = stepped-same.2;
    next_hint = stepped-same.3;
  }
