-- ===== src/Fat/Directory/Frame.antt =====
-- What the operations of fat32.c on clusters leave alone: the layout of the volume.
use open_lib.Common.{
  ℕ, zero, suc, ◌+◌, ◌-◌, ◌≡◌, refl, ◌∙◌, ◌==◌, ltb, if◌then◌else◌, inl, inr, Option-cases, update,
}
use open_lib.Fat.Sector.{Bytes, blit}
use open_lib.Fat.Volume.{Volume, flush_fat}
use open_lib.Fat.Cluster.{put_cluster, clear_cluster}
use open_lib.Fat.Cluster.Laws.{OnDrive}
use open_lib.Fat.Table.{ints_per_fat, find_free, take_cluster, alloc_cluster}
use open_lib.Fat.File.{write_clusters}

pub record SameDrive (v w : Volume) : Type 0 where
  pub bpb : w.bpb ≡ v.bpb
  pub fat_sector : w.fat_sector ≡ v.fat_sector
  pub cluster_sector : w.cluster_sector ≡ v.cluster_sector
  pub cluster_size : w.cluster_size ≡ v.cluster_size

pub SameDrive-trans : (u v w : Volume) → SameDrive u v → SameDrive v w → SameDrive u w
SameDrive-trans u v w a b = record {
  bpb = b.bpb ∙ a.bpb;
  fat_sector = b.fat_sector ∙ a.fat_sector;
  cluster_sector = b.cluster_sector ∙ a.cluster_sector;
  cluster_size = b.cluster_size ∙ a.cluster_size;
}

pub SameDrive-OnDrive : (v w : Volume) (c : ℕ) → SameDrive v w → OnDrive v c → OnDrive w c
SameDrive-OnDrive v w c same o = record {
  real = o.real;
  reach = rw (same.bpb, same.cluster_sector) o.reach;
  some_sectors = rw same.bpb o.some_sectors;
  byte_count = rw same.bpb o.byte_count;
}

pub put_cluster-SameDrive : (v : Volume) (b : Bytes) (c : ℕ) → SameDrive v (put_cluster v b c)
unfolding put_cluster
put_cluster-SameDrive v b c = record {
  bpb = refl;
  fat_sector = refl;
  cluster_sector = refl;
  cluster_size = refl;
}

pub flush_fat-SameDrive : (v : Volume) → SameDrive v (flush_fat v)
unfolding flush_fat
flush_fat-SameDrive v = record {
  bpb = refl;
  fat_sector = refl;
  cluster_sector = refl;
  cluster_size = refl;
}

take_cluster-SameDrive : (v : Volume) (i : ℕ) → SameDrive v (take_cluster v i)
unfolding take_cluster clear_cluster put_cluster
take_cluster-SameDrive v i = record {
  bpb = refl;
  fat_sector = refl;
  cluster_sector = refl;
  cluster_size = refl;
}

alloc_cluster-SameDrive : (v : Volume) → SameDrive v (alloc_cluster v).0
alloc_cluster-SameDrive v = elim (Option-cases (find_free v.fat (ints_per_fat v - v.hint) v.hint)) [
  | inr (i, e) ↦ unfold alloc_cluster in rw (e, alloc_cluster) (take_cluster-SameDrive v i)
  | inl e ↦ elim (Option-cases (find_free v.fat v.hint 0)) [
    | inr (i, e') ↦
        unfold alloc_cluster in
        rw (e, alloc_cluster, e', alloc_cluster) (take_cluster-SameDrive v i)
    | inl e' ↦
        unfold alloc_cluster in
        rw (e, alloc_cluster, e', alloc_cluster)
          (record { bpb = refl; fat_sector = refl; cluster_sector = refl; cluster_size = refl })
  ]
]

pub write_clusters-SameDrive :
    (left : ℕ) (v : Volume) (file : Bytes) (flen written prev first : ℕ)
    → SameDrive v (write_clusters left v file flen written prev first).0
unfolding write_clusters
write_clusters-SameDrive zero v file flen written prev first = record {
  bpb = refl;
  fat_sector = refl;
  cluster_sector = refl;
  cluster_size = refl;
}
write_clusters-SameDrive (suc left) v file flen written prev first =
    let v1 = (alloc_cluster v).0 in
    let current = (alloc_cluster v).1 in
    let rest_bytes = flen - written in
    let bytes = if ltb v.cluster_size rest_bytes then v.cluster_size else rest_bytes in
    let v2 = put_cluster v1 (blit (λ j. 0) 0 file written bytes) current in
    let v3 : Volume = record v2 {
      fat = if prev == 0 then v2.fat else update v2.fat prev current;
    } in
    let put = put_cluster-SameDrive v1 (blit (λ j. 0) 0 file written bytes) current in
    let linked : SameDrive v2 v3 = record {
      bpb = refl;
      fat_sector = refl;
      cluster_sector = refl;
      cluster_size = refl;
    } in
    SameDrive-trans v v3
      (write_clusters left v3 file flen (written + bytes) current
        (if first == 0 then current else first)).0
      (SameDrive-trans v v1 v3 (alloc_cluster-SameDrive v) (SameDrive-trans v1 v2 v3 put linked))
      (write_clusters-SameDrive left v3 file flen (written + bytes) current
        (if first == 0 then current else first))
