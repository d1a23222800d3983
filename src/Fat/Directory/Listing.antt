-- ===== src/Fat/Directory/Listing.antt =====
-- The loops of `FatPopulateDir` in fat32.c on a directory of one cluster.
use open_lib.Common.{
  ℕ, zero, suc, ◌+◌, ◌*◌, ◌≤◌, ◌<◌, ◌≡◌, refl, ap, ◌∙◌, arith, true, false, [], some, ltb, leb,
}
use open_lib.Fat.Sector.{Bytes}
use open_lib.Fat.Volume.{Volume}
use open_lib.Fat.Cluster.{eoc, get_cluster, next_cluster_id}
use open_lib.Fat.Entry.{DirectoryEntry, is_free, found, read_directory_entry}
use open_lib.Fat.Directory.{
  Listed, put_first, next_directory_entry, populate_cluster, populate_from, populate_dir,
}

module _ (v : Volume) (b : Bytes) (cluster : ℕ) (heap : ℕ → Bytes) (stack : Bytes) where
  -- Free entries up to the end of the cluster are passed over.
  pub populate_cluster-free :
      (k fuel entry count : ℕ)
      → entry + k * 32 ≡ v.cluster_size
      → ((i : ℕ) → i < k → is_free (b (entry + i * 32)) ≡ true)
      → k < fuel
      → populate_cluster fuel v b entry cluster count heap stack
        ≡ some (record { dirents = []; last = cluster })
  unfolding populate_cluster
  populate_cluster-free k zero entry count e free h = absurd (omega arith)
  populate_cluster-free zero (suc fuel) entry count e free h =
      let end : ltb entry v.cluster_size ≡ false = ground arith in rw end refl
  populate_cluster-free (suc k) (suc fuel) entry count e free h =
      let inside : ltb entry v.cluster_size ≡ true = ground arith in
      let here : is_free (b entry) ≡ true =
        ap (λ (p : ℕ). is_free (b p)) (omega arith) ∙ free 0 (omega arith) in
      rw (inside, here)
        (populate_cluster-free k fuel (entry + 32) count (omega arith)
          (λ i lt. ap (λ (p : ℕ). is_free (b p)) (omega arith) ∙ free (suc i) (omega arith))
          (omega arith))

  -- An entry that is read in the cluster comes first.
  pub populate_cluster-found :
      (fuel entry count next : ℕ) (d : DirectoryEntry)
      → entry < v.cluster_size
      → is_free (b entry) ≡ false
      → read_directory_entry b entry v.cluster_size (heap count) stack ≡ some (found next d)
      → populate_cluster (suc fuel) v b entry cluster count heap stack
        ≡ put_first d (populate_cluster fuel v b next cluster (count + 1) heap stack)
  unfolding populate_cluster next_directory_entry
  populate_cluster-found fuel entry count next d lt used e =
      let inside : ltb entry v.cluster_size ≡ true = ground arith in rw (inside, used, e) refl

populate_from-one :
    (fuel : ℕ) (v : Volume) (cluster : ℕ) (heap : ℕ → Bytes) (stack : Bytes) (r : Listed)
    → populate_cluster (v.cluster_size + 1) v (get_cluster v stack cluster) 0 cluster 0 heap stack
      ≡ some r
    → eoc ≤ next_cluster_id v r.last
    → populate_from (suc fuel) v cluster 0 heap stack ≡ some r.dirents
unfolding populate_from
populate_from-one fuel v cluster heap stack r e last =
    let end : leb eoc (next_cluster_id v r.last) ≡ true = ground arith in
    rw (e, populate_from, end) refl

-- A directory whose chain ends where the loop over its first cluster does.
pub populate_dir-one :
    (fuel : ℕ) (v : Volume) (cluster : ℕ) (heap : ℕ → Bytes) (stack : Bytes) (r : Listed)
    → populate_cluster (v.cluster_size + 1) v (get_cluster v stack cluster) 0 cluster 0 heap stack
      ≡ some r
    → eoc ≤ next_cluster_id v r.last
    → populate_dir (suc fuel) v cluster heap stack
      ≡ some (record { cluster = cluster; entries = r.dirents })
unfolding populate_dir
populate_dir-one fuel v cluster heap stack r e last =
    rw (populate_from-one fuel v cluster heap stack r e last, populate_dir) refl
