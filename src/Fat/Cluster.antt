-- ===== src/Fat/Cluster.antt =====
-- Clusters on the drive and links in the table: `FatAcquireSectorForCluster`, `FatGetCluster`,
-- `FatPutCluster`, `FatClearCluster` and `FatGetNextClusterID` of fat32.c.
pub mod Laws
use open_lib.Common.{u32, ℕ, ◌+◌, ◌-◌, ◌*◌, ◌%◌, ◌^◌}
use open_lib.Fat.Sector.{Bytes, get_sector, put_sector}
use open_lib.Fat.Volume.{Volume}

-- End of chain.
abbrev pub eoc : ℕ
eoc = 0x0ffffff8

unfoldable pub sector_for_cluster : Volume → ℕ → ℕ
sector_for_cluster v cluster =
    u32 (v.cluster_sector + u32 (u32 (cluster + 2 ^ 32 - 2) * v.bpb.sectors_per_cluster))

-- A cluster number past the end is reported and read all the same.
unfoldable pub get_cluster : Volume → Bytes → ℕ → Bytes
unfolding sector_for_cluster get_sector
get_cluster v buff cluster =
    get_sector v.disk buff (sector_for_cluster v cluster) v.bpb.sectors_per_cluster

unfoldable pub put_cluster : Volume → Bytes → ℕ → Volume
unfolding sector_for_cluster put_sector
put_cluster v buff cluster = record v {
  disk = put_sector v.disk buff (sector_for_cluster v cluster) v.bpb.sectors_per_cluster;
}

-- The buffer of `FatClearCluster` is zero as far as the cluster reaches.
unfoldable pub clear_cluster : Volume → ℕ → Volume
unfolding put_cluster
clear_cluster v cluster = put_cluster v (λ j. 0) cluster

abbrev pub next_cluster_id : Volume → ℕ → ℕ
next_cluster_id v cluster = v.fat cluster % 2 ^ 28
