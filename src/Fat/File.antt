-- ===== src/Fat/File.antt =====
-- Files in a directory: `FatLocateEntries`, `FatReadFile` and `FatWriteFileImplementation` of
-- fat32.c. A file's bytes are memory seen from its pointer.
pub mod Locate
pub mod Step
pub mod Ready
pub mod Content
pub mod Wrote
pub mod Write
pub mod Tests
use open_lib.Common.{
  ℕ, zero, suc, ◌+◌, ◌-◌, ◌*◌, ◌/◌, ◌%◌, ◌^◌, Bool, ◌&&◌, not, List, length, Option, none, some,
  ◌==◌, ltb, leb, if◌then◌else◌, update, u32,
}
use open_lib.Fat.Sector.{Bytes, blit}
use open_lib.Fat.Volume.{Volume, flush_fat}
use open_lib.Fat.Cluster.{eoc, get_cluster, put_cluster, next_cluster_id}
use open_lib.Fat.Table.{alloc_cluster}
use open_lib.Fat.Entry.{DirectoryEntry, is_free, required_entries, write_entries}

-- The loop over the entries of a cluster: where `count` free ones in a row begin.
unfoldable pub find_row : Bytes → ℕ → ℕ → ℕ → ℕ → Option ℕ
find_row buffer count zero i in_a_row = none
find_row buffer count (suc left) i in_a_row =
    let row = if is_free (buffer (i * 32)) then in_a_row + 1 else 0 in
    let rest = find_row buffer count left (i + 1) row in
    if row == count then some (i - (row - 1)) else rest

-- The NULL of `FatLocateEntries`, or the cluster that it found, its bytes, and the offset of the
-- row in them.
pub data Located : Type 0 where
  full : Volume → Located
  located : Volume → Bytes → ℕ → ℕ → Located

-- The cluster after `cluster`, which is allocated at the end of the chain: `none` on a full drive.
unfoldable pub extend_chain : Volume → ℕ → Volume × Option ℕ
extend_chain v cluster =
    let (v', new) = alloc_cluster v in
    if leb eoc (v.fat cluster)
    then (if new == 0
        then (v', none)
        else (record v' { fat = update v'.fat cluster new }, some new))
    else (v, some (v.fat cluster))

-- `none` is a search that has not ended in `fuel` clusters.
unfoldable pub locate_entries : ℕ → Volume → Bytes → ℕ → ℕ → Option Located
locate_entries zero v buffer cluster count = none
locate_entries (suc fuel) v buffer cluster count =
    let read = get_cluster v buffer cluster in
    let (v', next) = extend_chain v cluster in
    elim (find_row read count (v.cluster_size / 32) 0 0) [
      | some index ↦ some (located v read (index * 32) cluster)
      | none ↦ elim next [
        | none ↦ some (full v')
        | some cluster' ↦ locate_entries fuel v' read cluster' count
      ]
    ]

-- The loop of `FatReadFile`: `none` is a loop that has not ended in `fuel` rounds.
unfoldable pub read_clusters : ℕ → Volume → ℕ → Bytes → Bytes → ℕ → ℕ → ℕ → Option Bytes
read_clusters zero v size stack file at copied cluster = none
read_clusters (suc fuel) v size stack file at copied cluster =
    let cbytes = get_cluster v stack cluster in
    let remaining = size - copied in
    let to_copy = if ltb v.cluster_size remaining then v.cluster_size else remaining in
    let file' = blit file at cbytes 0 to_copy in
    let next = next_cluster_id v cluster in
    let rest =
      read_clusters fuel v size stack file' (at + v.cluster_size) (copied + to_copy) next in
    if leb eoc next then some file' else rest

-- More clusters than there are numbers below the end mark are a cycle, on which the source never
-- ends. `memory` is what `malloc` returns, `stack` what the local buffer holds before.
unfoldable pub read_file : Volume → DirectoryEntry → Bytes → Bytes → Option Bytes
read_file v dirent memory stack =
    read_clusters eoc v dirent.file_size stack memory 0 0 dirent.first_cluster

-- The loop of `FatWriteFileImplementation` over the required clusters, from `written` bytes and
-- the cluster `prev` on: the new volume and the first cluster.
unfoldable pub write_clusters : ℕ → Volume → Bytes → ℕ → ℕ → ℕ → ℕ → Volume × ℕ
write_clusters zero v file flen written prev first = (v, first)
write_clusters (suc left) v file flen written prev first =
    let (v1, current) = alloc_cluster v in
    let rest_bytes = flen - written in
    let bytes = if ltb v.cluster_size rest_bytes then v.cluster_size else rest_bytes in
    let v2 = put_cluster v1 (blit (λ j. 0) 0 file written bytes) current in
    let v3 : Volume = record v2 {
      fat = if prev == 0 then v2.fat else update v2.fat prev current;
    } in
    write_clusters left v3 file flen (written + bytes) current
      (if first == 0 then current else first)

abbrev pub required_clusters : Volume → ℕ → ℕ
required_clusters v flen =
    let n = flen / v.cluster_size in
    let n = if flen % v.cluster_size == 0 then n else n + 1 in if n == 0 then n + 1 else n

-- `none` is a search without an end, or an access through a null pointer: on a full drive the row
-- is not found, and an empty name has no long entry.
unfoldable pub write_file_implementation :
    ℕ → Volume → ℕ → Bytes → List ℕ → ℕ → ℕ → ℕ → Bytes → Bytes → Option Volume
write_file_implementation fuel v directory file fname flen attrs setcluster buffer stack =
    elim (locate_entries fuel v buffer directory (required_entries (length fname) + 1)) [
      | none ↦ none
      | some (full v') ↦ none
      | some (located v' root_cluster start cluster) ↦
          let (v'', first) : Volume × ℕ =
            if setcluster == 0
            then write_clusters (required_clusters v flen) v' file flen 0 0 0
            else (v', setcluster) in
          elim (write_entries fname start attrs first flen stack root_cluster) [
            | none ↦ none
            | some bytes ↦ some (flush_fat (put_cluster v'' bytes cluster))
          ]
    ]

unfoldable pub write_file : ℕ → Volume → ℕ → Bytes → List ℕ → ℕ → Bytes → Bytes → Option Volume
write_file fuel v directory file fname flen buffer stack =
    write_file_implementation fuel v directory file fname flen 0 0 buffer stack
