-- ===== src/Fat/Directory.antt =====
-- Directories: `FatNextDirectoryEntry`, `FatPopulateDir`, `FatDeleteFile` and `FatMakeDirectory`
-- of fat32.c. The buffer of two clusters is memory seen from its pointer. A result of `none` is a
-- search that has not ended in its fuel, an access out of a name's memory, or the use of the NULL
-- that stands for an entry which cannot be read.
pub mod Listing
pub mod Frame
pub mod Fresh
pub mod Store
mod Tests
use open_lib.Common.{
  ℕ, zero, suc, ◌+◌, ◌-◌, ◌*◌, ◌/◌, ◌%◌, ◌^◌, Bool, ◌&&◌, not, List, [], ◌∷◌, ◌++◌, length, get_or,
  Option, none, some, ◌==◌, ltb, leb, if◌then◌else◌,
}
use open_lib.Utill.{fill, strcmp}
use open_lib.Fat.Sector.{Bytes}
use open_lib.Fat.Volume.{Volume}
use open_lib.Fat.Cluster.{eoc, get_cluster, put_cluster, next_cluster_id}
use open_lib.Fat.Table.{zero_fat_chain}
use open_lib.Fat.Entry.{DirectoryEntry, Reading, null, found, is_free, read_directory_entry}
use open_lib.Fat.File.{write_file_implementation}

-- `num_entries` is the length of the list.
pub record Directory : Type 0 where
  pub cluster : ℕ
  pub entries : List DirectoryEntry

-- The two clusters of the buffer after the second one was loaded.
unfoldable pub load_second : Volume → Bytes → ℕ → Bytes
load_second v root_cluster second j =
    if ltb j v.cluster_size
    then root_cluster j
    else get_cluster v (λ i. root_cluster (v.cluster_size + i)) second (j - v.cluster_size)

-- The buffer, what the last reading gave, and `*secondcluster`, which the caller sets to 0.
pub record NextEntry : Type 0 where
  pub root_cluster : Bytes
  pub reading : Reading
  pub secondcluster : ℕ

-- The second reading starts at the same place, since it is the end of the first cluster less what
-- was left of it.
unfoldable pub next_directory_entry : Volume → Bytes → ℕ → ℕ → Bytes → Bytes → Option NextEntry
next_directory_entry v root_cluster entry cluster memory stack =
    elim (read_directory_entry root_cluster entry v.cluster_size memory stack) [
      | none ↦ none
      | some (found next dirent) ↦
          some
            (record { root_cluster = root_cluster; reading = found next dirent; secondcluster = 0 })
      | some null ↦
          let second = next_cluster_id v cluster in
          let both = load_second v root_cluster second in
          elim (read_directory_entry both entry (v.cluster_size + v.cluster_size) memory stack) [
            | none ↦ none
            | some r ↦ some (record { root_cluster = both; reading = r; secondcluster = second })
          ]
    ]

-- What the loop over a cluster leaves: the entries, and the cluster that it stands in.
pub record Listed : Type 0 where
  pub dirents : List DirectoryEntry
  pub last : ℕ

abbrev pub put_first : DirectoryEntry → Option Listed → Option Listed
put_first d none = none
put_first d (some r) = some (record r { dirents = d ∷ r.dirents })

-- The inner loop of `FatPopulateDir`. Every round goes on by 32 bytes at least, so a cluster's
-- bytes are fuel enough. `heap` is what the calls of `malloc` find, by the entry they are for.
unfoldable pub populate_cluster :
    ℕ → Volume → Bytes → ℕ → ℕ → ℕ → (ℕ → Bytes) → Bytes → Option Listed
populate_cluster zero v root_cluster entry cluster count heap stack = none
populate_cluster (suc fuel) v root_cluster entry cluster count heap stack =
    let skip = populate_cluster fuel v root_cluster (entry + 32) cluster count heap stack in
    let take : Option Listed =
      elim (next_directory_entry v root_cluster entry cluster (heap count) stack) [
        | none ↦ none
        | some n ↦ elim n.reading [
          | null ↦ none
          | found next dirent ↦ put_first dirent (
              populate_cluster fuel v n.root_cluster next
                (if n.secondcluster == 0 then cluster else n.secondcluster) (count + 1) heap stack)
        ]
      ] in
    if ltb entry v.cluster_size
    then (if is_free (root_cluster entry) then skip else take)
    else some (record { dirents = []; last = cluster })

-- The outer loop; `stack` is what the local arrays hold before.
unfoldable pub populate_from :
    ℕ → Volume → ℕ → ℕ → (ℕ → Bytes) → Bytes → Option (List DirectoryEntry)
populate_from zero v cluster count heap stack = none
populate_from (suc fuel) v cluster count heap stack =
    elim (populate_cluster (v.cluster_size + 1) v (get_cluster v stack cluster) 0 cluster count heap
      stack) [
        | none ↦ none
        | some r ↦
            let next = next_cluster_id v r.last in
            let rest : Option (List DirectoryEntry) =
              elim (populate_from fuel v next (count + length r.dirents) heap stack) [
                | none ↦ none
                | some more ↦ some (r.dirents ++ more)
              ] in
            if leb eoc next then some r.dirents else rest
      ]

unfoldable pub populate_dir : ℕ → Volume → ℕ → (ℕ → Bytes) → Bytes → Option Directory
populate_dir fuel v cluster heap stack = elim (populate_from fuel v cluster 0 heap stack) [
  | none ↦ none
  | some ds ↦ some (record { cluster = cluster; entries = ds })
]

abbrev pub populate_root_dir : ℕ → Volume → (ℕ → Bytes) → Bytes → Option Directory
populate_root_dir fuel v heap stack = populate_dir fuel v 2 heap stack

-- `strcmp` of two strings that are seen from their pointers.
abbrev pub side_by_side : Bytes → Bytes → Bytes
side_by_side a b j = if ltb j (2 ^ 32) then a j else b (j - 2 ^ 32)

unfoldable pub same_name : ℕ → Bytes → Bytes → Option Bool
same_name fuel a b = elim (strcmp fuel (side_by_side a b) 0 (2 ^ 32)) [
  | none ↦ none
  | some difference ↦ some (difference == 0)
]

-- What `FatDeleteFile` does with the entry that it found.
unfoldable pub invalidate : Volume → NextEntry → ℕ → ℕ → ℕ → DirectoryEntry → Option Volume
invalidate v n entry next cluster dirent =
    let cleared = fill n.root_cluster entry 0 (next - entry) in
    let v1 = put_cluster v cleared cluster in
    let v2 =
      if n.secondcluster == 0
      then v1
      else put_cluster v1 (λ j. cleared (v.cluster_size + j)) n.secondcluster in
    zero_fat_chain v2 dirent.first_cluster

-- The file is gone, or the search goes on behind this cluster.
pub data Deleting : Type 0 where
  gone : Volume → Deleting
  absent : ℕ → Deleting

-- The inner loop of `FatDeleteFile`.
unfoldable pub delete_in_cluster :
    ℕ → Volume → Bytes → ℕ → ℕ → ℕ → Bytes → (ℕ → Bytes) → Bytes → Option Deleting
delete_in_cluster zero v root_cluster entry cluster count filename heap stack = none
delete_in_cluster (suc fuel) v root_cluster entry cluster count filename heap stack =
    let skip =
      delete_in_cluster fuel v root_cluster (entry + 32) cluster count filename heap stack in
    let take : Option Deleting =
      elim (next_directory_entry v root_cluster entry cluster (heap count) stack) [
        | none ↦ none
        | some n ↦ elim n.reading [
          | null ↦ none
          | found next dirent ↦
              let further =
                delete_in_cluster fuel v n.root_cluster next
                  (if n.secondcluster == 0 then cluster else n.secondcluster) (count + 1) filename
                  heap stack in
              let delete : Option Deleting = elim (invalidate v n entry next cluster dirent) [
                | none ↦ none
                | some v' ↦ some (gone v')
              ] in
              elim (same_name (2 ^ 32) dirent.name filename) [
                | none ↦ none
                | some same ↦ if same then delete else further
              ]
        ]
      ] in
    if ltb entry v.cluster_size
    then (if is_free (root_cluster entry) then skip else take)
    else some (absent cluster)

-- The outer loop; a name that is not found leaves the volume as it was.
unfoldable pub delete_file : ℕ → Volume → ℕ → Bytes → (ℕ → Bytes) → Bytes → Option Volume
delete_file zero v cluster filename heap stack = none
delete_file (suc fuel) v cluster filename heap stack =
    elim (delete_in_cluster (v.cluster_size + 1) v (get_cluster v stack cluster) 0 cluster 0
      filename heap stack) [
        | none ↦ none
        | some (gone v') ↦ some v'
        | some (absent last) ↦
            let next = next_cluster_id v last in
            let rest = delete_file fuel v next filename heap stack in
            if leb eoc next then some v else rest
      ]

abbrev pub directory : ℕ
directory = 0x10

-- The loop in `FatMakeDirectory` over the entries from `i` on: the directory of each that has the
-- name is listed, and freed again. `heaps` is what each listing finds in memory.
unfoldable pub visit_new :
    ℕ → Volume → List DirectoryEntry → Bytes → ℕ → (ℕ → ℕ → Bytes) → Bytes → Option Volume
visit_new fuel v [] dirname i heaps stack = some v
visit_new fuel v (d ∷ ds) dirname i heaps stack =
    let rest = visit_new fuel v ds dirname (i + 1) heaps stack in
    elim (same_name (2 ^ 32) d.name dirname) [
      | none ↦ none
      | some same ↦
          if same
          then elim (populate_dir fuel v d.first_cluster (heaps i) stack) [
            | none ↦ none
            | some newsubdir ↦ rest
          ]
          else rest
    ]

unfoldable pub make_directory :
    ℕ → Volume → ℕ → List ℕ → Bytes → (ℕ → ℕ → Bytes) → Bytes → Option Volume
make_directory fuel v cluster dirname buffer heaps stack =
    elim (write_file_implementation fuel v cluster (λ j. 0) dirname 0 directory 0 buffer stack) [
      | none ↦ none
      | some v' ↦ elim (populate_dir fuel v' cluster (heaps 0) stack) [
        | none ↦ none
        | some subdir ↦ visit_new fuel v' subdir.entries (λ j. get_or dirname j 0) 1 heaps stack
      ]
    ]
