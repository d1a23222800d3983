-- ===== src/Fat/File/Content.antt =====
-- `FatReadFile` of fat32.c along the chain of a file.
use open_lib.Common.{
  ℕ, zero, suc, ◌+◌, ◌-◌, ◌*◌, ◌≤◌, ◌<◌, ◌≡◌, refl, ap, ◌∙◌, arith, List, [], ◌∷◌, length, get_or,
  some, ltb, if◌then◌else◌, ◌⊎◌, inl, inr, Bool-cases,
}
use open_lib.Fat.Sector.{Bytes, blit}
use open_lib.Fat.Volume.{Volume}
use open_lib.Fat.Cluster.{eoc, get_cluster, next_cluster_id}
use open_lib.Fat.Entry.{DirectoryEntry}
use open_lib.Fat.File.{read_clusters, read_file}

-- The clusters `c ∷ l` follow each other in the table, and the last is the end of the chain.
abbrev pub IsFile : Volume → ℕ → List ℕ → Type 0
IsFile v c [] = (next_cluster_id v c < eoc → ⊥)
IsFile v c (d ∷ l) = (next_cluster_id v c ≡ d) × (d < eoc) × IsFile v d l

-- The memory `after` a reading from `copied` on, of the clusters `cs`.
pub record Copied (v : Volume) (size : ℕ) (stack before after : Bytes) (copied : ℕ) (cs : List ℕ)
    : Type 0 where
  pub kept : (j : ℕ) → j < copied → after j ≡ before j
  pub bytes :
      (k r : ℕ)
      → k < length cs
      → r < v.cluster_size
      → copied + (k * v.cluster_size + r) < size
      → after (copied + (k * v.cluster_size + r)) ≡ get_cluster v stack (get_or cs k 0) r

module _ (v : Volume) (size : ℕ) (stack : Bytes) where
  abbrev amount : ℕ → ℕ
  amount copied = if ltb v.cluster_size (size - copied) then v.cluster_size else size - copied

  abbrev round : Bytes → ℕ → ℕ → ℕ → Bytes
  round file at copied c = blit file at (get_cluster v stack c) 0 (amount copied)

  amount-le : (copied : ℕ) → copied ≤ size → copied + amount copied ≤ size
  amount-le copied h = ground arith

  -- The write position runs ahead of the count of the bytes only when all of them are there.
  along-next :
      (at copied : ℕ)
      → copied ≤ size
      → (at ≡ copied) ⊎ (copied ≡ size)
      → (at + v.cluster_size ≡ copied + amount copied) ⊎ (copied + amount copied ≡ size)
  along-next at copied le along = elim (Bool-cases (ltb v.cluster_size (size - copied))) [
    | inl whole ↦ rw whole (inl (ground arith))
    | inr last ↦ rw last (inr (omega arith))
  ]

  round-kept :
      (file : Bytes) (at copied c j : ℕ)
      → (at ≡ copied) ⊎ (copied ≡ size)
      → copied ≤ size
      → j < copied
      → round file at copied c j ≡ file j
  round-kept file at copied c j along le h = ground arith

  round-bytes :
      (file : Bytes) (at copied c r : ℕ)
      → (at ≡ copied) ⊎ (copied ≡ size)
      → r < v.cluster_size
      → copied + r < size
      → round file at copied c (copied + r) ≡ get_cluster v stack c r
  round-bytes file at copied c r along h inside =
      let same : at ≡ copied = ground arith in
      let place : 0 + (copied + r - copied) ≡ r = omega arith in
      let more : r < amount copied = ground arith in
      rw same (ground (arith, ap (get_cluster v stack c) place))

  first-bytes :
      (file after : Bytes) (at copied c r : ℕ)
      → (at ≡ copied) ⊎ (copied ≡ size)
      → ((j : ℕ) → j < copied + amount copied → after j ≡ round file at copied c j)
      → r < v.cluster_size
      → copied + r < size
      → after (copied + r) ≡ get_cluster v stack c r
  first-bytes file after at copied c r along kept h inside =
      kept (copied + r) (ground arith) ∙ round-bytes file at copied c r along h inside

  later-bytes :
      (file after : Bytes) (at copied c k r : ℕ) (l : List ℕ)
      → Copied v size stack (round file at copied c) after (copied + amount copied) l
      → k < length l
      → r < v.cluster_size
      → copied + (suc k * v.cluster_size + r) < size
      → after (copied + (suc k * v.cluster_size + r)) ≡ get_cluster v stack (get_or l k 0) r
  later-bytes file after at copied c k r l rest hk hr inside =
      let step : suc k * v.cluster_size ≡ v.cluster_size + k * v.cluster_size = grind arith in
      let whole : amount copied ≡ v.cluster_size = ground arith in
      let place : copied + (suc k * v.cluster_size + r)
          ≡ copied + amount copied + (k * v.cluster_size + r) =
        omega arith in
      ap after place ∙ rest.bytes k r hk hr (omega arith)

  cons-bytes :
      (file after : Bytes) (at copied c k r : ℕ) (l : List ℕ)
      → (at ≡ copied) ⊎ (copied ≡ size)
      → Copied v size stack (round file at copied c) after (copied + amount copied) l
      → k < length (c ∷ l)
      → r < v.cluster_size
      → copied + (k * v.cluster_size + r) < size
      → after (copied + (k * v.cluster_size + r)) ≡ get_cluster v stack (get_or (c ∷ l) k 0) r
  cons-bytes file after at copied c zero r l along rest hk hr inside =
      let place : copied + (0 * v.cluster_size + r) ≡ copied + r = omega arith in
      ap after place ∙ first-bytes file after at copied c r along rest.kept hr (omega arith)
  cons-bytes file after at copied c (suc k) r l along rest hk hr inside =
      later-bytes file after at copied c k r l rest (omega arith) hr inside

  Copied-round :
      (file after : Bytes) (at copied c : ℕ) (l : List ℕ)
      → (at ≡ copied) ⊎ (copied ≡ size)
      → copied ≤ size
      → Copied v size stack (round file at copied c) after (copied + amount copied) l
      → Copied v size stack file after copied (c ∷ l)
  Copied-round file after at copied c l along le rest = record {
    kept = λ j h. rest.kept j (omega arith) ∙ round-kept file at copied c j along le h;
    bytes = λ k r. cons-bytes file after at copied c k r l along rest;
  }

  read_clusters_lem :
      (l : List ℕ) (fuel : ℕ) (file : Bytes) (at copied c : ℕ)
      → IsFile v c l
      → length l < fuel
      → (at ≡ copied) ⊎ (copied ≡ size)
      → copied ≤ size
      → (file' : Bytes) × (read_clusters fuel v size stack file at copied c ≡ some file')
        × Copied v size stack file file' copied (c ∷ l)
  unfolding read_clusters
  read_clusters_lem l zero file at copied c is f along le = absurd (omega arith)
  read_clusters_lem [] (suc fuel) file at copied c is f along le = (
    round file at copied c,
    ground arith,
    Copied-round file (round file at copied c) at copied c [] along le
        (record { kept = λ j h. refl; bytes = λ k r hk hr inside. absurd (omega arith) }),
  )
  read_clusters_lem (d ∷ l) (suc fuel) file at copied c is f along le =
      let (file', e, rest) =
        read_clusters_lem l fuel (round file at copied c) (at + v.cluster_size)
          (copied + amount copied) d is.2 (omega arith) (along-next at copied le along)
          (amount-le copied le) in
      (
        file',
        ground (arith, e, is.0, is.1),
        Copied-round file file' at copied c (d ∷ l) along le rest,
      )

-- A file is read whole: along a chain of at most as many clusters as there are numbers,
-- `FatReadFile` ends, and the byte `r` of the cluster `k` of the chain is the byte
-- `k * ClusterSize + r` of what it returns, up to the size of the file. The byte of a cluster is the
-- one that `FatGetCluster` brings into the local array.
pub read_file_lem :
    (v : Volume) (dirent : DirectoryEntry) (memory stack : Bytes) (l : List ℕ)
    → IsFile v dirent.first_cluster l
    → length l < eoc
    → (file : Bytes) × (read_file v dirent memory stack ≡ some file)
      × ((k r : ℕ)
          → k ≤ length l
          → r < v.cluster_size
          → k * v.cluster_size + r < dirent.file_size
          → file (k * v.cluster_size + r)
            ≡ get_cluster v stack (get_or (dirent.first_cluster ∷ l) k 0) r)
unfolding read_file
read_file_lem v dirent memory stack l is few =
    let (file, e, copied) =
      read_clusters_lem v dirent.file_size stack l eoc memory 0 0 dirent.first_cluster is few
        (inl refl) (omega arith) in
    (
      file,
      e,
      λ k r hk hr inside.
          let place : k * v.cluster_size + r ≡ 0 + (k * v.cluster_size + r) = omega arith in
          ap file place ∙ copied.bytes k r (omega arith) hr (omega arith),
    )
