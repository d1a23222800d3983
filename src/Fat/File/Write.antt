-- ===== src/Fat/File/Write.antt =====
-- The loop of `FatWriteFileImplementation` in fat32.c over the clusters of a file.
use open_lib.Common.{
  ℕ, zero, suc, ◌+◌, ◌*◌, ◌/◌, ◌%◌, ◌≤◌, ◌<◌, ◌≡◌, ◌≢◌, refl, sym, ap, ◌∙◌, arith, List, [], ◌∷◌,
  length, get_or, some, ◌==◌, if◌then◌else◌, ◌⊎◌, inl, inr,
}
use open_lib.Fat.Sector.{Bytes}
use open_lib.Fat.Volume.{Volume}
use open_lib.Fat.Cluster.{eoc, get_cluster}
use open_lib.Fat.Table.{ints_per_fat, take_cluster, alloc_cluster, count_free}
use open_lib.Fat.Entry.{DirectoryEntry}
use open_lib.Fat.File.{write_clusters, required_clusters, read_file}
use open_lib.Fat.File.Content.{IsFile, read_file_lem}
use open_lib.Fat.File.Step.{stepped-Step}
use open_lib.Fat.File.Ready.{Ready, Ready-take, Step-Ready}
use open_lib.Fat.File.Wrote.{Wrote, chunk, filled, after, Wrote-cons}

-- A round of the loop, when the allocation takes the cluster `i`.
write_clusters-suc :
    (v : Volume) (file : Bytes) (left flen written prev first i : ℕ)
    → v.cluster_size ≡ 512
    → alloc_cluster v ≡ (take_cluster v i, i)
    → write_clusters (suc left) v file flen written prev first
      ≡ write_clusters left
          (after v file flen written prev i)
          file
          flen
          (written + chunk flen written)
          i
          (if first == 0 then i else first)
unfolding write_clusters
write_clusters-suc v file left flen written prev first i size e = rw (e, size) refl

pub write_clusters_lem :
    (left : ℕ) (v : Volume) (file : Bytes) (flen written prev first : ℕ)
    → Ready v left
    → v.cluster_size ≡ 512
    → (prev ≡ 0) ⊎ (v.fat prev ≢ 0)
    → (w : Volume) × (l : List ℕ) × (write_clusters left v file flen written prev first
        ≡ (w, if first == 0 then get_or l 0 0 else first))
      × (length l ≡ left)
      × Wrote v w file flen written prev l
unfolding write_clusters
write_clusters_lem zero v file flen written prev first ready size link = (
  v,
  [],
  ap (λ f. (v, f)) (ground arith),
  refl,
  record {
    linked_to = λ nz. refl;
    inside = λ k hk. absurd (omega arith);
    fresh = λ k hk. absurd (omega arith);
    chain = tt;
    content = λ m k r hk h more. absurd (omega arith);
    kept_table = λ j used ne. refl;
    kept = λ m d r od used h. refl;
    same_size = refl;
  },
)
write_clusters_lem (suc left) v file flen written prev first ready size link =
    let (i, e, two, below, z) = Ready-take v left ready in
    let v' = after v file flen written prev i in
    let step =
      stepped-Step v prev i (filled file flen written) (ready.on_drive i two below) ready.one in
    let first' = if first == 0 then i else first in
    let (w, l, run, size_l, t) =
      write_clusters_lem left v' file flen (written + chunk flen written) i first'
        (Step-Ready v v' prev i left _ ready step two below z link) (step.same_size ∙ size)
        (inr (λ q. ground (arith, step.table i))) in
    (
      w,
      i ∷ l,
      write_clusters-suc v file left flen written prev first i size e
          ∙ run
          ∙ ap (λ f. (w, f)) (ground arith),
      omega (arith, size_l),
      Wrote-cons v file flen written prev i w l left ready step link two below z t,
    )

pub count_free-le : (fat : ℕ → ℕ) (n : ℕ) → count_free fat n ≤ n
unfolding count_free
count_free-le fat zero = omega arith
count_free-le fat (suc n) = ground (arith, count_free-le fat n)

pub required_lem :
    (v : Volume) (flen : ℕ)
    → v.cluster_size ≡ 512
    → (0 < required_clusters v flen) × (flen ≤ required_clusters v flen * 512)
required_lem v flen size = rw size (ground arith)

-- A chain of clusters that hold the bytes of a file is read as the file.
pub read_file-content :
    (w : Volume) (file memory stack name : Bytes) (flen attrs c : ℕ) (l : List ℕ)
    → w.cluster_size ≡ 512
    → length l < eoc
    → flen ≤ (length l + 1) * 512
    → IsFile w c l
    → ((k r : ℕ)
        → k ≤ length l
        → r < 512
        → k * 512 + r < flen
        → get_cluster w stack (get_or (c ∷ l) k 0) r ≡ file (k * 512 + r))
    → (file' : Bytes) × (read_file w
          (record { name = name; dir_attrs = attrs; first_cluster = c; file_size = flen })
          memory
          stack
        ≡ some file')
      × ((j : ℕ) → j < flen → file' j ≡ file j)
read_file-content w file memory stack name flen attrs c l clusters few fits chain content =
    let entry : DirectoryEntry = record {
      name = name;
      dir_attrs = attrs;
      first_cluster = c;
      file_size = flen;
    } in
    let (file', e, bytes) = read_file_lem w entry memory stack l chain few in
    (
      file',
      e,
      λ j h.
          let split : j / 512 * 512 + j % 512 ≡ j = omega arith in
          let place : j / 512 * w.cluster_size + j % 512 ≡ j = rw clusters split in
          ap file' (sym place)
          ∙ bytes (j / 512) (j % 512) (omega arith) (omega arith) (omega arith)
          ∙ content (j / 512) (j % 512) (omega arith) (omega arith) (omega arith)
          ∙ ap file split,
    )

read-Wrote :
    (v w : Volume) (file memory stack name : Bytes) (flen attrs : ℕ) (l : List ℕ)
    → v.cluster_size ≡ 512
    → 0 < length l
    → length l ≤ eoc
    → flen ≤ length l * 512
    → Wrote v w file flen 0 0 l
    → (file' : Bytes) × (read_file w
          (record {
            name = name;
            dir_attrs = attrs;
            first_cluster = get_or l 0 0;
            file_size = flen;
          })
          memory
          stack
        ≡ some file')
      × ((j : ℕ) → j < flen → file' j ≡ file j)
read-Wrote v w file memory stack name flen attrs [] size pos few fits t = absurd (omega arith)
read-Wrote v w file memory stack name flen attrs (c ∷ l) size pos few fits t =
    read_file-content w file memory stack name flen attrs c l (t.same_size ∙ size) (omega arith)
      (omega arith) t.chain
      (λ k r hk h more.
        let start : 0 + (k * 512 + r) ≡ k * 512 + r = omega arith in
        t.content stack k r (omega arith) h (omega arith) ∙ ap file start)

-- A file survives: with one sector to a cluster and enough free clusters, the loop of
-- `FatWriteFileImplementation` writes the bytes of a file along a new chain, and `FatReadFile`
-- gives each of them back.
pub read_file-write_clusters :
    (v : Volume) (file memory stack name : Bytes) (flen attrs : ℕ)
    → Ready v (required_clusters v flen)
    → v.cluster_size ≡ 512
    → (w : Volume) × (first : ℕ) × (file' : Bytes) × (write_clusters
          (required_clusters v flen)
          v
          file
          flen
          0
          0
          0
        ≡ (w, first))
      × (read_file w
            (record { name = name; dir_attrs = attrs; first_cluster = first; file_size = flen })
            memory
            stack
          ≡ some file')
      × ((j : ℕ) → j < flen → file' j ≡ file j)
read_file-write_clusters v file memory stack name flen attrs ready size =
    let required = required_lem v flen size in
    let (w, l, run, size_l, t) =
      write_clusters_lem (required_clusters v flen) v file flen 0 0 0 ready size (inl refl) in
    let room = count_free-le v.fat (ints_per_fat v) in
    let few : length l ≤ eoc = omega (arith, ready.enough, ready.numbers) in
    let (file', reading, bytes) =
      read-Wrote v w file memory stack name flen attrs l size (omega arith) few
        (rw size_l required.1) t in
    (w, get_or l 0 0, file', run, reading, bytes)
