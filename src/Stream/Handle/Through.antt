-- ===== src/Stream/Handle/Through.antt =====
-- From `NtCreateFile` to `NtReadFile` (drive.c): through `fopen`, the root directory and `fread`.
use open_lib.Common.{
  ℕ, suc, ◌+◌, ◌*◌, ◌^◌, ◌<◌, ◌≤◌, ◌≡◌, ap, ◌∙◌, arith, true, List, ◌∷◌, ◌++◌, length, some, u32,
  inr,
}
use open_lib.Utill.Strings.{IsString}
use open_lib.Fat.Sector.{Bytes}
use open_lib.Fat.Volume.{Volume, resolve_by_prefix}
use open_lib.Fat.Cluster.{eoc}
use open_lib.Fat.Entry.{DirectoryEntry}
use open_lib.Fat.Directory.{Directory, populate_dir, populate_root_dir}
use open_lib.Fat.File.{read_file}
use open_lib.Fat.File.Content.{IsFile}
use open_lib.Stream.{fread, new_stream}
use open_lib.Stream.Whole.{Settled, fread-new_stream}
use open_lib.Stream.Open.Names.{Others}
use open_lib.Stream.Open.Path.{PathAt}
use open_lib.Stream.Open.Result.{fopen-found}
use open_lib.Stream.Handle.{
  generic_all, open_existing, Files, io_file, leave_file, Opening, open_path, nt_create_file,
  ReadResult, nt_read_file,
}
use open_lib.Stream.Handle.Laws.{nt_read_file_lem, nt_create_file_of}

-- The file `d` under the path "X:\NAME" on the volume `v`, as `fopen` needs it.
pub record Stored (fuel : ℕ) (o : Opening) (v : Volume) (path drive colon : ℕ) (name : List ℕ)
    (before after : List DirectoryEntry) (d : DirectoryEntry) (root : ℕ) (sub : Directory)
    : Type 0 where
  pub at : PathAt o.memory path o.remaining o.cutpath o.delim drive colon name
  pub enough : length name + 1 < fuel
  pub small : length name < 2 ^ 32
  pub mounted : resolve_by_prefix o.partitions drive ≡ some v
  pub listing :
      populate_root_dir (suc (suc fuel)) v (o.heaps (suc (suc fuel))) o.stack
      ≡ some (record { cluster = root; entries = before ++ d ∷ after })
  pub others : Others name before
  pub named : IsString d.name 0 name
  pub inner : populate_dir (suc fuel) v d.first_cluster (o.heaps (suc fuel)) o.stack ≡ some sub

-- A file is read by its path. Let the volume have one sector to a cluster, so that reading a
-- cluster does not depend on what the buffer held (`Settled`). Let the path be that of an entry of
-- the root directory, whose name and the names before it are strings that end with a 0, and no name
-- before it be the same; let the path, the delimiter and the two blocks lie apart, and the byte
-- behind the unterminated copy of the path be 0. Let the file's own clusters be listable as a
-- directory, since the search goes into the entry it finds, and let the file have 1 to 2 ^ 31 - 1
-- bytes and a chain of clusters long enough for them. Then `NtCreateFile` with GENERIC_ALL and
-- OPEN_EXISTING returns a handle, and while its block is not given away, `NtReadFile` of as many
-- bytes as the file has, or more, below 2 ^ 31, returns TRUE, the size of the file, and the bytes that
-- `FatReadFile` reads for the entry.
pub nt_read_file-nt_create_file :
    (fuel : ℕ) (o : Opening) (v : Volume) (h : Files) (block path drive colon : ℕ) (name : List ℕ)
    (before after : List DirectoryEntry) (d : DirectoryEntry) (root : ℕ) (sub : Directory)
    (memory memory' : Bytes) (n count : ℕ) (l : List ℕ)
    → Stored fuel o v path drive colon name before after d root sub
    → Settled v
    → 0 < v.cluster_size
    → v.cluster_size < 2 ^ 31
    → 0 < block
    → IsFile v d.first_cluster l
    → length l < eoc
    → 0 < d.file_size
    → d.file_size ≤ n
    → n < 2 ^ 31
    → d.file_size ≤ (length l + 1) * v.cluster_size
    → (h' : Files) × (r : ReadResult) × (file : Bytes) × (nt_create_file
          (suc (suc fuel))
          o
          h
          block
          path
          generic_all
          0
          0
          open_existing
          0
          0
        ≡ some (h', block))
      × (nt_read_file o.partitions h' block memory n count ≡ some r)
      × (read_file v d memory' o.stack ≡ some file)
      × (r.success ≡ true)
      × (r.number_of_bytes_read ≡ d.file_size)
      × ((i : ℕ) → i < d.file_size → r.memory i ≡ file i)
nt_read_file-nt_create_file fuel o v h block path drive colon name before after d root sub memory
      memory' n count l w settled pos small some_block is few more wide bound fits =
    let s = new_stream v d drive o.fresh in
    let opened : open_path (suc (suc fuel)) o path ≡ some (some s) =
      fopen-found fuel o.partitions v o.memory path o.remaining o.cutpath o.delim drive colon name
        before after d o.entry root sub o.heaps o.stack o.fresh w.at w.enough w.small w.mounted
        w.listing w.others w.named w.inner in
    let h' = leave_file h block (io_file path generic_all 0 0 open_existing 0 0 (some s)) in
    let (r, file, e, e', number, same) =
      fread-new_stream v settled pos small o.partitions d drive o.fresh memory memory' o.stack l n
        w.mounted is few more wide bound fits in
    let same_count : u32 n ≡ n = omega arith in
    let (q, done, got) =
      (nt_read_file_lem o.partitions h' block memory n count).1 s r
        (some_block, inr (ground arith), ground arith) (ground arith)
        (ap (λ k. fread o.partitions memory k 1 s) same_count ∙ e) in
    (
      h',
      q,
      file,
      nt_create_file_of (suc (suc fuel)) o h block path generic_all 0 0 open_existing 0 0 (some s)
          (omega arith) opened,
      done,
      e',
      got.returned,
      got.number (omega (arith, number)) ∙ number,
      λ i lt. rw got.buffer (same i lt),
    )
