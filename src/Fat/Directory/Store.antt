-- ===== src/Fat/Directory/Store.antt =====
-- `FatWriteFile`, `FatPopulateDir` and `FatReadFile` of fat32.c, one after the other.
use open_lib.Common.{
  ℕ, suc, ◌+◌, ◌*◌, ◌^◌, ◌≤◌, ◌<◌, ◌≡◌, ◌≢◌, refl, sym, ap, ◌∙◌, arith, List, [], ◌∷◌, length,
  get_or, some, ltb, if◌then◌else◌, inl, inr,
}
use mathlib.Core.Path.{subst}
use open_lib.Fat.Sector.{Bytes}
use open_lib.Fat.Volume.{Volume}
use open_lib.Fat.Cluster.{get_cluster}
use open_lib.Fat.Cluster.Laws.{OnDrive}
use open_lib.Fat.Table.{ints_per_fat}
use open_lib.Fat.LongName.Parse.{IsPrintable}
use open_lib.Fat.Entry.{DirectoryEntry, required_entries, write_entries}
use open_lib.Fat.Entry.Row.{required_entries-pos, write_entries-EntriesAre}
use open_lib.Fat.File.{
  write_clusters, required_clusters, read_file, write_file_implementation, write_file,
}
use open_lib.Fat.File.Ready.{Ready}
use open_lib.Fat.File.Wrote.{Wrote}
use open_lib.Fat.File.Write.{write_clusters_lem, read_file-content, count_free-le, required_lem}
use open_lib.Fat.Directory.{populate_dir}
use open_lib.Fat.Directory.Frame.{SameDrive, SameDrive-OnDrive, write_clusters-SameDrive}
use open_lib.Fat.Directory.Fresh.{
  EmptyDirectory, ended, locate-empty, listed, ended-IsFile, ended-other, ended-size,
}

module _ (v : Volume) (dir : ℕ) (buffer file stack : Bytes) (fname : List ℕ) (flen : ℕ)
    (e : EmptyDirectory v dir buffer) (ready : Ready v (required_clusters v flen)) where
  -- The clusters of the file are on the drive, and the directory is none of them.
  clusters-apart :
      (w : Volume) (l : List ℕ) (k : ℕ)
      → Wrote v w file flen 0 0 l
      → k < length l
      → OnDrive v (get_or l k 0) × (dir ≢ get_or l k 0) × (2 ≤ get_or l k 0)
  clusters-apart w l k t h =
      let c = get_or l k 0 in
      let z = t.fresh k h in
      let not_0 : c ≢ 0 = λ s. ready.reserved_0 (ap v.fat (sym s) ∙ z) in
      let not_1 : c ≢ 1 = λ s. ready.reserved_1 (ap v.fat (sym s) ∙ z) in
      let two : 2 ≤ c = omega arith in
      (ready.on_drive c two (t.inside k h), (λ s. e.in_use (ap v.fat s ∙ z)), two)

  read-ended :
      (w : Volume) (l : List ℕ) (bytes memory name : Bytes)
      → SameDrive v w
      → Wrote v w file flen 0 0 l
      → length l ≡ required_clusters v flen
      → (file' : Bytes) × (read_file
            (ended w bytes dir)
            (record { name = name; dir_attrs = 0; first_cluster = get_or l 0 0; file_size = flen })
            memory
            stack
          ≡ some file')
        × ((j : ℕ) → j < flen → file' j ≡ file j)
  read-ended w [] bytes memory name same t count =
      absurd (omega (arith, required_lem v flen e.size))
  read-ended w (c ∷ l) bytes memory name same t count =
      let required = required_lem v flen e.size in
      let few = count_free-le v.fat (ints_per_fat v) in
      read_file-content (ended w bytes dir) file memory stack name flen 0 c l
        (ended-size v w dir buffer bytes e same) (omega (arith, ready.enough, ready.numbers))
        (omega arith) (ended-IsFile v w dir buffer bytes e same c l t.chain)
        (λ k r hk h more.
          let (on, ne, two) = clusters-apart w (c ∷ l) k t (omega arith) in
          let start : 0 + (k * 512 + r) ≡ k * 512 + r = omega arith in
          ended-other v w dir buffer bytes e same stack (get_or (c ∷ l) k 0) r
            (SameDrive-OnDrive v w (get_or (c ∷ l) k 0) same on) ne h
          ∙ t.content stack k r (omega arith) h (omega arith)
          ∙ ap file start)

  -- The run of `FatWriteFile`, from its parts.
  implementation-run :
      (fuel : ℕ) (w : Volume) (first : ℕ) (bytes : Bytes)
      → 0 < length fname
      → length fname ≤ 195
      → write_clusters (required_clusters v flen) v file flen 0 0 0 ≡ (w, first)
      → write_entries fname 0 0 first flen stack (get_cluster v buffer dir) ≡ some bytes
      → write_file_implementation (suc fuel) v dir file fname flen 0 0 buffer stack
        ≡ some (ended w bytes dir)
  unfolding write_file_implementation
  implementation-run fuel w first bytes pos few run entries =
      let range = required_entries-pos (length fname) pos few in
      let row =
        locate-empty fuel v buffer dir (required_entries (length fname) + 1) e.size (omega arith)
          (omega (arith, range.1)) e.free in
      rw (row, run, entries, write_file_implementation)
        (ap (λ (r : Volume × ℕ). some (ended r.0 bytes dir)) run)

  write_file-run :
      (fuel : ℕ) (w : Volume) (first : ℕ) (bytes : Bytes)
      → 0 < length fname
      → length fname ≤ 195
      → write_clusters (required_clusters v flen) v file flen 0 0 0 ≡ (w, first)
      → write_entries fname 0 0 first flen stack (get_cluster v buffer dir) ≡ some bytes
      → write_file (suc fuel) v dir file fname flen buffer stack ≡ some (ended w bytes dir)
  unfolding write_file
  write_file-run fuel w first bytes pos few run entries =
      implementation-run fuel w first bytes pos few run entries

-- A file is kept. Into a directory of one cluster whose entries are all free, on a volume with one
-- sector of 512 bytes to a cluster, its table in front of the clusters, and enough free clusters, all
-- on the drive, `FatWriteFile` writes a file of less than 2 ^ 32 bytes under a printable name of 1 to
-- 195 characters; then `FatPopulateDir` lists exactly one entry, with that name and size, and
-- `FatReadFile` of this entry gives back every byte of the file. Behind a name that fills its
-- entries stands what the block of the name held, and no terminator.
pub populate_dir-write_file :
    (v : Volume) (dir : ℕ) (buffer file stack memory : Bytes) (heap : ℕ → Bytes) (fname : List ℕ)
    (flen fuel : ℕ)
    → EmptyDirectory v dir buffer
    → Ready v (required_clusters v flen)
    → IsPrintable fname
    → 0 < length fname
    → length fname ≤ 195
    → flen < 2 ^ 32
    → (v' : Volume) × (d : DirectoryEntry) × (file' : Bytes) × (write_file
          (suc fuel)
          v
          dir
          file
          fname
          flen
          buffer
          stack
        ≡ some v')
      × (populate_dir (suc fuel) v' dir heap stack
          ≡ some (record { cluster = dir; entries = d ∷ [] }))
      × ((q : ℕ)
          → d.name q
            ≡ (if ltb q (13 * required_entries (length fname)) then get_or fname q 0 else heap 0 q))
      × (d.file_size ≡ flen)
      × (read_file v' d memory stack ≡ some file')
      × ((j : ℕ) → j < flen → file' j ≡ file j)
populate_dir-write_file v dir buffer file stack memory heap fname flen fuel e ready printable pos
      few small =
    let (w, l, run, count, t) =
      write_clusters_lem (required_clusters v flen) v file flen 0 0 0 ready e.size (inl refl) in
    let required = required_lem v flen e.size in
    let first = get_or l 0 0 in
    let same : SameDrive v w =
      subst (λ (r : Volume × ℕ). SameDrive v r.0) run
        (write_clusters-SameDrive (required_clusters v flen) v file flen 0 0 0) in
    let below : first < 2 ^ 32 = omega (arith, t.inside 0 (omega arith), ready.numbers) in
    let (bytes, entries, is, rest) =
      write_entries-EntriesAre fname 0 0 first flen stack (get_cluster v buffer dir) pos few below
        small in
    let (name, listing, chars) =
      listed v w dir buffer bytes e same fname first flen printable pos few is
        (λ p le. rest p (inr le)) (t.kept_table dir e.in_use (omega (arith, e.on_drive.real))) heap
        stack fuel in
    let (file', reading, back) =
      read-ended v dir buffer file stack fname flen e ready w l bytes memory name same t count in
    (
      ended w bytes dir,
      record { name = name; dir_attrs = 0; first_cluster = first; file_size = flen },
      file',
      write_file-run v dir buffer file stack fname flen e ready fuel w first bytes pos few run
          entries,
      listing,
      chars,
      refl,
      reading,
      back,
    )
