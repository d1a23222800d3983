-- ===== src/Fat/Directory/Fresh.antt =====
-- A file written into an empty directory by `FatWriteFile` of fat32.c, listed and read again.
use open_lib.Common.{
  ℕ, zero, suc, ◌+◌, ◌-◌, ◌*◌, ◌≤◌, ◌<◌, ◌≡◌, ◌≢◌, refl, sym, ap, ◌∙◌, arith, true, false, List, [],
  ◌∷◌, length, get_or, some, ◌==◌, ltb, if◌then◌else◌, inl, inr, ◌/◌, Bool-cases,
}
use mathlib.Core.Path.{subst}
use open_lib.Fat.Sector.{Bytes}
use open_lib.Fat.Volume.{Volume, flush_fat}
use open_lib.Fat.Cluster.{eoc, get_cluster, put_cluster, next_cluster_id}
use open_lib.Fat.Cluster.Laws.{
  OnDrive, get_cluster-put_cluster_one, get_cluster-put_cluster_ne, get_cluster-flush_fat,
}
use open_lib.Fat.LongName.Parse.{IsPrintable}
use open_lib.Fat.Entry.{DirectoryEntry, is_free, found, read_directory_entry, required_entries}
use open_lib.Fat.Entry.Read.{EntriesAre, EntriesAre-same, read-EntriesAre}
use open_lib.Fat.Entry.Row.{required_entries-pos}
use open_lib.Fat.File.{find_row, located, locate_entries}
use open_lib.Fat.File.Content.{IsFile}
use open_lib.Fat.Directory.{put_first, populate_cluster, populate_dir}
use open_lib.Fat.Directory.Listing.{populate_cluster-free, populate_cluster-found, populate_dir-one}
use open_lib.Fat.Directory.Frame.{SameDrive, SameDrive-OnDrive, put_cluster-SameDrive}

-- In a cluster of free entries the row is found at its start.
find_row-empty :
    (b : Bytes) (count left i : ℕ)
    → i < count
    → count ≤ i + left
    → ((j : ℕ) → j < i + left → is_free (b (j * 32)) ≡ true)
    → find_row b count left i i ≡ some 0
unfolding find_row
find_row-empty b count zero i lt le free = absurd (omega arith)
find_row-empty b count (suc left) i lt le free = elim (Bool-cases (i + 1 == count)) [
  | inl full ↦ ground (arith, free i (omega arith))
  | inr more ↦ ground (
    arith,
    free i (omega arith),
    find_row-empty b count left (i + 1) (ground arith) (omega arith) (λ j h. free j (omega arith)),
  )
]

pub locate-empty :
    (fuel : ℕ) (v : Volume) (buffer : Bytes) (dir count : ℕ)
    → v.cluster_size ≡ 512
    → 0 < count
    → count ≤ 16
    → ((j : ℕ) → j < 16 → is_free (get_cluster v buffer dir (j * 32)) ≡ true)
    → locate_entries (suc fuel) v buffer dir count
      ≡ some (located v (get_cluster v buffer dir) 0 dir)
unfolding locate_entries
locate-empty fuel v buffer dir count size pos le free =
    let sixteen : 16 ≡ v.cluster_size / 32 = omega arith in
    let row : find_row (get_cluster v buffer dir) count (v.cluster_size / 32) 0 0 ≡ some 0 =
      subst (λ (n : ℕ). find_row (get_cluster v buffer dir) count n 0 0 ≡ some 0) sixteen
        (find_row-empty (get_cluster v buffer dir) count 16 0 pos (omega arith)
          (λ j h. free j (omega arith))) in
    rw (row, locate_entries) refl

-- A directory of one cluster, all of whose entries are free, on a volume with its table in front.
pub record EmptyDirectory (v : Volume) (dir : ℕ) (buffer : Bytes) : Type 0 where
  pub size : v.cluster_size ≡ 512
  pub one : v.bpb.sectors_per_cluster ≡ 1
  pub on_drive : OnDrive v dir
  pub in_use : v.fat dir ≢ 0
  pub last : eoc ≤ next_cluster_id v dir
  pub layout : v.fat_sector + v.bpb.sectors_per_fat32 ≤ v.cluster_sector
  pub free : (j : ℕ) → j < 16 → is_free (get_cluster v buffer dir (j * 32)) ≡ true

-- The volume in the end, when the file's clusters gave `w` and the directory's bytes are `bytes`.
abbrev pub ended : Volume → Bytes → ℕ → Volume
ended w bytes dir = flush_fat (put_cluster w bytes dir)

module _ (v w : Volume) (dir : ℕ) (buffer bytes : Bytes) (e : EmptyDirectory v dir buffer)
    (same : SameDrive v w) where
  on_w : OnDrive w dir
  on_w = SameDrive-OnDrive v w dir same e.on_drive

  one_w : w.bpb.sectors_per_cluster ≡ 1
  one_w = rw same.bpb e.one

  abbrev put : Volume
  put = put_cluster w bytes dir

  flushed :
      (m : Bytes) (c j : ℕ)
      → OnDrive w c
      → j < 512
      → get_cluster (ended w bytes dir) m c j ≡ get_cluster put m c j
  flushed m c j o h =
      let p = put_cluster-SameDrive w bytes dir in
      get_cluster-flush_fat put m c j (SameDrive-OnDrive w put c p o)
        (rw (p.fat_sector, p.cluster_sector, p.bpb, same.fat_sector, same.cluster_sector, same.bpb)
          e.layout)
        (rw (p.bpb, same.bpb, e.one) (omega arith))

  -- The directory holds what was put there, and the other clusters what they held.
  ended-directory :
      (m : Bytes) (j : ℕ) → j < 512 → get_cluster (ended w bytes dir) m dir j ≡ bytes j
  ended-directory m j h =
      flushed m dir j on_w h ∙ get_cluster-put_cluster_one w bytes m dir j on_w one_w h

  pub ended-other :
      (m : Bytes) (c j : ℕ)
      → OnDrive w c
      → dir ≢ c
      → j < 512
      → get_cluster (ended w bytes dir) m c j ≡ get_cluster w m c j
  ended-other m c j o ne h =
      flushed m c j o h
      ∙ get_cluster-put_cluster_ne w bytes m dir c j on_w o ne (rw one_w (omega arith))

  ended-fat : (ended w bytes dir).fat ≡ w.fat
  unfolding flush_fat put_cluster
  ended-fat = refl

  pub ended-size : (ended w bytes dir).cluster_size ≡ 512
  unfolding flush_fat put_cluster
  ended-size = same.cluster_size ∙ e.size

  pub ended-IsFile : (c : ℕ) (l : List ℕ) → IsFile w c l → IsFile (ended w bytes dir) c l
  unfolding flush_fat put_cluster
  ended-IsFile c [] is = is
  ended-IsFile c (d ∷ l) is = (is.0, is.1, ended-IsFile d l is.2)

-- The listing of the directory in the end.
module _ (v w : Volume) (dir : ℕ) (buffer bytes : Bytes) (e : EmptyDirectory v dir buffer)
    (same : SameDrive v w) (fname : List ℕ) (first flen : ℕ) (printable : IsPrintable fname)
    (pos : 0 < length fname) (few : length fname ≤ 195)
    (is : EntriesAre fname (required_entries (length fname)) 0 first flen bytes 0)
    (rest : (p : ℕ)
      → 0 + required_entries (length fname) * 32 + 32 ≤ p
      → bytes p ≡ get_cluster v buffer dir p)
    (table : w.fat dir ≡ v.fat dir) (heap : ℕ → Bytes) (stack : Bytes) where
  abbrev num : ℕ
  num = required_entries (length fname)

  abbrev next : ℕ
  next = 0 + num * 32 + 32

  abbrev final : Volume
  final = ended w bytes dir

  abbrev read : Bytes
  read = get_cluster final stack dir

  abbrev dirent : Bytes → DirectoryEntry
  dirent name = record { name = name; dir_attrs = 0; first_cluster = first; file_size = flen }

  range : (0 < num) × (num < 16)
  range = required_entries-pos (length fname) pos few

  entry-read :
      (name : Bytes) × (read_directory_entry read 0 512 (heap 0) stack
        ≡ some (found next (dirent name)))
      × ((q : ℕ) → name q ≡ (if ltb q (13 * num) then get_or fname q 0 else heap 0 q))
  entry-read =
      let there =
        EntriesAre-same fname num 0 first flen bytes 0 read range.0 is (λ p lo hi.
          ended-directory v w dir buffer bytes e same stack p (omega (arith, range.1))) in
      read-EntriesAre fname num 0 first flen read 0 512 (heap 0) stack printable range.0 range.1
        (omega arith) there (omega (arith, range.1))

  size : final.cluster_size ≡ 512
  size = ended-size v w dir buffer bytes e same

  -- Behind the new entry the cluster is as free as it was.
  free_rest : (i : ℕ) → i < 15 - num → is_free (read (next + i * 32)) ≡ true
  free_rest i h =
      let p = next + i * 32 in
      let place : p ≡ (num + 1 + i) * 32 = omega arith in
      let byte : read p ≡ get_cluster v buffer dir ((num + 1 + i) * 32) =
        ended-directory v w dir buffer bytes e same stack p (omega arith)
        ∙ rest p (omega arith)
        ∙ ap (get_cluster v buffer dir) place in
      ap is_free byte ∙ e.free (num + 1 + i) (omega arith)

  used_first : is_free (read 0) ≡ false
  used_first =
      ap is_free (ended-directory v w dir buffer bytes e same stack 0 (omega arith)) ∙ is.head

  pub listed :
      (fuel : ℕ)
      → (name : Bytes) × (populate_dir (suc fuel) final dir heap stack
          ≡ some (record { cluster = dir; entries = dirent name ∷ [] }))
        × ((q : ℕ) → name q ≡ (if ltb q (13 * num) then get_or fname q 0 else heap 0 q))
  listed fuel =
      let (name, reading, chars) = entry-read in
      let rounds : suc 512 ≡ final.cluster_size + 1 = omega (arith, size) in
      let inside : read_directory_entry read 0 final.cluster_size (heap 0) stack
          ≡ some (found next (dirent name)) =
        subst
          (λ (n : ℕ).
            read_directory_entry read 0 n (heap 0) stack ≡ some (found next (dirent name)))
          (sym size) reading in
      let first_one =
        populate_cluster-found final read dir heap stack 512 0 0 next (dirent name)
          (omega (arith, size)) used_first inside in
      let others =
        populate_cluster-free final read dir heap stack (15 - num) 512 next (0 + 1)
          (omega (arith, size, range.1)) free_rest (omega arith) in
      let all : populate_cluster (suc 512) final read 0 dir 0 heap stack
          ≡ some (record { dirents = dirent name ∷ []; last = dir }) =
        first_one ∙ ap (put_first (dirent name)) others in
      let end : eoc ≤ next_cluster_id final dir =
        rw (ended-fat v w dir buffer bytes e same, table) e.last in
      (
        name,
        populate_dir-one fuel final dir heap stack
            (record { dirents = dirent name ∷ []; last = dir })
            (subst
              (λ (n : ℕ).
                populate_cluster n final read 0 dir 0 heap stack
                ≡ some (record { dirents = dirent name ∷ []; last = dir }))
              rounds all)
            end,
        chars,
      )
