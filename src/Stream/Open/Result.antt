-- ===== src/Stream/Open/Result.antt =====
-- What `fopen` (file.c) returns for a path with one name in it.
use open_lib.Common.{
  ℕ, suc, ◌+◌, ◌^◌, ◌<◌, ◌≡◌, refl, ◌∙◌, arith, List, ◌∷◌, ◌++◌, length, Option, none, some, ◌==◌,
  false,
}
use open_lib.Utill.Strings.{IsString}
use open_lib.Utill.Text.{Token, bind, strtok_r}
use open_lib.Utill.Text.Copies.{IsString-pointer}
use open_lib.Fat.Sector.{Bytes}
use open_lib.Fat.Volume.{Volume, resolve_by_prefix}
use open_lib.Fat.Entry.{DirectoryEntry}
use open_lib.Fat.Directory.{Directory, populate_dir, populate_root_dir}
use open_lib.Stream.{new_stream}
use open_lib.Stream.Open.{Found, find_entry, walk_path, file_entry_for_path, fopen}
use open_lib.Stream.Open.Names.{Others, find_entry-absent, find_entry-first}
use open_lib.Stream.Open.Path.{PathAt, searched}

-- Without a text to go on with, `strtok_r` returns NULL.
strtok_r_end :
    (fuel : ℕ) (m : ℕ → ℕ) (delim : ℕ)
    → strtok_r fuel m 0 delim 0 ≡ some (record { begin = 0; memory = m; saveptr = 0 })
unfolding strtok_r
strtok_r_end fuel m delim = refl

module _ (v : Volume) (delim begin : ℕ) (m : ℕ → ℕ) (dir : Directory) (entry : DirectoryEntry)
    (heaps : ℕ → ℕ → Bytes) (stack : Bytes) (some_begin : 0 < begin) where
  abbrev token : Token
  token = record { begin = begin; memory = m; saveptr = 0 }

  walk_path-first :
      (fuel : ℕ) (d : DirectoryEntry) (sub : Directory)
      → find_entry dir.entries (λ j. m (begin + j)) ≡ some (some d)
      → populate_dir (suc fuel) v d.first_cluster (heaps (suc fuel)) stack ≡ some sub
      → walk_path (suc (suc fuel)) v delim dir token entry heaps stack
        ≡ some (some (record { entry = d; memory = m }))
  unfolding walk_path
  walk_path-first fuel d sub e listing =
      let test : (begin == 0) ≡ false = ground arith in
      rw (test, e, bind, listing, bind, strtok_r_end (suc fuel) m delim, bind) refl

  walk_path-absent :
      (fuel : ℕ)
      → find_entry dir.entries (λ j. m (begin + j)) ≡ some none
      → walk_path (suc fuel) v delim dir token entry heaps stack ≡ some none
  unfolding walk_path
  walk_path-absent fuel e =
      let test : (begin == 0) ≡ false = ground arith in rw (test, e, bind) refl

module _ (fuel : ℕ) (partitions : List (Option Volume)) (m : ℕ → ℕ)
    (path remaining cutpath delim : ℕ) (entry : DirectoryEntry) (heaps : ℕ → ℕ → Bytes)
    (stack fresh : Bytes) where
  fopen_of :
      (v : Volume) (found : Found) (drive : ℕ)
      → file_entry_for_path fuel partitions m path remaining cutpath delim entry heaps stack
        ≡ some (some found)
      → found.memory path ≡ drive
      → resolve_by_prefix partitions drive ≡ some v
      → fopen fuel partitions m path remaining cutpath delim entry heaps stack fresh
        ≡ some (some (new_stream v found.entry drive fresh))
  unfolding fopen
  fopen_of v found drive e first volume = rw (e, bind, first, volume, first) refl

  fopen-none :
      file_entry_for_path fuel partitions m path remaining cutpath delim entry heaps stack
        ≡ some none
      → fopen fuel partitions m path remaining cutpath delim entry heaps stack fresh ≡ some none
  unfolding fopen
  fopen-none e = rw (e, bind) refl

-- `fopen` finds a file. Of a path "X:\NAME", with the byte behind the copy of the path zero, it
-- returns a stream at the start of the first entry of the root directory with that name, if the
-- directory and what is listed of the file's own clusters can be read.
pub fopen-found :
    (fuel : ℕ) (partitions : List (Option Volume)) (v : Volume) (m : ℕ → ℕ)
    (path remaining cutpath delim drive colon : ℕ) (name : List ℕ)
    (before after : List DirectoryEntry) (d entry : DirectoryEntry) (root : ℕ) (sub : Directory)
    (heaps : ℕ → ℕ → Bytes) (stack fresh : Bytes)
    → PathAt m path remaining cutpath delim drive colon name
    → length name + 1 < fuel
    → length name < 2 ^ 32
    → resolve_by_prefix partitions drive ≡ some v
    → populate_root_dir (suc (suc fuel)) v (heaps (suc (suc fuel))) stack
      ≡ some (record { cluster = root; entries = before ++ d ∷ after })
    → Others name before
    → IsString d.name 0 name
    → populate_dir (suc fuel) v d.first_cluster (heaps (suc fuel)) stack ≡ some sub
    → fopen (suc (suc fuel)) partitions m path remaining cutpath delim entry heaps stack fresh
      ≡ some (some (new_stream v d drive fresh))
fopen-found fuel partitions v m path remaining cutpath delim drive colon name before after d entry
      root sub heaps stack fresh at enough small volume listing others is inner =
    let dir : Directory = record { cluster = root; entries = before ++ d ∷ after } in
    let (m2, e, name_at, first) =
      searched m path remaining cutpath delim drive colon name at (suc (suc fuel)) partitions v dir
        entry heaps stack (omega arith) volume listing in
    let found =
      find_entry-first name (λ j. m2 (cutpath + 1 + j)) before after d
        (IsString-pointer m2 (cutpath + 1) name name_at) others is small in
    fopen_of (suc (suc fuel)) partitions m path remaining cutpath delim entry heaps stack fresh v
      (record { entry = d; memory = m2 }) drive
      (e
        ∙ walk_path-first v delim (cutpath + 1) m2 dir entry heaps stack (omega arith) fuel d sub
            found inner)
      first volume

-- `fopen` of a path "X:\NAME" on a volume whose root directory is listed, whose names there are
-- strings that end with a 0, and none of them the name of the path, ends, and returns NULL. The path,
-- the delimiter and the two blocks lie apart, and the byte behind the unterminated copy of the path
-- is 0.
pub fopen-absent :
    (fuel : ℕ) (partitions : List (Option Volume)) (v : Volume) (m : ℕ → ℕ)
    (path remaining cutpath delim drive colon : ℕ) (name : List ℕ) (dir : Directory)
    (entry : DirectoryEntry) (heaps : ℕ → ℕ → Bytes) (stack fresh : Bytes)
    → PathAt m path remaining cutpath delim drive colon name
    → length name + 2 < fuel
    → resolve_by_prefix partitions drive ≡ some v
    → populate_root_dir (suc fuel) v (heaps (suc fuel)) stack ≡ some dir
    → Others name dir.entries
    → fopen (suc fuel) partitions m path remaining cutpath delim entry heaps stack fresh ≡ some none
fopen-absent fuel partitions v m path remaining cutpath delim drive colon name dir entry heaps stack
      fresh at enough volume listing others =
    let (m2, e, name_at, first) =
      searched m path remaining cutpath delim drive colon name at (suc fuel) partitions v dir entry
        heaps stack (omega arith) volume listing in
    fopen-none (suc fuel) partitions m path remaining cutpath delim entry heaps stack fresh (
      e
      ∙ walk_path-absent v delim (cutpath + 1) m2 dir entry heaps stack (omega arith) fuel (
          find_entry-absent name (λ j. m2 (cutpath + 1 + j)) dir.entries
            (IsString-pointer m2 (cutpath + 1) name name_at) others))
