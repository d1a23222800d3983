-- ===== src/Stream/Open.antt =====
-- `FileEntryForPath` and `fopen` of file.c. The memory holds the path, the one delimiter at
-- `delim`, and the two blocks that `malloc` gives at `remaining` and `cutpath`; `heaps` is what the
-- calls of `FatPopulateDir` find in theirs. `some none` is a file that is not found, and `none` a
-- loop that has not ended in `fuel`, or a directory that cannot be read.
pub mod Names
pub mod Path
pub mod Result
use open_lib.Common.{
  ℕ, zero, suc, ◌+◌, ◌-◌, ◌^◌, List, [], ◌∷◌, Option, none, some, ◌==◌, if◌then◌else◌,
}
use open_lib.Utill.{strlen, memcpy}
use open_lib.Utill.Text.{Token, bind, strdup, strtok_r}
use open_lib.Fat.Sector.{Bytes}
use open_lib.Fat.Volume.{Volume, resolve_by_prefix}
use open_lib.Fat.Entry.{DirectoryEntry}
use open_lib.Fat.Directory.{Directory, populate_dir, populate_root_dir, same_name}
use open_lib.Stream.{Stream, new_stream}

abbrev pub backslash : ℕ
backslash = 0x5C

-- The loop over the entries of a directory, up to the first that has the name.
unfoldable pub find_entry : List DirectoryEntry → Bytes → Option (Option DirectoryEntry)
find_entry [] name = some none
find_entry (d ∷ ds) name =
    let rest = find_entry ds name in
    bind (same_name (2 ^ 32) d.name name) (λ same. if same then some (some d) else rest)

-- The entry that the search leaves in the caller's variable, and the memory.
pub record Found : Type 0 where
  pub entry : DirectoryEntry
  pub memory : ℕ → ℕ

-- The loop over the names of the path. The directory of every entry that is found is listed, that
-- of the last one too.
unfoldable pub walk_path :
    ℕ
    → Volume
    → ℕ
    → Directory
    → Token
    → DirectoryEntry
    → (ℕ → ℕ → Bytes)
    → Bytes
    → Option (Option Found)
walk_path zero v delim dir next_dir entry heaps stack = none
walk_path (suc fuel) v delim dir next_dir entry heaps stack =
    if next_dir.begin == 0
    then some (some (record { entry = entry; memory = next_dir.memory }))
    else bind (find_entry dir.entries (λ j. next_dir.memory (next_dir.begin + j))) (λ r. elim r [
      | none ↦ some none
      | some currentry ↦
          bind (populate_dir fuel v currentry.first_cluster (heaps fuel) stack) (λ sub.
            bind (strtok_r fuel next_dir.memory 0 delim next_dir.saveptr)
              (λ next. walk_path fuel v delim sub next currentry heaps stack))
    ])

-- `entry` is what the caller's variable holds before. The count of the copy is an INT, and below
-- zero nothing is copied.
unfoldable pub file_entry_for_path :
    ℕ
    → List (Option Volume)
    → (ℕ → ℕ)
    → ℕ
    → ℕ
    → ℕ
    → ℕ
    → DirectoryEntry
    → (ℕ → ℕ → Bytes)
    → Bytes
    → Option (Option Found)
file_entry_for_path fuel partitions m path remaining cutpath delim entry heaps stack =
    bind (strlen fuel m path) (λ n.
      let m1 = memcpy m remaining (path + 2) (n - 2) in
      elim (resolve_by_prefix partitions (m1 path)) [
        | none ↦ some none
        | some v ↦ bind (populate_root_dir fuel v (heaps fuel) stack) (λ dir.
            if m1 remaining == backslash
            then bind (strdup fuel m1 cutpath remaining) (λ m2.
              bind (strtok_r fuel m2 cutpath delim 0)
                (λ next_dir. walk_path fuel v delim dir next_dir entry heaps stack))
            else some none)
      ])

unfoldable pub fopen :
    ℕ
    → List (Option Volume)
    → (ℕ → ℕ)
    → ℕ
    → ℕ
    → ℕ
    → ℕ
    → DirectoryEntry
    → (ℕ → ℕ → Bytes)
    → Bytes
    → Bytes
    → Option (Option Stream)
fopen fuel partitions m path remaining cutpath delim entry heaps stack fresh =
    bind (file_entry_for_path fuel partitions m path remaining cutpath delim entry heaps stack)
      (λ r. elim r [
        | none ↦ some none
        | some found ↦ elim (resolve_by_prefix partitions (found.memory path)) [
          | none ↦ some none
          | some v ↦ some (some (new_stream v found.entry (found.memory path) fresh))
        ]
      ])
