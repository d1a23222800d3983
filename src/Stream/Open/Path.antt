-- ===== src/Stream/Open/Path.antt =====
-- `fopen` (file.c) of a path with one name in it, as in "C:\NAME".
use open_lib.Common.{
  ℕ, ◌+◌, ◌-◌, ◌<◌, ◌≡◌, refl, ap, ◌∙◌, arith, List, [], ◌∷◌, length, Option, some, ◌==◌, ◌⊎◌, true,
}
use mathlib.Core.Path.{subst}
use open_lib.Utill.{strlen, memcpy}
use open_lib.Utill.Copy.{moved, memcpy_lem}
use open_lib.Utill.Strings.{IsString, strlen_lem}
use open_lib.Utill.Text.Copies.{IsString-same, IsString-copied, strdup_lem}
use open_lib.Utill.Text.{Token, bind, strdup, strtok_r}
use open_lib.Utill.Text.Tokens.{Without, strtok_r_last}
use open_lib.Fat.Sector.{Bytes}
use open_lib.Fat.Volume.{Volume, resolve_by_prefix}
use open_lib.Fat.Entry.{DirectoryEntry}
use open_lib.Fat.Directory.{Directory, populate_root_dir}
use open_lib.Stream.Open.{backslash, walk_path, file_entry_for_path}

run_search :
    (fuel : ℕ) (partitions : List (Option Volume)) (v : Volume) (m : ℕ → ℕ)
    (path remaining cutpath delim n k : ℕ) (m2 : ℕ → ℕ) (dir : Directory) (t : Token)
    (entry : DirectoryEntry) (heaps : ℕ → ℕ → Bytes) (stack : Bytes)
    → strlen fuel m path ≡ some n
    → n - 2 ≡ k
    → resolve_by_prefix partitions (memcpy m remaining (path + 2) k path) ≡ some v
    → populate_root_dir fuel v (heaps fuel) stack ≡ some dir
    → (memcpy m remaining (path + 2) k remaining == backslash) ≡ true
    → strdup fuel (memcpy m remaining (path + 2) k) cutpath remaining ≡ some m2
    → strtok_r fuel m2 cutpath delim 0 ≡ some t
    → file_entry_for_path fuel partitions m path remaining cutpath delim entry heaps stack
      ≡ walk_path fuel v delim dir t entry heaps stack
unfolding file_entry_for_path
run_search fuel partitions v m path remaining cutpath delim n k m2 dir t entry heaps stack count
      copy volume listing there dup token =
    rw
      (
        count, file_entry_for_path, bind, copy, volume, listing, bind, copy, there, dup, bind,
        token, bind,
      )
      refl

-- The memory that `fopen` is called on: a path with one name at `path`, the delimiter, and the
-- two blocks, all apart; the byte behind the copy of the path is zero.
pub record PathAt (m : ℕ → ℕ) (path remaining cutpath delim drive colon : ℕ) (name : List ℕ)
    : Type 0 where
  pub text : IsString m path (drive ∷ colon ∷ backslash ∷ name)
  pub separator : IsString m delim (backslash ∷ [])
  pub cleared : m (remaining + (length name + 1)) ≡ 0
  pub plain : Without backslash name
  pub block : 0 < cutpath
  pub path_remaining : (path + length name + 3 < remaining) ⊎ (remaining + length name + 1 < path)
  pub path_cutpath : (path + length name + 3 < cutpath) ⊎ (cutpath + length name + 1 < path)
  pub delim_remaining : (delim + 1 < remaining) ⊎ (remaining + length name + 1 < delim)
  pub delim_cutpath : (delim + 1 < cutpath) ⊎ (cutpath + length name + 1 < delim)
  pub blocks : (cutpath + length name + 1 < remaining) ⊎ (remaining + length name + 1 < cutpath)

module _ (m : ℕ → ℕ) (path remaining cutpath delim drive colon : ℕ) (name : List ℕ)
    (at : PathAt m path remaining cutpath delim drive colon name) where
  -- The memory after the first copy.
  abbrev copied : ℕ → ℕ
  copied = memcpy m remaining (path + 2) (length name + 1)

  copied-lem : (j : ℕ) → copied j ≡ moved m remaining (path + 2) (length name + 1) j
  copied-lem j =
      memcpy_lem m remaining (path + 2) (length name + 1) j (omega (arith, at.path_remaining))

  copied_string : IsString copied remaining (backslash ∷ name)
  copied_string =
      IsString-copied m copied (path + 2) remaining (backslash ∷ name)
        (λ j h.
          let place : path + 2 + (remaining + j - remaining) ≡ path + 2 + j = omega arith in
          copied-lem (remaining + j) ∙ ground (arith, ap m place))
        (copied-lem (remaining + length (backslash ∷ name)) ∙ ground (arith, ap m end ∙ at.cleared))
        (subst (λ (q : ℕ). IsString m q (backslash ∷ name)) (omega arith) at.text.3.3)
    where
      end : remaining + length (backslash ∷ name) ≡ remaining + (length name + 1)
      end = omega arith

  -- Outside of the two blocks the memory is as before.
  prepared_same :
      (m2 : ℕ → ℕ) (j : ℕ)
      → ((i : ℕ) → (i < cutpath) ⊎ (cutpath + length (backslash ∷ name) < i) → m2 i ≡ copied i)
      → (j < cutpath) ⊎ (cutpath + length name + 1 < j)
      → (j < remaining) ⊎ (remaining + length name + 1 < j)
      → m2 j ≡ m j
  prepared_same m2 j same out out' = same j (omega arith) ∙ copied-lem j ∙ ground arith

  -- The search starts with the name as the first token, and nothing behind it.
  prepared :
      (fuel : ℕ)
      → length name + 3 < fuel
      → (m2 : ℕ → ℕ) × (strdup fuel copied cutpath remaining ≡ some m2)
        × (strtok_r fuel m2 cutpath delim 0
            ≡ some (record { begin = cutpath + 1; memory = m2; saveptr = 0 }))
        × IsString m2 (cutpath + 1) name
        × (m2 path ≡ drive)
  prepared fuel enough =
      let (m2, e, is, same) =
        strdup_lem (backslash ∷ name) fuel copied cutpath remaining copied_string
          (omega (arith, at.blocks)) (omega arith) in
      let sep : IsString m2 delim (backslash ∷ []) =
        IsString-same m m2 delim (backslash ∷ [])
          (λ j lo hi.
            prepared_same m2 j same (omega (arith, at.delim_cutpath))
              (omega (arith, at.delim_remaining)))
          at.separator in
      (
        m2,
        e,
        strtok_r_last m2 delim backslash 1 fuel cutpath 0 cutpath name sep
            (ground (arith, at.block)) at.block (λ j h. ap m2 (omega arith) ∙ is.0) is.3 at.plain
            (omega arith),
        is.3,
        prepared_same m2 path same (omega (arith, at.path_cutpath))
              (omega (arith, at.path_remaining))
            ∙ at.text.0,
      )

  pub searched :
      (fuel : ℕ) (partitions : List (Option Volume)) (v : Volume) (dir : Directory)
      (entry : DirectoryEntry) (heaps : ℕ → ℕ → Bytes) (stack : Bytes)
      → length name + 3 < fuel
      → resolve_by_prefix partitions drive ≡ some v
      → populate_root_dir fuel v (heaps fuel) stack ≡ some dir
      → (m2 : ℕ → ℕ) × (file_entry_for_path fuel partitions m path remaining cutpath delim entry
            heaps stack
          ≡ walk_path fuel v delim dir
              (record { begin = cutpath + 1; memory = m2; saveptr = 0 })
              entry
              heaps
              stack)
        × IsString m2 (cutpath + 1) name
        × (m2 path ≡ drive)
  searched fuel partitions v dir entry heaps stack enough volume listing =
      let (m2, dup, token, is, first) = prepared fuel enough in
      let count : strlen fuel m path ≡ some (length name + 3) =
        strlen_lem (drive ∷ colon ∷ backslash ∷ name) fuel m path at.text (omega arith)
        ∙ ap some (omega arith) in
      let drive_kept : copied path ≡ drive =
        copied-lem path ∙ ground (arith, at.path_remaining, at.text.0) in
      let kept : copied remaining ≡ backslash = copied_string.0 in
      let there : (copied remaining == backslash) ≡ true = ground arith in
      (
        m2,
        run_search fuel partitions v m path remaining cutpath delim (length name + 3)
            (length name + 1) m2 dir (record { begin = cutpath + 1; memory = m2; saveptr = 0 })
            entry heaps stack count (omega arith)
            (ap (resolve_by_prefix partitions) drive_kept ∙ volume) listing there dup token,
        is,
        first,
      )
