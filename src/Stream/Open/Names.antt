-- ===== src/Stream/Open/Names.antt =====
-- The search for a name in the entries of a directory, in `FileEntryForPath` (file.c).
use open_lib.Common.{
  ℕ, ◌+◌, ◌-◌, ◌^◌, ◌<◌, ◌≡◌, ◌≢◌, refl, ap, ◌∙◌, arith, List, [], ◌∷◌, ◌++◌, length, none, some,
  ◌==◌, ◌↔◌, true, false,
}
use open_lib.Utill.{strcmp}
use open_lib.Utill.Strings.{IsString, strcmp_lem}
use open_lib.Utill.Text.Copies.{IsString-same, IsString-copied, IsString-end}
use open_lib.Fat.Sector.{Bytes}
use open_lib.Fat.Entry.{DirectoryEntry}
use open_lib.Fat.Directory.{side_by_side, same_name}
use open_lib.Stream.Open.{find_entry}

same_name_of :
    (fuel : ℕ) (a b : Bytes) (r : ℕ)
    → strcmp fuel (side_by_side a b) 0 (2 ^ 32) ≡ some r
    → same_name fuel a b ≡ some (r == 0)
unfolding same_name
same_name_of fuel a b r e = rw (e, same_name) refl

-- `strcmp` tells two names apart.
same_name_lem :
    (a b : Bytes) (k l : List ℕ)
    → IsString a 0 k
    → IsString b 0 l
    → length k < 2 ^ 32
    → (r : ℕ) × (same_name (2 ^ 32) a b ≡ some (r == 0)) × ((r ≡ 0) ↔ (k ≡ l))
same_name_lem a b k l is js small =
    let both = side_by_side a b in
    let first : IsString both 0 k = IsString-same a both 0 k (λ j lo hi. ground arith) is in
    let second : IsString both (2 ^ 32) l =
      IsString-copied b both 0 (2 ^ 32) l
        (λ j h. let place : 2 ^ 32 + j - 2 ^ 32 ≡ 0 + j = omega arith in ground (arith, ap b place))
        (let place : 2 ^ 32 + length l - 2 ^ 32 ≡ 0 + length l = omega arith in
          ground (arith, ap b place ∙ IsString-end b 0 l js))
        js in
    let (r, e, iff) = strcmp_lem k l (2 ^ 32) both 0 (2 ^ 32) first second small in
    (r, same_name_of (2 ^ 32) a b r e, iff)

-- The entries' names are strings, and none of them is `name`.
abbrev pub Others : List ℕ → List DirectoryEntry → Type 0
Others name [] = Unit {0}
Others name (d ∷ ds) =
    ((k : List ℕ) × IsString d.name 0 k × (length k < 2 ^ 32) × (k ≢ name)) × Others name ds

pub find_entry-absent :
    (name : List ℕ) (text : Bytes) (ds : List DirectoryEntry)
    → IsString text 0 name
    → Others name ds
    → find_entry ds text ≡ some none
unfolding find_entry
find_entry-absent name text [] is others = refl
find_entry-absent name text (d ∷ ds) is ((k, js, small, ne), others) =
    let (r, e, iff) = same_name_lem d.name text k name js is small in
    let other : (r == 0) ≡ false = ground (arith, iff, ne) in
    rw (e, other) (find_entry-absent name text ds is others)

pub find_entry-first :
    (name : List ℕ) (text : Bytes) (before after : List DirectoryEntry) (d : DirectoryEntry)
    → IsString text 0 name
    → Others name before
    → IsString d.name 0 name
    → length name < 2 ^ 32
    → find_entry (before ++ d ∷ after) text ≡ some (some d)
unfolding find_entry
find_entry-first name text [] after d is others js small =
    let (r, e, iff) = same_name_lem d.name text name name js is small in
    let same : (r == 0) ≡ true = ground (arith, iff.1 refl) in rw (e, same) refl
find_entry-first name text (x ∷ before) after d is ((k, ks, small', ne), others) js small =
    let (r, e, iff) = same_name_lem x.name text k name ks is small' in
    let other : (r == 0) ≡ false = ground (arith, iff, ne) in
    rw (e, other) (find_entry-first name text before after d is others js small)
