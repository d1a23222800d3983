-- ===== src/Stream/Tests.antt =====
-- Runs of the streams and of the file handles on a small volume, and their theorems at those inputs.
use open_lib.Common.{
  ℕ, ◌+◌, ◌-◌, ◌*◌, ◌%◌, ◌<◌, ◌≡◌, refl, arith, true, false, ◌&&◌, List, [], ◌∷◌, ap, length,
  Option, none, some, ◌==◌, ltb, leb, if◌then◌else◌, get_or, ◌⊎◌, for_range, u32,
}
use open_lib.Utill.{strlen}
use open_lib.Utill.Strings.{IsString}
use open_lib.Fat.Sector.{Bytes, get_sector, read_disk_ex}
use open_lib.Fat.Volume.{Volume, resolve_by_prefix, trim_spaces}
use open_lib.Fat.Cluster.{get_cluster, sector_for_cluster}
use open_lib.Fat.Entry.{DirectoryEntry, read_directory_entry, count_long, short_name}
use open_lib.Fat.Directory.{
  populate_dir, populate_from, populate_cluster, next_directory_entry, populate_root_dir,
}
use open_lib.Fat.File.{read_file}
use open_lib.Fat.File.Content.{IsFile}
use open_lib.Fat.Tests.{blank, volume}
use open_lib.Stream.{Stream, Read, fread, new_stream}
use open_lib.Stream.Whole.{Settled, fread-new_stream}
use open_lib.Stream.Sequential.{fread-fread}
use open_lib.Stream.Open.{backslash, fopen}
use open_lib.Stream.Open.Path.{PathAt}
use open_lib.Stream.Open.Result.{fopen-found, fopen-absent}
use open_lib.Stream.Handle.{
  generic_all, generic_read, generic_write, open_existing, IoFile, Files, Opening, open_path,
  nt_create_file, nt_read_file, ReadResult, io_file, leave_file,
}
use open_lib.Stream.Handle.Laws.{MayRead, HasRead, nt_read_file_lem, nt_create_file-nt_create_file}
use open_lib.Stream.Handle.Through.{Stored, nt_read_file-nt_create_file}

-- The entry of A.TXT, of 700 bytes from cluster 6 on.
abbrev root_bytes : Bytes
root_bytes j =
    get_or
      (b'A' ∷ 32 ∷ 32 ∷ 32 ∷ 32 ∷ 32 ∷ 32 ∷ 32 ∷ b'T' ∷ b'X' ∷ b'T' ∷ 0x20 ∷ 0 ∷ 0 ∷ 0 ∷ 0 ∷ 0 ∷ 0
        ∷ 0 ∷ 0 ∷ 0 ∷ 0 ∷ 0 ∷ 0 ∷ 0 ∷ 0 ∷ 6 ∷ 0 ∷ 0xBC ∷ 2 ∷ [])
      j 0

-- The file: every 32 bytes one that marks a deleted entry, and bytes that count up between.
abbrev file_bytes : Bytes
file_bytes j = if j % 32 == 0 then 0xE5 else j % 32

abbrev chain : ℕ → ℕ
chain j = if j == 6 then 7 else if ltb j 8 then 0x0ffffff8 else 0

abbrev stored : Volume
stored = record (volume 1) {
  fat = chain;
  disk = λ s j.
      if s == 2084 then root_bytes j else if leb 2088 s && leb s 2089 then file_bytes j else 0;
}

abbrev mounted : List (Option Volume)
mounted = none ∷ some stored ∷ []

stored-Settled : Settled stored
unfolding get_cluster get_sector read_disk_ex for_range
stored-Settled m m' c r h = ground arith

unfoldable stored_name : Bytes
unfolding get_cluster get_sector read_disk_ex for_range short_name trim_spaces strlen
    sector_for_cluster
stored_name = elim (short_name (get_cluster stored blank 2) 0 blank blank) [
  | none ↦ blank
  | some n ↦ n
]

abbrev stored_entry : DirectoryEntry
stored_entry = record { name = stored_name; dir_attrs = 0x20; first_cluster = 6; file_size = 700 }

IsFile-stored : IsFile stored 6 (7 ∷ [])
IsFile-stored = (refl, omega arith, λ h. absurd (omega arith))

fread-new_stream_example :
    (r : Read) × (file : Bytes) × (fread mounted blank 1000 1
        (new_stream stored stored_entry b'C' blank)
      ≡ some r)
    × (read_file stored stored_entry blank blank ≡ some file)
    × (r.bytes_read ≡ 700)
    × ((i : ℕ) → i < 700 → r.memory i ≡ file i)
unfolding resolve_by_prefix
fread-new_stream_example =
    fread-new_stream stored stored-Settled (omega arith) (omega arith) mounted stored_entry b'C'
      blank blank blank blank (7 ∷ []) 1000 refl IsFile-stored (omega arith) (omega arith)
      (omega arith) (omega arith) (omega arith)

fread-fread_example :
    (first second : Read) × (fread mounted blank 10 1 (new_stream stored stored_entry b'C' blank)
      ≡ some first)
    × (fread mounted blank 20 1 first.stream ≡ some second)
    × (first.bytes_read ≡ 10)
    × (second.bytes_read ≡ 20)
    × (second.stream.fptr ≡ 30)
    × ((j : ℕ) → j < 10 → first.memory j ≡ (new_stream stored stored_entry b'C' blank).currbuf j)
    × ((j : ℕ)
        → j < 20
        → second.memory j ≡ (new_stream stored stored_entry b'C' blank).currbuf (4 * 10 + j))
unfolding resolve_by_prefix new_stream
fread-fread_example =
    fread-fread mounted stored blank blank (new_stream stored stored_entry b'C' blank) 10 20 refl
      refl refl (omega arith) (omega arith) (omega arith) (omega arith) (omega arith) (omega arith)

-- "C:\A.TXT" at 1000, "C:\B" at 1100, and the delimiter at 10.
abbrev path_memory : ℕ → ℕ
path_memory j =
    if leb 1000 j && ltb j 1008
    then get_or (b'C' ∷ b':' ∷ backslash ∷ b'A' ∷ b'.' ∷ b'T' ∷ b'X' ∷ b'T' ∷ []) (j - 1000) 0
    else if leb 1100 j && ltb j 1104
    then get_or (b'C' ∷ b':' ∷ backslash ∷ b'B' ∷ []) (j - 1100) 0
    else if j == 10
    then backslash
    else 0

PathAt-found :
    PathAt path_memory 1000 2000 3000 10 b'C' b':' (b'A' ∷ b'.' ∷ b'T' ∷ b'X' ∷ b'T' ∷ [])
PathAt-found = record {
  text = ground arith;
  separator = ground arith;
  cleared = refl;
  plain = (
    λ e. omega arith,
    (λ e. omega arith, (λ e. omega arith, (λ e. omega arith, (λ e. omega arith, record {})))),
  );
  block = omega arith;
  path_remaining = omega arith;
  path_cutpath = omega arith;
  delim_remaining = omega arith;
  delim_cutpath = omega arith;
  blocks = omega arith;
}

abbrev opening : Opening
opening = record {
  partitions = mounted;
  memory = path_memory;
  remaining = 2000;
  cutpath = 3000;
  delim = 10;
  entry = stored_entry;
  heaps = λ k i. blank;
  stack = blank;
  fresh = blank;
}

root_listing :
    populate_root_dir 9 stored (λ i. blank) blank
    ≡ some (record { cluster = 2; entries = stored_entry ∷ [] })
unfolding get_cluster get_sector read_disk_ex for_range short_name trim_spaces strlen
    sector_for_cluster populate_dir populate_from populate_cluster next_directory_entry
    read_directory_entry count_long stored_name
root_listing = refl

inner_listing :
    populate_dir 8 stored 6 (λ i. blank) blank ≡ some (record { cluster = 6; entries = [] })
unfolding get_cluster get_sector read_disk_ex for_range sector_for_cluster populate_dir
    populate_from populate_cluster
inner_listing = refl

named_a_txt : IsString stored_name 0 (b'A' ∷ b'.' ∷ b'T' ∷ b'X' ∷ b'T' ∷ [])
unfolding get_cluster get_sector read_disk_ex for_range short_name trim_spaces strlen
    sector_for_cluster stored_name
named_a_txt = ground arith

stored_path :
    Stored 7 opening stored 1000 b'C' b':'
      (b'A' ∷ b'.' ∷ b'T' ∷ b'X' ∷ b'T' ∷ [])
      []
      []
      stored_entry
      2
      (record { cluster = 6; entries = [] })
unfolding resolve_by_prefix
stored_path = record {
  at = PathAt-found;
  enough = omega arith;
  small = omega arith;
  mounted = refl;
  listing = root_listing;
  others = record {};
  named = named_a_txt;
  inner = inner_listing;
}

abbrev no_file : IoFile
no_file = io_file 0 0 0 0 0 0 0 none

abbrev no_files : Files
no_files = record { blocks = λ p. no_file; allocated = λ p. false }

nt_read_file-nt_create_file_example :
    (h' : Files) × (r : ReadResult) × (file : Bytes) × (nt_create_file 9 opening no_files 5000 1000
        generic_all 0 0 open_existing 0 0
      ≡ some (h', 5000))
    × (nt_read_file mounted h' 5000 blank 1000 0 ≡ some r)
    × (read_file stored stored_entry blank blank ≡ some file)
    × (r.success ≡ true)
    × (r.number_of_bytes_read ≡ 700)
    × ((i : ℕ) → i < 700 → r.memory i ≡ file i)
nt_read_file-nt_create_file_example =
    nt_read_file-nt_create_file 7 opening stored no_files 5000 1000 b'C' b':'
      (b'A' ∷ b'.' ∷ b'T' ∷ b'X' ∷ b'T' ∷ []) [] [] stored_entry 2
      (record { cluster = 6; entries = [] }) blank blank 1000 0 (7 ∷ []) stored_path stored-Settled
      (omega arith) (omega arith) (omega arith) IsFile-stored (omega arith) (omega arith)
      (omega arith) (omega arith) (omega arith)

PathAt-absent : PathAt path_memory 1100 2000 3000 10 b'C' b':' (b'B' ∷ [])
PathAt-absent = record {
  text = ground arith;
  separator = ground arith;
  cleared = refl;
  plain = (λ e. omega arith, record {});
  block = omega arith;
  path_remaining = omega arith;
  path_cutpath = omega arith;
  delim_remaining = omega arith;
  delim_cutpath = omega arith;
  blocks = omega arith;
}

fopen-absent_example :
    fopen 9 mounted path_memory 1100 2000 3000 10 stored_entry (λ k i. blank) blank blank
    ≡ some none
unfolding resolve_by_prefix
fopen-absent_example =
    fopen-absent 8 mounted stored path_memory 1100 2000 3000 10 b'C' b':' (b'B' ∷ [])
      (record { cluster = 2; entries = stored_entry ∷ [] }) stored_entry (λ k i. blank) blank blank
      PathAt-absent (omega arith) refl root_listing
      (
        (
          b'A' ∷ b'.' ∷ b'T' ∷ b'X' ∷ b'T' ∷ [],
          named_a_txt,
          omega arith,
          λ e. ground (arith, ap length e),
        ),
        record {},
      )

-- The file, opened to be read.
abbrev readable : Files
readable = leave_file no_files 5000 (
    io_file 1000 generic_read 0 0 open_existing 0 0
      (some (new_stream stored stored_entry b'C' blank)))

nt_read_file_lem_example :
    ((MayRead readable 5000 → ⊥) ⊎ ((readable.blocks 5000).stream ≡ none)
      → nt_read_file mounted readable 5000 blank 512 0
        ≡ some (record {
          files = readable;
          memory = blank;
          number_of_bytes_read = 0;
          success = false;
        }))
    × ((s : Stream) (r : Read)
        → MayRead readable 5000
        → (readable.blocks 5000).stream ≡ some s
        → fread mounted blank (u32 512) 1 s ≡ some r
        → (q : ReadResult) × (nt_read_file mounted readable 5000 blank 512 0 ≡ some q)
          × HasRead readable 5000 r q)
nt_read_file_lem_example = nt_read_file_lem mounted readable 5000 blank 512 0

a_txt_opened : open_path 9 opening 1000 ≡ some (some (new_stream stored stored_entry b'C' blank))
unfolding resolve_by_prefix
a_txt_opened =
    fopen-found 7 mounted stored path_memory 1000 2000 3000 10 b'C' b':'
      (b'A' ∷ b'.' ∷ b'T' ∷ b'X' ∷ b'T' ∷ []) [] [] stored_entry stored_entry 2
      (record { cluster = 6; entries = [] }) (λ k i. blank) blank blank PathAt-found (omega arith)
      (omega arith) refl root_listing (record {}) named_a_txt inner_listing

b_not_opened : open_path 9 opening 1100 ≡ some none
unfolding resolve_by_prefix
b_not_opened =
    fopen-absent 8 mounted stored path_memory 1100 2000 3000 10 b'C' b':' (b'B' ∷ [])
      (record { cluster = 2; entries = stored_entry ∷ [] }) stored_entry (λ k i. blank) blank blank
      PathAt-absent (omega arith) refl root_listing
      (
        (
          b'A' ∷ b'.' ∷ b'T' ∷ b'X' ∷ b'T' ∷ [],
          named_a_txt,
          omega arith,
          λ e. ground (arith, ap length e),
        ),
        record {},
      )

nt_create_file-nt_create_file_example :
    (h1 h2 : Files) × (nt_create_file 9 opening no_files 5000 1000 generic_read 0 0 open_existing 0
        0
      ≡ some (h1, 5000))
    × (h1.allocated 5000 ≡ false)
    × ((h1.blocks 5000).stream ≡ some (new_stream stored stored_entry b'C' blank))
    × (nt_create_file 9 opening h1 5000 1100 generic_write 0 0 open_existing 0 0 ≡ some (h2, 5000))
    × ((h2.blocks 5000).stream ≡ none)
    × ((h2.blocks 5000).desired_access ≡ generic_write)
nt_create_file-nt_create_file_example =
    nt_create_file-nt_create_file 9 opening opening no_files 5000 1000 1100 generic_read
      generic_write open_existing open_existing (some (new_stream stored stored_entry b'C' blank))
      none (omega arith) (omega arith) a_txt_opened b_not_opened
