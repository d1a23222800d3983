-- ===== src/Stream/Handle/Laws.antt =====
-- `NtCreateFile`, `NtReadFile` and `NtWriteFile` (drive.c) on every branch, and one after the other.
use open_lib.Common.{
  ℕ, ◌+◌, ◌-◌, ◌^◌, ◌<◌, ◌≤◌, ◌≡◌, ◌≢◌, refl, arith, true, false, not, ◌&&◌, List, Option, none,
  some, ◌==◌, u32, ◌⊎◌, inl, inr, ◌↔◌, Bool-cases,
}
use open_lib.Utill.Text.{bind}
use open_lib.Fat.Sector.{Bytes}
use open_lib.Fat.Volume.{Volume}
use open_lib.Stream.{Stream, Read, fread}
use open_lib.Stream.Handle.{
  generic_read, generic_write, generic_all, open_existing, Files, io_file, leave_file, Opening,
  open_path, nt_create_file, nt_write_file, ReadResult, read_done, nt_read_file,
}

-- The handle lets its holder read.
abbrev pub MayRead : Files → ℕ → Type 0
MayRead h file =
    (0 < file)
    × (((h.blocks file).desired_access ≡ generic_read)
        ⊎ ((h.blocks file).desired_access ≡ generic_all))
    × ((h.blocks file).creation_disposition ≡ open_existing)

one_of :
    (access : ℕ)
    → (not (access == generic_read) && not (access == generic_all)) ≡ false
    → (access ≡ generic_read) ⊎ (access ≡ generic_all)
one_of access e = elim (Bool-cases (access == generic_read)) [
  | inl reads ↦ inl (ground arith)
  | inr other ↦ inr (ground arith)
]

module _ (partitions : List (Option Volume)) (h : Files) (file : ℕ) (memory : Bytes)
    (n count : ℕ) where
  abbrev pub Refused : Type 0
  Refused =
      nt_read_file partitions h file memory n count
      ≡ some (record { files = h; memory = memory; number_of_bytes_read = count; success = false })

  nt_read_file-null : file ≡ 0 → Refused
  unfolding nt_read_file
  nt_read_file-null e = ground arith

  nt_read_file-access :
      (not ((h.blocks file).desired_access == generic_read)
          && not ((h.blocks file).desired_access == generic_all))
        ≡ true
      → Refused
  unfolding nt_read_file
  nt_read_file-access e = ground (arith, e)

  nt_read_file-disposition :
      ((h.blocks file).creation_disposition == open_existing) ≡ false → Refused
  unfolding nt_read_file
  nt_read_file-disposition e = ground (arith, e)

  nt_read_file-unopened : (h.blocks file).stream ≡ none → Refused
  unfolding nt_read_file
  nt_read_file-unopened e = ground (arith, e)

  nt_read_file-refused : (MayRead h file → ⊥) → Refused
  nt_read_file-refused may = elim (Bool-cases (file == 0)) [
    | inl null ↦ nt_read_file-null (ground arith)
    | inr pos ↦
        elim (Bool-cases (
          not ((h.blocks file).desired_access == generic_read)
          && not ((h.blocks file).desired_access == generic_all))) [
            | inl access ↦ nt_read_file-access access
            | inr access ↦
                elim (Bool-cases ((h.blocks file).creation_disposition == open_existing)) [
                  | inl existing ↦ absurd (
                      may
                        (ground arith, one_of (h.blocks file).desired_access access, ground arith))
                  | inr other ↦ nt_read_file-disposition other
                ]
          ]
  ]

-- What `NtReadFile` leaves of a handle `file` whose stream `fread` has read to `r`.
pub record HasRead (h : Files) (file : ℕ) (r : Read) (q : ReadResult) : Type 0 where
  pub returned : q.success ≡ true
  pub number : r.bytes_read < 2 ^ 31 → q.number_of_bytes_read ≡ r.bytes_read
  pub wide_number :
      2 ^ 31 ≤ r.bytes_read → q.number_of_bytes_read ≡ r.bytes_read + (2 ^ 64 - 2 ^ 32)
  pub buffer : q.memory ≡ r.memory
  pub moved : q.files.blocks file ≡ record (h.blocks file) { stream = some r.stream }
  pub others : (i : ℕ) → i ≢ file → q.files.blocks i ≡ h.blocks i
  pub same_heap : q.files.allocated ≡ h.allocated

read_done-HasRead : (h : Files) (file : ℕ) (r : Read) → HasRead h file r (read_done h file r)
read_done-HasRead h file r = record {
  returned = refl;
  number = λ narrow. ground arith;
  wide_number = λ wide. ground arith;
  buffer = refl;
  moved = ground arith;
  others = λ i ne. ground arith;
  same_heap = refl;
}

nt_read_file-read_done :
    (partitions : List (Option Volume)) (h : Files) (file : ℕ) (memory : Bytes) (n count : ℕ)
    (s : Stream) (r : Read)
    → MayRead h file
    → (h.blocks file).stream ≡ some s
    → fread partitions memory (u32 n) 1 s ≡ some r
    → nt_read_file partitions h file memory n count ≡ some (read_done h file r)
unfolding nt_read_file
nt_read_file-read_done partitions h file memory n count s r may opened e =
    ground (arith, may.0, may.1, may.2, opened, e)

-- `NtReadFile` checks its handle. Without the right to read, or for another disposition than
-- OPEN_EXISTING, or without a stream, it returns FALSE and changes nothing. With them, and when
-- `fread` of the stream ends, it returns TRUE with the bytes in the buffer and their number, from
-- 2 ^ 31 on as a negative INT is extended to 64 bits; the handle keeps the stream as `fread` leaves
-- it and is else as before, and so is every other handle.
pub nt_read_file_lem :
    (partitions : List (Option Volume)) (h : Files) (file : ℕ) (memory : Bytes) (n count : ℕ)
    → ((MayRead h file → ⊥) ⊎ ((h.blocks file).stream ≡ none)
        → nt_read_file partitions h file memory n count
          ≡ some (record {
            files = h;
            memory = memory;
            number_of_bytes_read = count;
            success = false;
          }))
      × ((s : Stream) (r : Read)
          → MayRead h file
          → (h.blocks file).stream ≡ some s
          → fread partitions memory (u32 n) 1 s ≡ some r
          → (q : ReadResult) × (nt_read_file partitions h file memory n count ≡ some q)
            × HasRead h file r q)
nt_read_file_lem partitions h file memory n count = (
  λ refused. elim refused [
    | inl may ↦ nt_read_file-refused partitions h file memory n count may
    | inr unopened ↦ nt_read_file-unopened partitions h file memory n count unopened
  ],
  λ s r may opened e. (
    read_done h file r,
    nt_read_file-read_done partitions h file memory n count s r may opened e,
    read_done-HasRead h file r,
  ),
)

-- `NtWriteFile` returns TRUE exactly on a handle other than NULL whose access is GENERIC_WRITE or
-- GENERIC_ALL.
nt_write_file_lem :
    (h : Files) (file : ℕ)
    → (nt_write_file h file ≡ true) ↔ (
        (0 < file)
        × (((h.blocks file).desired_access ≡ generic_write)
            ⊎ ((h.blocks file).desired_access ≡ generic_all)))
unfolding nt_write_file
nt_write_file_lem h file = (
  λ e. (
    ground (arith, e),
    elim (Bool-cases ((h.blocks file).desired_access == generic_write)) [
      | inl writes ↦ inl (ground arith)
      | inr other ↦ inr (ground (arith, e))
    ],
  ),
  λ may. elim may.1 [
    | inl writes ↦ ground (arith, may.0, writes)
    | inr all ↦ ground (arith, may.0, all)
  ],
)

pub nt_create_file_of :
    (fuel : ℕ) (o : Opening) (h : Files)
    (block name access share security disposition flags template : ℕ) (s : Option Stream)
    → 0 < disposition
    → open_path fuel o name ≡ some s
    → nt_create_file fuel o h block name access share security disposition flags template
      ≡ some (
        leave_file h block (io_file name access share security disposition flags template s),
        block,
      )
unfolding nt_create_file
nt_create_file_of fuel o h block name access share security disposition flags template s pos e =
    let some_way : (disposition == 0) ≡ false = ground arith in rw (some_way, e, bind) refl

-- A handle is not kept. The block of the handle that `NtCreateFile` returns is free again; if the
-- next call is given it by `malloc`, both handles are the same, and the first one has become the
-- second file.
pub nt_create_file-nt_create_file :
    (fuel : ℕ) (o o' : Opening) (h : Files)
    (block name name' access access' disposition disposition' : ℕ) (s s' : Option Stream)
    → 0 < disposition
    → 0 < disposition'
    → open_path fuel o name ≡ some s
    → open_path fuel o' name' ≡ some s'
    → (h1 h2 : Files) × (nt_create_file fuel o h block name access 0 0 disposition 0 0
        ≡ some (h1, block))
      × (h1.allocated block ≡ false)
      × ((h1.blocks block).stream ≡ s)
      × (nt_create_file fuel o' h1 block name' access' 0 0 disposition' 0 0 ≡ some (h2, block))
      × ((h2.blocks block).stream ≡ s')
      × ((h2.blocks block).desired_access ≡ access')
nt_create_file-nt_create_file fuel o o' h block name name' access access' disposition disposition' s
      s' pos pos' e e' =
    let h1 = leave_file h block (io_file name access 0 0 disposition 0 0 s) in
    (
      h1,
      leave_file h1 block (io_file name' access' 0 0 disposition' 0 0 s'),
      nt_create_file_of fuel o h block name access 0 0 disposition 0 0 s pos e,
      ground arith,
      ground arith,
      nt_create_file_of fuel o' h1 block name' access' 0 0 disposition' 0 0 s' pos' e',
      ground arith,
      ground arith,
    )
