-- ===== src/Stream/Handle.antt =====
-- File handles, ntoskrnl/fsrtl/drive.c. A handle is the address of an `IO_FILE`; the blocks of
-- the heap that hold one are a function of the address, with those that are allocated. Each call of
-- `malloc` gives the address it is told. NULL is 0.
pub mod Laws
pub mod Through
use open_lib.Common.{
  ℕ, zero, suc, ◌+◌, ◌-◌, ◌%◌, ◌^◌, Bool, true, false, not, ◌&&◌, ◌||◌, List, Option, none, some,
  ◌==◌, ltb, if◌then◌else◌, update, u32,
}
use open_lib.Utill.Text.{bind}
use open_lib.Fat.Sector.{Bytes}
use open_lib.Fat.Volume.{Volume}
use open_lib.Fat.Entry.{DirectoryEntry}
use open_lib.Stream.{Stream, Read, fread}
use open_lib.Stream.Open.{fopen}

abbrev pub generic_read : ℕ
generic_read = 1

abbrev pub generic_write : ℕ
generic_write = 2

abbrev pub generic_all : ℕ
generic_all = 3

abbrev pub open_existing : ℕ
open_existing = 3

-- `IO_FILE`; a `Stream` of `none` is NULL.
pub record IoFile : Type 0 where
  pub file_name : ℕ
  pub desired_access : ℕ
  pub share_mode : ℕ
  pub security_attributes : ℕ
  pub creation_disposition : ℕ
  pub flags_and_attributes : ℕ
  pub template_file : ℕ
  pub stream : Option Stream

pub record Files : Type 0 where
  pub blocks : ℕ → IoFile
  pub allocated : ℕ → Bool

-- What a call of `fopen` finds in the memory and in its variables.
pub record Opening : Type 0 where
  pub partitions : List (Option Volume)
  pub memory : ℕ → ℕ
  pub remaining : ℕ
  pub cutpath : ℕ
  pub delim : ℕ
  pub entry : DirectoryEntry
  pub heaps : ℕ → ℕ → Bytes
  pub stack : Bytes
  pub fresh : Bytes

abbrev pub open_path : ℕ → Opening → ℕ → Option (Option Stream)
open_path fuel o path =
    fopen fuel o.partitions o.memory path o.remaining o.cutpath o.delim o.entry o.heaps o.stack
      o.fresh

-- The `IO_FILE` that `NtCreateFile` fills in.
abbrev pub io_file : ℕ → ℕ → ℕ → ℕ → ℕ → ℕ → ℕ → Option Stream → IoFile
io_file name access share security disposition flags template s = record {
  file_name = name;
  desired_access = access;
  share_mode = share;
  security_attributes = security;
  creation_disposition = disposition;
  flags_and_attributes = flags;
  template_file = template;
  stream = s;
}

-- The block is written, and freed.
abbrev pub leave_file : Files → ℕ → IoFile → Files
leave_file h block f = record {
  blocks = update h.blocks block f;
  allocated = update h.allocated block false;
}

-- The handle that `NtCreateFile` returns is a block that it has freed.
unfoldable pub nt_create_file :
    ℕ → Opening → Files → ℕ → ℕ → ℕ → ℕ → ℕ → ℕ → ℕ → ℕ → Option (Files × ℕ)
nt_create_file fuel o h block name access share security disposition flags template =
    if disposition == 0
    then some (h, 0)
    else bind (open_path fuel o name) (λ s.
      some (
        leave_file h block (io_file name access share security disposition flags template s),
        block,
      ))

-- `NtWriteFile` checks the access, and touches neither the file nor the number of bytes written.
unfoldable pub nt_write_file : Files → ℕ → Bool
nt_write_file h file =
    if file == 0
    then false
    else not (
        not ((h.blocks file).desired_access == generic_write)
        && not ((h.blocks file).desired_access == generic_all))

-- What `NtReadFile` leaves: the files, the memory of the buffer, `*nNumberOfBytesRead`, the result.
pub record ReadResult : Type 0 where
  pub files : Files
  pub memory : Bytes
  pub number_of_bytes_read : ℕ
  pub success : Bool

-- An INT as a ULONG.
abbrev pub sign_extend : ℕ → ℕ
sign_extend n = if ltb n (2 ^ 31) then n else n + (2 ^ 64 - 2 ^ 32)

abbrev pub read_done : Files → ℕ → Read → ReadResult
read_done h file r = record {
  files = record h {
    blocks = update h.blocks file (record (h.blocks file) { stream = some r.stream });
  };
  memory = r.memory;
  number_of_bytes_read = sign_extend r.bytes_read;
  success = true;
}

unfoldable pub nt_read_file : List (Option Volume) → Files → ℕ → Bytes → ℕ → ℕ → Option ReadResult
nt_read_file partitions h file memory number_of_bytes_to_read number_of_bytes_read =
    let refused : Option ReadResult = some (record {
      files = h;
      memory = memory;
      number_of_bytes_read = number_of_bytes_read;
      success = false;
    }) in
    let access = (h.blocks file).desired_access in
    if file == 0
    then refused
    else if not (access == generic_read) && not (access == generic_all)
    then refused
    else if not ((h.blocks file).creation_disposition == open_existing)
    then refused
    else elim (h.blocks file).stream [
      | none ↦ refused
      | some s ↦
          bind (fread partitions memory (u32 number_of_bytes_to_read) 1 s)
            (λ r. some (read_done h file r))
    ]

-- `NtClose` frees the stream of the handle, and leaves the handle as it is.
unfoldable pub nt_close : Files → ℕ → Option Stream
nt_close h file = (h.blocks file).stream
