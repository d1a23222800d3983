-- ===== src/Stream.antt =====
-- File streams, ntoskrnl/drv/filesystem/fat32/file.c. A stream's buffer is an array of UINT, so
-- `currbuf + buffptr` lies four bytes further for each unit; the buffer is seen here as the bytes
-- from its start. `partitions` is the array of mounted volumes. A result of `none` is a loop that
-- has not ended in its fuel.
pub mod Sequential
pub mod Whole
pub mod Open
pub mod Handle
mod Tests
use open_lib.Common.{
  ℕ, zero, suc, ◌+◌, ◌-◌, ◌*◌, ◌%◌, ◌^◌, Bool, ◌&&◌, List, Option, none, some, ◌==◌, ltb, leb,
  if◌then◌else◌, u32, lt_signed,
}
use open_lib.Fat.Sector.{Bytes, blit}
use open_lib.Fat.Volume.{Volume, resolve_by_prefix}
use open_lib.Fat.Cluster.{eoc, get_cluster, next_cluster_id}
use open_lib.Fat.Entry.{DirectoryEntry}

-- `FILE`; of the path only the first character is ever used.
pub record Stream : Type 0 where
  pub curr_cluster : ℕ
  pub file_size : ℕ
  pub fptr : ℕ
  pub buffptr : ℕ
  pub path : ℕ
  pub currbuf : Bytes

-- What a read leaves: the reader's memory, the stream and the count.
pub record Read : Type 0 where
  pub memory : Bytes
  pub stream : Stream
  pub bytes_read : ℕ

-- `stream->fptr += bytes_read; return bytes_read;`
abbrev pub finish : Bytes → Stream → ℕ → Read
finish memory s bytes_read = record {
  memory = memory;
  stream = record s { fptr = u32 (s.fptr + bytes_read) };
  bytes_read = bytes_read;
}

-- The loop of `fread`. The number of bytes that is left is an INT, and compares unsigned with the
-- size of the cluster.
unfoldable pub fread_loop : ℕ → Volume → Bytes → Stream → ℕ → ℕ → Option Read
fread_loop zero v memory s bytes_to_read bytes_read = none
fread_loop (suc fuel) v memory s bytes_to_read bytes_read =
    let in_cluster = u32 (v.cluster_size + (2 ^ 32 - s.buffptr)) in
    let next = next_cluster_id v s.curr_cluster in
    let memory' = blit memory bytes_read s.currbuf (4 * s.buffptr) in_cluster in
    let moved : Stream = record s { buffptr = 0; curr_cluster = next } in
    let further =
      fread_loop fuel v memory' (record moved { currbuf = get_cluster v s.currbuf next })
        (u32 (bytes_to_read + (2 ^ 32 - in_cluster))) (u32 (bytes_read + in_cluster)) in
    let last =
      finish (blit memory bytes_read s.currbuf (4 * s.buffptr) bytes_to_read)
        (record s { buffptr = u32 (s.buffptr + bytes_to_read) })
        (u32 (bytes_read + bytes_to_read)) in
    if lt_signed 0 bytes_to_read
    then (if ltb v.cluster_size (u32 (s.buffptr + bytes_to_read))
        then (if leb eoc next
            then some (finish memory' moved (u32 (bytes_read + in_cluster)))
            else further)
        else some last)
    else some (finish memory s bytes_read)

-- The number of bytes that `fread` sets out to read.
abbrev pub amount : Stream → ℕ → ℕ → ℕ
amount s size nmemb =
    let wanted = u32 (size * nmemb) in
    if ltb s.file_size (u32 (s.fptr + wanted))
    then u32 (s.file_size + (2 ^ 32 - s.fptr))
    else wanted

-- Each round but the last passes a cluster, so there are fewer rounds than bytes.
unfoldable pub fread : List (Option Volume) → Bytes → ℕ → ℕ → Stream → Option Read
fread partitions memory size nmemb s = elim (resolve_by_prefix partitions s.path) [
  | none ↦ some (record { memory = memory; stream = s; bytes_read = 0 })
  | some v ↦ fread_loop (amount s size nmemb + 1) v memory s (amount s size nmemb) 0
]

-- What `fopen` makes of the entry it finds and of the first character of the path; `fresh` is
-- what `malloc` returns.
unfoldable pub new_stream : Volume → DirectoryEntry → ℕ → Bytes → Stream
new_stream v entry path fresh = record {
  curr_cluster = entry.first_cluster;
  file_size = entry.file_size;
  fptr = 0;
  buffptr = 0;
  path = path;
  currbuf = get_cluster v fresh entry.first_cluster;
}
