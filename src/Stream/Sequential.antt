-- ===== src/Stream/Sequential.antt =====
-- Two calls of `fread` (file.c) on one stream, in one cluster.
use open_lib.Common.{
  ℕ, zero, suc, ◌+◌, ◌-◌, ◌*◌, ◌^◌, ◌≤◌, ◌<◌, ◌≡◌, refl, ap, arith, List, Option, some, ltb,
  lt_signed, u32, true, false,
}
use open_lib.Fat.Sector.{Bytes, blit}
use open_lib.Fat.Volume.{Volume, resolve_by_prefix}
use open_lib.Stream.{Stream, Read, fread_loop, fread, amount}

-- What a read of `n` bytes that stays in the buffered cluster leaves.
abbrev pub after_read : Bytes → Stream → ℕ → Read
after_read memory s n = record {
  memory = blit memory 0 s.currbuf (4 * s.buffptr) n;
  stream = record s { buffptr = s.buffptr + n; fptr = s.fptr + n };
  bytes_read = n;
}

fread_loop-in_cluster :
    (fuel : ℕ) (v : Volume) (memory : Bytes) (s : Stream) (n : ℕ)
    → 0 < fuel
    → 0 < n
    → s.buffptr + n ≤ v.cluster_size
    → s.fptr + n < 2 ^ 31
    → v.cluster_size < 2 ^ 31
    → fread_loop fuel v memory s n 0 ≡ some (after_read memory s n)
unfolding fread_loop
fread_loop-in_cluster zero v memory s n h more fits bound small = absurd (omega arith)
fread_loop-in_cluster (suc fuel) v memory s n h more fits bound small =
    let positive : lt_signed 0 n ≡ true = ground arith in
    let ptr : u32 (s.buffptr + n) ≡ s.buffptr + n = omega arith in
    let whole : ltb v.cluster_size (s.buffptr + n) ≡ false = ground arith in
    let count : u32 (0 + n) ≡ n = omega arith in
    let index : u32 (s.fptr + n) ≡ s.fptr + n = omega arith in
    simp (positive, ptr, whole, count, index)

pub fread-in_cluster :
    (partitions : List (Option Volume)) (v : Volume) (memory : Bytes) (s : Stream) (n : ℕ)
    → resolve_by_prefix partitions s.path ≡ some v
    → 0 < n
    → s.buffptr + n ≤ v.cluster_size
    → v.cluster_size < 2 ^ 31
    → s.fptr + n ≤ s.file_size
    → s.file_size < 2 ^ 31
    → fread partitions memory n 1 s ≡ some (after_read memory s n)
unfolding fread
fread-in_cluster partitions v memory s n volume more fits small within bound =
    let all : amount s n 1 ≡ n = ground arith in
    let e : fread_loop (n + 1) v memory s n 0 ≡ some (after_read memory s n) =
      fread_loop-in_cluster (n + 1) v memory s n (omega arith) more fits (omega arith) small in
    ground (arith, volume, all, e)

-- Two reads in a row from the front of the buffer of a fresh stream, both inside the first cluster
-- and the file, return the numbers of bytes asked for
-- and move the stream on by their sum; but the second takes its bytes from four times the number
-- that were read by the first, since the buffer is an array of `UINT`.
pub fread-fread :
    (partitions : List (Option Volume)) (v : Volume) (memory memory' : Bytes) (s : Stream) (n k : ℕ)
    → resolve_by_prefix partitions s.path ≡ some v
    → s.buffptr ≡ 0
    → s.fptr ≡ 0
    → 0 < n
    → 0 < k
    → n + k ≤ v.cluster_size
    → v.cluster_size < 2 ^ 31
    → n + k ≤ s.file_size
    → s.file_size < 2 ^ 31
    → (first second : Read) × (fread partitions memory n 1 s ≡ some first)
      × (fread partitions memory' k 1 first.stream ≡ some second)
      × (first.bytes_read ≡ n)
      × (second.bytes_read ≡ k)
      × (second.stream.fptr ≡ n + k)
      × ((j : ℕ) → j < n → first.memory j ≡ s.currbuf j)
      × ((j : ℕ) → j < k → second.memory j ≡ s.currbuf (4 * n + j))
fread-fread partitions v memory memory' s n k volume zero_ptr zero_fptr more more' fits small within
      bound =
    let first = after_read memory s n in
    (
      first,
      after_read memory' first.stream k,
      fread-in_cluster partitions v memory s n volume more (omega arith) small (omega arith) bound,
      fread-in_cluster partitions v memory' first.stream k volume more' (omega arith) small
          (omega arith) bound,
      refl,
      refl,
      omega arith,
      λ j h.
          let place : 4 * s.buffptr + (j - 0) ≡ j = omega arith in
          ground (arith, ap s.currbuf place),
      λ j h.
          let place : 4 * (s.buffptr + n) + (j - 0) ≡ 4 * n + j = omega arith in
          ground (arith, ap s.currbuf place),
    )
