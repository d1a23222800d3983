-- ===== src/Stream/Whole.antt =====
-- A file read from its start by one `fread` (file.c), and by `FatReadFile` (fat32.c).
use open_lib.Common.{
  ℕ, zero, suc, ◌+◌, ◌-◌, ◌*◌, ◌/◌, ◌%◌, ◌^◌, ◌≤◌, ◌<◌, ◌≡◌, refl, sym, ap, ◌∙◌, arith, List, [],
  ◌∷◌, length, get_or, Option, some, ltb, leb, lt_signed, u32, true, false, Bool-cases, inl, inr,
}
use native.Mathlib.Nat.{zero-add, lt_of_mul-lt-mul_right}
use open_lib.Fat.Sector.{Bytes, blit}
use open_lib.Fat.Volume.{Volume, resolve_by_prefix}
use open_lib.Fat.Cluster.{eoc, get_cluster, next_cluster_id}
use open_lib.Fat.Entry.{DirectoryEntry}
use open_lib.Fat.File.{read_file}
use open_lib.Fat.File.Content.{IsFile, read_file_lem}
use open_lib.Stream.{Stream, Read, finish, fread_loop, fread, new_stream, amount}

-- Reads of a cluster bring the same bytes, whatever the buffer held. With one sector to a cluster
-- they do; with more, `FatGetCluster` leaves a part of the buffer as it was.
abbrev pub Settled : Volume → Type 0
Settled v =
    (m m' : Bytes) (c r : ℕ) → r < v.cluster_size → get_cluster v m c r ≡ get_cluster v m' c r

next-out : (k r left size : ℕ) → left ≤ size → suc k * size + r < left → ⊥
next-out k r left size fits within = omega arith

first-place : (size r : ℕ) → 0 * size + r ≡ r
first-place size r = omega arith

later-fits : (n left size : ℕ) → left ≤ (suc n + 1) * size → left - size ≤ (n + 1) * size
later-fits n left size fits = omega arith

later-place : (done k size r : ℕ) → done + (suc k * size + r) ≡ done + size + (k * size + r)
later-place done k size r = omega arith

later-within : (k r left size : ℕ) → suc k * size + r < left → k * size + r < left - size
later-within k r left size within = omega arith

module _ (v : Volume) (settled : Settled v) (pos : 0 < v.cluster_size)
    (small : v.cluster_size < 2 ^ 31) where
  -- At the start of a cluster, with `left` bytes to go of which `done` were read.
  record Progress (memory after : Bytes) (done left : ℕ) (cs : List ℕ) : Type 0 where
    kept : (j : ℕ) → (j < done) → after j ≡ memory j
    bytes :
        (m : Bytes) (k r : ℕ)
        → k < length cs
        → r < v.cluster_size
        → k * v.cluster_size + r < left
        → after (done + (k * v.cluster_size + r)) ≡ get_cluster v m (get_or cs k 0) r

  -- The round that reads the rest from one cluster.
  last_round :
      (fuel : ℕ) (memory : Bytes) (s : Stream) (left done : ℕ)
      → s.buffptr ≡ 0
      → 0 < left
      → left ≤ v.cluster_size
      → done + left < 2 ^ 31
      → fread_loop (suc fuel) v memory s left done
        ≡ some
            (finish (blit memory done s.currbuf 0 left) (record s { buffptr = left }) (done + left))
  unfolding fread_loop
  last_round fuel memory s left done zero_ptr more fits bound =
      let positive : lt_signed 0 left ≡ true = ground arith in
      let whole : ltb v.cluster_size left ≡ false = ground arith in
      let ptr : u32 (s.buffptr + left) ≡ left = omega arith in
      let count : u32 (done + left) ≡ done + left = omega arith in
      let from : 4 * s.buffptr ≡ 0 = omega arith in simp (positive, whole, ptr, count, from)

  -- The round that reads a whole cluster and goes on.
  cluster_round :
      (fuel : ℕ) (memory : Bytes) (s : Stream) (left done d : ℕ)
      → s.buffptr ≡ 0
      → v.cluster_size < left
      → done + left < 2 ^ 31
      → next_cluster_id v s.curr_cluster ≡ d
      → d < eoc
      → fread_loop (suc fuel) v memory s left done
        ≡ fread_loop fuel v
            (blit memory done s.currbuf 0 v.cluster_size)
            (record s { buffptr = 0; curr_cluster = d; currbuf = get_cluster v s.currbuf d })
            (left - v.cluster_size)
            (done + v.cluster_size)
  unfolding fread_loop
  cluster_round fuel memory s left done d zero_ptr more bound link inside =
      let positive : lt_signed 0 left ≡ true = ground arith in
      let end : u32 (s.buffptr + left) ≡ left = omega arith in
      let beyond : ltb v.cluster_size left ≡ true = ground arith in
      let ptr : u32 (v.cluster_size + (2 ^ 32 - s.buffptr)) ≡ v.cluster_size = omega arith in
      let rest : u32 (left + (2 ^ 32 - v.cluster_size)) ≡ left - v.cluster_size = omega arith in
      let count : u32 (done + v.cluster_size) ≡ done + v.cluster_size = omega arith in
      let from : 4 * s.buffptr ≡ 0 = omega arith in
      let goes_on : leb eoc d ≡ false = ground arith in
      simp (positive, end, beyond, ptr, rest, count, from, link, goes_on)

  -- What `blit` leaves below the place it writes at, and there.
  blit-kept : (memory src : Bytes) (at n j : ℕ) → j < at → blit memory at src 0 n j ≡ memory j
  blit-kept memory src at n j h = ground arith

  blit-bytes : (memory src : Bytes) (at n j : ℕ) → j < n → blit memory at src 0 n (at + j) ≡ src j
  blit-bytes memory src at n j h =
      let place : 0 + (at + j - at) ≡ j = omega arith in ground (arith, ap src place)

  last_bytes :
      (memory m : Bytes) (s : Stream) (left done : ℕ) (l : List ℕ)
      → ((r : ℕ) → r < v.cluster_size → s.currbuf r ≡ get_cluster v m s.curr_cluster r)
      → left ≤ v.cluster_size
      → (m' : Bytes) (k r : ℕ) → r < v.cluster_size
      → k * v.cluster_size + r < left
      → blit memory done s.currbuf 0 left (done + (k * v.cluster_size + r))
        ≡ get_cluster v m' (get_or (s.curr_cluster ∷ l) k 0) r
  last_bytes memory m s left done l buf fits m' zero r inside within =
      ap (λ x. blit memory done s.currbuf 0 left (done + x)) (first-place v.cluster_size r)
      ∙ (blit-bytes memory s.currbuf done left r (omega arith)
          ∙ buf r inside
          ∙ settled m m' s.curr_cluster r inside)
  last_bytes memory m s left done l buf fits m' (suc k) r inside within =
      absurd (next-out k r left v.cluster_size fits within)

  cluster_bytes :
      (memory after m : Bytes) (s : Stream) (left done d : ℕ) (l : List ℕ)
      → ((r : ℕ) → r < v.cluster_size → s.currbuf r ≡ get_cluster v m s.curr_cluster r)
      → v.cluster_size < left
      → Progress
          (blit memory done s.currbuf 0 v.cluster_size)
          after
          (done + v.cluster_size)
          (left - v.cluster_size)
          (d ∷ l)
      → (m' : Bytes) (k r : ℕ) → k < length (s.curr_cluster ∷ d ∷ l)
      → r < v.cluster_size
      → k * v.cluster_size + r < left
      → after (done + (k * v.cluster_size + r))
        ≡ get_cluster v m' (get_or (s.curr_cluster ∷ d ∷ l) k 0) r
  cluster_bytes memory after m s left done d l buf more further m' zero r h inside within =
      ap (λ x. after (done + x)) (first-place v.cluster_size r)
      ∙ (further.kept (done + r) (omega arith)
          ∙ blit-bytes memory s.currbuf done v.cluster_size r inside
          ∙ buf r inside
          ∙ settled m m' s.curr_cluster r inside)
  cluster_bytes memory after m s left done d l buf more further m' (suc k) r h inside within =
      let e : done + (suc k * v.cluster_size + r)
          ≡ done + v.cluster_size + (k * v.cluster_size + r) =
        later-place done k v.cluster_size r in
      ap after e
      ∙ further.bytes m' k r (omega arith) inside (later-within k r left v.cluster_size within)

  last-Progress :
      (memory m : Bytes) (s : Stream) (left done : ℕ) (l : List ℕ)
      → ((r : ℕ) → r < v.cluster_size → s.currbuf r ≡ get_cluster v m s.curr_cluster r)
      → left ≤ v.cluster_size
      → Progress memory (blit memory done s.currbuf 0 left) done left (s.curr_cluster ∷ l)
  last-Progress memory m s left done l buf fits = record {
    kept = λ j h. blit-kept memory s.currbuf done left j h;
    bytes =
        λ m' k r h inside within. last_bytes memory m s left done l buf fits m' k r inside within;
  }

  fread_loop_step :
      (fuel : ℕ) (memory m : Bytes) (s : Stream) (left done d : ℕ) (l : List ℕ)
      → next_cluster_id v s.curr_cluster ≡ d
      → d < eoc
      → s.buffptr ≡ 0
      → ((r : ℕ) → r < v.cluster_size → s.currbuf r ≡ get_cluster v m s.curr_cluster r)
      → v.cluster_size < left
      → done + left < 2 ^ 31
      → ((after : Read) × (fread_loop fuel v
              (blit memory done s.currbuf 0 v.cluster_size)
              (record s { buffptr = 0; curr_cluster = d; currbuf = get_cluster v s.currbuf d })
              (left - v.cluster_size)
              (done + v.cluster_size)
            ≡ some after)
          × (after.bytes_read ≡ done + v.cluster_size + (left - v.cluster_size))
          × Progress
              (blit memory done s.currbuf 0 v.cluster_size)
              after.memory
              (done + v.cluster_size)
              (left - v.cluster_size)
              (d ∷ l))
      → (after : Read) × (fread_loop (suc fuel) v memory s left done ≡ some after)
        × (after.bytes_read ≡ done + left)
        × Progress memory after.memory done left (s.curr_cluster ∷ d ∷ l)
  fread_loop_step fuel memory m s left done d l link inside zero_ptr buf more bound
        (after, e, count, further) =
      (
        after,
        cluster_round fuel memory s left done d zero_ptr more bound link inside ∙ e,
        omega arith,
        record {
          kept = λ j h.
              further.kept j (omega arith) ∙ blit-kept memory s.currbuf done v.cluster_size j h;
          bytes = cluster_bytes memory after.memory m s left done d l buf more further;
        },
      )

  fread_loop_lem :
      (l : List ℕ) (fuel : ℕ) (memory : Bytes) (s : Stream) (m : Bytes) (left done : ℕ)
      → IsFile v s.curr_cluster l
      → s.buffptr ≡ 0
      → ((r : ℕ) → r < v.cluster_size → s.currbuf r ≡ get_cluster v m s.curr_cluster r)
      → 0 < left
      → left < fuel
      → done + left < 2 ^ 31
      → left ≤ (length l + 1) * v.cluster_size
      → (after : Read) × (fread_loop fuel v memory s left done ≡ some after)
        × (after.bytes_read ≡ done + left)
        × Progress memory after.memory done left (s.curr_cluster ∷ l)
  fread_loop_lem l zero memory s m left done is zero_ptr buf more enough bound fits =
      absurd (omega arith)
  fread_loop_lem [] (suc fuel) memory s m left done is zero_ptr buf more enough bound fits = (
    finish (blit memory done s.currbuf 0 left) (record s { buffptr = left }) (done + left),
    last_round fuel memory s left done zero_ptr more (omega arith) bound,
    refl,
    last-Progress memory m s left done [] buf (omega arith),
  )
  fread_loop_lem (d ∷ l) (suc fuel) memory s m left done is zero_ptr buf more enough bound fits =
      elim (Bool-cases (ltb v.cluster_size left)) [
        | inl more' ↦
            fread_loop_step fuel memory m s left done d l is.0 is.1 zero_ptr buf (ground arith)
              bound
              (fread_loop_lem l fuel (blit memory done s.currbuf 0 v.cluster_size)
                (record s { buffptr = 0; curr_cluster = d; currbuf = get_cluster v s.currbuf d })
                s.currbuf (left - v.cluster_size) (done + v.cluster_size) is.2 refl (λ r h. refl)
                (ground arith) (ground arith) (ground arith)
                (later-fits (length l) left v.cluster_size fits))
        | inr last ↦ (
          finish (blit memory done s.currbuf 0 left) (record s { buffptr = left }) (done + left),
          last_round fuel memory s left done zero_ptr more (ground arith) bound,
          refl,
          last-Progress memory m s left done (d ∷ l) buf (ground arith),
        )
      ]

  fread-amount :
      (partitions : List (Option Volume)) (memory : Bytes) (size nmemb : ℕ) (s : Stream) (n : ℕ)
      → resolve_by_prefix partitions s.path ≡ some v
      → amount s size nmemb ≡ n
      → fread partitions memory size nmemb s ≡ fread_loop (n + 1) v memory s n 0
  unfolding fread
  fread-amount partitions memory size nmemb s n volume all = ground (arith, volume, all)

  -- Let what `FatGetCluster` brings not depend on what the buffer held (`Settled`, as with one
  -- sector to a cluster), and let the clusters have 1 to 2 ^ 31 - 1 bytes. Then a stream opened on a
  -- file that is not empty, with a chain of clusters long enough for its size, and read by one call,
  -- for the size of the file or more bytes below 2 ^ 31, gives the bytes that `FatReadFile` puts into
  -- memory for the same entry, and their number.
  pub fread-new_stream :
      (partitions : List (Option Volume)) (entry : DirectoryEntry) (path : ℕ)
      (fresh memory memory' stack : Bytes) (l : List ℕ) (n : ℕ)
      → resolve_by_prefix partitions path ≡ some v
      → IsFile v entry.first_cluster l
      → length l < eoc
      → 0 < entry.file_size
      → entry.file_size ≤ n
      → n < 2 ^ 31
      → entry.file_size ≤ (length l + 1) * v.cluster_size
      → (r : Read) × (file : Bytes) × (fread partitions memory n 1 (new_stream v entry path fresh)
          ≡ some r)
        × (read_file v entry memory' stack ≡ some file)
        × (r.bytes_read ≡ entry.file_size)
        × ((i : ℕ) → i < entry.file_size → r.memory i ≡ file i)
  unfolding fread new_stream
  fread-new_stream partitions entry path fresh memory memory' stack l n volume is few more bound
        wide fits =
      let size = entry.file_size in
      let all : amount (new_stream v entry path fresh) n 1 ≡ size = ground arith in
      let (r, e, count, progress) =
        fread_loop_lem l (size + 1) memory (new_stream v entry path fresh) fresh size 0 is refl
          (λ j h. refl) more (omega arith) (omega arith) fits in
      let (file, e', copied) = read_file_lem v entry memory' stack l is few in
      (
        r,
        file,
        fread-amount partitions memory n 1 (new_stream v entry path fresh) size volume all ∙ e,
        e',
        count ∙ zero-add size,
        λ i h.
            let k = i / v.cluster_size in
            let j = i % v.cluster_size in
            let split : k * v.cluster_size + j ≡ i = omega arith in
            let inside : j < v.cluster_size = omega arith in
            let cluster : k < length l + 1 = lt_of_mul-lt-mul_right v.cluster_size (omega arith) in
            ap r.memory (sym split ∙ sym (zero-add (k * v.cluster_size + j)))
            ∙ progress.bytes stack k j (omega arith) inside (omega arith)
            ∙ sym (copied k j (omega arith) inside (omega arith))
            ∙ ap file split,
      )
