-- ===== src/Fat/Entry/Read.antt =====
-- `FatReadDirectoryEntry` of fat32.c on the entries of a file that was written.
use open_lib.Common.{
  ℕ, zero, suc, ◌+◌, ◌-◌, ◌*◌, ◌/◌, ◌%◌, ◌^◌, ◌≤◌, ◌<◌, ◌≡◌, ◌≢◌, refl, sym, ap, ◌∙◌, arith, bit_or,
  true, false, not, List, length, get_or, some, ◌==◌, ltb, if◌then◌else◌, update, for_range,
  for_range_inv, ◌⊎◌, all_below, all_below_sound,
}
use open_lib.Fat.Sector.{Bytes, read_integer16, read_integer32}
use open_lib.Fat.LongName.{lfn, check_sum_fname, write_entry, write_long_name}
use open_lib.Fat.LongName.Write.{EntryIs, EntryIs-same, write_entries_lem, write_entry-elsewhere}
use open_lib.Fat.LongName.Parse.{IsPrintable, marked-Written, parse_long_name-EntryIs}
use open_lib.Fat.Entry.{
  write_83_file_name, write_long_file_name_entries, required_entries, write_fields, write_entries,
  count_long, is_free, found, read_directory_entry,
}
use open_lib.Fat.Entry.Short.{write_83_file_name-elsewhere}

count_long_lem :
    (k fuel : ℕ) (m : Bytes) (entry end count total : ℕ)
    → k < fuel
    → count + k ≡ total
    → ((i : ℕ) → i < k → m (entry + i * 32 + 11) ≡ lfn)
    → m (entry + k * 32 + 11) ≢ lfn
    → entry + k * 32 < end
    → count_long fuel m entry end count ≡ some (total, entry + k * 32)
unfolding count_long
count_long_lem k zero m entry end count total f e is last inside = absurd (omega arith)
count_long_lem zero (suc fuel) m entry end count total f e is last inside = ground arith
count_long_lem (suc k) (suc fuel) m entry end count total f e is last inside =
    let here : m (entry + 11) ≡ lfn = ap m (omega arith) ∙ is 0 (omega arith) in
    let rest : count_long fuel m (entry + 32) end (count + 1) ≡ some (total, entry + 32 + k * 32) =
      count_long_lem k fuel m (entry + 32) end (count + 1) total (omega arith) (omega arith)
        (λ i h. ap m (omega arith) ∙ is (suc i) (omega arith)) (λ z. last (ap m (omega arith) ∙ z))
        (omega arith) in
    ground (arith, here, rest)

-- The long entries of the name from `start` on, and the entry of the file behind them.
pub record EntriesAre (fname : List ℕ) (num attrs first_cluster flen : ℕ) (m : Bytes) (start : ℕ)
    : Type 0 where
  pub longs :
      (i : ℕ)
      → i < num
      → EntryIs fname (λ j. m (start + j)) ((num - 1 - i) * 32) i
        × (m (start + (num - 1 - i) * 32) % 16 ≡ i + 1)
  pub head : is_free (m start) ≡ false
  pub kind : m (start + num * 32 + 11) ≡ attrs
  pub cluster :
      read_integer16 m (start + num * 32 + 20) * 2 ^ 16 + read_integer16 m (start + num * 32 + 26)
      ≡ first_cluster
  pub size : read_integer32 m (start + num * 32 + 28) ≡ flen

module _ (fname : List ℕ) (num attrs first_cluster flen : ℕ) (m : Bytes) (start : ℕ) where
  -- Only the bytes of the entries count.
  pub EntriesAre-same :
      (m' : Bytes)
      → 0 < num
      → EntriesAre fname num attrs first_cluster flen m start
      → ((p : ℕ) → start ≤ p → p < start + num * 32 + 32 → m' p ≡ m p)
      → EntriesAre fname num attrs first_cluster flen m' start
  EntriesAre-same m' pos is same =
      let at = start + num * 32 in
      let b : (k : ℕ) → k < 32 → m' (at + k) ≡ m (at + k) =
        λ k lt. same (at + k) (omega arith) (omega arith) in
      record {
        longs = λ i h. (
          EntryIs-same fname (λ j. m (start + j)) (λ j. m' (start + j)) ((num - 1 - i) * 32) i
              (is.longs i h).0 (λ p lo hi. same (start + p) (omega arith) (omega arith)),
          rw (same (start + (num - 1 - i) * 32) (omega arith) (omega arith)) (is.longs i h).1,
        );
        head = rw (same start (omega arith) (omega arith)) is.head;
        kind = b 11 (omega arith) ∙ is.kind;
        cluster =
            rw
              (
                same (at + 20 + 1) (omega arith) (omega arith),
                same (at + 20) (omega arith) (omega arith),
                same (at + 26 + 1) (omega arith) (omega arith),
                same (at + 26) (omega arith) (omega arith),
              )
              is.cluster;
        size =
            rw
              (
                same (at + 28 + 3) (omega arith) (omega arith),
                same (at + 28 + 2) (omega arith) (omega arith),
                same (at + 28 + 1) (omega arith) (omega arith),
                same (at + 28) (omega arith) (omega arith),
              )
              is.size;
      }

  EntriesAre-count_long :
      (end : ℕ)
      → num < 16
      → attrs ≢ lfn
      → EntriesAre fname num attrs first_cluster flen m start
      → start + num * 32 < end
      → count_long (end - start) m start end 0 ≡ some (num, start + num * 32)
  EntriesAre-count_long end few ne is inside =
      count_long_lem num (end - start) m start end 0 num (omega arith) (omega arith)
        (λ i h.
          let kind = (is.longs (num - 1 - i) (omega arith)).0.kind in ap m (omega arith) ∙ kind)
        (λ z. ne (sym is.kind ∙ z)) inside

  -- The entries are read as one, whatever stands around them.
  pub read-EntriesAre :
      (end : ℕ) (memory stack : Bytes)
      → IsPrintable fname
      → 0 < num
      → num < 16
      → attrs ≢ lfn
      → EntriesAre fname num attrs first_cluster flen m start
      → start + num * 32 < end
      → (name : Bytes) × (read_directory_entry m start end memory stack
          ≡ some (
              found (start + num * 32 + 32) (record {
                name = name;
                dir_attrs = attrs;
                first_cluster = first_cluster;
                file_size = flen;
              })))
        × ((q : ℕ) → name q ≡ (if ltb q (13 * num) then get_or fname q 0 else memory q))
  unfolding read_directory_entry
  read-EntriesAre end memory stack printable pos few ne is inside =
      let (name, parsed, chars) =
        parse_long_name-EntryIs fname (λ j. m (start + j)) memory num printable is.longs in
      let count : num % 256 ≡ num = omega arith in
      let some_long : ltb 0 num ≡ true = ground arith in
      (
        name,
        rw
            (
              is.head,
              EntriesAre-count_long end few ne is inside,
              some_long,
              count,
              parsed,
              is.kind,
              is.cluster,
              is.size,
            )
            refl,
        chars,
      )

first_table : all_below 16 (λ n. not (is_free (bit_or n 0x40))) ≡ true
unfolding all_below
first_table = refl

marked-is_free : (n : ℕ) → n < 16 → is_free (bit_or n 0x40) ≡ false
marked-is_free n h =
    ground (arith, all_below_sound 16 (λ n. not (is_free (bit_or n 0x40))) n first_table h)

-- The fields of an entry, read again.
fields_read :
    (at attrs first_cluster flen : ℕ) (m : Bytes)
    → first_cluster < 2 ^ 32
    → flen < 2 ^ 32
    → let w = write_fields at attrs first_cluster flen m in
      (w (at + 11) ≡ attrs)
      × (read_integer16 w (at + 20) * 2 ^ 16 + read_integer16 w (at + 26) ≡ first_cluster)
      × (read_integer32 w (at + 28) ≡ flen)
fields_read at attrs first_cluster flen m hc hf =
    let w = write_fields at attrs first_cluster flen m in
    let b20 : w (at + 20) ≡ first_cluster / 2 ^ 16 % 256 = ground arith in
    let b21 : w (at + 20 + 1) ≡ first_cluster / 2 ^ 24 % 256 = ground arith in
    let b26 : w (at + 26) ≡ first_cluster % 256 = ground arith in
    let b27 : w (at + 26 + 1) ≡ first_cluster / 2 ^ 8 % 256 = ground arith in
    let b28 : w (at + 28) ≡ flen % 256 = ground arith in
    let b29 : w (at + 28 + 1) ≡ flen / 2 ^ 8 % 256 = ground arith in
    let b30 : w (at + 28 + 2) ≡ flen / 2 ^ 16 % 256 = ground arith in
    let b31 : w (at + 28 + 3) ≡ flen / 2 ^ 24 % 256 = ground arith in
    (ground arith, rw (b20, b21, b26, b27) (omega arith), rw (b28, b29, b30, b31) (omega arith))

module _ (fname : List ℕ) (checksum num start attrs first_cluster flen : ℕ) (m : Bytes) where
  abbrev pub looped : Bytes
  looped = for_range num 0 (write_entry fname checksum start num) m

  abbrev pub named : Bytes
  named = update looped start (bit_or (looped start) 0x40)

  abbrev pub written : Bytes
  written =
      write_fields (start + num * 32) attrs first_cluster flen
        (write_83_file_name fname (start + num * 32) named)

  written-named : (p : ℕ) → p < start + num * 32 → written p ≡ named p
  written-named p h = ground (arith, write_83_file_name-elsewhere fname (start + num * 32) p named)

  written-EntryIs :
      num < 16
      → (i : ℕ) → i < num
      → EntryIs fname (λ j. written (start + j)) ((num - 1 - i) * 32) i
        × (written (start + (num - 1 - i) * 32) % 16 ≡ i + 1)
  written-EntryIs few i h =
      let (is, number) = marked-Written fname checksum start num m i few h in
      (
        EntryIs-same fname (λ j. named (start + j)) (λ j. written (start + j)) ((num - 1 - i) * 32)
            i is (λ p lo hi. written-named (start + p) (omega arith)),
        rw (written-named (start + (num - 1 - i) * 32) (omega arith)) number,
      )

  written-is_free : 0 < num → num < 16 → is_free (written start) ≡ false
  written-is_free pos few =
      let number = (write_entries_lem fname checksum start num m (num - 1) (omega arith)).1 in
      let place : start + (num - 1 - (num - 1)) * 32 ≡ start = omega arith in
      let count : (num - 1 + 1) % 256 ≡ num = omega arith in
      let head : looped start ≡ num = ap looped (sym place) ∙ number ∙ count in
      let byte : written start ≡ bit_or num 0x40 =
        written-named start (omega arith) ∙ ground (arith, head) in
      rw byte (marked-is_free num few)

  pub written-EntriesAre :
      0 < num
      → num < 16
      → first_cluster < 2 ^ 32
      → flen < 2 ^ 32
      → EntriesAre fname num attrs first_cluster flen written start
  written-EntriesAre pos few hc hf =
      let (a, c, f) =
        fields_read (start + num * 32) attrs first_cluster flen
          (write_83_file_name fname (start + num * 32) named) hc hf in
      record {
        longs = written-EntryIs few;
        head = written-is_free pos few;
        kind = a;
        cluster = c;
        size = f;
      }

  looped-elsewhere : (p : ℕ) → (p < start) ⊎ (start + num * 32 + 32 ≤ p) → looped p ≡ m p
  looped-elsewhere p out =
      for_range_inv (λ n (b : Bytes). b p ≡ m p) (write_entry fname checksum start num) num 0 num m
        (λ n b lo hi same.
          write_entry-elsewhere fname checksum start num n b p (omega arith) ∙ same)
        (omega arith) refl

  -- The entries are written in their place alone.
  pub written-elsewhere :
      (p : ℕ) → 0 < num → (p < start) ⊎ (start + num * 32 + 32 ≤ p) → written p ≡ m p
  written-elsewhere p few out =
      ground (
        arith,
        looped-elsewhere p out,
        write_83_file_name-elsewhere fname (start + num * 32) p named,
      )

-- A file that is entered is found again: the entries that `FatWriteFileImplementation` writes for
-- a printable name of 1 to 195 characters are read by `FatReadDirectoryEntry` as one entry, with
-- that name, the attributes, the first cluster and the size, and the reading goes on right behind
-- them. This holds unless the entries reach the end of the cluster, or the attributes are those of
-- a long name.
pub read_directory_entry-write_entries :
    (fname : List ℕ) (start attrs first_cluster flen end : ℕ) (local m memory stack : Bytes)
    → IsPrintable fname
    → 0 < length fname
    → length fname ≤ 195
    → attrs ≢ lfn
    → first_cluster < 2 ^ 32
    → flen < 2 ^ 32
    → start + required_entries (length fname) * 32 < end
    → (m' name : Bytes) × (write_entries fname start attrs first_cluster flen local m ≡ some m')
      × (read_directory_entry m' start end memory stack
          ≡ some (
              found (start + required_entries (length fname) * 32 + 32) (record {
                name = name;
                dir_attrs = attrs;
                first_cluster = first_cluster;
                file_size = flen;
              })))
      × ((q : ℕ)
          → name q
            ≡ (if ltb q (13 * required_entries (length fname)) then get_or fname q 0 else memory q))
unfolding write_entries write_long_file_name_entries write_long_name
read_directory_entry-write_entries fname start attrs first_cluster flen end local m memory stack
      printable pos few ne hc hf inside =
    let num = required_entries (length fname) in
    let checksum = check_sum_fname (write_83_file_name fname 0 (update local 11 0)) in
    let positive : 0 < num = ground arith in
    let nonzero : (num == 0) ≡ false = ground arith in
    let (name, reading, chars) =
      read-EntriesAre fname num attrs first_cluster flen
        (written fname checksum num start attrs first_cluster flen m) start end memory stack
        printable positive (ground arith) ne
        (written-EntriesAre fname checksum num start attrs first_cluster flen m positive
          (ground arith) hc hf)
        inside in
    (
      written fname checksum num start attrs first_cluster flen m,
      name,
      rw (nonzero, write_entries) refl,
      reading,
      chars,
    )
