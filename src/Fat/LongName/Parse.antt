-- ===== src/Fat/LongName/Parse.antt =====
-- `FatParseLongName` of fat32.c on entries that hold a name.
use mathlib.Core.Path.{subst}
use open_lib.Common.{
  ℕ, zero, suc, ◌+◌, ◌-◌, ◌*◌, ◌%◌, ◌≤◌, ◌<◌, ◌≡◌, refl, ◌∙◌, ◌⊎◌, inl, inr, bit_or, arith, true,
  ◌&&◌, List, [], ◌∷◌, some, ◌==◌, ==_iff, Bool-cases, ltb, leb, if◌then◌else◌, update, for_range,
  get_or, length, all_below, all_below_sound,
}
use open_lib.Fat.Sector.{Bytes}
use open_lib.Fat.LongName.{
  clean, name_char, take_chars, parse_entry, parse_from, parse_long_name, write_entry,
  write_long_name,
}
use open_lib.Fat.LongName.Write.{EntryIs, write_entries_lem}

take_chars_miss :
    (entries : Bytes) (at rounds to q : ℕ) (name : Bytes)
    → (q < to) ⊎ (to + rounds ≤ q)
    → take_chars entries at rounds to name q ≡ name q
unfolding take_chars
take_chars_miss entries at zero to q name out = refl
take_chars_miss entries at (suc rounds) to q name out =
    take_chars_miss entries (at + 2) rounds (to + 1) q _ (ground arith) ∙ ground arith

take_chars_hit :
    (entries : Bytes) (at rounds to k : ℕ) (name : Bytes)
    → k < rounds
    → take_chars entries at rounds to name (to + k) ≡ clean (entries (at + 2 * k))
unfolding take_chars
take_chars_hit entries at zero to k name h = absurd (omega arith)
take_chars_hit entries at (suc rounds) to zero name h =
    let here : at + 2 * 0 ≡ at = omega arith in
    rw
      (
        take_chars_miss entries (at + 2) rounds (to + 1) (to + 0)
            (update name to (clean (entries at))) (inl (omega arith)),
        here,
      )
      (ground arith)
take_chars_hit entries at (suc rounds) to (suc k) name h =
    let place : to + suc k ≡ to + 1 + k = omega arith in
    let source : at + 2 * suc k ≡ at + 2 + 2 * k = omega arith in
    rw (place, source) (take_chars_hit entries (at + 2) rounds (to + 1) k _ (omega arith))

take_chars_lem :
    (entries : Bytes) (at rounds to q : ℕ) (name : Bytes)
    → take_chars entries at rounds to name q
      ≡ (if leb to q && ltb q (to + rounds) then clean (entries (at + 2 * (q - to))) else name q)
take_chars_lem entries at rounds to q name = elim (Bool-cases (leb to q && ltb q (to + rounds))) [
  | inl inside ↦
      let place : to + (q - to) ≡ q = ground arith in
      rw inside (
        subst (λ p. take_chars entries at rounds to name p ≡ clean (entries (at + 2 * (q - to))))
          place (take_chars_hit entries at rounds to (q - to) name (ground arith)))
  | inr outside ↦ rw outside (take_chars_miss entries at rounds to q name (ground arith))
]

-- The thirteen characters of an entry go to their place in the name.
parse_entry_lem :
    (fname : List ℕ) (entries name : Bytes) (e i q : ℕ)
    → EntryIs fname entries e i
    → parse_entry entries e (13 * i) name q
      ≡ (if leb (13 * i) q && ltb q (13 * i + 13) then clean (name_char fname q) else name q)
unfolding parse_entry
parse_entry_lem fname entries name e i q is =
    let first = take_chars entries (e + 1) 5 (13 * i) name in
    let second = take_chars entries (e + 14) 6 (13 * i + 5) first in
    ground (
      arith,
      take_chars_lem entries (e + 28) 2 (13 * i + 11) q second,
      take_chars_lem entries (e + 14) 6 (13 * i + 5) q first,
      take_chars_lem entries (e + 1) 5 (13 * i) q name,
      is.front (q - 13 * i),
      is.middle (q - (13 * i + 5)),
      is.back (q - (13 * i + 11)),
    )

-- The characters of a name are printable ASCII.
abbrev pub IsPrintable : List ℕ → Type 0
IsPrintable [] = Unit {0}
IsPrintable (c ∷ cs) = (32 ≤ c) × (c ≤ 127) × IsPrintable cs

clean-get_or :
    (fname : List ℕ) (q : ℕ) → IsPrintable fname → clean (get_or fname q 0) ≡ get_or fname q 0
clean-get_or [] q p = refl
clean-get_or (c ∷ cs) zero p = ground arith
clean-get_or (c ∷ cs) (suc q) p = clean-get_or cs q p.2

get_or_past : (fname : List ℕ) (q : ℕ) → length fname ≤ q → get_or fname q 0 ≡ 0
get_or_past [] q h = refl
get_or_past (c ∷ cs) zero h = absurd (omega arith)
get_or_past (c ∷ cs) (suc q) h = get_or_past cs q (omega arith)

clean-name_char :
    (fname : List ℕ) (q : ℕ) → IsPrintable fname → clean (name_char fname q) ≡ get_or fname q 0
clean-name_char fname q p = ground (arith, clean-get_or fname q p, get_or_past fname q)

-- The entries stand from the last part of the name to the first.
parse_from_lem :
    (fname : List ℕ) (entries : Bytes) (num left k : ℕ) (name : Bytes)
    → k + left ≡ num
    → ((i : ℕ)
        → i < num
        → EntryIs fname entries ((num - 1 - i) * 32) i
          × (entries ((num - 1 - i) * 32) % 16 ≡ i + 1))
    → (name' : Bytes) × (parse_from entries num left k name ≡ some name')
      × ((q : ℕ) → name' q ≡ (if ltb q (13 * left) then clean (name_char fname q) else name q))
unfolding parse_from
parse_from_lem fname entries num zero k name e is = (name, refl, λ q. ground arith)
parse_from_lem fname entries num (suc left) k name e is =
    let place : (num - 1 - left) * 32 ≡ k * 32 = omega arith in
    let (entry, number) = is left (omega arith) in
    let here : EntryIs fname entries (k * 32) left = rw (← place) entry in
    let no : entries (k * 32) % 16 ≡ left + 1 = rw (← place) number in
    let to : (entries (k * 32) % 16 - 1) * 13 ≡ 13 * left = omega arith in
    let next = parse_entry entries (k * 32) (13 * left) name in
    let (name', parsed, chars) =
      parse_from_lem fname entries num left (k + 1) next (omega arith) is in
    (
      name',
      ground arith,
      λ q. ground (arith, chars q, parse_entry_lem fname entries name (k * 32) left q here),
    )

-- The end bit leaves the four bits of the number alone.
number_table : all_below 16 (λ n. bit_or n 0x40 % 16 == n) ≡ true
unfolding all_below
number_table = refl

number_marked : (n : ℕ) → n < 16 → bit_or n 0x40 % 16 ≡ n
number_marked n h = (==_iff _ n).0 (all_below_sound 16 _ n number_table h)

-- The entries that the parser is given, after the end bit was set in the first.
pub marked-Written :
    (fname : List ℕ) (checksum start num : ℕ) (m : Bytes) (i : ℕ)
    → num < 16
    → i < num
    → let loop = for_range num 0 (write_entry fname checksum start num) m in
      let entries = λ (j : ℕ). update loop start (bit_or (loop start) 0x40) (start + j) in
      EntryIs fname entries ((num - 1 - i) * 32) i × (entries ((num - 1 - i) * 32) % 16 ≡ i + 1)
marked-Written fname checksum start num m i few below =
    let (is, number) = write_entries_lem fname checksum start num m i below in
    let no = number_marked (i + 1) (omega arith) in
    (
      record {
        front = λ k h. ground (arith, is.front k);
        middle = λ k h. ground (arith, is.middle k);
        back = λ k h. ground (arith, is.back k);
        kind = ground (arith, is.kind);
      },
      ground arith,
    )

-- The parser on entries that hold the parts of a name, the last part first.
pub parse_long_name-EntryIs :
    (fname : List ℕ) (entries name : Bytes) (num : ℕ)
    → IsPrintable fname
    → ((i : ℕ)
        → i < num
        → EntryIs fname entries ((num - 1 - i) * 32) i
          × (entries ((num - 1 - i) * 32) % 16 ≡ i + 1))
    → (name' : Bytes) × (parse_long_name entries num name ≡ some name')
      × ((q : ℕ) → name' q ≡ (if ltb q (13 * num) then get_or fname q 0 else name q))
unfolding parse_long_name
parse_long_name-EntryIs fname entries name num printable is =
    let (name', parsed, chars) = parse_from_lem fname entries num num 0 name (omega arith) is in
    (name', parsed, λ q. ground (arith, chars q, clean-name_char fname q printable))

-- Long names survive: a printable name of at most fifteen entries, written by
-- `FatWriteLongFileNameEntries`, is parsed by `FatParseLongName` character by character, with
-- zeros up to the end of the last entry. What lies behind is as `malloc` left it, so a name that
-- fills its entries has no terminator.
pub parse_long_name-write_long_name :
    (fname : List ℕ) (checksum start num : ℕ) (m name : Bytes)
    → IsPrintable fname
    → 0 < num
    → num < 16
    → (m' name' : Bytes) × (write_long_name fname checksum start num m ≡ some m')
      × (parse_long_name (λ j. m' (start + j)) num name ≡ some name')
      × ((q : ℕ) → name' q ≡ (if ltb q (13 * num) then get_or fname q 0 else name q))
unfolding write_long_name
parse_long_name-write_long_name fname checksum start num m name printable pos few =
    let loop = for_range num 0 (write_entry fname checksum start num) m in
    let m' = update loop start (bit_or (loop start) 0x40) in
    let (name', parsed, chars) =
      parse_long_name-EntryIs fname (λ j. m' (start + j)) name num printable
        (λ i h. marked-Written fname checksum start num m i few h) in
    (m', name', ground arith, parsed, chars)
