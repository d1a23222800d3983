-- ===== src/Fat/LongName/Write.antt =====
-- The bytes of the entries that `FatWriteLongFileNameEntries` of fat32.c writes.
use mathlib.Core.Path.{subst}
use open_lib.Common.{
  ℕ, zero, suc, ◌+◌, ◌-◌, ◌*◌, ◌%◌, ◌≤◌, ◌<◌, ◌≡◌, refl, ◌∙◌, ◌⊎◌, inl, inr, sym, Bool-cases,
  ==_iff, arith, List, ◌==◌, update, for_range, for_range_inv,
}
use open_lib.Fat.Sector.{Bytes}
use open_lib.Fat.LongName.{lfn, name_char, put_chars, write_entry}

put_chars_miss :
    (fname : List ℕ) (at rounds written p : ℕ) (m : Bytes)
    → (p < at) ⊎ (at + 2 * rounds ≤ p + 1)
    → put_chars fname at rounds written m p ≡ m p
unfolding put_chars
put_chars_miss fname at zero written p m out = refl
put_chars_miss fname at (suc rounds) written p m out =
    put_chars_miss fname (at + 2) rounds (written + 1) p _ (ground arith) ∙ ground arith

put_chars_hit :
    (fname : List ℕ) (at rounds written k : ℕ) (m : Bytes)
    → k < rounds
    → put_chars fname at rounds written m (at + 2 * k) ≡ name_char fname (written + k)
unfolding put_chars
put_chars_hit fname at zero written k m h = absurd (omega arith)
put_chars_hit fname at (suc rounds) written zero m h =
    rw
      (put_chars_miss fname (at + 2) rounds (written + 1) (at + 2 * 0)
        (update m at (name_char fname written)) (inl (omega arith)))
      (ground arith)
put_chars_hit fname at (suc rounds) written (suc k) m h =
    let place : at + 2 * suc k ≡ at + 2 + 2 * k = omega arith in
    let char : written + suc k ≡ written + 1 + k = omega arith in
    rw (place, char) (put_chars_hit fname (at + 2) rounds (written + 1) k _ (omega arith))

-- The entry at `e` holds the thirteen characters from `13 * i` on.
pub record EntryIs (fname : List ℕ) (m : Bytes) (e i : ℕ) : Type 0 where
  pub front : (k : ℕ) → k < 5 → m (e + 1 + 2 * k) ≡ name_char fname (13 * i + k)
  pub middle : (k : ℕ) → k < 6 → m (e + 14 + 2 * k) ≡ name_char fname (13 * i + 5 + k)
  pub back : (k : ℕ) → k < 2 → m (e + 28 + 2 * k) ≡ name_char fname (13 * i + 11 + k)
  pub kind : m (e + 11) ≡ lfn

module _ (fname : List ℕ) (checksum start num i : ℕ) (m : Bytes) where
  abbrev place : ℕ
  place = start + (num - 1 - i) * 32

  abbrev headed : Bytes
  headed = update (update m place ((i + 1) % 256)) (place + 13) checksum

  abbrev first : Bytes
  first = put_chars fname (place + 1) 5 (13 * i) headed

  abbrev second : Bytes
  second = put_chars fname (place + 14) 6 (13 * i + 5) first

  pub write_entry-elsewhere :
      (p : ℕ) → (p < place) ⊎ (place + 32 ≤ p) → write_entry fname checksum start num i m p ≡ m p
  unfolding write_entry
  write_entry-elsewhere p out = ground (
    arith,
    put_chars_miss fname (place + 28) 2 (13 * i + 11) p second,
    put_chars_miss fname (place + 14) 6 (13 * i + 5) p first,
    put_chars_miss fname (place + 1) 5 (13 * i) p headed,
  )

  write_entry-number : write_entry fname checksum start num i m place ≡ (i + 1) % 256
  unfolding write_entry
  write_entry-number = ground (
    arith,
    put_chars_miss fname (place + 28) 2 (13 * i + 11) place second,
    put_chars_miss fname (place + 14) 6 (13 * i + 5) place first,
    put_chars_miss fname (place + 1) 5 (13 * i) place headed,
  )

  write_entry-EntryIs : EntryIs fname (write_entry fname checksum start num i m) place i
  unfolding write_entry
  write_entry-EntryIs = record {
    front = λ k h. ground (
      arith,
      put_chars_miss fname (place + 28) 2 (13 * i + 11) (place + 1 + 2 * k) second,
      put_chars_miss fname (place + 14) 6 (13 * i + 5) (place + 1 + 2 * k) first,
      put_chars_hit fname (place + 1) 5 (13 * i) k headed,
    );
    middle = λ k h. ground (
      arith,
      put_chars_miss fname (place + 28) 2 (13 * i + 11) (place + 14 + 2 * k) second,
      put_chars_hit fname (place + 14) 6 (13 * i + 5) k first,
    );
    back = λ k h. ground (arith, put_chars_hit fname (place + 28) 2 (13 * i + 11) k second);
    kind = ground arith;
  }

pub EntryIs-same :
    (fname : List ℕ) (m m' : Bytes) (e i : ℕ)
    → EntryIs fname m e i
    → ((p : ℕ) → e ≤ p → p < e + 32 → m' p ≡ m p)
    → EntryIs fname m' e i
EntryIs-same fname m m' e i is same = record {
  front = λ k h. same (e + 1 + 2 * k) (omega arith) (omega arith) ∙ is.front k h;
  middle = λ k h. same (e + 14 + 2 * k) (omega arith) (omega arith) ∙ is.middle k h;
  back = λ k h. same (e + 28 + 2 * k) (omega arith) (omega arith) ∙ is.back k h;
  kind = same (e + 11) (omega arith) (omega arith) ∙ is.kind;
}

-- The entry of the number `i + 1`, with its characters.
abbrev pub Written : List ℕ → Bytes → ℕ → ℕ → Type 0
Written fname m e i = EntryIs fname m e i × (m e ≡ (i + 1) % 256)

Written-write_entry :
    (fname : List ℕ) (checksum start num n i : ℕ) (b : Bytes)
    → n < num
    → i < n + 1
    → (i < n → Written fname b (start + (num - 1 - i) * 32) i)
    → Written fname (write_entry fname checksum start num n b) (start + (num - 1 - i) * 32) i
Written-write_entry fname checksum start num n i b hi h before = elim (Bool-cases (i == n)) [
  | inl last ↦
      subst
        (λ k.
          Written fname (write_entry fname checksum start num n b) (start + (num - 1 - k) * 32) k)
        (sym ((==_iff i n).0 last))
        (
          write_entry-EntryIs fname checksum start num n b,
          write_entry-number fname checksum start num n b,
        )
  | inr earlier ↦
      let old = before (ground arith) in
      let same : (q : ℕ)
          → start + (num - 1 - i) * 32 ≤ q
          → q < start + (num - 1 - i) * 32 + 32
          → write_entry fname checksum start num n b q ≡ b q =
        λ q lo hi'. write_entry-elsewhere fname checksum start num n b q (inr (ground arith)) in
      (
        EntryIs-same fname b (write_entry fname checksum start num n b) (start + (num - 1 - i) * 32)
            i old.0 same,
        same (start + (num - 1 - i) * 32) (omega arith) (omega arith) ∙ old.1,
      )
]

-- All entries after the loop over `i`.
pub write_entries_lem :
    (fname : List ℕ) (checksum start num : ℕ) (m : Bytes) (i : ℕ)
    → i < num
    → Written fname
        (for_range num 0 (write_entry fname checksum start num) m)
        (start + (num - 1 - i) * 32)
        i
write_entries_lem fname checksum start num m =
    for_range_inv
      (λ n (b : Bytes). (i : ℕ) → i < n → Written fname b (start + (num - 1 - i) * 32) i)
      (write_entry fname checksum start num) num 0 num m
      (λ n b lo hi p i h. Written-write_entry fname checksum start num n i b hi h (p i))
      (omega arith) (λ i h. absurd (omega arith))
