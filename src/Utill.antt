-- ===== src/Utill.antt =====
-- The C library of ntoskrnl/lib: utill.c and string.c. Memory is a function from addresses to
-- bytes, and a C string is the run of bytes from its pointer to the next zero.
pub mod Strings
pub mod Copy
pub mod Numbers
pub mod Text
mod Tests
use open_lib.Common.{
  ℕ, zero, suc, ◌+◌, ◌-◌, ◌%◌, ◌^◌, Bool, ◌&&◌, not, Option, none, some, ◌==◌, ltb, leb,
  if◌then◌else◌, update, for_range, u32,
}

-- The rounds of a loop that counts to an INT: none when it is negative.
abbrev pub int_count : ℕ → ℕ
int_count n = if ltb (u32 n) (2 ^ 31) then u32 n else 0

-- `memset` at `at`, with the `n` of the call cut to an INT.
abbrev pub fill : (ℕ → ℕ) → ℕ → ℕ → ℕ → ℕ → ℕ
fill m at c n j = if leb at j && ltb j (at + int_count n) then c % 256 else m j

-- On a byte. A CHAR above 127 is negative for the source, and is no letter.
abbrev pub k_toupper : ℕ → ℕ
k_toupper c = if leb 97 c && leb c 122 then c - 32 else c

abbrev pub k_tolower : ℕ → ℕ
k_tolower c = if leb 65 c && leb c 90 then c + 32 else c

-- The length of the string at `p`; `none` is a loop that has not ended in `fuel` tests.
unfoldable pub strlen : ℕ → (ℕ → ℕ) → ℕ → Option ℕ
strlen zero m p = none
strlen (suc fuel) m p =
    let rest = strlen fuel m (p + 1) in
    if m p == 0 then some 0 else elim rest [ none ↦ none | some n ↦ some (n + 1) ]

-- The difference of the first characters that differ, as an INT; `none` as for `strlen`.
unfoldable pub strcmp : ℕ → (ℕ → ℕ) → ℕ → ℕ → Option ℕ
strcmp zero m a b = none
strcmp (suc fuel) m a b =
    let rest = strcmp fuel m (a + 1) (b + 1) in
    if not (m a == 0) && m a == m b then rest else some (u32 (m a + (2 ^ 32 - m b)))

-- The memory after `strcpy`, for a destination that is not NULL.
unfoldable pub strcpy : ℕ → (ℕ → ℕ) → ℕ → ℕ → Option (ℕ → ℕ)
strcpy zero m destination source = none
strcpy (suc fuel) m destination source =
    let rest = strcpy fuel (update m destination (m source)) (destination + 1) (source + 1) in
    if m source == 0 then some (update m destination 0) else rest

-- The pointer that `strchr` returns: `some none` is NULL, and `none` as for `strlen`.
unfoldable pub strchr : ℕ → (ℕ → ℕ) → ℕ → ℕ → Option (Option ℕ)
strchr zero m s c = none
strchr (suc fuel) m s c =
    let rest = strchr fuel m (s + 1) c in
    if m s == 0 then some none else if m s == c then some (some s) else rest

-- `n` is an INT that is not negative, here and in `memmove`.
unfoldable pub memcpy : (ℕ → ℕ) → ℕ → ℕ → ℕ → ℕ → ℕ
unfolding for_range
memcpy m dest src n = for_range n 0 (λ i m'. update m' (dest + i) (m' (src + i))) m

-- Both loops of `memmove`; `temp` is what the local array holds before.
unfoldable pub memmove : (ℕ → ℕ) → (ℕ → ℕ) → ℕ → ℕ → ℕ → ℕ → ℕ
unfolding for_range
memmove m temp dest src n =
    let temp' = for_range n 0 (λ i t. update t i (m (src + i))) temp in
    for_range n 0 (λ i m'. update m' (dest + i) (temp' i)) m
