-- ===== src/Utill/Text.antt =====
-- More of ntoskrnl/lib/utill.c on strings and memory: comparisons with a limit, concatenation,
-- search, reversal, duplication and tokens. NULL is 0, and a result of `none` is a loop that has
-- not ended in `fuel` tests.
pub mod Tokens
pub mod Copies
use open_lib.Common.{
  ℕ, zero, suc, ◌+◌, ◌-◌, ◌*◌, ◌/◌, ◌%◌, ◌^◌, ◌<◌, Bool, true, false, ◌||◌, Option, none, some,
  ◌==◌, ltb, if◌then◌else◌, update, for_range, u32,
}
use open_lib.Utill.{strlen, strcpy, strchr}
use open_lib.Utill.Numbers.{extend}

abbrev pub bind {ℓ κ} : {A : Type ℓ} {B : Type κ} → Option A → (A → Option B) → Option B
bind none f = none
bind (some a) f = f a

-- `strncmp` with `left` rounds to go; the characters are signed.
unfoldable pub strncmp : ℕ → (ℕ → ℕ) → ℕ → ℕ → ℕ
strncmp zero m s1 s2 = 0
strncmp (suc left) m s1 s2 =
    let rest = strncmp left m (s1 + 1) (s2 + 1) in
    if m s1 == m s2
    then (if m s1 == 0 then 0 else rest)
    else u32 (extend (m s1) + (2 ^ 32 - extend (m s2)))

-- `memcmp` with `left` bytes to go; -1 is 2 ^ 32 - 1.
unfoldable pub memcmp : ℕ → (ℕ → ℕ) → ℕ → ℕ → ℕ
memcmp zero m s1 s2 = 0
memcmp (suc left) m s1 s2 =
    let rest = memcmp left m (s1 + 1) (s2 + 1) in
    if m s1 == m s2 then rest else if ltb (m s1) (m s2) then 2 ^ 32 - 1 else 1

-- `str_cpy` takes the source first, and a count below 256.
unfoldable pub str_cpy : (ℕ → ℕ) → ℕ → ℕ → ℕ → ℕ → ℕ
unfolding for_range
str_cpy m src dest count = for_range count 0 (λ i m'. update m' (dest + i) (m' (src + i))) m

-- The loop of `strcat` is that of `strcpy`, from the end of the destination.
unfoldable pub strcat : ℕ → (ℕ → ℕ) → ℕ → ℕ → Option (ℕ → ℕ)
strcat fuel m destination source =
    bind (strlen fuel m destination) (λ n. strcpy fuel m (destination + n) source)

-- The copy in `strdup` takes the terminator along, as `strcpy` does; `news` is what `malloc` returns.
unfoldable pub strdup : ℕ → (ℕ → ℕ) → ℕ → ℕ → Option (ℕ → ℕ)
strdup fuel m news s = bind (strlen fuel m s) (λ n. strcpy fuel m news s)

-- The loop of `strstr`, at `a` and `b`; `some none` is NULL.
unfoldable pub strstr_at : ℕ → (ℕ → ℕ) → ℕ → ℕ → ℕ → ℕ → Option (Option ℕ)
strstr_at zero m substring str a b = none
strstr_at (suc fuel) m substring str a b =
    let further = strstr_at fuel m substring str (a + 1) (b + 1) in
    let again = strstr_at fuel m substring (str + 1) (str + 1) substring in
    if m b == 0
    then some (some str)
    else if m a == 0
    then some none
    else if m a == m b
    then further
    else again

unfoldable pub strstr : ℕ → (ℕ → ℕ) → ℕ → ℕ → Option (Option ℕ)
strstr fuel m str substring = strstr_at fuel m substring str str substring

-- The loop of `reverse`, with `left` tests to go.
unfoldable pub swap_ends : ℕ → (ℕ → ℕ) → ℕ → ℕ → ℕ → ℕ → ℕ
swap_ends zero m s i j = m
swap_ends (suc left) m s i j =
    let rest =
      swap_ends left (update (update m (s + i) (m (s + j))) (s + j) (m (s + i))) s (i + 1)
        (j - 1) in
    if ltb i j then rest else m

unfoldable pub reverse : ℕ → (ℕ → ℕ) → ℕ → Option (ℕ → ℕ)
reverse fuel m s =
    bind (strlen fuel m s) (λ n. some (if n == 0 then m else swap_ends n m s 0 (n - 1)))

-- What `strtok_r` leaves: its result, the memory and `*saveptr`.
pub record Token : Type 0 where
  pub begin : ℕ
  pub memory : ℕ → ℕ
  pub saveptr : ℕ

-- The first loop of `strtok_r` skips the characters that are delimiters.
unfoldable pub skip : ℕ → (ℕ → ℕ) → ℕ → ℕ → Option ℕ
skip zero m delim begin = none
skip (suc fuel) m delim begin =
    let rest = skip fuel m delim (begin + 1) in
    bind (strchr (suc fuel) m delim (m begin))
      (λ found. elim found [ none ↦ some begin | some _ ↦ rest ])

abbrev pub pointer : Option ℕ → ℕ
pointer none = 0
pointer (some p) = p

-- The second loop, with `left` delimiters to go. A delimiter that does not occur sets `next` to NULL.
unfoldable pub find_next : ℕ → ℕ → (ℕ → ℕ) → ℕ → ℕ → ℕ → ℕ → Option ℕ
find_next zero fuel m delim begin i next = some next
find_next (suc left) fuel m delim begin i next = bind (strchr fuel m begin (m (delim + i))) (λ temp.
    find_next left fuel m delim begin (i + 1)
      (if ltb (pointer temp) next || next == 0 then pointer temp else next))

unfoldable pub cut : (ℕ → ℕ) → ℕ → ℕ → Token
cut m begin next =
    if next == 0
    then record { begin = begin; memory = m; saveptr = 0 }
    else record { begin = begin; memory = update m next 0; saveptr = next + 1 }

unfoldable pub strtok_r : ℕ → (ℕ → ℕ) → ℕ → ℕ → ℕ → Option Token
strtok_r fuel m str delim saveptr =
    let from = if str == 0 then saveptr else str in
    if from == 0
    then some (record { begin = 0; memory = m; saveptr = saveptr })
    else bind (skip fuel m delim from) (λ begin.
      bind (strlen fuel m delim)
        (λ count. bind (find_next count fuel m delim begin 0 0) (λ next. some (cut m begin next))))
