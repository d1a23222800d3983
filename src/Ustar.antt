-- ===== src/Ustar.antt =====
-- The archives of ntoskrnl/drv/ustar/ustar.c. Memory is seen from its pointers; `signature` is the
-- address of the text "ustar". A result of `none` is a loop that has not ended in `fuel`, or a
-- header behind the 128 that `ustar_headers` has room for.
pub mod Size
pub mod Walk
pub mod Find
mod Tests
use open_lib.Common.{
  ℕ, zero, suc, ◌+◌, ◌-◌, ◌*◌, ◌/◌, ◌%◌, ◌^◌, Bool, true, false, Option, none, some, ◌==◌, leb,
  if◌then◌else◌, update, u32, lt_signed,
}
use open_lib.Utill.{strlen, strcmp, memmove}
use open_lib.Utill.Text.{bind}
use open_lib.Utill.Numbers.{extend}

abbrev pub header_size : ℕ
header_size = 128

abbrev pub regular_file : ℕ
regular_file = b'0'

-- The places of the fields of `struct ustar_file_header_t` that the code uses; the name is the
-- first one.
abbrev pub size_at : ℕ
size_at = 124

abbrev pub typeflag_at : ℕ
typeflag_at = 156

abbrev pub signature_at : ℕ
signature_at = 257

-- `struct ustar_header_t`.
pub record Headers : Type 0 where
  pub headers : ℕ → ℕ
  pub address : ℕ → ℕ
  pub count : ℕ

-- The loop of `getsize`, on 64 bits.
unfoldable pub size_from : ℕ → (ℕ → ℕ) → ℕ → ℕ → Option ℕ
size_from zero m s ret = none
size_from (suc fuel) m s ret =
    let c = m s in
    let digit = if leb 128 c then c + (2 ^ 64 - 256) else c in
    let rest = size_from fuel m (s + 1) ((ret * 8 + digit + (2 ^ 64 - b'0')) % 2 ^ 64) in
    if c == 0 then some ret else rest

unfoldable pub getsize : ℕ → (ℕ → ℕ) → ℕ → Option ℕ
getsize fuel m s = bind (size_from fuel m s 0) (λ ret. some (u32 ret))

-- The header behind one at `address` whose file has `size` bytes.
abbrev pub next_header : ℕ → ℕ → ℕ
next_header address size = u32 (address + ((size + 511) / 512 + 1) * 512)

-- The first loop of `ustar_parse`: the headers, and `i`.
unfoldable pub parse_headers : ℕ → (ℕ → ℕ) → ℕ → Headers → ℕ → ℕ → Option (Headers × ℕ)
parse_headers zero m signature h address i = none
parse_headers (suc fuel) m signature h address i =
    bind (strcmp (suc fuel) m (address + signature_at) signature) (λ difference.
      if difference == 0
      then bind (getsize (suc fuel) m (address + size_at)) (λ size.
        if leb header_size i
        then none
        else parse_headers fuel m signature
            (record {
              headers = update h.headers i address;
              address = update h.address i (u32 (address + 512));
              count = u32 (h.count + 1);
            })
            (next_header address size) (i + 1))
      else some (h, i))

-- The second loop, with `left` names to go; `stack` is what the array of `memmove` holds before.
unfoldable pub cut_names : ℕ → ℕ → (ℕ → ℕ) → Headers → ℕ → (ℕ → ℕ) → Option (ℕ → ℕ)
cut_names zero fuel m h g stack = some m
cut_names (suc left) fuel m h g stack =
    let name = h.headers g in
    bind (strlen fuel m name)
      (λ n. cut_names left fuel (memmove m stack name (name + 1) n) h (g + 1) stack)

-- The memory and the headers that `ustar_parse` leaves, and what it returns.
pub record Parsed : Type 0 where
  pub memory : ℕ → ℕ
  pub found : Headers
  pub last : ℕ

unfoldable pub ustar_parse : ℕ → (ℕ → ℕ) → ℕ → Headers → ℕ → (ℕ → ℕ) → Option Parsed
ustar_parse fuel m signature h address stack =
    bind (parse_headers fuel m signature h address 0) (λ r.
      let names = if lt_signed 1 r.0.count then r.0.count - 1 else 0 in
      bind (cut_names names fuel m r.0 1 stack) (λ m'. some (record {
        memory = m';
        found = record r.0 { count = u32 (r.0.count + (2 ^ 32 - 1)) };
        last = u32 (r.1 + (2 ^ 32 - 1));
      })))

-- The loops of `ustar_getid` and `ustar_search`, with `left` headers to go from `i` on: the first
-- header with the name, if there is one.
unfoldable pub find_name : ℕ → ℕ → (ℕ → ℕ) → Headers → ℕ → ℕ → Option (Option ℕ)
find_name zero fuel m h name i = some none
find_name (suc left) fuel m h name i =
    let rest = find_name left fuel m h name (i + 1) in
    bind (strcmp fuel m (h.headers i) name)
      (λ difference. if difference == 0 then some (some i) else rest)

-- A negative count ends the loops before they begin.
abbrev pub rounds : ℕ → ℕ
rounds count = if lt_signed 0 count then count else 0

unfoldable pub ustar_getid : ℕ → Bool → (ℕ → ℕ) → Headers → ℕ → Option ℕ
ustar_getid fuel initrd m h name =
    if initrd
    then bind (find_name (rounds h.count) fuel m h name 0)
        (λ r. some (elim r [ none ↦ 0 | some i ↦ i ]))
    else some 0

-- The address that `ustar_search` stores in `*contents`; NULL stands for its result 0.
unfoldable pub ustar_search : ℕ → Bool → (ℕ → ℕ) → Headers → ℕ → Option (Option ℕ)
ustar_search fuel initrd m h filename =
    if initrd
    then bind (find_name (rounds h.count) fuel m h filename 1)
        (λ r. some (elim r [ none ↦ none | some i ↦ some (h.address i) ]))
    else some none

-- The results of `ustar_cat`.
pub data Cat : Type 0 where
  null_text : Cat
  contents : ℕ → Cat
  empty_text : Cat
  invalid_file_name : Cat

unfoldable pub ustar_cat : ℕ → Bool → (ℕ → ℕ) → Headers → ℕ → Option Cat
ustar_cat fuel initrd m h name =
    if initrd
    then bind (ustar_getid fuel initrd m h name) (λ i.
      if m (h.headers i + typeflag_at) == regular_file
      then bind (ustar_search fuel initrd m h name)
          (λ r. some (elim r [ none ↦ invalid_file_name | some p ↦ contents p ]))
      else some empty_text)
    else some null_text

-- `KdInitRAMFS`: the archive, and the value of `initrd`.
unfoldable pub init_ram_fs : ℕ → (ℕ → ℕ) → ℕ → Headers → ℕ → (ℕ → ℕ) → Option (Parsed × Bool)
init_ram_fs fuel m signature h address stack =
    bind (ustar_parse fuel m signature h address stack) (λ p. some (p, true))
