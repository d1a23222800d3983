-- ===== src/Utill/Numbers.antt =====
-- The conversions of numbers in ntoskrnl/lib/utill.c. An INT is the number of its two's
-- complement, and the product and sum of two INT wrap around.
pub mod Print
pub mod Octal
use open_lib.Common.{
  ℕ, zero, suc, ◌+◌, ◌-◌, ◌*◌, ◌/◌, ◌%◌, ◌^◌, ◌<◌, ◌≤◌, ◌≡◌, Bool, true, false, Option, none, some,
  ◌==◌, ltb, leb, if◌then◌else◌, update, u32,
}

-- A CHAR where an INT is computed.
abbrev pub extend : ℕ → ℕ
extend c = if ltb c 128 then c else c + (2 ^ 32 - 256)

abbrev pub negate : ℕ → ℕ
negate n = u32 (2 ^ 32 - n)

abbrev pub is_negative : ℕ → Bool
is_negative n = leb (2 ^ 31) n

-- `pow` with `exp` rounds to go.
unfoldable pub pow : ℕ → ℕ → ℕ → ℕ
pow base zero result = result
pow base (suc exp) result = pow base exp (u32 (result * base))

-- The loop of `int_to_string` that stores digits, lowest first; `none` is a loop that has not
-- ended in `fuel` tests.
unfoldable pub store_digits : ℕ → ℕ → ℕ → (ℕ → ℕ) → Option (ℕ × (ℕ → ℕ))
store_digits zero num i temp = none
store_digits (suc fuel) num i temp =
    let rest = store_digits fuel (num / 10) (i + 1) (update temp i (num % 10 + b'0')) in
    if num == 0 then some (i, temp) else rest

-- The loop that writes `i` digits to `out` from `g` on, the last stored first.
unfoldable pub write_digits : ℕ → (ℕ → ℕ) → (ℕ → ℕ) → ℕ → ℕ → ℕ
write_digits zero temp out g = out
write_digits (suc i) temp out g = write_digits i temp (update out g (temp i)) (g + 1)

-- The text that `int_to_string` returns: the literal "0", or the static array with what it held
-- before; `temp` is the local array.
unfoldable pub int_to_string : ℕ → (ℕ → ℕ) → (ℕ → ℕ) → ℕ → Option (ℕ → ℕ)
int_to_string fuel temp out num =
    let minus = is_negative num in
    let positive = if minus then negate num else num in
    let lowest = is_negative positive in
    let stored =
      if lowest
      then store_digits fuel ((2 ^ 32 - positive) / 10) 1 (update temp 0 b'8')
      else store_digits fuel positive 0 temp in
    if num == 0 then some (λ j. if j == 0 then b'0' else 0) else elim stored [
      | none ↦ none
      | some (i, temp') ↦
          some (
            if minus
            then write_digits i temp' (update out 0 b'-') 1
            else write_digits i temp' out 0)
    ]

-- `string_to_int` at `str`, with `res` read so far.
unfoldable pub to_int : ℕ → (ℕ → ℕ) → ℕ → ℕ → Option ℕ
to_int zero m str res = none
to_int (suc fuel) m str res =
    let rest = to_int fuel m (str + 1) (u32 (res * 10 + extend (m str) + (2 ^ 32 - b'0'))) in
    if m str == 0 then some res else rest

abbrev pub string_to_int : ℕ → (ℕ → ℕ) → ℕ → Option ℕ
string_to_int fuel m str = to_int fuel m str 0

-- `oct % 10` and `oct / 10` of an INT: both round towards zero.
abbrev pub rem_10 : ℕ → ℕ
rem_10 n = if is_negative n then negate (negate n % 10) else n % 10

abbrev pub div_10 : ℕ → ℕ
div_10 n = if is_negative n then negate (negate n / 10) else n / 10

-- The loop of `oct_to_dec`; `dec` is summed up at the power `temp`.
unfoldable pub oct_loop : ℕ → ℕ → ℕ → ℕ → Option ℕ
oct_loop zero oct dec temp = none
oct_loop (suc fuel) oct dec temp =
    let rest = oct_loop fuel (div_10 oct) (u32 (dec + rem_10 oct * pow 8 temp 1)) (temp + 1) in
    if oct == 0 then some dec else rest

-- `oct_to_dec` of an INT, cut to 32 bits as the call does.
abbrev pub oct_to_dec : ℕ → ℕ → Option ℕ
oct_to_dec fuel oct = oct_loop fuel (u32 oct) 0 0
