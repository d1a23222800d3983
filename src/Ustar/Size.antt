-- ===== src/Ustar/Size.antt =====
-- `getsize` of ntoskrnl/drv/ustar/ustar.c on a field of octal digits.
use open_lib.Common.{
  ℕ, zero, suc, ◌+◌, ◌-◌, ◌*◌, ◌%◌, ◌^◌, ◌≤◌, ◌<◌, ◌≡◌, refl, arith, List, [], ◌∷◌, length, some,
  ◌==◌, leb, u32, false,
}
use native.Mathlib.Nat.{pow-suc, mul-le-mul_right, le-mul_of_pos_right}
use open_lib.Utill.Text.{bind}
use open_lib.Ustar.{size_from, getsize}

-- The digits of a number in base 8, read on from `ret`.
abbrev pub octal_value : List ℕ → ℕ → ℕ
octal_value [] ret = ret
octal_value (d ∷ ds) ret = octal_value ds (ret * 8 + d)

-- The field holds the digits and a zero.
abbrev pub IsDigits : (ℕ → ℕ) → ℕ → List ℕ → Type 0
IsDigits m s [] = m s ≡ 0
IsDigits m s (d ∷ ds) = (m s ≡ d + b'0') × (d < 8) × IsDigits m (s + 1) ds

-- A number below 2 ^ 63 stays one when a digit is read.
digit_fits : (ret d p : ℕ) → d < 8 → (ret + 1) * (p * 8) ≤ 2 ^ 63 → (ret * 8 + d + 1) * p ≤ 2 ^ 63
digit_fits ret d p small bound =
    let step : (ret * 8 + d + 1) * p ≤ (ret * 8 + 8) * p = mul-le-mul_right p (omega arith) in
    omega (arith, bound, step)

pow-pos : (n : ℕ) → 0 < 8 ^ n
pow-pos zero = omega arith
pow-pos (suc n) = rw (pow-suc 8 n) (omega (arith, pow-pos n))

size_from_lem :
    (ds : List ℕ) (fuel : ℕ) (m : ℕ → ℕ) (s ret : ℕ)
    → IsDigits m s ds
    → length ds < fuel
    → (ret + 1) * 8 ^ length ds ≤ 2 ^ 63
    → size_from fuel m s ret ≡ some (octal_value ds ret)
unfolding size_from
size_from_lem ds zero m s ret is lt bound = absurd (omega arith)
size_from_lem [] (suc fuel) m s ret is lt bound = ground (arith, is)
size_from_lem (d ∷ ds) (suc fuel) m s ret is lt bound =
    let fits : (ret * 8 + d + 1) * 8 ^ length ds ≤ 2 ^ 63 =
      digit_fits ret d (8 ^ length ds) is.1 (rw (← (pow-suc 8 (length ds))) bound) in
    let small : ret * 8 + d + 1 ≤ 2 ^ 63 =
      omega (arith, fits, le-mul_of_pos_right (ret * 8 + d + 1) (pow-pos (length ds))) in
    let rest = size_from_lem ds fuel m (s + 1) (ret * 8 + d) is.2 (omega arith) fits in
    let digit : (ret * 8 + (d + b'0') + (2 ^ 64 - b'0')) % 2 ^ 64 ≡ ret * 8 + d = omega arith in
    let positive : (d + b'0' == 0) ≡ false = ground arith in
    let low : leb 128 (d + b'0') ≡ false = ground arith in rw (is.0, low, positive, digit) rest

-- `getsize` of a field of octal digits ends, and gives the number that they name.
pub getsize_lem :
    (ds : List ℕ) (fuel : ℕ) (m : ℕ → ℕ) (s : ℕ)
    → IsDigits m s ds
    → length ds < fuel
    → 8 ^ length ds ≤ 2 ^ 63
    → octal_value ds 0 < 2 ^ 32
    → getsize fuel m s ≡ some (octal_value ds 0)
unfolding getsize
getsize_lem ds fuel m s is lt bound small =
    let same : u32 (octal_value ds 0) ≡ octal_value ds 0 = omega arith in
    rw (size_from_lem ds fuel m s 0 is lt (omega (arith, bound)), bind, same) refl
