-- ===== src/Common/Flags.antt =====
-- `|` of a number and flags below the bits that it uses.
use Prim.Native.Nat.{
  ℕ, zero, suc, ◌+◌, ◌*◌, ◌/◌, ◌%◌, ◌≤◌, ◌<◌, max, bit_or, digits, bit_or-bitwise,
}
use mathlib.Core.Path.{◌≡◌, refl, ap}
use native.Mathlib.Omega.{arith}

-- The digits of `a | b`, by a count that may exceed the digits of `a`.
abbrev or_digits : ℕ → ℕ → ℕ → ℕ
or_digits n a b = digits (λ b. b) max n a b

zero-or_digits : (n b : ℕ) → or_digits n 0 b ≡ b
zero-or_digits zero b = refl
zero-or_digits (suc n) b = refl

or_digits-suc :
    (n a b : ℕ) → or_digits (suc n) a b ≡ or_digits n (a / 2) (b / 2) * 2 + max (a % 2) (b % 2)
or_digits-suc n zero b = omega (arith, zero-or_digits n (b / 2))
or_digits-suc n (suc a) b = refl

or_digits-zero : (n a : ℕ) → a ≤ n → or_digits n a 0 ≡ a
or_digits-zero zero zero h = refl
or_digits-zero zero (suc a) h = absurd (omega arith)
or_digits-zero (suc n) a h =
    omega (arith, or_digits-suc n a 0, or_digits-zero n (a / 2) (omega arith))

-- `p` is a power of two, in so far as `|` adds flags below `p` to a multiple of `p`.
abbrev Adds : ℕ → Type 0
Adds p = (n q f : ℕ) → q * p ≤ n → f < p → or_digits n (q * p) f ≡ q * p + f

Adds-one : Adds 1
Adds-one n q zero h lt = omega (arith, or_digits-zero n (q * 1) h)
Adds-one n q (suc f) h lt = absurd (omega arith)

half : (a b : ℕ) → a ≡ b * 2 → a / 2 ≡ b
half a b e = omega arith

Adds-double : (p : ℕ) → Adds p → Adds (p * 2)
Adds-double p ih zero q f h lt = omega arith
Adds-double p ih (suc n) q f h lt =
    let double : q * (p * 2) ≡ q * p * 2 = grind arith in
    omega (
      arith,
      double,
      or_digits-suc n (q * (p * 2)) f,
      ap (λ (a : ℕ). or_digits n a (f / 2)) (half (q * (p * 2)) (q * p) double),
      ih n q (f / 2) (omega arith) (omega arith),
    )

Adds-page : Adds 4096
Adds-page =
    let d = Adds-double in
    d 2048 (d 1024 (d 512 (d 256 (d 128 (d 64 (d 32 (d 16 (d 8 (d 4 (d 2 (d 1 Adds-one)))))))))))

pub bit_or-flags : (q f : ℕ) → f < 4096 → bit_or (q * 4096) f ≡ q * 4096 + f
bit_or-flags q f h =
    omega (arith, bit_or-bitwise (q * 4096) f, Adds-page (q * 4096) q f (omega arith) h)
