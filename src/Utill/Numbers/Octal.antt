-- ===== src/Utill/Numbers/Octal.antt =====
-- `pow` and `oct_to_dec` of ntoskrnl/lib/utill.c.
use native.Mathlib.Nat.{pow-suc}
use open_lib.Common.{
  ℕ, zero, suc, ◌+◌, ◌*◌, ◌/◌, ◌%◌, ◌^◌, ◌<◌, ◌≤◌, ◌≡◌, refl, ap, ◌∙◌, ◌&&◌, true, false, some,
  ◌==◌, leb, if◌then◌else◌, u32, arith, Bool-cases, ==_iff, inl, inr, all_below, all_below_sound,
}
use open_lib.Utill.Numbers.{is_negative, pow, oct_loop, oct_to_dec}

-- The number that the first `k` decimal digits of `n` name in base 8.
unfoldable pub octal : ℕ → ℕ → ℕ
octal zero n = 0
octal (suc k) n = n % 10 + 8 * octal k (n / 10)

abbrev power : ℕ → ℕ
power t = pow 8 t 1

power_table : all_below 10 (λ t. power (t + 1) == 8 * power t && leb (power t) (8 ^ 9)) ≡ true
unfolding all_below pow
power_table = refl

power-suc : (t : ℕ) → t < 10 → (power (t + 1) ≡ 8 * power t) × (power t ≤ 8 ^ 9)
power-suc t h = ground (
  arith,
  all_below_sound 10 (λ t. power (t + 1) == 8 * power t && leb (power t) (8 ^ 9)) t power_table h,
)

digit_times : (d p : ℕ) → d ≤ 9 → d * p ≤ 9 * p
digit_times d p h = grind arith

-- One round keeps the sum in range.
round_exact :
    (d dec t : ℕ) → d ≤ 9 → t < 10 → dec < 2 * power t → u32 (dec + d * power t) ≡ dec + d * power t
round_exact d dec t hd ht small = omega (arith, power-suc t ht, digit_times d (power t) hd)

octal-zero : (k : ℕ) → octal k 0 ≡ 0
unfolding octal
octal-zero zero = refl
octal-zero (suc k) = omega (arith, octal-zero k)

tenth : (oct k : ℕ) → oct < 10 ^ suc k → oct / 10 < 10 ^ k
tenth oct k h = omega (arith, pow-suc 10 k)

regroup : (dec d p q o : ℕ) → q ≡ 8 * p → dec + d * p + q * o ≡ dec + p * (d + 8 * o)
regroup dec d p q o e = rw e (grind arith)

oct_round :
    (fuel oct dec t : ℕ)
    → oct < 2 ^ 31
    → t < 10
    → dec < 2 * power t
    → oct_loop (suc fuel) oct dec t
      ≡ (if oct == 0 then some dec else oct_loop fuel (oct / 10) (dec + oct % 10 * power t) (t + 1))
unfolding oct_loop
oct_round fuel oct dec t lo ht small =
    let positive : is_negative oct ≡ false = ground arith in
    rw (positive, round_exact (oct % 10) dec t (omega arith) ht small) refl

oct_loop_lem :
    (k fuel oct dec t : ℕ)
    → k < fuel
    → oct < 2 ^ 31
    → oct < 10 ^ k
    → k + t ≤ 10
    → dec < 2 * power t
    → oct_loop fuel oct dec t ≡ some (dec + power t * octal k oct)
unfolding octal
oct_loop_lem k zero oct dec t h lo lt le small = absurd (omega arith)
oct_loop_lem zero (suc fuel) oct dec t h lo lt le small = unfold oct_loop in ground arith
oct_loop_lem (suc k) (suc fuel) oct dec t h lo lt le small =
    oct_round fuel oct dec t lo (omega arith) small ∙ elim (Bool-cases (oct == 0)) [
      | inl z ↦ rw ((==_iff oct 0).0 z) (ground (arith, octal-zero k))
      | inr more ↦ rw more (
          oct_loop_lem k fuel (oct / 10) (dec + oct % 10 * power t) (t + 1) (omega arith)
            (omega arith) (tenth oct k lt) (omega arith)
            (omega
              (arith, power-suc t (omega arith), digit_times (oct % 10) (power t) (omega arith)))
          ∙ ap some (
              regroup dec (oct % 10) (power t) (power (t + 1)) (octal k (oct / 10))
                (power-suc t (omega arith)).0))
    ]

-- `oct_to_dec` of an INT that is not negative ends, and gives the number that its decimal digits,
-- at most ten, name in base 8.
pub oct_to_dec_lem :
    (fuel oct : ℕ) → 10 < fuel → oct < 2 ^ 31 → oct_to_dec fuel oct ≡ some (octal 10 oct)
oct_to_dec_lem fuel oct h lo =
    let one : power 0 ≡ 1 = unfold pow in refl in
    let same : u32 oct ≡ oct = omega arith in
    rw
      (
        same,
        oct_loop_lem 10 fuel oct 0 0 h lo (omega arith) (omega arith) (omega (arith, one)),
        one,
      )
      (ground arith)
