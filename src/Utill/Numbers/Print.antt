-- ===== src/Utill/Numbers/Print.antt =====
-- `int_to_string` and `string_to_int` of ntoskrnl/lib/utill.c on numbers that are not negative.
use native.Mathlib.Nat.{add-zero, zero-add}
use open_lib.Common.{
  ℕ, zero, suc, ◌+◌, ◌-◌, ◌*◌, ◌/◌, ◌%◌, ◌^◌, ◌<◌, ◌≤◌, ◌≡◌, refl, ap, sym, ◌∙◌, false, Option,
  some, ◌==◌, if◌then◌else◌, update, u32, arith, Bool-cases, ==_iff, inl, inr, ◌⊎◌,
}
use open_lib.Utill.Numbers.{
  extend, is_negative, store_digits, write_digits, int_to_string, to_int, string_to_int,
}

-- The digits `temp[i - 1]`, …, `temp[0]` read on after `acc`.
unfoldable read_down : (ℕ → ℕ) → ℕ → ℕ → ℕ
read_down temp zero acc = acc
read_down temp (suc i) acc = read_down temp i (acc * 10 + (temp i - b'0'))

abbrev AreDigits : (ℕ → ℕ) → ℕ → Type 0
AreDigits temp i = (j : ℕ) → j < i → (b'0' ≤ temp j) × (temp j ≤ b'9')

read_down-same :
    (t u : ℕ → ℕ) (i acc : ℕ)
    → ((j : ℕ) → j < i → t j ≡ u j)
    → read_down t i acc ≡ read_down u i acc
unfolding read_down
read_down-same t u zero acc h = refl
read_down-same t u (suc i) acc h =
    rw (h i (omega arith))
      (read_down-same t u i (acc * 10 + (u i - b'0')) (λ j lt. h j (omega arith)))

-- How the loop of stores leaves the array: the number is read on after whatever stood before.
record Stored (num i : ℕ) (temp : ℕ → ℕ) (k : ℕ) (temp' : ℕ → ℕ) : Type 0 where
  grows : i ≤ k
  kept : (j : ℕ) → j < i → temp' j ≡ temp j
  digits : AreDigits temp' k
  reads : read_down temp' k 0 ≡ read_down temp i num

read_down-next :
    (t : ℕ → ℕ) (i acc : ℕ) → read_down t (i + 1) acc ≡ read_down t i (acc * 10 + (t i - b'0'))
unfolding read_down
read_down-next t i acc = ground arith

-- The digit that is stored last is read first.
one_digit :
    (temp : ℕ → ℕ) (num i : ℕ)
    → read_down (update temp i (num % 10 + b'0')) (i + 1) (num / 10) ≡ read_down temp i num
one_digit temp num i =
    let temp1 = update temp i (num % 10 + b'0') in
    let whole : num / 10 * 10 + (temp1 i - b'0') ≡ num = ground arith in
    read_down-next temp1 i (num / 10)
    ∙ ap (read_down temp1 i) whole
    ∙ read_down-same temp1 temp i num (λ j lt. ground arith)

store_digits_lem :
    (fuel num i : ℕ) (temp : ℕ → ℕ)
    → num < fuel
    → AreDigits temp i
    → (k : ℕ) × (temp' : ℕ → ℕ) × (store_digits fuel num i temp ≡ some (k, temp'))
      × Stored num i temp k temp'
unfolding store_digits
store_digits_lem zero num i temp h ds = absurd (omega arith)
store_digits_lem (suc fuel) num i temp h ds = elim (Bool-cases (num == 0)) [
  | inl done ↦ (
    i,
    temp,
    ground arith,
    record {
      grows = omega arith;
      kept = λ j lt. refl;
      digits = ds;
      reads = ap (read_down temp i) (sym ((==_iff num 0).0 done));
    },
  )
  | inr more ↦
      let temp1 = update temp i (num % 10 + b'0') in
      let (k, temp', e, st) =
        store_digits_lem fuel (num / 10) (i + 1) temp1 (ground arith)
          (λ j lt. ground (arith, ds j)) in
      (
        k,
        temp',
        ground (arith, e),
        record {
          grows = omega (arith, st.grows);
          kept = λ j lt. ground (arith, st.kept j);
          digits = st.digits;
          reads = st.reads ∙ one_digit temp num i;
        },
      )
]

read_down-ge : (t : ℕ → ℕ) (i acc : ℕ) → acc ≤ read_down t i acc
unfolding read_down
read_down-ge t zero acc = omega arith
read_down-ge t (suc i) acc = omega (arith, read_down-ge t i (acc * 10 + (t i - b'0')))

write_digits_off :
    (i g j : ℕ) (temp out : ℕ → ℕ) → (j < g) ⊎ (g + i ≤ j) → write_digits i temp out g j ≡ out j
unfolding write_digits
write_digits_off zero g j temp out h = refl
write_digits_off (suc i) g j temp out h =
    write_digits_off i (g + 1) j temp (update out g (temp i)) (omega arith) ∙ ground arith

to_int_step :
    (fuel p acc : ℕ) (m : ℕ → ℕ)
    → b'0' ≤ m p
    → m p ≤ b'9'
    → acc * 10 + (m p - b'0') < 2 ^ 31
    → to_int (suc fuel) m p acc ≡ to_int fuel m (p + 1) (acc * 10 + (m p - b'0'))
unfolding to_int
to_int_step fuel p acc m lo hi small =
    let exact : u32 (acc * 10 + extend (m p) + (2 ^ 32 - b'0')) ≡ acc * 10 + (m p - b'0') =
      ground arith in
    let digit : (m p == 0) ≡ false = ground arith in rw (digit, exact) refl

-- What is written reads, from the place where it starts, as the digits and then as what stands
-- behind them.
write_digits_lem :
    (i g acc fuel n : ℕ) (temp out : ℕ → ℕ)
    → AreDigits temp i
    → read_down temp i acc < 2 ^ 31
    → i + fuel ≡ n
    → to_int n (write_digits i temp out g) g acc
      ≡ to_int fuel (write_digits i temp out g) (g + i) (read_down temp i acc)
unfolding write_digits read_down
write_digits_lem zero g acc fuel n temp out ds small count =
    let end : n ≡ fuel = omega arith in rw (end, add-zero) refl
write_digits_lem (suc i) g acc fuel zero temp out ds small count = absurd (omega arith)
write_digits_lem (suc i) g acc fuel (suc n) temp out ds small count =
    let out1 = update out g (temp i) in
    let m = write_digits i temp out1 (g + 1) in
    let first : m g ≡ temp i =
      write_digits_off i (g + 1) g temp out1 (omega arith) ∙ ground arith in
    let next = acc * 10 + (temp i - b'0') in
    let digit = ds i (omega arith) in
    let step : to_int (suc n) m g acc ≡ to_int n m (g + 1) (acc * 10 + (m g - b'0')) =
      to_int_step n g acc m (omega (arith, first, digit.0)) (omega (arith, first, digit.1))
        (omega (arith, first, read_down-ge temp i next)) in
    let place : g + 1 + i ≡ g + suc i = omega arith in
    step
    ∙ ap (λ (c : ℕ). to_int n m (g + 1) (acc * 10 + (c - b'0'))) first
    ∙ write_digits_lem i (g + 1) next fuel n temp out1 (λ j lt. ds j (omega arith)) small
        (omega arith)
    ∙ ap (λ (q : ℕ). to_int fuel m q (read_down temp i next)) place

-- What stands from `p` on, read on after `acc`, when only the places below `p` differ.
to_int-same :
    (fuel p acc : ℕ) (m m' : ℕ → ℕ)
    → ((j : ℕ) → p ≤ j → m j ≡ m' j)
    → to_int fuel m p acc ≡ to_int fuel m' p acc
unfolding to_int
to_int-same zero p acc m m' h = refl
to_int-same (suc fuel) p acc m m' h = rw (h p (omega arith)) (
    ap (λ (r : Option ℕ). if m' p == 0 then some acc else r)
      (to_int-same fuel (p + 1) (u32 (acc * 10 + extend (m' p) + (2 ^ 32 - b'0'))) m m'
        (λ j le. h j (omega arith))))

-- `int_to_string` of a number from 1 to 2 ^ 31 - 1 ends, writes its digits at the start of the
-- static array and leaves the rest of the array as it was: it writes no terminator. So reading
-- the text back with `string_to_int` reads the number and then on through what an earlier call
-- left, and gives the number itself exactly if the byte behind the digits was 0.
pub string_to_int-int_to_string :
    (num fuel : ℕ) (temp out : ℕ → ℕ)
    → 0 < num
    → num < 2 ^ 31
    → num < fuel
    → (digits : ℕ) × (out' : ℕ → ℕ) × (int_to_string fuel temp out num ≡ some out')
      × ((j : ℕ) → digits ≤ j → out' j ≡ out j)
      × ((left : ℕ) → string_to_int (digits + left) out' 0 ≡ to_int left out digits num)
unfolding int_to_string
string_to_int-int_to_string num fuel temp out pos small enough =
    let (k, temp', e, st) =
      store_digits_lem fuel num 0 temp enough (λ j lt. absurd (omega arith)) in
    let value : read_down temp' k 0 ≡ num = st.reads ∙ unfold read_down in refl in
    let not_zero : (num == 0) ≡ false = ground arith in
    let not_minus : is_negative num ≡ false = ground arith in
    (
      k,
      write_digits k temp' out 0,
      rw (not_zero, not_minus, not_minus, e, not_minus) refl,
      λ j le. write_digits_off k 0 j temp' out (omega arith),
      λ left.
          write_digits_lem k 0 0 left (k + left) temp' out st.digits (omega (arith, value)) refl
          ∙ ap (λ (q : ℕ). to_int left (write_digits k temp' out 0) q (read_down temp' k 0))
              (zero-add k)
          ∙ ap (to_int left (write_digits k temp' out 0) k) value
          ∙ to_int-same left k num (write_digits k temp' out 0) out
              (λ j le. write_digits_off k 0 j temp' out (omega arith)),
    )
