-- ===== src/Utill/Tests.antt =====
-- Strings in memory for ntoskrnl/lib.
use open_lib.Common.{
  ℕ, ◌+◌, ◌-◌, ◌^◌, ◌≤◌, ltb, leb, ◌&&◌, get_or, ◌≡◌, refl, arith, List, [], ◌∷◌, some, none, ◌==◌,
  if◌then◌else◌,
}
use open_lib.Utill.{strchr}
use open_lib.Utill.Strings.{IsString}
use open_lib.Utill.Text.{Token, strtok_r}
use open_lib.Utill.Text.Tokens.{strtok_r_lem}
use open_lib.Utill.Numbers.{pow, int_to_string, string_to_int, to_int, oct_loop, oct_to_dec}
use open_lib.Utill.Numbers.Print.{string_to_int-int_to_string}
use open_lib.Utill.Numbers.Octal.{octal, oct_to_dec_lem}

-- "ab" at 10 and at 20.
abbrev words : ℕ → ℕ
words j =
    if j == 10
    then b'a'
    else if j == 11
    then b'b'
    else if j == 20
    then b'a'
    else if j == 21
    then b'b'
    else 0

abbrev ab : List ℕ
ab = b'a' ∷ b'b' ∷ []

at_10 : IsString words 10 ab
at_10 = (refl, omega arith, omega arith, (refl, omega arith, omega arith, refl))

at_20 : IsString words 20 ab
at_20 = (refl, omega arith, omega arith, (refl, omega arith, omega arith, refl))

strchr_runs : (strchr 9 words 10 b'b' ≡ some (some 11)) × (strchr 9 words 10 b'c' ≡ some none)
unfolding strchr
strchr_runs = (refl, refl)

-- "//dir/f" at 30, and the delimiter "/" at 50.
abbrev slashes : ℕ → ℕ
slashes j =
    if leb 30 j && ltb j 37
    then get_or (b'/' ∷ b'/' ∷ b'd' ∷ b'i' ∷ b'r' ∷ b'/' ∷ b'f' ∷ []) (j - 30) 0
    else if j == 50
    then b'/'
    else 0

strtok_r_lem_example :
    (t : Token) × (strtok_r 9 slashes 30 50 0 ≡ some t)
    × (t.begin ≡ 32)
    × IsString t.memory t.begin (b'd' ∷ b'i' ∷ b'r' ∷ [])
    × (t.saveptr ≡ 36)
    × IsString t.memory t.saveptr (b'f' ∷ [])
strtok_r_lem_example =
    strtok_r_lem slashes 50 b'/' 2 9 30 0 30 (b'd' ∷ b'i' ∷ b'r' ∷ []) (b'f' ∷ []) (ground arith)
      refl (omega arith) (λ j h. ground arith) (ground arith)
      (λ e. omega arith, (λ e. omega arith, (λ e. omega arith, record {}))) (omega arith)
      (omega arith)

-- The array holds the digits of an earlier number.
string_to_int-int_to_string_example :
    (digits : ℕ) × (out' : ℕ → ℕ) × (int_to_string 50 (λ j. 0) (λ j. b'7') 42 ≡ some out')
    × ((j : ℕ) → digits ≤ j → out' j ≡ b'7')
    × ((left : ℕ) → string_to_int (digits + left) out' 0 ≡ to_int left (λ j. b'7') digits 42)
string_to_int-int_to_string_example =
    string_to_int-int_to_string 42 50 (λ j. 0) (λ j. b'7') (omega arith) (omega arith) (omega arith)

-- The digits of -18 are -1 and -8.
oct_to_dec-negative : oct_to_dec 11 (2 ^ 32 - 18) ≡ some (2 ^ 32 - 16)
unfolding oct_loop pow
oct_to_dec-negative = refl

oct_to_dec_lem_example : oct_to_dec 11 755 ≡ some (octal 10 755)
oct_to_dec_lem_example = oct_to_dec_lem 11 755 (omega arith) (omega arith)
