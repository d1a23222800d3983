-- ===== src/Utill/Text/Copies.antt =====
-- Copies of strings: `strdup` of ntoskrnl/lib/utill.c.
use open_lib.Common.{ℕ, suc, ◌+◌, ◌≤◌, ◌<◌, ◌≡◌, ap, ◌∙◌, arith, List, [], ◌∷◌, length, some, ◌⊎◌}
use open_lib.Utill.Strings.{IsString, strlen_lem, strcpy_lem}
use open_lib.Utill.Text.{strdup}

-- A string is the same where the memory is.
pub IsString-same :
    (m m' : ℕ → ℕ) (p : ℕ) (l : List ℕ)
    → ((j : ℕ) → p ≤ j → j ≤ p + length l → m' j ≡ m j)
    → IsString m p l
    → IsString m' p l
IsString-same m m' p [] same is = same p (omega arith) (omega arith) ∙ is
IsString-same m m' p (c ∷ l) same is = (
  same p (omega arith) (omega arith) ∙ is.0,
  is.1,
  is.2,
  IsString-same m m' (p + 1) l (λ j lo hi. same j (omega arith) (omega arith)) is.3,
)

-- Copied without its end, a string ends where the memory behind the copy holds a zero.
pub IsString-copied :
    (m m' : ℕ → ℕ) (p q : ℕ) (l : List ℕ)
    → ((j : ℕ) → j < length l → m' (q + j) ≡ m (p + j))
    → m' (q + length l) ≡ 0
    → IsString m p l
    → IsString m' q l
IsString-copied m m' p q [] same end is = ap m' (omega arith) ∙ end
IsString-copied m m' p q (c ∷ l) same end is = (
  ap m' (omega arith) ∙ same 0 (omega arith) ∙ ap m (omega arith) ∙ is.0,
  is.1,
  is.2,
  IsString-copied m m' (p + 1) (q + 1) l
      (λ j h. ap m' (omega arith) ∙ same (suc j) (omega arith) ∙ ap m (omega arith))
      (ap m' (omega arith) ∙ end) is.3,
)

-- The block that `strdup` fills is the same string, and the rest of the memory is as before.
pub strdup_lem :
    (l : List ℕ) (fuel : ℕ) (m : ℕ → ℕ) (news s : ℕ)
    → IsString m s l
    → (news + length l < s) ⊎ (s + length l < news)
    → length l < fuel
    → (m' : ℕ → ℕ) × (strdup fuel m news s ≡ some m')
      × IsString m' news l
      × ((j : ℕ) → (j < news) ⊎ (news + length l < j) → m' j ≡ m j)
unfolding strdup
strdup_lem l fuel m news s is apart h =
    let (m', e, js, same) = strcpy_lem l fuel m news s is apart h in
    (m', rw (strlen_lem l fuel m s is h) e, js, same)

pub IsString-end : (m : ℕ → ℕ) (p : ℕ) (l : List ℕ) → IsString m p l → m (p + length l) ≡ 0
IsString-end m p [] is = ap m (omega arith) ∙ is
IsString-end m p (c ∷ l) is = ap m (omega arith) ∙ IsString-end m (p + 1) l is.3

-- A string in memory, seen from its pointer.
pub IsString-pointer :
    (m : ℕ → ℕ) (p : ℕ) (l : List ℕ) → IsString m p l → IsString (λ j. m (p + j)) 0 l
IsString-pointer m p l is =
    IsString-copied m (λ j. m (p + j)) p 0 l (λ j h. ap m (omega arith))
      (ap m (omega arith) ∙ IsString-end m p l is) is
