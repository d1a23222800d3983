-- ===== src/Utill/Strings.antt =====
-- `strlen`, `strcmp` and `strcpy` of ntoskrnl/lib on strings in memory.
use open_lib.Common.{
  ℕ, zero, suc, ◌+◌, ◌-◌, ◌^◌, ◌<◌, ◌≡◌, ◌≢◌, refl, ap, ◌∙◌, arith, List, [], ◌∷◌, length, get_or,
  some, ◌==◌, update, u32, ◌⊎◌, ◌↔◌, inl, inr, Bool-cases, ==_iff,
}
use open_lib.Utill.{strlen, strcmp, strcpy}

-- The characters of the string at `p`.
abbrev pub IsString : (ℕ → ℕ) → ℕ → List ℕ → Type 0
IsString m p [] = m p ≡ 0
IsString m p (c ∷ l) = (m p ≡ c) × (0 < c) × (c < 256) × IsString m (p + 1) l

-- `strlen` ends on a string, and returns its length.
pub strlen_lem :
    (l : List ℕ) (fuel : ℕ) (m : ℕ → ℕ) (p : ℕ)
    → IsString m p l
    → length l < fuel
    → strlen fuel m p ≡ some (length l)
unfolding strlen
strlen_lem l zero m p is h = absurd (omega arith)
strlen_lem [] (suc fuel) m p is h = ground (arith, is)
strlen_lem (c ∷ l) (suc fuel) m p is h =
    let rest = strlen_lem l fuel m (p + 1) is.3 (omega arith) in ground (arith, is.0, is.1, rest)

cons_ne : (c d : ℕ) (l k : List ℕ) → c ≢ d → (c ∷ l) ≢ (d ∷ k)
cons_ne c d l k ne e = ne (ap (λ x. get_or x 0 0) e)

tail_eq : (c d : ℕ) (l k : List ℕ) → (c ∷ l) ≡ (d ∷ k) → l ≡ k
tail_eq c d l k e = ap tail e
  where
    tail : List ℕ → List ℕ
    tail [] = []
    tail (x ∷ xs) = xs

-- `strcmp` ends on two strings, and returns 0 exactly when they are equal.
pub strcmp_lem :
    (l k : List ℕ) (fuel : ℕ) (m : ℕ → ℕ) (a b : ℕ)
    → IsString m a l
    → IsString m b k
    → length l < fuel
    → (r : ℕ) × (strcmp fuel m a b ≡ some r) × ((r ≡ 0) ↔ (l ≡ k))
unfolding strcmp
strcmp_lem l k zero m a b is js h = absurd (omega arith)
strcmp_lem [] [] (suc fuel) m a b is js h = (0, ground (arith, is, js), (λ z. refl, λ e. refl))
strcmp_lem [] (d ∷ k) (suc fuel) m a b is js h = (
  u32 (0 + (2 ^ 32 - d)),
  ground (arith, is, js.0),
  (λ z. absurd (omega (arith, js.1, js.2)), λ e. absurd (ground (arith, ap length e))),
)
strcmp_lem (c ∷ l) [] (suc fuel) m a b is js h = (
  u32 (c + (2 ^ 32 - 0)),
  ground (arith, is.0, is.1, js),
  (λ z. absurd (omega (arith, is.1, is.2)), λ e. absurd (ground (arith, ap length e))),
)
strcmp_lem (c ∷ l) (d ∷ k) (suc fuel) m a b is js h = elim (Bool-cases (c == d)) [
  | inl same ↦
      let (r, e, iff) = strcmp_lem l k fuel m (a + 1) (b + 1) is.3 js.3 (omega arith) in
      let eq : c ≡ d = (==_iff c d).0 same in
      (
        r,
        ground (arith, e, is.0, is.1, js.0),
        (λ z. ap (λ x. x ∷ l) eq ∙ ap (λ x. d ∷ x) (iff.0 z), λ q. iff.1 (tail_eq c d l k q)),
      )
  | inr other ↦ (
    u32 (c + (2 ^ 32 - d)),
    ground (arith, is.0, js.0),
    (λ z. absurd (ground (arith, is.2, js.2)), λ q. absurd (cons_ne c d l k (ground arith) q)),
  )
]

pub IsString-update :
    (m : ℕ → ℕ) (p at c : ℕ) (l : List ℕ)
    → (at < p) ⊎ (p + length l < at)
    → IsString m p l
    → IsString (update m at c) p l
IsString-update m p at c [] out is = ground arith
IsString-update m p at c (x ∷ l) out is =
    (ground (arith, is.0), is.1, is.2, IsString-update m (p + 1) at c l (omega arith) is.3)

-- `strcpy` ends on a string that its destination does not meet, makes the destination the same
-- string, and changes nothing else.
pub strcpy_lem :
    (l : List ℕ) (fuel : ℕ) (m : ℕ → ℕ) (destination source : ℕ)
    → IsString m source l
    → (destination + length l < source) ⊎ (source + length l < destination)
    → length l < fuel
    → (m' : ℕ → ℕ) × (strcpy fuel m destination source ≡ some m')
      × IsString m' destination l
      × ((j : ℕ) → (j < destination) ⊎ (destination + length l < j) → m' j ≡ m j)
unfolding strcpy
strcpy_lem l zero m destination source is apart h = absurd (omega arith)
strcpy_lem [] (suc fuel) m destination source is apart h =
    (update m destination 0, ground (arith, is), ground arith, λ j out. ground arith)
strcpy_lem (c ∷ l) (suc fuel) m destination source is apart h =
    let copied = update m destination (m source) in
    let (m', e, js, same) =
      strcpy_lem l fuel copied (destination + 1) (source + 1)
        (IsString-update m (source + 1) destination (m source) l (omega arith) is.3) (omega arith)
        (omega arith) in
    (
      m',
      ground (arith, e, is.0, is.1),
      (same destination (omega arith) ∙ ground (arith, is.0), is.1, is.2, js),
      λ j out. same j (omega arith) ∙ ground arith,
    )
