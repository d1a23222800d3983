-- ===== src/Utill/Text/Tokens.antt =====
-- `strtok_r` of ntoskrnl/lib/utill.c with one delimiter.
use open_lib.Common.{
  ℕ, zero, suc, ◌+◌, ◌<◌, ◌≡◌, ◌≢◌, refl, ap, ◌∙◌, true, false, ◌||◌, Option, none, some, ◌==◌, ltb,
  if◌then◌else◌, update, arith, List, [], ◌∷◌, ◌++◌, length,
}
use mathlib.Core.Path.{subst}
use native.Mathlib.Nat.{add-zero}
use open_lib.Utill.{strlen, strchr}
use open_lib.Utill.Strings.{IsString, strlen_lem, IsString-update}
use open_lib.Utill.Text.{Token, skip, find_next, cut, strtok_r, pointer}

abbrev pub Without : ℕ → List ℕ → Type 0
Without d [] = Unit {0}
Without d (c ∷ l) = (c ≢ d) × Without d l

-- `strchr` ends on a string without the character, and returns NULL.
pub strchr-absent :
    (l : List ℕ) (fuel : ℕ) (m : ℕ → ℕ) (p d : ℕ)
    → IsString m p l
    → Without d l
    → length l < fuel
    → strchr fuel m p d ≡ some none
unfolding strchr
strchr-absent l zero m p d is w h = absurd (omega arith)
strchr-absent [] (suc fuel) m p d is w h = ground (arith, is)
strchr-absent (c ∷ l) (suc fuel) m p d is w h =
    ground (arith, is.0, is.1, w.0, strchr-absent l fuel m (p + 1) d is.3 w.1 (omega arith))

-- `strchr` ends at the first occurrence.
pub strchr-first :
    (x l : List ℕ) (fuel : ℕ) (m : ℕ → ℕ) (p d : ℕ)
    → IsString m p (x ++ d ∷ l)
    → Without d x
    → length x < fuel
    → strchr fuel m p d ≡ some (some (p + length x))
unfolding strchr
strchr-first x l zero m p d is w h = absurd (omega arith)
strchr-first [] l (suc fuel) m p d is w h = ground (arith, is.0, is.1)
strchr-first (c ∷ x) l (suc fuel) m p d is w h =
    ground (arith, is.0, is.1, w.0, strchr-first x l fuel m (p + 1) d is.3 w.1 (omega arith))

module _ (m : ℕ → ℕ) (delim d : ℕ) (one : IsString m delim (d ∷ [])) where
  strchr_one :
      (fuel c : ℕ) → 1 < fuel → strchr fuel m delim c ≡ some (if d == c then some delim else none)
  unfolding strchr
  strchr_one zero c h = absurd (omega arith)
  strchr_one (suc zero) c h = absurd (omega arith)
  strchr_one (suc (suc fuel)) c h = ground (arith, one.0, one.1, one.3)

  skip_here :
      (fuel p : ℕ)
      → 0 < fuel
      → skip (suc fuel) m delim p ≡ (if d == m p then skip fuel m delim (p + 1) else some p)
  unfolding skip
  skip_here fuel p h = rw (strchr_one (suc fuel) (m p) (omega arith)) (ground arith)

  -- The delimiters in front of a token are skipped, and nothing else.
  skip_lem :
      (k fuel p : ℕ)
      → ((j : ℕ) → j < k → m (p + j) ≡ d)
      → m (p + k) ≢ d
      → k + 1 < fuel
      → skip fuel m delim p ≡ some (p + k)
  skip_lem k zero p h ne lt = absurd (omega arith)
  skip_lem zero (suc fuel) p h ne lt =
      let here : p + 0 ≡ p = omega arith in skip_here fuel p (omega arith) ∙ ground (arith, here)
  skip_lem (suc k) (suc fuel) p h ne lt =
      let first : m p ≡ d = rw (← (add-zero p)) (h 0 (omega arith)) in
      let place : p + 1 + k ≡ p + suc k = omega arith in
      let same : (d == m p) ≡ true = ground arith in
      skip_here fuel p (omega arith)
      ∙ rw same (
          skip_lem k fuel (p + 1)
            (λ j lt'.
              let pj : p + 1 + j ≡ p + suc j = omega arith in rw pj (h (suc j) (omega arith)))
            (rw place ne) (omega arith)
          ∙ ap some place)

  find_one :
      (fuel q : ℕ) (found : Option ℕ)
      → strchr fuel m q d ≡ some found
      → find_next 1 fuel m delim q 0 0 ≡ some (pointer found)
  unfolding find_next
  find_one fuel q found e =
      let here : m (delim + 0) ≡ d = rw (add-zero, one.0) refl in
      let zero_test : (ltb (pointer found) 0 || 0 == 0) ≡ true = ground arith in
      rw (here, e, zero_test) refl

  -- The call with the text at `from`, whichever pointer it comes by.
  token_at :
      (k fuel str saveptr : ℕ) (found : Option ℕ)
      → (if str == 0 then saveptr else str) ≢ 0
      → ((j : ℕ) → j < k → m ((if str == 0 then saveptr else str) + j) ≡ d)
      → m ((if str == 0 then saveptr else str) + k) ≢ d
      → k + 1 < fuel
      → strchr fuel m ((if str == 0 then saveptr else str) + k) d ≡ some found
      → strtok_r fuel m str delim saveptr
        ≡ some (cut m ((if str == 0 then saveptr else str) + k) (pointer found))
  token_at k fuel str saveptr found ne lead stop lt e =
      let from = if str == 0 then saveptr else str in
      let some_text : (from == 0) ≡ false = ground arith in
      let count : strlen fuel m delim ≡ some 1 =
        strlen_lem (d ∷ []) fuel m delim one (omega arith) in
      unfold strtok_r in
      rw (some_text, skip_lem k fuel from lead stop lt, count, find_one fuel (from + k) found e)
        refl

no_delim : (m : ℕ → ℕ) (p d : ℕ) (x : List ℕ) → 0 < d → Without d x → IsString m p x → m p ≢ d
no_delim m p d [] pos w is = ground (arith, is)
no_delim m p d (c ∷ x) pos w is = ground (arith, is.0, w.0)

called :
    (m : ℕ → ℕ) (delim d k fuel str saveptr from : ℕ) (found : Option ℕ)
    → IsString m delim (d ∷ [])
    → (if str == 0 then saveptr else str) ≡ from
    → 0 < from
    → ((j : ℕ) → j < k → m (from + j) ≡ d)
    → m (from + k) ≢ d
    → k + 1 < fuel
    → strchr fuel m (from + k) d ≡ some found
    → strtok_r fuel m str delim saveptr ≡ some (cut m (from + k) (pointer found))
called m delim d k fuel str saveptr from found one e pos lead stop lt r =
    subst
      (λ (q : ℕ).
        q ≢ 0
        → ((j : ℕ) → j < k → m (q + j) ≡ d)
        → m (q + k) ≢ d
        → strchr fuel m (q + k) d ≡ some found
        → strtok_r fuel m str delim saveptr ≡ some (cut m (q + k) (pointer found)))
      e (λ ne le st rr. token_at m delim d one k fuel str saveptr found ne le st lt rr)
      (λ z. omega arith) lead stop r

not_delim :
    (m : ℕ → ℕ) (p d : ℕ) (x l : List ℕ)
    → Without d x
    → IsString m p (x ++ l)
    → 0 < length x
    → m p ≢ d
not_delim m p d [] l w is h = absurd (omega arith)
not_delim m p d (c ∷ x) l w is h = ground (arith, is.0, w.0)

IsString-cut :
    (m : ℕ → ℕ) (p d q : ℕ) (x l : List ℕ)
    → p + length x ≡ q
    → IsString m p (x ++ d ∷ l)
    → IsString (update m q 0) p x
IsString-cut m p d q [] l e is = ground arith
IsString-cut m p d q (c ∷ x) l e is =
    (ground (arith, is.0), is.1, is.2, IsString-cut m (p + 1) d q x l (omega arith) is.3)

IsString-rest :
    (m : ℕ → ℕ) (p d q : ℕ) (x l : List ℕ)
    → p + length x ≡ q
    → IsString m p (x ++ d ∷ l)
    → IsString (update m q 0) (q + 1) l
IsString-rest m p d q [] l e is =
    let here : p ≡ q = omega arith in
    IsString-update m (q + 1) q 0 l (omega arith) (rw (← here) is.3)
IsString-rest m p d q (c ∷ x) l e is = IsString-rest m (p + 1) d q x l (omega arith) is.3

-- `strtok_r` with one delimiter, called with a text or going on from `*saveptr`: it skips the
-- delimiters in front, returns the token up to the next one, ends it with a zero in place, and
-- leaves `*saveptr` at the text behind.
pub strtok_r_lem :
    (m : ℕ → ℕ) (delim d : ℕ) (k fuel str saveptr from : ℕ) (x l : List ℕ)
    → IsString m delim (d ∷ [])
    → (if str == 0 then saveptr else str) ≡ from
    → 0 < from
    → ((j : ℕ) → j < k → m (from + j) ≡ d)
    → IsString m (from + k) (x ++ d ∷ l)
    → Without d x
    → 0 < length x
    → k + length x + 1 < fuel
    → (t : Token) × (strtok_r fuel m str delim saveptr ≡ some t)
      × (t.begin ≡ from + k)
      × IsString t.memory t.begin x
      × (t.saveptr ≡ from + k + length x + 1)
      × IsString t.memory t.saveptr l
strtok_r_lem m delim d k fuel str saveptr from x l one e pos lead is w long enough =
    let next = from + k + length x in
    let found = strchr-first x l fuel m (from + k) d is w (omega arith) in
    let some_next : (next == 0) ≡ false = ground arith in
    (
      record { begin = from + k; memory = update m next 0; saveptr = next + 1 },
      called m delim d k fuel str saveptr from (some next) one e pos lead
            (not_delim m (from + k) d x (d ∷ l) w is long) (omega arith) found
          ∙ ap some (unfold cut in rw some_next refl),
      refl,
      IsString-cut m (from + k) d next x l refl is,
      refl,
      IsString-rest m (from + k) d next x l refl is,
    )

-- Without another delimiter the rest of the text is the last token, and `*saveptr` becomes NULL.
pub strtok_r_last :
    (m : ℕ → ℕ) (delim d : ℕ) (k fuel str saveptr from : ℕ) (x : List ℕ)
    → IsString m delim (d ∷ [])
    → (if str == 0 then saveptr else str) ≡ from
    → 0 < from
    → ((j : ℕ) → j < k → m (from + j) ≡ d)
    → IsString m (from + k) x
    → Without d x
    → k + length x + 1 < fuel
    → strtok_r fuel m str delim saveptr
      ≡ some (record { begin = from + k; memory = m; saveptr = 0 })
strtok_r_last m delim d k fuel str saveptr from x one e pos lead is w enough =
    called m delim d k fuel str saveptr from none one e pos lead
      (no_delim m (from + k) d x one.1 w is) (omega arith)
      (strchr-absent x fuel m (from + k) d is w (omega arith))
    ∙ unfold cut in refl
