-- ===== src/Ustar/Find.antt =====
-- `ustar_getid`, `ustar_search` and `ustar_cat` (ustar.c) on the headers of an archive.
use open_lib.Common.{
  ℕ, zero, suc, ◌+◌, ◌^◌, ◌≤◌, ◌<◌, ◌≡◌, ◌≢◌, refl, ap, ◌∙◌, arith, List, length, none, some, ◌==◌,
  true, false, Bool-cases, inl, inr, sym,
}
use mathlib.Core.Path.{subst}
use open_lib.Utill.Strings.{IsString, strcmp_lem}
use open_lib.Utill.Text.{bind}
use open_lib.Ustar.{
  regular_file, typeflag_at, Headers, find_name, rounds, ustar_getid, ustar_search, empty_text,
  ustar_cat,
}

module _ (fuel : ℕ) (m : ℕ → ℕ) (h : Headers) (name : ℕ) (text : List ℕ)
    (is : IsString m name text) where
  -- The header `i` has a string for its name, and another one.
  abbrev pub IsOther : ℕ → Type 0
  IsOther i = (k : List ℕ) × IsString m (h.headers i) k × (k ≢ text) × (length k < fuel)

  find_name-other :
      (left i : ℕ)
      → IsOther i
      → find_name (suc left) fuel m h name i ≡ find_name left fuel m h name (i + 1)
  unfolding find_name
  find_name-other left i (k, js, ne, lt) =
      let (r, e, iff) = strcmp_lem k text fuel m (h.headers i) name js is lt in
      let other : (r == 0) ≡ false = ground (arith, iff, ne) in rw (e, bind, other) refl

  find_name-here :
      (left i : ℕ)
      → IsString m (h.headers i) text
      → length text < fuel
      → find_name (suc left) fuel m h name i ≡ some (some i)
  unfolding find_name
  find_name-here left i js lt =
      let (r, e, iff) = strcmp_lem text text fuel m (h.headers i) name js is lt in
      let same : (r == 0) ≡ true = ground (arith, iff.1 refl) in rw (e, bind, same) refl

  find_name-absent :
      (left i : ℕ)
      → ((j : ℕ) → i ≤ j → j < i + left → IsOther j)
      → find_name left fuel m h name i ≡ some none
  find_name-absent zero i others = unfold find_name in refl
  find_name-absent (suc left) i others =
      find_name-other left i (others i (omega arith) (omega arith))
      ∙ find_name-absent left (i + 1) (λ j lo hi. others j (omega arith) (omega arith))

  find_name-first :
      (left i n : ℕ)
      → i ≤ n
      → n < i + left
      → ((j : ℕ) → i ≤ j → j < n → IsOther j)
      → IsString m (h.headers n) text
      → length text < fuel
      → find_name left fuel m h name i ≡ some (some n)
  find_name-first zero i n lo hi others js lt = absurd (omega arith)
  find_name-first (suc left) i n lo hi others js lt = elim (Bool-cases (i == n)) [
    | inl here ↦
        let e : i ≡ n = ground arith in
        find_name-here left i (subst (λ (q : ℕ). IsString m (h.headers q) text) (sym e) js) lt
        ∙ ap (λ (q : ℕ). some (some q)) e
    | inr there ↦
        find_name-other left i (others i (omega arith) (ground arith))
        ∙ find_name-first left (i + 1) n (ground arith) (omega arith)
            (λ j lo' hi'. others j (omega arith) hi') js lt
  ]

  getid-absent :
      (n : ℕ)
      → h.count ≡ n
      → n < 2 ^ 31
      → ((j : ℕ) → j < n → IsOther j)
      → ustar_getid fuel true m h name ≡ some 0
  unfolding ustar_getid
  getid-absent n count few others =
      let left : rounds h.count ≡ n = ground arith in
      rw (left, find_name-absent n 0 (λ j lo hi. others j (omega arith)), bind) refl

  search-last :
      (n : ℕ)
      → h.count ≡ n
      → 0 < n
      → n < 2 ^ 31
      → ((j : ℕ) → j < n → IsOther j)
      → IsString m (h.headers n) text
      → length text < fuel
      → ustar_search fuel true m h name ≡ some (some (h.address n))
  unfolding ustar_search
  search-last n count pos few others js lt =
      let left : rounds h.count ≡ n = ground arith in
      rw
        (
          left,
          find_name-first n 1 n (omega arith) (omega arith) (λ j lo hi. others j hi) js lt,
          bind,
        )
        refl

  -- The last file of two or more in an archive cannot be shown, if no header before it has its
  -- name and the first header is none of a regular file. `ustar_search` finds it, but `ustar_getid`
  -- stops before it and answers 0, so `ustar_cat` looks at the first header, and returns the empty
  -- text.
  pub ustar_cat_last :
      (n : ℕ)
      → h.count ≡ n
      → 0 < n
      → n < 2 ^ 31
      → ((j : ℕ) → j < n → IsOther j)
      → IsString m (h.headers n) text
      → length text < fuel
      → m (h.headers 0 + typeflag_at) ≢ regular_file
      → (ustar_search fuel true m h name ≡ some (some (h.address n)))
        × (ustar_cat fuel true m h name ≡ some empty_text)
  unfolding ustar_cat
  ustar_cat_last n count pos few others js lt first =
      let other : (m (h.headers 0 + typeflag_at) == regular_file) ≡ false = ground arith in
      (
        search-last n count pos few others js lt,
        rw (getid-absent n count few others, bind, other) refl,
      )
