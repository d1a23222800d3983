-- ===== src/Ustar/Walk.antt =====
-- The walk of `ustar_parse` (ustar.c) over the headers of an archive.
use open_lib.Common.{
  ℕ, zero, suc, ◌+◌, ◌^◌, ◌≤◌, ◌<◌, ◌≡◌, ◌≢◌, refl, ap, ◌∙◌, arith, List, [], ◌∷◌, length, some,
  ◌==◌, leb, update, u32, false, true,
}
use open_lib.Utill.Strings.{IsString, strcmp_lem}
use open_lib.Utill.Text.{bind}
use open_lib.Ustar.{signature_at, size_at, Headers, next_header, parse_headers}
use open_lib.Ustar.Size.{octal_value, IsDigits, getsize_lem}

abbrev pub ustar : List ℕ
ustar = b'u' ∷ b's' ∷ b't' ∷ b'a' ∷ b'r' ∷ []

-- Headers from `a` on, with the digits of their files' sizes, and behind them no header.
abbrev pub IsArchive : (ℕ → ℕ) → ℕ → List (List ℕ) → Type 0
IsArchive m a [] = (k : List ℕ) × IsString m (a + signature_at) k × (k ≢ ustar) × (length k < 16)
IsArchive m a (ds ∷ l) =
    IsString m (a + signature_at) ustar
    × IsDigits m (a + size_at) ds
    × (length ds < 16)
    × (8 ^ length ds ≤ 2 ^ 63)
    × (octal_value ds 0 < 2 ^ 32)
    × IsArchive m (next_header a (octal_value ds 0)) l

-- Where the header `k` of the archive at `a` lies.
abbrev pub place : ℕ → List (List ℕ) → ℕ → ℕ
place a l zero = a
place a [] (suc k) = a
place a (ds ∷ l) (suc k) = place (next_header a (octal_value ds 0)) l k

-- What the walk from the header `i` on adds.
pub record Walked (h h' : Headers) (a i : ℕ) (l : List (List ℕ)) : Type 0 where
  pub count : h'.count ≡ h.count + length l
  pub kept : (j : ℕ) → (j < i) → (h'.headers j ≡ h.headers j) × (h'.address j ≡ h.address j)
  pub found :
      (k : ℕ)
      → k < length l
      → (h'.headers (i + k) ≡ place a l k) × (h'.address (i + k) ≡ u32 (place a l k + 512))

module _ (m : ℕ → ℕ) (signature : ℕ) (text : IsString m signature ustar) where
  parse_headers-end :
      (fuel : ℕ) (h : Headers) (a i : ℕ)
      → 15 < fuel
      → IsArchive m a []
      → parse_headers (suc fuel) m signature h a i ≡ some (h, i)
  unfolding parse_headers
  parse_headers-end fuel h a i enough (k, is, ne, short) =
      let (r, e, iff) =
        strcmp_lem k ustar (suc fuel) m (a + signature_at) signature is text (omega arith) in
      let other : (r == 0) ≡ false = ground (arith, iff, ne) in rw (e, bind, other) refl

  parse_headers-step :
      (fuel : ℕ) (h : Headers) (a i : ℕ) (ds : List ℕ) (l : List (List ℕ))
      → 15 < fuel
      → i < 128
      → h.count < 2 ^ 31
      → IsArchive m a (ds ∷ l)
      → parse_headers (suc fuel) m signature h a i
        ≡ parse_headers fuel m signature
            (record {
              headers = update h.headers i a;
              address = update h.address i (u32 (a + 512));
              count = h.count + 1;
            })
            (next_header a (octal_value ds 0))
            (i + 1)
  unfolding parse_headers
  parse_headers-step fuel h a i ds l enough room few (is, digits, short, fits, small, rest) =
      let (r, e, iff) =
        strcmp_lem ustar ustar (suc fuel) m (a + signature_at) signature is text (omega arith) in
      let same : (r == 0) ≡ true = ground (arith, iff.1 refl) in
      let size = getsize_lem ds (suc fuel) m (a + size_at) digits (omega arith) fits small in
      let inside : leb 128 i ≡ false = ground arith in
      let count : u32 (h.count + 1) ≡ h.count + 1 = omega arith in
      rw (e, bind, same, size, bind, inside, count) refl

  Walked-next :
      (h h1 h' : Headers) (a i : ℕ) (ds : List ℕ) (l : List (List ℕ))
      → h1.count ≡ h.count + 1
      → ((j : ℕ) → h1.headers j ≡ update h.headers i a j)
      → ((j : ℕ) → h1.address j ≡ update h.address i (u32 (a + 512)) j)
      → Walked h1 h' (next_header a (octal_value ds 0)) (i + 1) l
      → Walked h h' a i (ds ∷ l)
  Walked-next h h1 h' a i ds l count headers address w = record {
    count = omega (arith, w.count);
    kept = λ j lt.
        let (e, f) = w.kept j (omega arith) in
        (e ∙ headers j ∙ ground arith, f ∙ address j ∙ ground arith);
    found = λ k lt. walked_found k lt;
  }
    where
      walked_found :
          (k : ℕ)
          → k < length (ds ∷ l)
          → (h'.headers (i + k) ≡ place a (ds ∷ l) k)
            × (h'.address (i + k) ≡ u32 (place a (ds ∷ l) k + 512))
      walked_found zero lt =
          let here : i + 0 ≡ i = omega arith in
          let (e, f) = w.kept i (omega arith) in
          (
            ap h'.headers here ∙ e ∙ headers i ∙ ground arith,
            ap h'.address here ∙ f ∙ address i ∙ ground arith,
          )
      walked_found (suc k) lt =
          let there : i + suc k ≡ i + 1 + k = omega arith in
          let (e, f) = w.found k (omega arith) in (ap h'.headers there ∙ e, ap h'.address there ∙ f)

  -- The walk finds an archive. Over a row of at most 128 headers with octal sizes, the first loop of
  -- `ustar_parse` ends, stores every header in order, each with the address of its file 512 bytes
  -- behind it, and counts them.
  pub parse_headers_lem :
      (l : List (List ℕ)) (fuel : ℕ) (h : Headers) (a i : ℕ)
      → IsArchive m a l
      → length l + 16 < fuel
      → i + length l ≤ 128
      → h.count + length l < 2 ^ 31
      → (h' : Headers) × (parse_headers fuel m signature h a i ≡ some (h', i + length l))
        × Walked h h' a i l
  parse_headers_lem l zero h a i is enough room few = absurd (omega arith)
  parse_headers_lem [] (suc fuel) h a i is enough room few =
      let none_more : i ≡ i + 0 = omega arith in
      (
        h,
        parse_headers-end fuel h a i (omega arith) is ∙ ap (λ (k : ℕ). some (h, k)) none_more,
        record {
          count = omega arith;
          kept = λ j lt. (refl, refl);
          found = λ k lt. absurd (omega arith);
        },
      )
  parse_headers_lem (ds ∷ l) (suc fuel) h a i is enough room few =
      let h1 : Headers = record {
        headers = update h.headers i a;
        address = update h.address i (u32 (a + 512));
        count = h.count + 1;
      } in
      let (h', e, w) =
        parse_headers_lem l fuel h1 (next_header a (octal_value ds 0)) (i + 1) is.5 (omega arith)
          (omega arith) (omega arith) in
      let last : i + 1 + length l ≡ i + suc (length l) = omega arith in
      (
        h',
        parse_headers-step fuel h a i ds l (omega arith) (omega arith) (omega arith) is
            ∙ e
            ∙ ap (λ (k : ℕ). some (h', k)) last,
        Walked-next h h1 h' a i ds l refl (λ j. refl) (λ j. refl) w,
      )
