-- ===== src/Ustar/Tests.antt =====
-- A small archive for ustar.c: a directory, the file "a" of eight bytes, and the file "b".
use open_lib.Common.{
  ℕ, zero, suc, ◌-◌, ◌<◌, ◌≡◌, refl, ap, arith, List, [], ◌∷◌, length, some, ◌==◌, ltb, leb, ◌&&◌,
  ◌||◌, get_or, if◌then◌else◌, true,
}
use open_lib.Utill.Strings.{IsString}
use open_lib.Ustar.{Headers, parse_headers, ustar_search, ustar_cat, empty_text}
use open_lib.Ustar.Walk.{ustar, IsArchive, Walked, parse_headers_lem}
use open_lib.Ustar.Find.{IsOther, ustar_cat_last}

abbrev signatures : ℕ → ℕ
signatures j =
    if leb 100 j && ltb j 105
    then get_or ustar (j - 100) 0
    else if leb 4353 j && ltb j 4358
    then get_or ustar (j - 4353) 0
    else if leb 4865 j && ltb j 4870
    then get_or ustar (j - 4865) 0
    else if leb 5889 j && ltb j 5894
    then get_or ustar (j - 5889) 0
    else 0

abbrev archive : ℕ → ℕ
archive j =
    if j == 200 || j == 5632
    then b'b'
    else if j == 4096
    then b'd'
    else if j == 4608
    then b'a'
    else if j == 4220 || j == 5756 || j == 4733
    then b'0'
    else if j == 4732
    then b'1'
    else if j == 4252
    then b'5'
    else if j == 4764 || j == 5788
    then b'0'
    else signatures j

text : IsString archive 100 ustar
text = ground arith

three : IsArchive archive 4096 ((0 ∷ []) ∷ (1 ∷ 0 ∷ []) ∷ (0 ∷ []) ∷ [])
three = (
  ground arith,
  ground arith,
  omega arith,
  omega arith,
  omega arith,
  (
    ground arith,
    ground arith,
    omega arith,
    omega arith,
    omega arith,
    (
      ground arith,
      ground arith,
      omega arith,
      omega arith,
      omega arith,
      ([], refl, λ e. ground (arith, ap length e), omega arith),
    ),
  ),
)

abbrev no_headers : Headers
no_headers = record { headers = λ i. 0; address = λ i. 0; count = 0 }

parse_headers_lem_example :
    (h' : Headers) × (parse_headers 20 archive 100 no_headers 4096 0 ≡ some (h', 3))
    × Walked no_headers h' 4096 0 ((0 ∷ []) ∷ (1 ∷ 0 ∷ []) ∷ (0 ∷ []) ∷ [])
parse_headers_lem_example =
    parse_headers_lem archive 100 text ((0 ∷ []) ∷ (1 ∷ 0 ∷ []) ∷ (0 ∷ []) ∷ []) 20 no_headers 4096
      0 three (omega arith) (omega arith) (omega arith)

-- What the walk leaves, with the count that `ustar_parse` takes down by one.
abbrev parsed : Headers
parsed = record {
  headers = λ i. if i == 0 then 4096 else if i == 1 then 4608 else 5632;
  address = λ i. if i == 0 then 4608 else if i == 1 then 5120 else 6144;
  count = 2;
}

b_text : IsString archive 200 (b'b' ∷ [])
b_text = ground arith

IsOther-names : (j : ℕ) → j < 2 → IsOther 9 archive parsed 200 (b'b' ∷ []) b_text j
IsOther-names zero h =
    (b'd' ∷ [], ground arith, λ e. ground (arith, ap (λ (l : List ℕ). get_or l 0 0) e), omega arith)
IsOther-names (suc zero) h =
    (b'a' ∷ [], ground arith, λ e. ground (arith, ap (λ (l : List ℕ). get_or l 0 0) e), omega arith)
IsOther-names (suc (suc j)) h = absurd (omega arith)

ustar_cat_last_example :
    (ustar_search 9 true archive parsed 200 ≡ some (some 6144))
    × (ustar_cat 9 true archive parsed 200 ≡ some empty_text)
ustar_cat_last_example =
    ustar_cat_last 9 archive parsed 200 (b'b' ∷ []) b_text 2 refl (omega arith) (omega arith)
      IsOther-names (ground arith) (omega arith) (λ e. omega arith)
