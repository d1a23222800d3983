-- ===== src/Fat/Entry/Short.antt =====
-- The eleven bytes of a short name, from `FatWrite83FileName` of fat32.c.
use open_lib.Common.{
  ℕ, zero, suc, ◌+◌, ◌-◌, ◌≤◌, ◌<◌, ◌≡◌, ◌≢◌, refl, ap, ◌∙◌, arith, ◌&&◌, List, length, get_or,
  Option, none, some, ◌==◌, ltb, leb, if◌then◌else◌, update, for_range_inv, ◌⊎◌, inl, inr,
  Bool-cases, Option-cases, ==_iff,
}
use open_lib.Utill.{fill, k_toupper}
use open_lib.Fat.Sector.{Bytes}
use open_lib.Fat.Entry.{
  store_chars, write_extension, write_first_part, dot_index, extension_char, write_83_file_name,
}

-- A counted loop that stores `f i` at `at + i`.
stores :
    (f : ℕ → ℕ) (at n q : ℕ) (m : Bytes)
    → store_chars f at n m q ≡ (if leb at q && ltb q (at + n) then f (q - at) else m q)
unfolding store_chars
stores f at n q m =
    for_range_inv (λ k (b : Bytes). b q ≡ (if leb at q && ltb q (at + k) then f (q - at) else m q))
      (λ i (b : Bytes). update b (at + i) (f i)) n 0 n m
      (λ k b lo hi p. elim (Bool-cases (at + k == q)) [
        | inl here ↦ let e : k ≡ q - at = ground arith in ground (arith, ap f e)
        | inr there ↦ ground arith
      ])
      (omega arith) (ground arith)

-- The last dot of a name.
pub record LastDot (fname : List ℕ) (n d : ℕ) : Type 0 where
  pub below : d < n
  pub is_dot : get_or fname d 0 ≡ b'.'
  pub none_behind : (j : ℕ) → d < j → j < n → get_or fname j 0 ≢ b'.'

-- The short name, character by character, by the place of the last dot.
abbrev pub first_part_char : List ℕ → ℕ → ℕ → ℕ
first_part_char fname firstpart_len j =
    if ltb 8 firstpart_len
    then (if j == 7 then b'1' else if j == 6 then b'~' else k_toupper (get_or fname j 0))
    else if ltb j firstpart_len
    then k_toupper (get_or fname j 0)
    else b' '

abbrev pub short_char : List ℕ → Option ℕ → ℕ → ℕ
short_char fname none j = if leb 8 j then b' ' else first_part_char fname (length fname) j
short_char fname (some d) j =
    if leb 8 j then extension_char fname (d + 1 + (j - 8)) else first_part_char fname d j

write_first_part_lem :
    (fname : List ℕ) (len at q : ℕ) (m : Bytes)
    → ((p : ℕ) → at ≤ p → p < at + 8 → m p ≡ b' ')
    → write_first_part fname len at m q
      ≡ (if leb at q && ltb q (at + 8) then first_part_char fname len (q - at) else m q)
unfolding write_first_part
write_first_part_lem fname len at q m blank = elim (Bool-cases (ltb 8 len)) [
  | inl long ↦ rw long (ground (arith, stores (λ i. k_toupper (get_or fname i 0)) at 6 q m))
  | inr short ↦
      rw short (ground (arith, blank q, stores (λ i. k_toupper (get_or fname i 0)) at len q m))
]

write_extension_lem :
    (fname : List ℕ) (dot : Option ℕ) (at q : ℕ) (m : Bytes)
    → ((p : ℕ) → at ≤ p → p < at + 11 → m p ≡ b' ')
    → write_extension fname dot at m q
      ≡ (if leb (at + 8) q && ltb q (at + 11) then short_char fname dot (q - at) else m q)
unfolding write_extension
write_extension_lem fname none at q m blank = ground (arith, stores (λ i. b' ') (at + 8) 3 q m)
write_extension_lem fname (some d) at q m blank =
    let same : q - (at + 8) ≡ q - at - 8 = omega arith in
    ground (arith, same, stores (λ i. extension_char fname (d + 1 + i)) (at + 8) 3 q m)

dot_index-LastDot : (fname : List ℕ) (n d : ℕ) → dot_index fname n ≡ some d → LastDot fname n d
unfolding dot_index
dot_index-LastDot fname zero d e = absurd (ground arith)
dot_index-LastDot fname (suc n) d e = elim (Bool-cases (get_or fname n 0 == b'.')) [
  | inl here ↦
      let same : n ≡ d = ground arith in
      record {
        below = omega arith;
        is_dot = rw (← same) ((==_iff _ _).0 here);
        none_behind = λ j p q. absurd (omega arith);
      }
  | inr not_here ↦
      let rest = dot_index-LastDot fname n d (ground arith) in
      record {
        below = omega (arith, rest.below);
        is_dot = rest.is_dot;
        none_behind = λ j p q. elim (Bool-cases (n == j)) [
          | inl s ↦ rw (← ((==_iff n j).0 s)) (ground arith)
          | inr ne ↦ rest.none_behind j p (ground arith)
        ];
      }
]

dot_index-none :
    (fname : List ℕ) (n j : ℕ) → dot_index fname n ≡ none → j < n → get_or fname j 0 ≢ b'.'
unfolding dot_index
dot_index-none fname zero j e h = absurd (omega arith)
dot_index-none fname (suc n) j e h = elim (Bool-cases (n == j)) [
  | inl s ↦ rw (← ((==_iff n j).0 s)) (ground arith)
  | inr ne ↦ dot_index-none fname n j (ground arith) (ground arith)
]

write_83_file_name-at :
    (fname : List ℕ) (dot : Option ℕ) (at q : ℕ) (buffer : Bytes)
    → dot_index fname (length fname) ≡ dot
    → write_83_file_name fname at buffer q
      ≡ (if leb at q && ltb q (at + 11) then short_char fname dot (q - at) else buffer q)
unfolding write_83_file_name
write_83_file_name-at fname none at q buffer e =
    let cleared = fill buffer at b' ' 11 in
    rw e (
      ground (
        arith,
        write_first_part_lem fname (length fname) at q (write_extension fname none at cleared)
            (λ p lo hi.
              ground
                (arith, write_extension_lem fname none at p cleared (λ r lo hi. ground arith))),
        write_extension_lem fname none at q cleared (λ r lo hi. ground arith),
      ))
write_83_file_name-at fname (some d) at q buffer e =
    let cleared = fill buffer at b' ' 11 in
    rw e (
      ground (
        arith,
        write_first_part_lem fname d at q (write_extension fname (some d) at cleared) (λ p lo hi.
            ground
              (arith, write_extension_lem fname (some d) at p cleared (λ r lo hi. ground arith))),
        write_extension_lem fname (some d) at q cleared (λ r lo hi. ground arith),
      ))

-- `FatWrite83FileName` writes eleven bytes and no other: the short name by the last dot of the
-- name, or that of a name in which no character is a dot.
pub write_83_file_name_lem :
    (fname : List ℕ) (at : ℕ) (buffer : Bytes)
    → (dot : Option ℕ) × ((q : ℕ)
        → write_83_file_name fname at buffer q
          ≡ (if leb at q && ltb q (at + 11) then short_char fname dot (q - at) else buffer q))
      × (((d : ℕ) × (dot ≡ some d) × LastDot fname (length fname) d)
          ⊎ ((dot ≡ none) × ((j : ℕ) → j < length fname → get_or fname j 0 ≢ b'.')))
write_83_file_name_lem fname at buffer = elim (Option-cases (dot_index fname (length fname))) [
  | inl e ↦ (
    none,
    λ q. write_83_file_name-at fname none at q buffer e,
    inr (refl, λ j. dot_index-none fname (length fname) j e),
  )
  | inr (d, e) ↦ (
    some d,
    λ q. write_83_file_name-at fname (some d) at q buffer e,
    inl (d, refl, dot_index-LastDot fname (length fname) d e),
  )
]

pub write_83_file_name-elsewhere :
    (fname : List ℕ) (at q : ℕ) (buffer : Bytes)
    → (q < at) ⊎ (at + 11 ≤ q)
    → write_83_file_name fname at buffer q ≡ buffer q
write_83_file_name-elsewhere fname at q buffer out =
    write_83_file_name-at fname (dot_index fname (length fname)) at q buffer refl ∙ ground arith
