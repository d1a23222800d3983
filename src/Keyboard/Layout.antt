-- ===== src/Keyboard/Layout.antt =====
-- The two layouts of `KiUniToAscii` in ntoskrnl/drv/keyboard.c.
use open_lib.Common.{
  ℕ, ◌+◌, ◌<◌, ◌≡◌, ◌≢◌, refl, arith, Bool, true, not, ◌&&◌, ◌||◌, List, [], ◌∷◌, ◌==◌, leb,
  if◌then◌else◌, all_below, all_below_sound, Bool-cases, sym, ◌∙◌, ap, inl, inr,
}
use open_lib.Keyboard.{Keyboard, switch, shifted_cases, plain_cases, shifted, uni_to_ascii}

-- The key that a table names for a character.
abbrev key_for : List (ℕ × ℕ) → ℕ → ℕ
key_for [] c = 0
key_for ((k, d) ∷ cases) c = if c == d then k else key_for cases c

abbrev returns : List (ℕ × ℕ) → ℕ → Bool
returns cases key = switch cases key == 0 || key_for cases (switch cases key) == key

returns-shifted : (key : ℕ) → key < 256 → returns shifted_cases key ≡ true
returns-shifted key h = all_below_sound 256 (returns shifted_cases) key (unfold all_below in refl) h

returns-plain : (key : ℕ) → key < 256 → returns plain_cases key ≡ true
returns-plain key h = all_below_sound 256 (returns plain_cases) key (unfold all_below in refl) h

returns_same :
    (cases : List (ℕ × ℕ)) (k l : ℕ)
    → returns cases k ≡ true
    → returns cases l ≡ true
    → switch cases k ≢ 0
    → switch cases k ≡ switch cases l
    → k ≡ l
returns_same cases k l rk rl ne e =
    let back_k : key_for cases (switch cases k) ≡ k = ground arith in
    let back_l : key_for cases (switch cases l) ≡ l = ground arith in
    sym back_k ∙ ap (key_for cases) e ∙ back_l

-- Whatever the modifiers, no two keys give the same character: the key can be told from it.
pub uni_to_ascii_injective :
    (s : Keyboard) (k l : ℕ)
    → k < 256
    → l < 256
    → uni_to_ascii s k ≢ 0
    → uni_to_ascii s k ≡ uni_to_ascii s l
    → k ≡ l
unfolding uni_to_ascii
uni_to_ascii_injective s k l hk hl ne e = elim (Bool-cases (shifted s)) [
  | inl on ↦
      returns_same shifted_cases k l (returns-shifted k hk) (returns-shifted l hl)
        (λ z. ne (rw on z)) (ground arith)
  | inr off ↦
      returns_same plain_cases k l (returns-plain k hk) (returns-plain l hl) (λ z. ne (rw off z))
        (ground arith)
]

-- Shift and Caps Lock cancel: changing both changes the character of no key, digits included.
pub uni_to_ascii_cancel :
    (s : Keyboard) (key : ℕ)
    → uni_to_ascii (record s { caps_lock = not s.caps_lock; shift_press = not s.shift_press }) key
      ≡ uni_to_ascii s key
unfolding uni_to_ascii
uni_to_ascii_cancel s key = ground arith

abbrev is_lower : ℕ → Bool
is_lower c = leb b'a' c && leb c b'z'

-- The characters of one key, `c` plain and `d` shifted: a letter in both cases, or no letter.
abbrev agree : ℕ → ℕ → Bool
agree c d =
    if is_lower c
    then leb b'A' d && leb d b'Z' && d + 32 == c
    else not (leb b'A' d && leb d b'Z') && (if c == 0 then d == 0 else not (d == 0))

agree_all : (key : ℕ) → key < 256 → agree (switch plain_cases key) (switch shifted_cases key) ≡ true
agree_all key h =
    all_below_sound 256 (λ k. agree (switch plain_cases k) (switch shifted_cases k)) key
      (unfold all_below in refl) h

agree_lem :
    (c d : ℕ)
    → agree c d ≡ true
    → ((leb b'A' d && leb d b'Z') ≡ (leb b'a' c && leb c b'z'))
      × ((if leb b'a' c && leb c b'z' then d + 32 else c) ≡ c)
      × ((c == 0) ≡ (d == 0))
agree_lem c d h = ground arith

-- In the shifted layout a key gives a capital exactly when one press of Shift would make it give
-- a small letter, the capital is 32 below that letter, and the two layouts give characters to the
-- same keys.
pub uni_to_ascii_capital :
    (s : Keyboard) (key : ℕ)
    → shifted s ≡ true
    → key < 256
    → let c = uni_to_ascii (record s { shift_press = not s.shift_press }) key in
      let d = uni_to_ascii s key in
      ((leb b'A' d && leb d b'Z') ≡ (leb b'a' c && leb c b'z'))
      × ((if leb b'a' c && leb c b'z' then d + 32 else c) ≡ c)
      × ((c == 0) ≡ (d == 0))
unfolding uni_to_ascii
uni_to_ascii_capital s key on h =
    let up : uni_to_ascii s key ≡ switch shifted_cases key = rw on refl in
    let down : uni_to_ascii (record s { shift_press = not s.shift_press }) key
        ≡ switch plain_cases key =
      ground arith in
    rw (up, down) (agree_lem _ _ (agree_all key h))
