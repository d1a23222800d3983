-- ===== src/Keyboard.antt =====
-- The keyboard driver, ntoskrnl/drv/keyboard.c: `KiUpdateKeyboard`, which follows the modifier
-- keys, and `KiUniToAscii`, which names the character of a key. The scan code that the handler
-- reads from port 0x60 is its argument; a CHAR is its number.
pub mod Keys
pub mod Layout
pub mod Modifiers
mod Tests
use open_lib.Common.{ℕ, Bool, true, false, not, ◌&&◌, ◌||◌, List, [], ◌∷◌, ◌==◌, if◌then◌else◌}
use Keys.{
  key_0, key_1, key_2, key_3, key_4, key_5, key_6, key_7, key_8, key_9, key_a, key_b, key_backslash,
  key_c, key_caps_lock, key_comma, key_d, key_dot, key_e, key_enter, key_equal, key_f,
  key_foreslhash, key_g, key_h, key_i, key_j, key_k, key_l, key_l_shift_p, key_l_shift_r, key_m,
  key_minus, key_n, key_o, key_p, key_q, key_r, key_r_shift_p, key_r_shift_r, key_s, key_semicolon,
  key_space, key_square_close_bracket, key_square_open_bracket, key_t, key_u, key_v, key_w, key_x,
  key_y, key_z,
}

-- KiCapsLock, KiShiftPress and KiKeyboardUsed.
pub record Keyboard : Type 0 where
  pub caps_lock : Bool
  pub shift_press : Bool
  pub keyboard_used : Bool

-- The `switch` of the handler; the cases that only break do nothing, like the default.
abbrev pub switch_scan_code : ℕ → Keyboard → Keyboard
switch_scan_code code s =
    if code == key_caps_lock
    then record s { caps_lock = not s.caps_lock }
    else if code == key_l_shift_p || code == key_r_shift_p
    then record s { shift_press = true }
    else if code == key_l_shift_r || code == key_r_shift_r
    then record s { shift_press = false }
    else s

unfoldable pub update_keyboard : ℕ → Keyboard → Keyboard
update_keyboard code s = record (switch_scan_code code (record s { keyboard_used = true })) {
  keyboard_used = false;
}

-- A `switch` whose cases return: the first case of the key, or 0.
abbrev pub switch : List (ℕ × ℕ) → ℕ → ℕ
switch [] key = 0
switch ((k, c) ∷ cases) key = if key == k then c else switch cases key

abbrev pub shifted_cases : List (ℕ × ℕ)
shifted_cases =
    (key_a, b'A')
    ∷ (key_b, b'B')
    ∷ (key_c, b'C')
    ∷ (key_d, b'D')
    ∷ (key_e, b'E')
    ∷ (key_f, b'F')
    ∷ (key_g, b'G')
    ∷ (key_h, b'H')
    ∷ (key_i, b'I')
    ∷ (key_j, b'J')
    ∷ (key_k, b'K')
    ∷ (key_l, b'L')
    ∷ (key_m, b'M')
    ∷ (key_n, b'N')
    ∷ (key_o, b'O')
    ∷ (key_p, b'P')
    ∷ (key_q, b'Q')
    ∷ (key_r, b'R')
    ∷ (key_s, b'S')
    ∷ (key_t, b'T')
    ∷ (key_u, b'U')
    ∷ (key_v, b'V')
    ∷ (key_w, b'W')
    ∷ (key_x, b'X')
    ∷ (key_y, b'Y')
    ∷ (key_z, b'Z')
    ∷ (key_1, b'!')
    ∷ (key_2, b'@')
    ∷ (key_3, b'#')
    ∷ (key_4, b'$')
    ∷ (key_5, b'%')
    ∷ (key_6, b'^')
    ∷ (key_7, b'&')
    ∷ (key_8, b'*')
    ∷ (key_9, b'(')
    ∷ (key_0, b')')
    ∷ (key_minus, b'_')
    ∷ (key_equal, b'+')
    ∷ (key_square_open_bracket, b'{')
    ∷ (key_square_close_bracket, b'}')
    ∷ (key_semicolon, b':')
    ∷ (key_backslash, b'|')
    ∷ (key_comma, b'<')
    ∷ (key_dot, b'>')
    ∷ (key_foreslhash, b'?')
    ∷ (key_space, b' ')
    ∷ (key_enter, 10)
    ∷ []

abbrev pub plain_cases : List (ℕ × ℕ)
plain_cases =
    (key_a, b'a')
    ∷ (key_b, b'b')
    ∷ (key_c, b'c')
    ∷ (key_d, b'd')
    ∷ (key_e, b'e')
    ∷ (key_f, b'f')
    ∷ (key_g, b'g')
    ∷ (key_h, b'h')
    ∷ (key_i, b'i')
    ∷ (key_j, b'j')
    ∷ (key_k, b'k')
    ∷ (key_l, b'l')
    ∷ (key_m, b'm')
    ∷ (key_n, b'n')
    ∷ (key_o, b'o')
    ∷ (key_p, b'p')
    ∷ (key_q, b'q')
    ∷ (key_r, b'r')
    ∷ (key_s, b's')
    ∷ (key_t, b't')
    ∷ (key_u, b'u')
    ∷ (key_v, b'v')
    ∷ (key_w, b'w')
    ∷ (key_x, b'x')
    ∷ (key_y, b'y')
    ∷ (key_z, b'z')
    ∷ (key_1, b'1')
    ∷ (key_2, b'2')
    ∷ (key_3, b'3')
    ∷ (key_4, b'4')
    ∷ (key_5, b'5')
    ∷ (key_6, b'6')
    ∷ (key_7, b'7')
    ∷ (key_8, b'8')
    ∷ (key_9, b'9')
    ∷ (key_0, b'0')
    ∷ (key_minus, b'-')
    ∷ (key_equal, b'=')
    ∷ (key_square_open_bracket, b'[')
    ∷ (key_square_close_bracket, b']')
    ∷ (key_semicolon, b';')
    ∷ (key_backslash, b'\\')
    ∷ (key_comma, b',')
    ∷ (key_dot, b'.')
    ∷ (key_foreslhash, b'/')
    ∷ (key_space, b' ')
    ∷ (key_enter, 10)
    ∷ []

abbrev pub shifted : Keyboard → Bool
shifted s = (s.shift_press && not s.caps_lock) || (not s.shift_press && s.caps_lock)

unfoldable pub uni_to_ascii : Keyboard → ℕ → ℕ
uni_to_ascii s key = if shifted s then switch shifted_cases key else switch plain_cases key
