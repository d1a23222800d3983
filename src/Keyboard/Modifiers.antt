-- ===== src/Keyboard/Modifiers.antt =====
-- Rows of scan codes through `KiUpdateKeyboard` of ntoskrnl/drv/keyboard.c.
use open_lib.Common.{
  ℕ, ◌≡◌, refl, arith, Bool, true, false, not, ◌&&◌, ◌||◌, List, [], ◌∷◌, ◌++◌, ◌==◌, if◌then◌else◌,
}
use open_lib.Keyboard.{Keyboard, update_keyboard}
use open_lib.Keyboard.Keys.{
  key_caps_lock, key_l_shift_p, key_r_shift_p, key_l_shift_r, key_r_shift_r,
}

-- The interrupts of a row of scan codes, in order.
abbrev pub update_all : List ℕ → Keyboard → Keyboard
update_all [] s = s
update_all (code ∷ codes) s = update_all codes (update_keyboard code s)

-- Whether the Caps Lock make code stands in the row an odd number of times.
abbrev pub caps_odd : List ℕ → Bool
caps_odd [] = false
caps_odd (code ∷ codes) = if code == key_caps_lock then not (caps_odd codes) else caps_odd codes

abbrev pub xor : Bool → Bool → Bool
xor true b = not b
xor false b = b

abbrev pub is_press : ℕ → Bool
is_press code = code == key_l_shift_p || code == key_r_shift_p

abbrev pub is_release : ℕ → Bool
is_release code = code == key_l_shift_r || code == key_r_shift_r

abbrev pub no_shift : List ℕ → Bool
no_shift [] = true
no_shift (code ∷ codes) = not (is_press code) && not (is_release code) && no_shift codes

-- Caps Lock counts its make codes modulo two, whatever stands between them.
pub update_all-caps_lock :
    (codes : List ℕ) (s : Keyboard)
    → (update_all codes s).caps_lock ≡ xor s.caps_lock (caps_odd codes)
unfolding update_keyboard
update_all-caps_lock [] s = ground arith
update_all-caps_lock (code ∷ codes) s =
    ground (arith, update_all-caps_lock codes (update_keyboard code s))

shift_kept :
    (codes : List ℕ) (s : Keyboard)
    → no_shift codes ≡ true
    → (update_all codes s).shift_press ≡ s.shift_press
unfolding update_keyboard
shift_kept [] s h = refl
shift_kept (code ∷ codes) s h = ground (arith, shift_kept codes (update_keyboard code s))

update_all-append :
    (xs ys : List ℕ) (s : Keyboard) → update_all (xs ++ ys) s ≡ update_all ys (update_all xs s)
update_all-append [] ys s = refl
update_all-append (x ∷ xs) ys s = update_all-append xs ys (update_keyboard x s)

-- Shift is down exactly when the last code of a Shift key, of either of them, was a press.
pub update_all-shift_press :
    (before after : List ℕ) (code : ℕ) (s : Keyboard)
    → (is_press code || is_release code) ≡ true
    → no_shift after ≡ true
    → (update_all (before ++ (code ∷ after)) s).shift_press ≡ is_press code
unfolding update_keyboard
update_all-shift_press before after code s h quiet =
    rw
      (
        update_all-append before (code ∷ after) s,
        shift_kept after (update_keyboard code (update_all before s)) quiet,
      )
      (ground arith)
