-- ===== src/Keyboard/Tests.antt =====
-- Runs of ntoskrnl/drv/keyboard.c on concrete keys.
use open_lib.Common.{◌≡◌, refl, true, false, [], ◌∷◌, ◌++◌}
use open_lib.Keyboard.{Keyboard, uni_to_ascii}
use open_lib.Keyboard.Keys.{key_a, key_1, key_l_shift_p, key_r_shift_p, key_l_shift_r}
use open_lib.Keyboard.Modifiers.{update_all, update_all-shift_press}

abbrev at_rest : Keyboard
at_rest = record { caps_lock = false; shift_press = false; keyboard_used = false }

abbrev caps_on : Keyboard
caps_on = record { caps_lock = true; shift_press = false; keyboard_used = false }

-- Caps Lock alone shifts the digits too.
caps_digit : uni_to_ascii caps_on key_1 ≡ b'!'
unfolding uni_to_ascii
caps_digit = refl

update_all-shift_press_example :
    (update_all
      ((key_r_shift_p ∷ key_l_shift_p ∷ []) ++ (key_l_shift_r ∷ key_a ∷ []))
      at_rest).shift_press
    ≡ false
update_all-shift_press_example =
    update_all-shift_press (key_r_shift_p ∷ key_l_shift_p ∷ []) (key_a ∷ []) key_l_shift_r at_rest
      refl refl
