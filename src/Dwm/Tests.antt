-- ===== src/Dwm/Tests.antt =====
-- A small table of windows for ntoskrnl/mod/wm.c.
use open_lib.Common.{ℕ, ◌<◌, ◌≡◌, arith, false, none, some, ◌⊎◌, ◌==◌, if◌then◌else◌}
use open_lib.Dwm.{Window, Dwm, acquire_cursor_window}
use open_lib.Dwm.Laws.{IsNumbered, IsOnTitleBar, acquire_cursor_window_lem}

abbrev form : ℕ → Window
form i = record {
  title = 500;
  parent = 0;
  framebuffer = 0;
  x = 10;
  y = 20;
  width = 110;
  height = 80;
  window_type = 0;
  window_id = i;
}

-- One form, and a memory behind it whose numbers are all 7.
abbrev desk : Dwm
desk = record {
  windows = λ i. if i == 0 then form 0 else form 7;
  last_window = 1;
  refresh_buffer = false;
}

desk-IsNumbered : IsNumbered desk
desk-IsNumbered = record { room = omega arith; numbered = λ i h. ground arith }

acquire_cursor_window_lem_example :
    ((id : ℕ) × (acquire_cursor_window 30 25 desk ≡ some id)
      × (id < 1)
      × IsOnTitleBar 30 25 (desk.windows id)
      × ((j : ℕ) → j < id → ¬ IsOnTitleBar 30 25 (desk.windows j)))
    ⊎ ((acquire_cursor_window 30 25 desk ≡ none)
        × ((j : ℕ) → j < 1 → ¬ IsOnTitleBar 30 25 (desk.windows j)))
acquire_cursor_window_lem_example = acquire_cursor_window_lem 30 25 desk desk-IsNumbered
