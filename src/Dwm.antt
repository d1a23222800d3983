-- ===== src/Dwm.antt =====
-- The window manager, ntoskrnl/mod/wm.c: the table of windows and the functions that fill, move and
-- search it. A window's `width` and `height` are its right and lower edge. Drawing is not modelled.
pub mod Laws
mod Tests
use open_lib.Common.{
  ℕ, zero, suc, ◌+◌, ◌-◌, ◌%◌, ◌^◌, Bool, true, false, ◌&&◌, Option, none, some, ◌==◌, ltb,
  if◌then◌else◌, update, u32, lt_signed,
}

-- KSYSTEM_WINDOW. Pointers are numbers.
pub record Window : Type 0 where
  pub title : ℕ
  pub parent : ℕ
  pub framebuffer : ℕ
  pub x : ℕ
  pub y : ℕ
  pub width : ℕ
  pub height : ℕ
  pub window_type : ℕ
  pub window_id : ℕ

-- The memory behind `Windows`, `iLastWindow` and `bRefreshBuffer`.
pub record Dwm : Type 0 where
  pub windows : ℕ → Window
  pub last_window : ℕ
  pub refresh_buffer : Bool

abbrev pub max_windows : ℕ
max_windows = 128

abbrev pub title_bar_thickness : ℕ
title_bar_thickness = 22

-- The loop of `DwmGetWindowIDByParent`; `none` is the end of a function without a value.
unfoldable pub find_title : (ℕ → Window) → ℕ → ℕ → ℕ → Option ℕ
find_title windows parent zero i = none
find_title windows parent (suc left) i =
    let rest = find_title windows parent left (i + 1) in
    if (windows i).title == parent then some (windows i).window_id else rest

unfoldable pub get_window_id_by_parent : Dwm → ℕ → Option ℕ
get_window_id_by_parent s parent = find_title s.windows parent s.last_window 0

-- The loop of `DwmAcquireInformation`.
unfoldable pub find_id : (ℕ → Window) → ℕ → ℕ → ℕ → Option Window
find_id windows id zero i = none
find_id windows id (suc left) i =
    let rest = find_id windows id left (i + 1) in
    if (windows i).window_id == id then some (windows i) else rest

unfoldable pub acquire_information : Dwm → ℕ → Option Window
acquire_information s id = find_id s.windows id s.last_window 0

-- `DwmCreateObject`, with the value it returns: `none` where a full table makes it return none.
unfoldable pub create_object : ℕ → ℕ → ℕ → ℕ → ℕ → ℕ → ℕ → Dwm → Dwm × Option ℕ
create_object title parent x y width height window_type s =
    let window : Window = record (s.windows s.last_window) {
      title = title;
      parent = parent;
      x = x;
      y = y;
      width = width;
      height = height;
      window_type = window_type;
      window_id = s.last_window;
    } in
    let windows = update s.windows s.last_window window in
    if s.last_window == max_windows then (s, none) else (
      record { windows = windows; last_window = s.last_window + 1; refresh_buffer = true },
      some (windows (s.last_window + 1)).window_id,
    )

-- The new place is two INT; the sums are UINT.
unfoldable pub set_window_pos : ℕ → ℕ → ℕ → Dwm → Dwm
set_window_pos id new_x new_y s =
    let w = s.windows id in
    if w.width == 0 then s else record s {
      windows = update s.windows id (record w {
        width = u32 (w.width + u32 (new_x + 2 ^ 32 - w.x));
        height = u32 (w.height + u32 (new_y + 2 ^ 32 - w.y));
        x = new_x;
        y = new_y;
      });
      refresh_buffer = true;
    }

-- The test of `DwmAcquireCursorWindow`: the cursor is on the title bar of a form. The lower edge
-- of the bar is a UINT, so this one comparison is unsigned.
abbrev pub on_title_bar : ℕ → ℕ → Window → Bool
on_title_bar px py w =
    w.window_type == 0
    && lt_signed w.x px
    && lt_signed px w.width
    && lt_signed w.y py
    && ltb py (u32 (w.y + title_bar_thickness))

unfoldable pub find_bar : ℕ → ℕ → (ℕ → Window) → ℕ → ℕ → Option ℕ
find_bar px py windows zero i = none
find_bar px py windows (suc left) i =
    let rest = find_bar px py windows left (i + 1) in
    if on_title_bar px py (windows i) then some (windows i).window_id else rest

-- `none` is the end of the function without a value.
unfoldable pub acquire_cursor_window : ℕ → ℕ → Dwm → Option ℕ
acquire_cursor_window px py s = find_bar px py s.windows s.last_window 0
