-- ===== src/Mouse.antt =====
-- The PS/2 mouse, ntoskrnl/drv/mouse.c: `KiHandlePS2Mouse`, which gathers packets of three bytes,
-- and `KiProcessMouse`, which moves the cursor and the window under it; `NtSetCursorPos` of
-- ntoskrnl/ntuser/cursor.c stores the position. Drawing the cursor is not modelled.

pub mod Position
pub mod Packets
mod Tests
use open_lib.Common.{
  ℕ, zero, suc, ◌+◌, ◌-◌, ◌*◌, ◌/◌, ◌%◌, ◌^◌, Bool, true, false, not, ◌&&◌, Option, none, some,
  List, [], ◌∷◌, ◌==◌, ltb, if◌then◌else◌, update, u32, lt_signed,
}
use open_lib.Dwm.{Dwm, set_window_pos, acquire_cursor_window}

pub record Mouse : Type 0 where
  pub mouse_state : ℕ
  pub cycle : ℕ
  pub packet : ℕ → ℕ
  pub packet_ready : Bool
  pub skip : Bool
  pub x : ℕ
  pub y : ℕ
  pub old_x : ℕ
  pub old_y : ℕ
  pub window : ℕ
  pub dwm : Dwm

-- `byte & ( 1 << n )` is not zero.
abbrev pub flag : ℕ → ℕ → Bool
flag byte n = byte / 2 ^ n % 2 == 1

abbrev pub mouse_left_click : ℕ
mouse_left_click = 1

abbrev pub mouse_middle_click : ℕ
mouse_middle_click = 2

abbrev pub mouse_right_click : ℕ
mouse_right_click = 3

-- What `256 - byte` is as a UCHAR.
abbrev pub negated : ℕ → ℕ
negated byte = (256 - byte) % 256

-- `a - b` on INT.
abbrev pub sub_word : ℕ → ℕ → ℕ
sub_word a b = u32 (a + (2 ^ 32 - b))

-- A step of the cursor towards larger and towards smaller coordinates, with the overflow bit.
abbrev pub step_up : ℕ → ℕ → Bool → ℕ
step_up a by overflow = if overflow then u32 (u32 (a + by) + 255) else u32 (a + by)

abbrev pub step_down : ℕ → ℕ → Bool → ℕ
step_down a by overflow = if overflow then sub_word (sub_word a by) 255 else sub_word a by

-- The two tests that keep a coordinate on a screen of the given size.
abbrev pub clamp : ℕ → ℕ → ℕ
clamp size a =
    let a = if lt_signed a 0 then 0 else a in
    if lt_signed (sub_word size 1) a then sub_word size 1 else a

-- `NtSetCursorPos`.
abbrev pub set_cursor_pos : ℕ → ℕ → Mouse → Mouse
set_cursor_pos x y s = record s { x = x; y = y; old_x = x; old_y = y }

-- KiVBEData.Width and KiVBEData.Height, and the value that a caller of `DwmAcquireCursorWindow`
-- meets when that function ends without one.
module _ (width height stray : ℕ) where
  abbrev pub moved_x : Mouse → ℕ
  moved_x s =
      let overflow = flag (s.packet 0) 6 in
      clamp width (
        if flag (s.packet 0) 4
        then step_down s.x (negated (s.packet 1)) overflow
        else step_up s.x (s.packet 1) overflow)

  abbrev pub moved_y : Mouse → ℕ
  moved_y s =
      let overflow = flag (s.packet 0) 7 in
      clamp height (
        if flag (s.packet 0) 5
        then step_up s.y (negated (s.packet 2)) overflow
        else step_down s.y (s.packet 2) overflow)

  -- The bytes of a packet with its sign bits set are negated in place.
  abbrev pub negated_packet : (ℕ → ℕ) → ℕ → ℕ
  negated_packet p =
      let p' = if flag (p 0) 4 then update p 1 (negated (p 1)) else p in
      if flag (p 0) 5 then update p' 2 (negated (p' 2)) else p'

  abbrev pub dragged : ℕ → ℕ → Dwm → Dwm
  dragged x y d =
      let id : ℕ = elim (acquire_cursor_window x y d) [ none ↦ stray | some id ↦ id ] in
      set_window_pos id (sub_word x 30) (sub_word y 7) d

  unfoldable pub process_mouse : Mouse → Mouse
  unfolding set_window_pos acquire_cursor_window
  process_mouse s =
      let at : Mouse = record s {
        x = moved_x s;
        y = moved_y s;
        packet = negated_packet s.packet;
      } in
      let left : Mouse = record at {
        mouse_state = if flag (s.packet 0) 0 then mouse_left_click else 0;
        dwm = if flag (s.packet 0) 0 then dragged at.x at.y at.dwm else at.dwm;
        window = if flag (s.packet 0) 0 then at.window else 2 ^ 32 - 1;
      } in
      let middle : Mouse = record left {
        mouse_state = if flag (s.packet 0) 2 then mouse_middle_click else left.mouse_state;
      } in
      let pressed : Mouse = record middle {
        mouse_state = if flag (s.packet 0) 1 then mouse_right_click else middle.mouse_state;
      } in
      let right : Mouse = record pressed { mouse_state = 0 } in
      let drawn = set_cursor_pos right.x right.y right in
      let refreshed = drawn.dwm in
      if not s.packet_ready then s else record drawn {
        mouse_state = 0;
        packet_ready = false;
        old_x = drawn.x;
        old_y = drawn.y;
        dwm = record refreshed { refresh_buffer = true };
      }

  -- The `switch` on KiMouseCycle.
  abbrev pub store : ℕ → Mouse → Mouse
  store byte s =
      if s.cycle == 0
      then (if s.packet_ready
          then s
          else if not (flag byte 3)
          then s
          else record s { packet = update s.packet 0 byte; cycle = 1 })
      else if s.cycle == 1
      then (if s.packet_ready then s else record s { packet = update s.packet 1 byte; cycle = 2 })
      else if s.cycle == 2
      then (if s.packet_ready
          then s
          else record s { packet = update s.packet 2 byte; packet_ready = true; cycle = 0 })
      else s

  unfoldable pub handle_ps2_mouse : ℕ → Mouse → Mouse
  handle_ps2_mouse byte s =
      let processed = process_mouse s in
      if processed.skip then record processed { skip = false } else store byte processed
