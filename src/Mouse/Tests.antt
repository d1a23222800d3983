-- ===== src/Mouse/Tests.antt =====
-- A mouse on a screen of 800 by 600 for ntoskrnl/drv/mouse.c.
use open_lib.Common.{◌≡◌, refl, arith, true, false, [], ◌∷◌, ◌++◌, ◌==◌, if◌then◌else◌}
use open_lib.Dwm.{Window, Dwm}
use open_lib.Mouse.{Mouse, process_mouse, handle_ps2_mouse}
use open_lib.Mouse.Position.{IsBytes, OnScreen, process_mouse_lem, handle_ps2_mouse-OnScreen}
use open_lib.Mouse.Packets.{
  Packet, IsBetween, stream, handle_all, receive_all, handle_all-stream, handle_all-no_sync,
}

abbrev no_window : Window
no_window = record {
  title = 0;
  parent = 0;
  framebuffer = 0;
  x = 0;
  y = 0;
  width = 0;
  height = 0;
  window_type = 0;
  window_id = 0;
}

abbrev empty_desk : Dwm
empty_desk = record { windows = λ i. no_window; last_window = 0; refresh_buffer = false }

abbrev corner : Mouse
corner = record {
  mouse_state = 0;
  cycle = 0;
  packet = λ i. 0;
  packet_ready = false;
  skip = false;
  x = 0;
  y = 0;
  old_x = 0;
  old_y = 0;
  window = 0;
  dwm = empty_desk;
}

-- To the right by 5 and down by 3: the y sign bit is set, and the third byte is -3.
abbrev waiting : Mouse
waiting = record corner {
  packet_ready = true;
  packet = λ i. if i == 0 then 0x28 else if i == 1 then 5 else if i == 2 then 0xfd else 0;
}

waiting-IsBytes : IsBytes waiting
waiting-IsBytes i = ground arith

corner-OnScreen : OnScreen 800 600 corner
corner-OnScreen = record { inside_x = omega arith; inside_y = omega arith }

waiting-OnScreen : OnScreen 800 600 waiting
waiting-OnScreen = record { inside_x = omega arith; inside_y = omega arith }

process_mouse_lem_example :
    ((process_mouse 800 600 0 waiting).x ≡ 5)
    × ((process_mouse 800 600 0 waiting).y ≡ 3)
    × ((process_mouse 800 600 0 waiting).old_x ≡ (process_mouse 800 600 0 waiting).x)
    × ((process_mouse 800 600 0 waiting).old_y ≡ (process_mouse 800 600 0 waiting).y)
    × ((process_mouse 800 600 0 waiting).packet_ready ≡ false)
process_mouse_lem_example =
    process_mouse_lem 800 600 0 (omega arith, omega arith, omega arith, omega arith) waiting refl
      waiting-OnScreen waiting-IsBytes

handle_ps2_mouse-OnScreen_example :
    OnScreen 800 600 (handle_ps2_mouse 800 600 0 0x08 waiting)
    × IsBytes (handle_ps2_mouse 800 600 0 0x08 waiting)
handle_ps2_mouse-OnScreen_example =
    handle_ps2_mouse-OnScreen 800 600 0 (omega arith, omega arith, omega arith, omega arith) 0x08
      waiting (omega arith) waiting-OnScreen waiting-IsBytes

abbrev nudge : Packet
nudge = record { first = 0x08; second = 4; third = 0; synced = refl }

waiting-IsBetween : IsBetween waiting
waiting-IsBetween = record { at_start = refl; started = refl }

corner-IsBetween : IsBetween corner
corner-IsBetween = record { at_start = refl; started = refl }

handle_all-stream_example :
    handle_all 800 600 0 (0x08 ∷ 4 ∷ 0 ∷ 0x08 ∷ 4 ∷ 0 ∷ []) waiting
    ≡ receive_all 800 600 0 (nudge ∷ nudge ∷ []) waiting
handle_all-stream_example =
    handle_all-stream 800 600 0 (nudge ∷ nudge ∷ []) waiting waiting-IsBetween

handle_all-no_sync_example :
    handle_all 800 600 0 ((0 ∷ 0xf0 ∷ []) ++ stream (nudge ∷ [])) corner
    ≡ receive_all 800 600 0 (nudge ∷ []) corner
handle_all-no_sync_example =
    handle_all-no_sync 800 600 0 (0 ∷ 0xf0 ∷ []) (nudge ∷ []) corner corner-IsBetween refl refl
