-- ===== src/Mouse/Position.antt =====
-- The position of the cursor in `KiProcessMouse` of ntoskrnl/drv/mouse.c.
use open_lib.Common.{
  ℕ, ◌+◌, ◌-◌, ◌^◌, ◌<◌, ◌≡◌, refl, sym, ◌∙◌, arith, Bool, true, false, ltb, if◌then◌else◌,
  Bool-cases, inl, inr,
}
use open_lib.Mouse.{
  Mouse, flag, negated, step_up, step_down, clamp, process_mouse, handle_ps2_mouse, moved_x,
  moved_y,
}

-- A UCHAR in each byte of the packet.
abbrev pub IsBytes : Mouse → Type 0
IsBytes s = (i : ℕ) → s.packet i < 256

abbrev extra : Bool → ℕ
extra overflow = if overflow then 255 else 0

clamp-step_up :
    (size a by : ℕ) (overflow : Bool)
    → 0 < size
    → size < 2 ^ 30
    → a < size
    → by < 256
    → clamp size (step_up a by overflow)
      ≡ (if ltb (a + by + extra overflow) size then a + by + extra overflow else size - 1)
clamp-step_up size a by true p q h b = ground arith
clamp-step_up size a by false p q h b = ground arith

clamp-step_down :
    (size a by : ℕ) (overflow : Bool)
    → 0 < size
    → size < 2 ^ 30
    → a < size
    → by < 256
    → clamp size (step_down a by overflow) ≡ a - (by + extra overflow)
clamp-step_down size a by true p q h b = ground arith
clamp-step_down size a by false p q h b = ground arith

kept-below :
    (sign : Bool) (a by right size : ℕ)
    → a < size
    → (if sign then a - by else if ltb right size then right else size - 1) < size
kept-below true a by right size h = omega arith
kept-below false a by right size h = ground arith

below-kept :
    (sign : Bool) (a by down size : ℕ)
    → a < size
    → (if sign then (if ltb down size then down else size - 1) else a - by) < size
below-kept true a by down size h = ground arith
below-kept false a by down size h = omega arith

-- The cursor is on the screen.
pub record OnScreen (width height : ℕ) (s : Mouse) : Type 0 where
  pub inside_x : s.x < width
  pub inside_y : s.y < height

module _ (width height stray : ℕ)
    (small : (0 < width) × (width < 2 ^ 30) × (0 < height) × (height < 2 ^ 30)) where
  moved_x_lem :
      (s : Mouse)
      → OnScreen width height s
      → IsBytes s
      → moved_x width height stray s ≡ (
          let far = extra (flag (s.packet 0) 6) in
          if flag (s.packet 0) 4
          then s.x - (negated (s.packet 1) + far)
          else if ltb (s.x + s.packet 1 + far) width
          then s.x + s.packet 1 + far
          else width - 1)
  moved_x_lem s on bytes = elim (Bool-cases (flag (s.packet 0) 4)) [
    | inl e ↦ rw e (
        clamp-step_down width s.x (negated (s.packet 1)) (flag (s.packet 0) 6) small.0 small.1
          on.inside_x (omega arith))
    | inr e ↦ rw e (
        clamp-step_up width s.x (s.packet 1) (flag (s.packet 0) 6) small.0 small.1 on.inside_x
          (bytes 1))
  ]

  moved_y_lem :
      (s : Mouse)
      → OnScreen width height s
      → IsBytes s
      → moved_y width height stray s ≡ (
          let far = extra (flag (s.packet 0) 7) in
          if flag (s.packet 0) 5
          then (if ltb (s.y + negated (s.packet 2) + far) height
              then s.y + negated (s.packet 2) + far
              else height - 1)
          else s.y - (s.packet 2 + far))
  moved_y_lem s on bytes = elim (Bool-cases (flag (s.packet 0) 5)) [
    | inl e ↦ rw e (
        clamp-step_up height s.y (negated (s.packet 2)) (flag (s.packet 0) 7) small.2 small.3
          on.inside_y (omega arith))
    | inr e ↦ rw e (
        clamp-step_down height s.y (s.packet 2) (flag (s.packet 0) 7) small.2 small.3 on.inside_y
          (bytes 2))
  ]

  process_mouse-packet : (s : Mouse) → IsBytes s → IsBytes (process_mouse width height stray s)
  unfolding process_mouse
  process_mouse-packet s bytes i = ground (arith, bytes i)

  process_mouse-moved :
      (s : Mouse)
      → s.packet_ready ≡ true
      → let s' = process_mouse width height stray s in
        (s'.x ≡ moved_x width height stray s)
        × (s'.y ≡ moved_y width height stray s)
        × (s'.old_x ≡ moved_x width height stray s)
        × (s'.old_y ≡ moved_y width height stray s)
        × (s'.packet_ready ≡ false)
  unfolding process_mouse
  process_mouse-moved s ready = rw ready (refl, refl, refl, refl, refl)

  -- A packet that is acted on moves the cursor by its bytes, by 255 more for an overflow bit, and
  -- not past an edge of the screen: to the right or, with the sign bit, to the left, and upwards
  -- or, with the sign bit, downwards. The packet is used up, and the old position is the new one.
  pub process_mouse_lem :
      (s : Mouse)
      → s.packet_ready ≡ true
      → OnScreen width height s
      → IsBytes s
      → let s' = process_mouse width height stray s in
        let right = s.x + s.packet 1 + (if flag (s.packet 0) 6 then 255 else 0) in
        let down = s.y + negated (s.packet 2) + (if flag (s.packet 0) 7 then 255 else 0) in
        (s'.x ≡ (
          if flag (s.packet 0) 4
          then s.x - (negated (s.packet 1) + (if flag (s.packet 0) 6 then 255 else 0))
          else if ltb right width
          then right
          else width - 1))
        × (s'.y ≡ (
            if flag (s.packet 0) 5
            then if ltb down height then down else height - 1
            else s.y - (s.packet 2 + (if flag (s.packet 0) 7 then 255 else 0))))
        × (s'.old_x ≡ s'.x)
        × (s'.old_y ≡ s'.y)
        × (s'.packet_ready ≡ false)
  process_mouse_lem s ready on bytes =
      let moved = process_mouse-moved s ready in
      (
        moved.0 ∙ moved_x_lem s on bytes,
        moved.1 ∙ moved_y_lem s on bytes,
        moved.2 ∙ sym moved.0,
        moved.3 ∙ sym moved.1,
        moved.4,
      )

  process_mouse-OnScreen :
      (s : Mouse)
      → OnScreen width height s
      → IsBytes s
      → OnScreen width height (process_mouse width height stray s)
  process_mouse-OnScreen s on bytes = elim (Bool-cases s.packet_ready) [
    | inl ready ↦
        let moved = process_mouse-moved s ready in
        record {
          inside_x =
              rw (moved.0, moved_x_lem s on bytes)
                (kept-below (flag (s.packet 0) 4) s.x _ _ width on.inside_x);
          inside_y =
              rw (moved.1, moved_y_lem s on bytes)
                (below-kept (flag (s.packet 0) 5) s.y _ _ height on.inside_y);
        }
    | inr idle ↦
        let same : process_mouse width height stray s ≡ s = unfold process_mouse in ground arith in
        rw same on
  ]

  -- Whatever bytes arrive, the cursor is never off the screen.
  pub handle_ps2_mouse-OnScreen :
      (byte : ℕ) (s : Mouse)
      → byte < 256
      → OnScreen width height s
      → IsBytes s
      → OnScreen width height (handle_ps2_mouse width height stray byte s)
        × IsBytes (handle_ps2_mouse width height stray byte s)
  unfolding handle_ps2_mouse
  handle_ps2_mouse-OnScreen byte s h on bytes =
      let on' = process_mouse-OnScreen s on bytes in
      let bytes' = process_mouse-packet s bytes in
      (
        record { inside_x = ground (arith, on'.inside_x); inside_y = ground (arith, on'.inside_y) },
        λ i. ground (arith, bytes' i),
      )
