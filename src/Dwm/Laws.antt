-- ===== src/Dwm/Laws.antt =====
-- The table of windows of ntoskrnl/mod/wm.c: its numbering, moving a window, and the searches.
use open_lib.Common.{
  ℕ, zero, suc, ◌+◌, ◌-◌, ◌%◌, ◌^◌, ◌<◌, ◌≤◌, ◌≡◌, ◌≢◌, arith, true, false, none, some, ◌==◌, ltb,
  if◌then◌else◌, u32, ◌⊎◌, inl, inr, Bool-cases, Option-cases, ==_iff,
}
use open_lib.Dwm.{
  Window, Dwm, max_windows, find_id, acquire_information, create_object, set_window_pos,
  on_title_bar, find_bar, acquire_cursor_window,
}

-- Every window in use carries the number of its slot, and the table is not overfull.
pub record IsNumbered (s : Dwm) : Type 0 where
  pub room : s.last_window ≤ max_windows
  pub numbered : (i : ℕ) → i < s.last_window → (s.windows i).window_id ≡ i

find_id_lem :
    (windows : ℕ → Window) (id left i n : ℕ)
    → i + left ≡ n
    → ((j : ℕ) → j < n → (windows j).window_id ≡ j)
    → i ≤ id
    → find_id windows id left i ≡ (if ltb id n then some (windows id) else none)
unfolding find_id
find_id_lem windows id zero i n e h lo = ground arith
find_id_lem windows id (suc left) i n e h lo = elim (Bool-cases (i == id)) [
  | inl here ↦ let same : i ≡ id = ground arith in ground (arith, h i)
  | inr ne ↦
      ground (arith, h i, find_id_lem windows id left (i + 1) n (omega arith) h (ground arith))
]

-- In a numbered table the search by number is the access to the slot.
pub acquire_information_lem :
    (s : Dwm) (id : ℕ)
    → IsNumbered s
    → acquire_information s id ≡ (if ltb id s.last_window then some (s.windows id) else none)
unfolding acquire_information
acquire_information_lem s id n =
    find_id_lem s.windows id s.last_window 0 s.last_window (omega arith) n.numbered (omega arith)

create_object-IsNumbered :
    (title parent x y width height window_type : ℕ) (s : Dwm)
    → IsNumbered s
    → IsNumbered (create_object title parent x y width height window_type s).0
unfolding create_object
create_object-IsNumbered title parent x y width height window_type s n = record {
  room = ground (arith, n.room);
  numbered = λ i h. ground (arith, n.numbered i);
}

-- A window created while there is room is found under the next number, with its place, and the
-- table stays numbered. The value returned is not that number: it is what the slot after the new
-- one holds.
pub create_object_lem :
    (title parent x y width height window_type : ℕ) (s : Dwm)
    → IsNumbered s
    → s.last_window < max_windows
    → let r = create_object title parent x y width height window_type s in
      IsNumbered r.0
      × (acquire_information r.0 s.last_window
          ≡ some (record {
            title = title;
            parent = parent;
            framebuffer = (s.windows s.last_window).framebuffer;
            x = x;
            y = y;
            width = width;
            height = height;
            window_type = window_type;
            window_id = s.last_window;
          }))
      × (r.1 ≡ some (s.windows (s.last_window + 1)).window_id)
create_object_lem title parent x y width height window_type s n room =
    let numbered = create_object-IsNumbered title parent x y width height window_type s n in
    (
      numbered,
      rw (acquire_information_lem _ s.last_window numbered) (unfold create_object in ground arith),
      unfold create_object in ground arith,
    )

-- Moving a window keeps its extent, in both directions, and every other window.
pub set_window_pos_lem :
    (id new_x new_y : ℕ) (s : Dwm)
    → (s.windows id).width ≢ 0
    → new_x < 2 ^ 32
    → new_y < 2 ^ 32
    → (s.windows id).x < 2 ^ 32
    → (s.windows id).y < 2 ^ 32
    → let w = s.windows id in
      let w' = (set_window_pos id new_x new_y s).windows id in
      (w'.x ≡ new_x)
      × (w'.y ≡ new_y)
      × (u32 (w'.width + (2 ^ 32 - w'.x)) ≡ u32 (w.width + (2 ^ 32 - w.x)))
      × (u32 (w'.height + (2 ^ 32 - w'.y)) ≡ u32 (w.height + (2 ^ 32 - w.y)))
      × ((j : ℕ) → j ≢ id → (set_window_pos id new_x new_y s).windows j ≡ s.windows j)
unfolding set_window_pos
set_window_pos_lem id new_x new_y s visible hx hy h1 h2 =
    (ground arith, ground arith, ground arith, ground arith, λ j ne. ground arith)

find_bar-some :
    (px py : ℕ) (windows : ℕ → Window) (left i id : ℕ)
    → ((j : ℕ) → i ≤ j → j < i + left → (windows j).window_id ≡ j)
    → find_bar px py windows left i ≡ some id
    → (id < i + left)
      × (on_title_bar px py (windows id) ≡ true)
      × ((j : ℕ) → i ≤ j → j < id → on_title_bar px py (windows j) ≡ false)
unfolding find_bar
find_bar-some px py windows zero i id h e = absurd (ground arith)
find_bar-some px py windows (suc left) i id h e =
    elim (Bool-cases (on_title_bar px py (windows i))) [
      | inl on ↦
          let same : id ≡ i = ground (arith, h i) in
          (omega arith, rw same on, λ j p q. absurd (omega arith))
      | inr off ↦
          let rest =
            find_bar-some px py windows left (i + 1) id (λ j p q. h j (omega arith) (omega arith))
              (ground arith) in
          (
            omega (arith, rest.0),
            rest.1,
            λ j p q. elim (Bool-cases (i == j)) [
              | inl s ↦ rw (← ((==_iff i j).0 s)) off
              | inr ne ↦ rest.2 j (ground arith) q
            ],
          )
    ]

find_bar-none :
    (px py : ℕ) (windows : ℕ → Window) (left i j : ℕ)
    → find_bar px py windows left i ≡ none
    → i ≤ j
    → j < i + left
    → on_title_bar px py (windows j) ≡ false
unfolding find_bar
find_bar-none px py windows zero i j e p q = absurd (omega arith)
find_bar-none px py windows (suc left) i j e p q = elim (Bool-cases (i == j)) [
  | inl s ↦ let same : i ≡ j = (==_iff i j).0 s in rw (← same) (ground arith)
  | inr ne ↦ find_bar-none px py windows left (i + 1) j (ground arith) (ground arith) (omega arith)
]

-- An INT, moved so that the order of the naturals is that of the signed numbers.
abbrev pub offset : ℕ → ℕ
offset a = (a + 2 ^ 31) % 2 ^ 32

-- The point is inside the title bar, 22 lines high, of a form. The lower edge of the bar is an
-- unsigned number.
pub record IsOnTitleBar (px py : ℕ) (w : Window) : Type 0 where
  pub form : w.window_type ≡ 0
  pub left : offset w.x < offset px
  pub right : offset px < offset w.width
  pub top : offset w.y < offset py
  pub bottom : py < (w.y + 22) % 2 ^ 32

on_title_bar-IsOnTitleBar :
    (px py : ℕ) (w : Window) → on_title_bar px py w ≡ true → IsOnTitleBar px py w
on_title_bar-IsOnTitleBar px py w e = record {
  form = ground (arith, e);
  left = ground (arith, e);
  right = ground (arith, e);
  top = ground (arith, e);
  bottom = ground (arith, e);
}

IsOnTitleBar-on_title_bar :
    (px py : ℕ) (w : Window) → on_title_bar px py w ≡ false → ¬ IsOnTitleBar px py w
IsOnTitleBar-on_title_bar px py w e bar =
    ground (arith, e, bar.form, bar.left, bar.right, bar.top, bar.bottom)

-- In a numbered table, a click finds the form with the lowest number whose title bar is under the
-- cursor: the point is to the right of the left edge, to the left of the right edge and below the
-- top, and above the line 22 below the top in the unsigned order. The function ends without a
-- value exactly when there is no such form.
pub acquire_cursor_window_lem :
    (px py : ℕ) (s : Dwm)
    → IsNumbered s
    → ((id : ℕ) × (acquire_cursor_window px py s ≡ some id)
        × (id < s.last_window)
        × IsOnTitleBar px py (s.windows id)
        × ((j : ℕ) → j < id → ¬ IsOnTitleBar px py (s.windows j)))
      ⊎ ((acquire_cursor_window px py s ≡ none)
          × ((j : ℕ) → j < s.last_window → ¬ IsOnTitleBar px py (s.windows j)))
unfolding acquire_cursor_window
acquire_cursor_window_lem px py s n =
    elim (Option-cases (find_bar px py s.windows s.last_window 0)) [
      | inl e ↦ inr (
        e,
        λ j h.
            IsOnTitleBar-on_title_bar px py (s.windows j)
              (find_bar-none px py s.windows s.last_window 0 j e (omega arith) (omega arith)),
      )
      | inr (id, e) ↦
          let found =
            find_bar-some px py s.windows s.last_window 0 id (λ j p q. n.numbered j (omega arith))
              e in
          inl (
            id,
            e,
            omega (arith, found.0),
            on_title_bar-IsOnTitleBar px py (s.windows id) found.1,
            λ j h. IsOnTitleBar-on_title_bar px py (s.windows j) (found.2 j (omega arith) h),
          )
    ]
