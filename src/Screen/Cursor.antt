-- ===== src/Screen/Cursor.antt =====
-- The hardware cursor follows the software cursor.
use linux_like_os.Base.{
  ℕ, ◌+◌, ◌*◌, ◌<◌, ◌≡◌, ◌≢◌, ◌==◌, ◌&&◌, ◌||◌, if◌then◌else◌, if_both, ==_ne, ◌-◌, [], ◌∷◌, arith,
}
use linux_like_os.Port.{Ports, wrote, was_read}
use linux_like_os.Screen.{
  Screen, row, col, update_cursor, settle, putc, show_cursor, del_c, scroll_screen,
}
use linux_like_os.Screen.Invariant.{
  OnScreen, Below, settle-OnScreen, new_line-Below, put_glyph-Below, OnScreen-Below, tab-OnScreen,
}

-- The display controller as its manual describes it: port 0x3D4 selects a register, and a write to
-- port 0x3D5 sets the selected one.
abbrev pub selected : Ports → ℕ
selected [] = 0
selected (wrote v p ∷ io) = if p == 0x3D4 then v else selected io
selected (was_read p ∷ io) = selected io

abbrev pub register : ℕ → Ports → ℕ
register r [] = 0
register r (wrote v p ∷ io) = if (p == 0x3D5) && (selected io == r) then v else register r io
register r (was_read p ∷ io) = register r io

-- Registers 14 and 15 hold the cell at which the cursor blinks.
abbrev pub cursor_cell : Ports → ℕ
cursor_cell io = register 14 io * 256 + register 15 io

abbrev pub InStep : Screen → Type 0
InStep s = cursor_cell s.ports ≡ 80 * row s + col s

show_cursor-InStep : (s : Screen) → col s < 80 → row s < 25 → InStep (show_cursor s)
unfolding update_cursor
show_cursor-InStep s h k = ground arith

settle-InStep : (s : Screen) → Below s → InStep (settle s)
unfolding settle update_cursor
settle-InStep s b =
    show_cursor-InStep (if row s == 25 then scroll_screen s else s)
      ((settle-OnScreen s b).columns _) ((settle-OnScreen s b).rows _)

-- After `putc` of any character but NUL the controller shows the cursor at the cell where the next
-- character goes.
putc-InStep : (c : ℕ) (s : Screen) → OnScreen s → c ≢ 0 → InStep (putc c s)
unfolding putc
putc-InStep c s v h = rw (==_ne c 0 h) (
    if_both InStep ((c == 10) || (c == 13)) (settle-InStep _ (new_line-Below s v)) (
      if_both InStep (c == 9) (settle-InStep _ (OnScreen-Below _ (tab-OnScreen s v)))
        (settle-InStep _ (put_glyph-Below c s v))))

-- If it showed the cursor before `del_c`, it does so afterwards.
pub del_c-InStep : (s : Screen) → OnScreen s → InStep s → InStep (del_c s)
unfolding del_c update_cursor
del_c-InStep s v h =
    ground (arith, v.columns s.current_terminal, v.rows s.current_terminal, v.ends (row s - 1))
