-- ===== src/Screen/Invariant.antt =====
-- The cursor stays on the screen, and nothing is written outside of video memory.
use linux_like_os.Base.{
  ℕ, ◌+◌, ◌-◌, ◌<◌, ◌≡◌, refl, ◌==◌, for_range, for_range_inv, if_both, ◌||◌, arith, List, [], ◌∷◌,
}
use linux_like_os.Screen.{
  Screen, row, update_cursor, settle, new_line, put_glyph, put_space, putc, puts, del_c,
  clear_screen,
}
use linux_like_os.Screen.Cells.{scroll_screen_lem, clear_lem}

-- Every cursor and every row end lies on the 80 by 25 screen.
pub record OnScreen (s : Screen) : Type 0 where
  pub columns : (t : ℕ) → s.screen_x t < 80
  pub rows : (t : ℕ) → s.screen_y t < 25
  pub ends : (r : ℕ) → r < 25 → s.line_tracker r < 80

-- Inside `putc` the cursor of the terminal on display may stand just below the last row.
pub record Below (s : Screen) : Type 0 where
  columns : (t : ℕ) → s.screen_x t < 80
  rows : (t : ℕ) → s.screen_y t < 26
  others : (t : ℕ) → s.screen_y t ≡ 25 → t ≡ s.current_terminal
  ends : (r : ℕ) → r < 25 → s.line_tracker r < 80

pub settle-OnScreen : (s : Screen) → Below s → OnScreen (settle s)
unfolding settle update_cursor
settle-OnScreen s b = record {
  columns = λ t. ground (arith, scroll_screen_lem s, b.columns t);
  rows = λ t. ground (arith, scroll_screen_lem s, b.rows t, b.others t);
  ends = λ r h. ground (arith, scroll_screen_lem s, b.ends r h, b.ends (r + 1));
}

pub put_glyph-Below : (c : ℕ) (s : Screen) → OnScreen s → Below (put_glyph c s)
unfolding put_glyph
put_glyph-Below c s v = record {
  columns = λ t. ground (arith, v.columns t);
  rows = λ t. ground (arith, v.rows t);
  others = λ t. ground (arith, v.rows t);
  ends = λ r h. ground (arith, v.ends r h);
}

pub new_line-Below : (s : Screen) → OnScreen s → Below (new_line s)
unfolding new_line
new_line-Below s v = record {
  columns = λ t. ground (arith, v.columns t);
  rows = λ t. ground (arith, v.rows t);
  others = λ t. ground (arith, v.rows t);
  ends = λ r h. ground (arith, v.ends r h, v.columns s.current_terminal);
}

pub put_space-OnScreen : (i : ℕ) (s : Screen) → OnScreen s → OnScreen (put_space i s)
unfolding put_space
put_space-OnScreen i s v = settle-OnScreen _ (put_glyph-Below _ s v)

pub OnScreen-Below : (s : Screen) → OnScreen s → Below s
OnScreen-Below s v = record {
  columns = v.columns;
  rows = λ t. omega (arith, v.rows t);
  others = λ t e. absurd (omega (arith, v.rows t));
  ends = v.ends;
}

pub tab-OnScreen : (s : Screen) → OnScreen s → OnScreen (for_range 5 0 put_space s)
tab-OnScreen s v =
    for_range_inv (λ i t. OnScreen t) put_space 5 (λ i t h. put_space-OnScreen i t) 5 0 5 s refl
      (omega arith) v

-- `putc` keeps every cursor and every row end on the screen, whatever the character.
pub putc-OnScreen : (c : ℕ) (s : Screen) → OnScreen s → OnScreen (putc c s)
unfolding putc
putc-OnScreen c s v = if_both OnScreen (c == 0) v (
    if_both OnScreen ((c == 10) || (c == 13)) (settle-OnScreen _ (new_line-Below s v)) (
      if_both OnScreen (c == 9) (settle-OnScreen _ (OnScreen-Below _ (tab-OnScreen s v)))
        (settle-OnScreen _ (put_glyph-Below c s v))))

-- So does printing a text.
pub puts-OnScreen : (t : List ℕ) (s : Screen) → OnScreen s → OnScreen (puts t s)
unfolding puts
puts-OnScreen [] s v = v
puts-OnScreen (c ∷ t) s v = puts-OnScreen t (putc c s) (putc-OnScreen c s v)

-- So does deleting the latest character.
pub del_c-OnScreen : (s : Screen) → OnScreen s → OnScreen (del_c s)
unfolding del_c update_cursor
del_c-OnScreen s v = record {
  columns = λ t. ground (
    arith,
    v.columns t,
    v.columns s.current_terminal,
    v.rows s.current_terminal,
    v.ends (row s - 1),
  );
  rows = λ t. ground (arith, v.rows t);
  ends = λ r h. ground (arith, v.ends r h);
}

-- So does clearing the screen.
pub clear_screen-OnScreen : (s : Screen) → OnScreen s → OnScreen (clear_screen s)
unfolding clear_screen update_cursor
clear_screen-OnScreen s v = rw (clear_lem s) (record {
  columns = λ t. ground (arith, v.columns t);
  rows = λ t. ground (arith, v.rows t);
  ends = λ r h. ground (arith, v.ends r h);
})
