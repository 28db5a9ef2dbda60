-- ===== src/Screen.antt =====
-- The console of student-distrib/lib.c: the text screen in video memory, the cursor of each
-- terminal, and the characters that are printed on it.
pub mod Cells
pub mod Invariant
pub mod Bounds
pub mod Delete
pub mod Cursor
pub mod Printf
mod Examples
use linux_like_os.Base.{
  ℕ, zero, suc, ◌+◌, ◌-◌, ◌*◌, ◌/◌, ◌%◌, ◌^◌, ltb, ◌==◌, if◌then◌else◌, update, for_range, ◌||◌,
  List, [], ◌∷◌,
}
use linux_like_os.Port.{Ports, outb}

abbrev pub num_cols : ℕ
num_cols = 80

abbrev pub num_rows : ℕ
num_rows = 25

abbrev pub attrib : ℕ
attrib = 7

abbrev pub tab_size : ℕ
tab_size = 5

-- `video_mem` is read and written by the offset from its start; the arrays by their index.
-- `line_tracker` holds where each row ended when the cursor left it.
pub record Screen : Type 0 where
  pub current_terminal : ℕ
  pub screen_x : ℕ → ℕ
  pub screen_y : ℕ → ℕ
  pub line_tracker : ℕ → ℕ
  pub video_mem : ℕ → ℕ
  pub ports : Ports

-- The cursor of the terminal on display.
abbrev pub col : Screen → ℕ
col s = s.screen_x s.current_terminal

abbrev pub row : Screen → ℕ
row s = s.screen_y s.current_terminal

abbrev pub set_col : ℕ → Screen → Screen
set_col x s = record s { screen_x = update s.screen_x s.current_terminal x }

abbrev pub set_row : ℕ → Screen → Screen
set_row y s = record s { screen_y = update s.screen_y s.current_terminal y }

abbrev pub poke : ℕ → ℕ → Screen → Screen
poke offset byte s = record s { video_mem = update s.video_mem offset byte }

abbrev pub track : ℕ → ℕ → Screen → Screen
track y x s = record s { line_tracker = update s.line_tracker y x }

-- Character and attribute of the cell under the cursor.
unfoldable pub put_cell : ℕ → Screen → Screen
put_cell c s =
    poke ((num_cols * row s + col s) * 2 + 1) attrib (poke ((num_cols * row s + col s) * 2) c s)

-- One round of `clear`.
unfoldable pub clear_cell : ℕ → Screen → Screen
clear_cell i s = poke (i * 2 + 1) attrib (poke (i * 2) b' ' s)

unfoldable pub clear : Screen → Screen
unfolding clear_cell for_range
clear s = for_range (num_rows * num_cols) 0 clear_cell s

-- `pos` is a `uint16_t`.
unfoldable pub update_cursor : ℕ → ℕ → Screen → Screen
update_cursor x y s =
    let pos = (y * num_cols + x) % 2 ^ 16 in
    record s {
      ports =
          outb (pos / 2 ^ 8 % 2 ^ 8) 0x3D5
            (outb 0x0E 0x3D4 (outb (pos % 2 ^ 8) 0x3D5 (outb 0x0F 0x3D4 s.ports)));
    }

abbrev pub show_cursor : Screen → Screen
show_cursor s = update_cursor (col s) (row s) s

-- The three loops of `scroll_screen`: the cells, the last row, the row ends.
unfoldable pub scroll_cell : ℕ → Screen → Screen
scroll_cell i s = poke (i * 2) (s.video_mem ((i + num_cols) * 2)) s

unfoldable pub blank_cell : ℕ → Screen → Screen
blank_cell i s = poke ((num_cols * row s + i) * 2) b' ' s

unfoldable pub shift_track : ℕ → Screen → Screen
shift_track i s = track i (s.line_tracker (i + 1)) s

unfoldable pub scroll_screen : Screen → Screen
scroll_screen s =
    let moved = set_row (num_rows - 1) (for_range ((num_rows - 1) * num_cols) 0 scroll_cell s) in
    let blanked = for_range num_cols 0 blank_cell moved in
    track (num_rows - 1) 0 (for_range (num_rows - 1) 0 shift_track blanked)

-- What `putc` ends with, for every character but NUL.
unfoldable pub settle : Screen → Screen
settle s = let t = if row s == num_rows then scroll_screen s else s in show_cursor t

unfoldable pub new_line : Screen → Screen
new_line s = set_col 0 (set_row (row s + 1) (track (row s) (col s) s))

-- The last branch of `putc`.
unfoldable pub put_glyph : ℕ → Screen → Screen
unfolding put_cell
put_glyph c s =
    let drawn = set_col ((col s + 1) % num_cols) (put_cell c s) in
    if col drawn == 0
    then set_row (row drawn + 1) (track (row drawn) (num_cols - 1) drawn)
    else drawn

-- `putc(' ')`, which the tab branch calls.
unfoldable pub put_space : ℕ → Screen → Screen
put_space i s = settle (put_glyph b' ' s)

unfoldable pub putc : ℕ → Screen → Screen
putc c s =
    if c == 0
    then s
    else if (c == b'\n') || (c == b'\r')
    then settle (new_line s)
    else if c == b'\t'
    then settle (for_range tab_size 0 put_space s)
    else settle (put_glyph c s)

-- The text before the terminator.
unfoldable pub puts : List ℕ → Screen → Screen
puts [] s = s
puts (c ∷ t) s = puts t (putc c s)

unfoldable pub del_c : Screen → Screen
unfolding put_cell
del_c s =
    if col s == 0
    then if ltb 0 (row s)
      then (let up = set_row (row s - 1) s in
          show_cursor (put_cell b' ' (set_col (up.line_tracker (row up)) up)))
      else s
    else show_cursor (put_cell b' ' (set_col (col s - 1) s))

unfoldable pub clear_screen : Screen → Screen
clear_screen s = show_cursor (set_row 0 (set_col 0 (clear s)))
