-- ===== src/Screen/Delete.antt =====
-- del_c takes back what putc printed.
use linux_like_os.Base.{ℕ, ◌+◌, ◌*◌, ◌<◌, ◌≡◌, ◌≢◌, ◌⊎◌, update, arith}
use linux_like_os.Screen.{Screen, row, col, update_cursor, settle, put_glyph, putc, del_c}
use linux_like_os.Screen.Invariant.{OnScreen}

-- A character that moves the cursor by one cell.
abbrev pub IsGlyph : ℕ → Type 0
IsGlyph c = (c ≢ 0) × (c ≢ 10) × (c ≢ 13) × (c ≢ 9)

-- The cell under the cursor of `s`, blank with the usual attribute.
abbrev pub blank_at_cursor : Screen → ℕ → ℕ
blank_at_cursor s =
    update (update s.video_mem ((80 * row s + col s) * 2) 32) ((80 * row s + col s) * 2 + 1) 7

putc_glyph : (c : ℕ) (s : Screen) → IsGlyph c → putc c s ≡ settle (put_glyph c s)
unfolding putc
putc_glyph c s g = ground arith

-- What printing a glyph without scrolling does: the cell is written, and the cursor moves on in the
-- row, or to the next one, where the end of this row is noted.
record Printed (c : ℕ) (s t : Screen) : Type 0 where
  same : t.current_terminal ≡ s.current_terminal
  cells :
      (a : ℕ)
      → t.video_mem a
        ≡ update
            (update s.video_mem ((80 * row s + col s) * 2) c)
            ((80 * row s + col s) * 2 + 1)
            7
            a
  moved :
      ((col t ≡ col s + 1) × (row t ≡ row s))
      ⊎ ((col s ≡ 79) × (col t ≡ 0) × (row t ≡ row s + 1) × (t.line_tracker (row s) ≡ 79))

module _ (c : ℕ) (s : Screen) (v : OnScreen s) (room : (row s < 24) ⊎ (col s < 79)) where
  glyph-Printed : Printed c s (settle (put_glyph c s))
  unfolding settle put_glyph update_cursor
  glyph-Printed = record {
    same = ground (arith, v.columns s.current_terminal, v.rows s.current_terminal);
    cells = λ a. ground (arith, v.columns s.current_terminal, v.rows s.current_terminal);
    moved = ground (arith, v.columns s.current_terminal, v.rows s.current_terminal);
  }

module _ (c : ℕ) (s t : Screen) (p : Printed c s t) where
  del_c-col : col (del_c t) ≡ col s
  unfolding del_c update_cursor
  del_c-col = ground (arith, p.moved, p.same)

  del_c-row : row (del_c t) ≡ row s
  unfolding del_c update_cursor
  del_c-row = ground (arith, p.moved, p.same)

  del_c-cells : (a : ℕ) → (del_c t).video_mem a ≡ blank_at_cursor s a
  unfolding del_c update_cursor
  del_c-cells a = ground (arith, p.moved, p.same, p.cells a)

-- Where printing a glyph does not scroll the screen, deleting it puts the cursor back, also over
-- the end of a row, and leaves the cell blank and all others as they were.
pub del_c-putc :
    (c : ℕ) (s : Screen)
    → OnScreen s
    → IsGlyph c
    → (row s < 24) ⊎ (col s < 79)
    → (col (del_c (putc c s)) ≡ col s)
      × (row (del_c (putc c s)) ≡ row s)
      × ((a : ℕ) → (del_c (putc c s)).video_mem a ≡ blank_at_cursor s a)
del_c-putc c s v g room = rw (putc_glyph c s g) (
  del_c-col c s _ (glyph-Printed c s v room),
  del_c-row c s _ (glyph-Printed c s v room),
  del_c-cells c s _ (glyph-Printed c s v room),
)

pub putc-current :
    (c : ℕ) (s : Screen)
    → OnScreen s
    → IsGlyph c
    → (row s < 24) ⊎ (col s < 79)
    → (putc c s).current_terminal ≡ s.current_terminal
putc-current c s v g room = rw (putc_glyph c s g) (glyph-Printed c s v room).same

pub del_c-current : (s : Screen) → (del_c s).current_terminal ≡ s.current_terminal
unfolding del_c update_cursor
del_c-current s = ground arith
