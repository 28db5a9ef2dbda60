-- ===== src/Screen/Examples.antt =====
-- Runs of the console.
use linux_like_os.Base.{ℕ, ◌≡◌, arith, [], ◌∷◌, update, inl}
use linux_like_os.Screen.{Screen, putc, puts, del_c, scroll_screen, row, col}
use linux_like_os.Screen.Cells.{scroll_screen_lem, track_up, scrolled}
use linux_like_os.Screen.Invariant.{OnScreen, putc-OnScreen}
use linux_like_os.Screen.Bounds.{puts-SameBehind}
use linux_like_os.Screen.Delete.{IsGlyph, del_c-putc, blank_at_cursor}

abbrev blank : Screen
blank = record {
  current_terminal = 0;
  screen_x = λ t. 79;
  screen_y = λ t. 3;
  line_tracker = λ r. 0;
  video_mem = λ a. 0;
  ports = [];
}

blank-OnScreen : OnScreen blank
blank-OnScreen = record {
  columns = λ t. omega arith;
  rows = λ t. omega arith;
  ends = λ r h. omega arith;
}

ls-IsGlyph : IsGlyph b'l'
ls-IsGlyph =
    (λ e. omega (arith, e), λ e. omega (arith, e), λ e. omega (arith, e), λ e. omega (arith, e))

putc-OnScreen_example : OnScreen (putc b'l' blank)
putc-OnScreen_example = putc-OnScreen b'l' blank blank-OnScreen

puts-SameBehind_example : (puts (b'l' ∷ b's' ∷ []) blank).video_mem 4000 ≡ 0
puts-SameBehind_example = puts-SameBehind (b'l' ∷ b's' ∷ []) blank blank-OnScreen 4000 (omega arith)

del_c-putc_example :
    (col (del_c (putc b'l' blank)) ≡ 79)
    × (row (del_c (putc b'l' blank)) ≡ 3)
    × ((a : ℕ) → (del_c (putc b'l' blank)).video_mem a ≡ blank_at_cursor blank a)
del_c-putc_example = del_c-putc b'l' blank blank-OnScreen ls-IsGlyph (inl (omega arith))

scroll_screen_lem_example : scroll_screen blank ≡ record blank {
  screen_y = update blank.screen_y 0 24;
  line_tracker = track_up blank.line_tracker;
  video_mem = scrolled blank.video_mem;
}
scroll_screen_lem_example = scroll_screen_lem blank
