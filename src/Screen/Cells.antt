-- ===== src/Screen/Cells.antt =====
-- What clear and scroll_screen leave in video memory and in the table of row ends.
use linux_like_os.Base.{
  ℕ, zero, suc, ◌+◌, ◌*◌, ◌%◌, ◌≡◌, ap, ◌∙◌, fun_ext, ltb, leb, ◌==◌, if◌then◌else◌, update,
  for_range, ◌&&◌, arith,
}
use linux_like_os.Screen.{
  Screen, row, clear_cell, clear, scroll_cell, blank_cell, shift_track, scroll_screen,
}

-- `n` cells from cell `i` on, blank with the usual attribute.
abbrev cleared : (ℕ → ℕ) → ℕ → ℕ → ℕ → ℕ
cleared v i n a =
    if leb (i * 2) a && ltb a ((i + n) * 2) then (if a % 2 == 0 then 32 else 7) else v a

-- The characters of `n` cells from cell `i` on, taken from the row below.
abbrev moved : (ℕ → ℕ) → ℕ → ℕ → ℕ → ℕ
moved v i n a = if (a % 2 == 0) && (leb (i * 2) a && ltb a ((i + n) * 2)) then v (a + 160) else v a

abbrev blanked : (ℕ → ℕ) → ℕ → ℕ → ℕ → ℕ
blanked v i n a = if (a % 2 == 0) && (leb (i * 2) a && ltb a ((i + n) * 2)) then 32 else v a

abbrev shifted : (ℕ → ℕ) → ℕ → ℕ → ℕ → ℕ
shifted t i n r = if leb i r && ltb r (i + n) then t (r + 1) else t r

module _ (s : Screen) where
  abbrev pub with_video : (ℕ → ℕ) → Screen
  with_video v = record s { video_mem = v }

  abbrev pub with_track : (ℕ → ℕ) → Screen
  with_track t = record s { line_tracker = t }

clear_loop :
    (n i : ℕ) (s : Screen) → for_range n i clear_cell s ≡ with_video s (cleared s.video_mem i n)
unfolding for_range clear_cell
clear_loop zero i s = ap (with_video s) (fun_ext (λ a. ground arith))
clear_loop (suc n) i s =
    clear_loop n (i + 1) (clear_cell i s) ∙ ap (with_video s) (fun_ext (λ a. ground arith))

move_loop :
    (n i : ℕ) (s : Screen) → for_range n i scroll_cell s ≡ with_video s (moved s.video_mem i n)
unfolding for_range scroll_cell
move_loop zero i s = ap (with_video s) (fun_ext (λ a. ground arith))
move_loop (suc n) i s =
    move_loop n (i + 1) (scroll_cell i s) ∙ ap (with_video s) (fun_ext (λ a. ground arith))

blank_loop :
    (n i : ℕ) (s : Screen)
    → for_range n i blank_cell s ≡ with_video s (blanked s.video_mem (80 * row s + i) n)
unfolding for_range blank_cell
blank_loop zero i s = ap (with_video s) (fun_ext (λ a. ground arith))
blank_loop (suc n) i s =
    blank_loop n (i + 1) (blank_cell i s) ∙ ap (with_video s) (fun_ext (λ a. ground arith))

shift_loop :
    (n i : ℕ) (s : Screen) → for_range n i shift_track s ≡ with_track s (shifted s.line_tracker i n)
unfolding for_range shift_track
shift_loop zero i s = ap (with_track s) (fun_ext (λ a. ground arith))
shift_loop (suc n) i s =
    shift_loop n (i + 1) (shift_track i s) ∙ ap (with_track s) (fun_ext (λ a. ground arith))

-- `clear` fills the 25 rows with blanks in the usual attribute, and touches nothing else.
pub clear_lem :
    (s : Screen)
    → clear s
      ≡ with_video s (λ a. if ltb a 4000 then (if a % 2 == 0 then 32 else 7) else s.video_mem a)
unfolding clear
clear_lem s = clear_loop 2000 0 s ∙ ap (with_video s) (fun_ext (λ a. ground arith))

-- Every character one row up, the last row blank, the attributes as they were.
abbrev pub scrolled : (ℕ → ℕ) → ℕ → ℕ
scrolled v a =
    if a % 2 == 0 then (if ltb a 3840 then v (a + 160) else if ltb a 4000 then 32 else v a) else v a

abbrev pub track_up : (ℕ → ℕ) → ℕ → ℕ
track_up t r = if ltb r 24 then t (r + 1) else if r == 24 then 0 else t r

scrolled_cells :
    (s : Screen) (a : ℕ)
    → blanked
        (moved s.video_mem 0 1920)
        (80 * update s.screen_y s.current_terminal 24 s.current_terminal + 0)
        80
        a
      ≡ scrolled s.video_mem a
scrolled_cells s a = ground arith

scrolled_track : (t : ℕ → ℕ) (r : ℕ) → update (shifted t 0 24) 24 0 r ≡ track_up t r
scrolled_track t r = ground arith

-- `scroll_screen` moves every character one row up and blanks the last row, moves the row ends
-- along, puts the cursor in the last row, and touches nothing else.
pub scroll_screen_lem :
    (s : Screen)
    → scroll_screen s ≡ record s {
      screen_y = update s.screen_y s.current_terminal 24;
      line_tracker = track_up s.line_tracker;
      video_mem = scrolled s.video_mem;
    }
unfolding scroll_screen
scroll_screen_lem s =
    rw (move_loop 1920 0 s, blank_loop 80 0 _, shift_loop 24 0 _)
      (λ i. record s {
        screen_y = update s.screen_y s.current_terminal 24;
        line_tracker = fun_ext (scrolled_track s.line_tracker) i;
        video_mem = fun_ext (scrolled_cells s) i;
      })
